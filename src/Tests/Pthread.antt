-- ===== src/Tests/Pthread.antt =====
-- Three threads of one priority and one that is less urgent, from the empty lists on.
use xmertl.Base.{
  arith, ℕ, ◌+◌, ◌*◌, ◌≤◌, ◌≡◌, refl, true, some, [], ◌∷◌, ◌++◌, ◌==◌, if◌then◌else◌, bit_and,
}
use xmertl.Pthread.{
  Scheduler, init_ss, outside_irqs, activate_thread, suspend_thread, prio2ij, ij2prio,
  change_thread_prio, scheduling, get_thread_state, get_head_ss, remove_ss, insert_ss,
}
use xmertl.Pthread.Valid.{is_ready, IsValid}
use xmertl.Pthread.Choice.{urgency, scheduling_lem}
use xmertl.Pthread.Progress.{yields, equals, yields-current_thread}
use xmertl.Pthread.Reach.{IsStarted, Step, Reach, Reach-IsValid}

abbrev empty : Scheduler
empty = record {
  threads = λ t. record {
    thread_flags = 1;
    sched_priority = if t == 4 then 300 else 40;
    ss = some (0, 0);
    starting_time = 0;
    used_time = 0;
  };
  active_threads = init_ss;
  current_thread = 9;
  idle_thread = 9;
  irq_nesting_counter = 0;
}

abbrev four : Scheduler
four = activate_thread 4 (activate_thread 3 (activate_thread 2 (activate_thread 1 empty)))

abbrev running : Scheduler
running = scheduling 10 11 four

abbrev clock : ℕ → ℕ × ℕ
clock n = (n * 10, n * 10 + 1)

empty-IsStarted : IsStarted empty
unfolding get_thread_state
empty-IsStarted = record {
  lists = refl;
  idle = λ t. refl;
  somewhere = λ t i j h. ground (arith, h);
}

four-Reach : Reach empty four
four-Reach =
    Reach.next
      (Reach.next (Reach.next (Reach.next Reach.start (Step.activate empty 1)) (Step.activate _ 2))
        (Step.activate _ 3))
      (Step.activate _ 4)

Reach-IsValid_example : IsValid four
Reach-IsValid_example = Reach-IsValid empty four empty-IsStarted four-Reach

running-IsValid : IsValid running
running-IsValid =
    Reach-IsValid empty running empty-IsStarted (Reach.next four-Reach (Step.schedule four 10 11))

four_ready : is_ready 4 four ≡ true
unfolding activate_thread insert_ss
four_ready = refl

four_outside : bit_and four.irq_nesting_counter outside_irqs ≡ 0
unfolding activate_thread insert_ss
four_outside = refl

running_outside : bit_and running.irq_nesting_counter outside_irqs ≡ 0
unfolding scheduling activate_thread insert_ss get_head_ss init_ss
running_outside = refl

scheduling_lem_example :
    (is_ready running.current_thread running ≡ true)
    × (urgency running.current_thread running ≤ urgency 4 running)
scheduling_lem_example = scheduling_lem 10 11 four 4 Reach-IsValid_example four_outside four_ready

running_head : get_head_ss running.active_threads ≡ some running.current_thread
unfolding get_head_ss scheduling activate_thread insert_ss init_ss
running_head = refl

running-equals : equals running ≡ ((3 ∷ 2 ∷ []) ++ (1 ∷ []))
unfolding scheduling activate_thread insert_ss init_ss get_head_ss
running-equals = refl

yields-current_thread_example : (yields clock 2 running).current_thread ≡ 1
yields-current_thread_example =
    yields-current_thread clock 1 (3 ∷ 2 ∷ []) [] running running-IsValid running_outside
      running_head running-equals

-- The priority 40 is the place (1, 8), and back.
there_and_back : (prio2ij 40 ≡ (1, 8)) × (ij2prio 1 8 ≡ 40)
unfolding prio2ij ij2prio
there_and_back = (refl, refl)

-- A suspended thread leaves the list; a new priority of a ready one moves it.
after_suspend : equals (suspend_thread 2 running) ≡ (3 ∷ 1 ∷ [])
unfolding scheduling activate_thread insert_ss init_ss suspend_thread remove_ss get_head_ss
after_suspend = refl

after_change : get_head_ss (change_thread_prio 4 7 running).active_threads ≡ some 4
unfolding scheduling activate_thread insert_ss init_ss change_thread_prio remove_ss get_head_ss
after_change = refl
