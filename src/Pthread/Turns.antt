-- ===== src/Pthread/Turns.antt =====
-- A schedule and a yield keep the lists of ready threads valid.
use xmertl.Base.{ℕ, ◌+◌, ◌-◌, ◌≡◌, ◌∙◌, refl, true, false, not, inl, inr, arith}
use xmertl.Base.{none, some, ◌==◌, Bool-cases, bit_and}
use xmertl.Pthread.{
  Thread, Scheduler, insert_ss_tail, remove_ss, get_head_ss, put_thread, outside_irqs, scheduling,
  pthread_yield_sys,
}
use xmertl.Pthread.Lists.{mem}
use xmertl.Pthread.Valid.{
  is_ready, IsValid, remove_ss-IsRemoved, insert_ss_tail-IsInserted, prio2ij-lt,
}
use xmertl.Pthread.Reprice.{same_state, removed-IsRepriced, moved-IsValid}

-- A write to a thread that keeps a field of it.
put_thread_keeps {ℓ} :
    {A : Type ℓ} (field : Thread → A) (t u : ℕ) (x : Thread) (threads : ℕ → Thread)
    → field x ≡ field (threads t)
    → field (put_thread t x threads u) ≡ field (threads u)
put_thread_keeps field t u x threads same = elim (Bool-cases (u == t)) [
  | inl e ↦ let equal : u ≡ t = ground (arith, e) in rw (e, equal) same
  | inr e ↦ rw e refl
]

-- The thread that a schedule chooses.
abbrev pub head_or_idle : Scheduler → ℕ
head_or_idle s = elim (get_head_ss s.active_threads) [ none ↦ s.idle_thread | some t ↦ t ]

-- What a schedule keeps: the lists, and every field of a thread but its times.
pub record IsSame (s s' : Scheduler) : Type 0 where
  pub lists : s'.active_threads ≡ s.active_threads
  pub place : (u : ℕ) → (s'.threads u).ss ≡ (s.threads u).ss
  pub flags : (u : ℕ) → (s'.threads u).thread_flags ≡ (s.threads u).thread_flags
  pub priority : (u : ℕ) → (s'.threads u).sched_priority ≡ (s.threads u).sched_priority

pub scheduling-IsSame : (before after : ℕ) (s : Scheduler) → IsSame s (scheduling before after s)
unfolding scheduling
scheduling-IsSame before after s =
    let old = s.threads s.current_thread in
    let stopped : Thread = record old {
      used_time = old.used_time + (before - old.starting_time);
    } in
    let left = put_thread s.current_thread stopped s.threads in
    let started : Thread = record (left (head_or_idle s)) { starting_time = after } in
    elim (Bool-cases (not (bit_and s.irq_nesting_counter outside_irqs == 0))) [
      | inl nested ↦
          rw (scheduling, nested)
            (record { lists = refl; place = λ u. refl; flags = λ u. refl; priority = λ u. refl })
      | inr outside ↦ elim (Bool-cases (not (head_or_idle s == s.current_thread))) [
        | inr stays ↦
            rw (scheduling, outside, stays)
              (record { lists = refl; place = λ u. refl; flags = λ u. refl; priority = λ u. refl })
        | inl switches ↦
            rw (scheduling, outside, switches)
              (record {
                lists = refl;
                place = λ u.
                    put_thread_keeps (λ x. x.ss) (head_or_idle s) u started left refl
                    ∙ put_thread_keeps (λ x. x.ss) s.current_thread u stopped s.threads refl;
                flags = λ u.
                    put_thread_keeps (λ x. x.thread_flags) (head_or_idle s) u started left refl
                    ∙ put_thread_keeps (λ x. x.thread_flags) s.current_thread u stopped s.threads
                        refl;
                priority = λ u.
                    put_thread_keeps (λ x. x.sched_priority) (head_or_idle s) u started left refl
                    ∙ put_thread_keeps (λ x. x.sched_priority) s.current_thread u stopped s.threads
                        refl;
              })
      ]
    ]

pub same-IsValid : (s s' : Scheduler) → IsValid s → IsSame s s' → IsValid s'
same-IsValid s s' v k = record {
  bitmaps = rw k.lists v.bitmaps;
  links =
      λ u i j. rw k.lists (ground (arith, v.links u i j, k.place u, same_state u s s' (k.flags u)));
  placed = λ u ready.
      ground (arith, v.placed u, k.place u, k.priority u, same_state u s s' (k.flags u), ready);
  inside = λ u i j at_ij. ground (arith, k.place u, v.inside u i j, at_ij);
}

pub scheduling-IsValid :
    (before after : ℕ) (s : Scheduler) → IsValid s → IsValid (scheduling before after s)
scheduling-IsValid before after s v = same-IsValid s _ v (scheduling-IsSame before after s)

-- The list of the current thread, when it has been put at the end of it.
abbrev pub rotated : Scheduler → Scheduler
rotated s =
    let removed = remove_ss s.current_thread s in
    insert_ss_tail s.current_thread (removed.threads s.current_thread).sched_priority removed

pub rotated-IsValid :
    (s : Scheduler) → IsValid s → is_ready s.current_thread s ≡ true → IsValid (rotated s)
rotated-IsValid s v ready =
    let t = s.current_thread in
    let m = remove_ss t s in
    let q = remove_ss-IsRemoved t s v in
    let p = (s.threads t).sched_priority in
    let absent : (i j : ℕ) → mem t (m.active_threads.thread_matrix i j) ≡ false =
      λ i j. ground (arith, q.links t i j) in
    let (hi, hj) = prio2ij-lt p in
    let n = insert_ss_tail-IsInserted t p m q.bitmaps absent in
    rw (q.priority t)
      (moved-IsValid t p s m (insert_ss_tail t p m) v (removed-IsRepriced t s m q) ready n hi hj)

pub pthread_yield_sys-IsValid :
    (before after : ℕ) (s : Scheduler)
    → IsValid s
    → is_ready s.current_thread s ≡ true
    → IsValid (pthread_yield_sys before after s)
unfolding pthread_yield_sys
pthread_yield_sys-IsValid before after s v ready =
    scheduling-IsValid before after (rotated s) (rotated-IsValid s v ready)
