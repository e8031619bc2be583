-- ===== src/Pthread/Reach.antt =====
-- Any sequence of the calls of sched.c.
use xmertl.Base.{ℕ, ◌<◌, ◌≡◌, refl, true, false, some, arith, ◌^◌}
use xmertl.Base.Bits.{zero-bit_and}
use xmertl.Bitmap.{is_bit_set}
use xmertl.Pthread.{
  Scheduler, init_ss, activate_thread, suspend_thread, finish_thread, change_thread_prio,
  scheduling, pthread_yield_sys,
}
use xmertl.Pthread.Lists.{mem, distinct}
use xmertl.Pthread.Bitmaps.{IsBitmapped}
use xmertl.Pthread.Valid.{is_ready, IsValid}
use xmertl.Pthread.Keep.{
  activate_thread-IsValid, suspend_thread-IsValid, finish_thread-IsValid,
  change_thread_prio-IsValid,
}
use xmertl.Pthread.Turns.{scheduling-IsValid, pthread_yield_sys-IsValid}

-- A call; a thread yields while it is ready.
pub data Step : Scheduler → Scheduler → Type 0 where
  activate : (s : Scheduler) (t : ℕ) → Step s (activate_thread t s)
  suspend : (s : Scheduler) (t : ℕ) → Step s (suspend_thread t s)
  finish : (s : Scheduler) (t : ℕ) → Step s (finish_thread t s)
  change_prio : (s : Scheduler) (t p : ℕ) → Step s (change_thread_prio t p s)
  schedule : (s : Scheduler) (before after : ℕ) → Step s (scheduling before after s)
  yield :
      (s : Scheduler) (before after : ℕ)
      → is_ready s.current_thread s ≡ true
      → Step s (pthread_yield_sys before after s)

pub data Reach (s : Scheduler) : Scheduler → Type 0 where
  start : Reach s s
  next : {t u : Scheduler} → Reach s t → Step t u → Reach s u

Step-IsValid : (s t : Scheduler) → Step s t → IsValid s → IsValid t
Step-IsValid _ _ (activate s t) v = activate_thread-IsValid t s v
Step-IsValid _ _ (suspend s t) v = suspend_thread-IsValid t s v
Step-IsValid _ _ (finish s t) v = finish_thread-IsValid t s v
Step-IsValid _ _ (change_prio s t p) v = change_thread_prio-IsValid t p s v
Step-IsValid _ _ (schedule s before after) v = scheduling-IsValid before after s v
Step-IsValid _ _ (yield s before after h) v = pthread_yield_sys-IsValid before after s v h

-- The lists are empty, and no thread is ready. The place of a thread is that of some list, such as the
-- zeros that `create_pthread_struct` leaves, or none.
pub record IsStarted (s : Scheduler) : Type 0 where
  pub lists : s.active_threads ≡ init_ss
  pub idle : (t : ℕ) → is_ready t s ≡ false
  pub somewhere : (t i j : ℕ) → (s.threads t).ss ≡ some (i, j) → (i < 32) × (j < 32)

init_ss-IsBitmapped : IsBitmapped init_ss
unfolding init_ss distinct is_bit_set
init_ss-IsBitmapped = record {
  unique = λ i j. refl;
  second = λ i j hi hj. ground (arith, zero-bit_and (2 ^ j));
  first = λ i hi. ground (arith, zero-bit_and (2 ^ i));
  word = omega arith;
  words = λ i. omega arith;
}

pub IsStarted-IsValid : (s : Scheduler) → IsStarted s → IsValid s
unfolding mem init_ss
IsStarted-IsValid s b = record {
  bitmaps = rw b.lists init_ss-IsBitmapped;
  links = λ t i j. rw (b.lists, b.idle t) refl;
  placed = λ t ready. ground (arith, b.idle t, ready);
  inside = b.somewhere;
}

-- From empty lists with no thread ready, each thread with the place of one of the 32 * 32 lists in
-- its struct, such as the zeros of a new one, or none, any sequence of the calls of sched.c, with
-- a yield only of a thread that is ready, keeps the two levels of bitmaps and the lists in
-- agreement: the threads in the lists are those that are ready, each in the list of its priority.
pub Reach-IsValid : (s t : Scheduler) → IsStarted s → Reach s t → IsValid t
Reach-IsValid s _ b start = IsStarted-IsValid s b
Reach-IsValid s _ b (next r step) = Step-IsValid _ _ step (Reach-IsValid s _ b r)
