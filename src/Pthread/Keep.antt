-- ===== src/Pthread/Keep.antt =====
-- Every call of sched.c keeps the lists of ready threads valid.
use xmertl.Base.{ℕ, ◌<◌, ◌≡◌, refl, ◌&&◌, false, not, inl, inr, arith}
use xmertl.Base.{◌==◌, if◌then◌else◌, Bool-cases}
use xmertl.Pthread.{
  Scheduler, insert_ss, remove_ss, prio2ij, state_of, set_state, set_priority, set_thread_state,
  ready_thread, suspended_thread, finished_thread, activate_thread, suspend_thread, finish_thread,
  change_thread_prio,
}
use xmertl.Pthread.Lists.{mem}
use xmertl.Pthread.Valid.{
  is_ready, IsValid, IsRemoved, IsInserted, remove_ss-IsRemoved, insert_ss-IsInserted, prio2ij-lt,
  get_thread_state-set_thread_state,
}
use xmertl.Pthread.Reprice.{
  same_state, removed-IsRepriced, priced-IsRepriced, repriced-IsValid, moved-IsValid,
}

state_of-set_state :
    (u t st : ℕ) (s : Scheduler)
    → st < 8
    → state_of u (set_state t st s) ≡ (if u == t then st else state_of u s)
state_of-set_state u t st s h = elim (Bool-cases (u == t)) [
  | inl e ↦ rw e (get_thread_state-set_thread_state st (s.threads t) h)
  | inr e ↦ rw e refl
]

-- Setting a state leaves where a thread is linked and its priority.
place-set_state :
    (u t st : ℕ) (s : Scheduler) → ((set_state t st s).threads u).ss ≡ (s.threads u).ss
unfolding set_thread_state
place-set_state u t st s = elim (Bool-cases (u == t)) [
  | inl e ↦ let same : u ≡ t = ground (arith, e) in rw (e, same) refl
  | inr e ↦ rw e refl
]

priority-set_state :
    (u t st : ℕ) (s : Scheduler)
    → ((set_state t st s).threads u).sched_priority ≡ (s.threads u).sched_priority
unfolding set_thread_state
priority-set_state u t st s = elim (Bool-cases (u == t)) [
  | inl e ↦ let same : u ≡ t = ground (arith, e) in rw (e, same) refl
  | inr e ↦ rw e refl
]

-- A thread that was removed, and that is not ready any more.
removed-IsValid :
    (t st : ℕ) (s s' : Scheduler)
    → IsValid s
    → IsRemoved t s s'
    → (st == ready_thread) ≡ false
    → st < 8
    → IsValid (set_state t st s')
removed-IsValid t st s s' v r idle h = record {
  bitmaps = r.bitmaps;
  links = λ u i j. ground (
    arith,
    r.links u i j,
    v.links u i j,
    r.place u,
    state_of-set_state u t st s' h,
    place-set_state u t st s',
    priority-set_state u t st s',
    same_state u s s' (r.flags u),
    idle,
  );
  placed = λ u ready. ground (
    arith,
    v.placed u,
    r.place u,
    r.priority u,
    state_of-set_state u t st s' h,
    place-set_state u t st s',
    priority-set_state u t st s',
    same_state u s s' (r.flags u),
    idle,
    ready,
  );
  inside =
      λ u i j at_ij. ground (arith, r.place u, v.inside u i j, at_ij, place-set_state u t st s');
}

pub finish_thread-IsValid : (t : ℕ) (s : Scheduler) → IsValid s → IsValid (finish_thread t s)
unfolding finish_thread
finish_thread-IsValid t s v =
    removed-IsValid t finished_thread s (remove_ss t s) v (remove_ss-IsRemoved t s v) refl
      (omega arith)

pub suspend_thread-IsValid : (t : ℕ) (s : Scheduler) → IsValid s → IsValid (suspend_thread t s)
unfolding suspend_thread
suspend_thread-IsValid t s v =
    let r = remove_ss-IsRemoved t s v in
    let same = same_state t s (remove_ss t s) (r.flags t) in
    elim (Bool-cases (state_of t (remove_ss t s) == finished_thread)) [
      | inl over ↦
          rw (suspend_thread, over)
            (repriced-IsValid t (s.threads t).sched_priority s (remove_ss t s) v
              (removed-IsRepriced t s (remove_ss t s) r) (ground (arith, over, same)))
      | inr more ↦
          rw (suspend_thread, more)
            (removed-IsValid t suspended_thread s (remove_ss t s) v r refl (omega arith))
    ]

-- A thread that was inserted by its priority, and that is ready then.
inserted-IsValid :
    (t p : ℕ) (s s' : Scheduler)
    → IsValid s
    → IsInserted t p s s'
    → is_ready t s ≡ false
    → p ≡ (s.threads t).sched_priority
    → (prio2ij p).0 < 32
    → (prio2ij p).1 < 32
    → IsValid (set_state t ready_thread s')
inserted-IsValid t p s s' v n idle same hi hj = record {
  bitmaps = n.bitmaps;
  links = λ u i j. ground (
    arith,
    n.links u i j,
    v.links u i j,
    n.place u,
    state_of-set_state u t ready_thread s' (omega arith),
    place-set_state u t ready_thread s',
    priority-set_state u t ready_thread s',
    same_state u s s' (n.flags u),
    idle,
  );
  placed = λ u ready. ground (
    arith,
    v.placed u,
    n.place u,
    n.priority u,
    state_of-set_state u t ready_thread s' (omega arith),
    place-set_state u t ready_thread s',
    priority-set_state u t ready_thread s',
    same_state u s s' (n.flags u),
    idle,
    same,
    ready,
  );
  inside = λ u i j at_ij.
      ground (arith, n.place u, v.inside u i j, at_ij, place-set_state u t ready_thread s', hi, hj);
}

pub change_thread_prio-IsValid :
    (t p : ℕ) (s : Scheduler) → IsValid s → IsValid (change_thread_prio t p s)
unfolding change_thread_prio
change_thread_prio-IsValid t p s v =
    let m = set_priority t p (remove_ss t s) in
    let r = priced-IsRepriced t p s (remove_ss t s) (remove_ss-IsRemoved t s v) in
    let absent : (i j : ℕ) → mem t (m.active_threads.thread_matrix i j) ≡ false =
      λ i j. ground (arith, r.links t i j) in
    let (hi, hj) = prio2ij-lt p in
    let n = insert_ss-IsInserted t p m r.bitmaps absent in
    elim (Bool-cases (state_of t s == ready_thread)) [
      | inl on ↦
          rw (change_thread_prio, on) (moved-IsValid t p s m (insert_ss t p m) v r on n hi hj)
      | inr off ↦ rw (change_thread_prio, off) (repriced-IsValid t p s m v r off)
    ]

pub activate_thread-IsValid : (t : ℕ) (s : Scheduler) → IsValid s → IsValid (activate_thread t s)
unfolding activate_thread
activate_thread-IsValid t s v =
    let p = (s.threads t).sched_priority in
    elim (Bool-cases
      (not (state_of t s == finished_thread) && not (state_of t s == ready_thread))) [
        | inr keep ↦ rw (activate_thread, keep) v
        | inl wake ↦
            let idle : is_ready t s ≡ false = ground (arith, wake) in
            let absent : (i j : ℕ) → mem t (s.active_threads.thread_matrix i j) ≡ false =
              λ i j. ground (arith, v.links t i j, idle) in
            let (hi, hj) = prio2ij-lt p in
            rw (activate_thread, wake)
              (inserted-IsValid t p s (insert_ss t p s) v
                (insert_ss-IsInserted t p s v.bitmaps absent) idle refl hi hj)
      ]
