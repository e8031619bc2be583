-- ===== src/Pthread/Reprice.antt =====
-- A thread leaves its list, gets a priority, and stands in the list of it again if it is ready.
use xmertl.Base.{ℕ, ◌<◌, ◌≡◌, ap, refl, ◌&&◌, true, false, not, inl, inr, arith}
use xmertl.Base.{none, ◌==◌, if◌then◌else◌, Bool-cases, bit_and}
use xmertl.Pthread.{
  Thread, Scheduler, prio2ij, state_of, set_priority, get_thread_state, put_thread,
}
use xmertl.Pthread.Lists.{mem}
use xmertl.Pthread.Bitmaps.{IsBitmapped}
use xmertl.Pthread.Valid.{is_ready, IsValid, IsRemoved, IsInserted}

pub same_state :
    (u : ℕ) (s s' : Scheduler)
    → (s'.threads u).thread_flags ≡ (s.threads u).thread_flags
    → state_of u s' ≡ state_of u s
unfolding get_thread_state
same_state u s s' e = ap (λ f. bit_and f 7) e

-- A field of a thread after a write to a thread.
pub field-put_thread {ℓ} :
    {A : Type ℓ}
    → (field : Thread → A) (t u : ℕ) (x : Thread) (threads : ℕ → Thread)
    → field (put_thread t x threads u) ≡ (if u == t then field x else field (threads u))
field-put_thread field t u x threads = elim (Bool-cases (u == t)) [
  | inl e ↦ rw e refl
  | inr e ↦ rw e refl
]

pub record IsRepriced (t p : ℕ) (s s' : Scheduler) : Type 0 where
  pub bitmaps : IsBitmapped s'.active_threads
  pub links :
      (u i j : ℕ)
      → mem u (s'.active_threads.thread_matrix i j)
        ≡ (not (u == t) && mem u (s.active_threads.thread_matrix i j))
  pub place : (u : ℕ) → (s'.threads u).ss ≡ (if u == t then none else (s.threads u).ss)
  pub flags : (u : ℕ) → (s'.threads u).thread_flags ≡ (s.threads u).thread_flags
  pub priority :
      (u : ℕ) → (s'.threads u).sched_priority ≡ (if u == t then p else (s.threads u).sched_priority)

pub removed-IsRepriced :
    (t : ℕ) (s s' : Scheduler) → IsRemoved t s s' → IsRepriced t (s.threads t).sched_priority s s'
removed-IsRepriced t s s' r = record {
  bitmaps = r.bitmaps;
  links = r.links;
  place = r.place;
  flags = r.flags;
  priority = λ u. elim (Bool-cases (u == t)) [
    | inl e ↦ let same : u ≡ t = ground (arith, e) in rw (e, same) (r.priority t)
    | inr e ↦ rw e (r.priority u)
  ];
}

pub priced-IsRepriced :
    (t p : ℕ) (s s' : Scheduler) → IsRemoved t s s' → IsRepriced t p s (set_priority t p s')
priced-IsRepriced t p s s' r =
    let x : Thread = record (s'.threads t) { sched_priority = p } in
    record {
      bitmaps = r.bitmaps;
      links = r.links;
      place =
          λ u. ground (arith, field-put_thread (λ y. y.ss) t u x s'.threads, r.place u, r.place t);
      flags = λ u. elim (Bool-cases (u == t)) [
        | inl e ↦ let same : u ≡ t = ground (arith, e) in rw (e, same) (r.flags t)
        | inr e ↦ rw e (r.flags u)
      ];
      priority = λ u.
          ground (arith, field-put_thread (λ y. y.sched_priority) t u x s'.threads, r.priority u);
    }

pub repriced-IsValid :
    (t p : ℕ) (s s' : Scheduler)
    → IsValid s
    → IsRepriced t p s s'
    → is_ready t s ≡ false
    → IsValid s'
repriced-IsValid t p s s' v r idle = record {
  bitmaps = r.bitmaps;
  links = λ u i j.
      ground (arith, r.links u i j, v.links u i j, r.place u, same_state u s s' (r.flags u), idle);
  placed = λ u ready.
      ground
        (arith, v.placed u, r.place u, r.priority u, same_state u s s' (r.flags u), idle, ready);
  inside = λ u i j at_ij. ground (arith, r.place u, v.inside u i j, at_ij);
}

pub moved-IsValid :
    (t p : ℕ) (s m s' : Scheduler)
    → IsValid s
    → IsRepriced t p s m
    → is_ready t s ≡ true
    → IsInserted t p m s'
    → (prio2ij p).0 < 32
    → (prio2ij p).1 < 32
    → IsValid s'
moved-IsValid t p s m s' v r ready n hi hj = record {
  bitmaps = n.bitmaps;
  links = λ u i j. ground (
    arith,
    n.links u i j,
    r.links u i j,
    v.links u i j,
    n.place u,
    r.place u,
    same_state u s m (r.flags u),
    same_state u m s' (n.flags u),
    ready,
  );
  placed = λ u on. ground (
    arith,
    v.placed u,
    n.place u,
    r.place u,
    n.priority u,
    r.priority u,
    same_state u s m (r.flags u),
    same_state u m s' (n.flags u),
    on,
  );
  inside = λ u i j at_ij. ground (arith, n.place u, r.place u, v.inside u i j, at_ij, hi, hj);
}
