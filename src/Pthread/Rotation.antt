-- ===== src/Pthread/Rotation.antt =====
-- The threads of the most urgent list take turns as they yield.
use xmertl.Base.{
  ℕ, ◌+◌, ◌*◌, ◌/◌, ◌^◌, ◌≤◌, ◌<◌, ◌≡◌, ◌∙◌, sym, ap, refl, ◌&&◌, true, inl, inr, arith,
}
use xmertl.Base.{
  Option, none, some, List, [], ◌∷◌, ◌++◌, ◌==◌, if◌then◌else◌, Option-cases, bit_and,
}
use mathlib.Core.Option.{some-injective}
use mathlib.Core.Path.{subst}
use xmertl.Pthread.{
  ActiveThreads, Scheduler, get_head_ss, head, erase, prio2ij, outside_irqs, pthread_yield_sys,
  remove_ss, insert_ss_tail, linked, unlinked,
}
use xmertl.Pthread.Lists.{mem}
use xmertl.Pthread.Bitmaps.{IsBitmapped}
use xmertl.Pthread.Valid.{is_ready, is_at, IsValid, remove_ss-IsRemoved}
use xmertl.Pthread.Turns.{
  head_or_idle, scheduling-IsSame, scheduling-IsValid, rotated, rotated-IsValid,
}
use xmertl.Pthread.Choice.{get_head_ss-le, scheduling-current}

-- The list in (i, j) is the first that is not empty, and its head runs.
pub record IsTurn (i j : ℕ) (list : List ℕ) (s : Scheduler) : Type 0 where
  pub valid : IsValid s
  pub outside : bit_and s.irq_nesting_counter outside_irqs ≡ 0
  pub here : s.active_threads.thread_matrix i j ≡ list
  pub below : (i < 32) × (j < 32)
  pub first :
      (b c u : ℕ) → mem u (s.active_threads.thread_matrix b c) ≡ true → 32 * i + j ≤ 32 * b + c
  pub current : head list ≡ some s.current_thread

-- The bitmaps lead to the first list that is not empty.
get_head_ss-first :
    (a : ActiveThreads) (i j t : ℕ) (list : List ℕ)
    → IsBitmapped a
    → i < 32
    → j < 32
    → a.thread_matrix i j ≡ (t ∷ list)
    → ((b c u : ℕ) → mem u (a.thread_matrix b c) ≡ true → 32 * i + j ≤ 32 * b + c)
    → get_head_ss a ≡ some t
get_head_ss-first a i j t list v hi hj here first =
    let there : mem t (a.thread_matrix i j) ≡ true = rw here (unfold mem in ground arith) in
    let (u, b, c, e, eh, m, hc, le) = get_head_ss-le a v i j t hi hj there in
    let le' = first b c u m in
    let same_b : b ≡ i = omega (arith, le, le', hc, hj) in
    let same_c : c ≡ j = omega (arith, le, le', hc, hj) in
    let top : head (a.thread_matrix i j) ≡ some u = rw (sym same_b, sym same_c) eh in
    e ∙ sym top ∙ ap head here

remove_ss-matrix :
    (t i j b c : ℕ) (s : Scheduler)
    → (s.threads t).ss ≡ some (i, j)
    → (remove_ss t s).active_threads.thread_matrix b c ≡ (
        if (b == i) && (c == j)
        then erase t (s.active_threads.thread_matrix i j)
        else s.active_threads.thread_matrix b c)
unfolding remove_ss unlinked
remove_ss-matrix t i j b c s place = rw (remove_ss, place) refl

insert_ss_tail-matrix :
    (t p i j b c : ℕ) (s : Scheduler)
    → prio2ij p ≡ (i, j)
    → (insert_ss_tail t p s).active_threads.thread_matrix b c ≡ (
        if (b == i) && (c == j)
        then s.active_threads.thread_matrix i j ++ (t ∷ [])
        else s.active_threads.thread_matrix b c)
unfolding insert_ss_tail linked prio2ij
insert_ss_tail-matrix t p i j b c s e =
    let first : bit_and p 0x3ff / 2 ^ 5 ≡ i = ap (λ x. x.0) e in
    let second : bit_and p 0x1f ≡ j = ap (λ x. x.1) e in rw (insert_ss_tail, first, second) refl

erase-head : (t : ℕ) (list : List ℕ) → erase t (t ∷ list) ≡ list
unfolding erase
erase-head t list = ground arith

-- The head of a list goes to the end of it, and the other lists stay.
rotated_lem :
    (s : Scheduler) (i j : ℕ) (list : List ℕ)
    → (s.threads s.current_thread).ss ≡ some (i, j)
    → prio2ij ((remove_ss s.current_thread s).threads s.current_thread).sched_priority ≡ (i, j)
    → s.active_threads.thread_matrix i j ≡ (s.current_thread ∷ list)
    → (b c : ℕ)
    → (rotated s).active_threads.thread_matrix b c ≡ (
        if (b == i) && (c == j)
        then list ++ (s.current_thread ∷ [])
        else s.active_threads.thread_matrix b c)
rotated_lem s i j list place same here b c =
    let t = s.current_thread in
    let m = remove_ss t s in
    let taken : m.active_threads.thread_matrix i j ≡ list =
      ground (arith, remove_ss-matrix t i j i j s place, here, erase-head t list) in
    ground (
      arith,
      insert_ss_tail-matrix t (m.threads t).sched_priority i j b c m same,
      remove_ss-matrix t i j b c s place,
      taken,
    )

rotated-counter : (s : Scheduler) → (rotated s).irq_nesting_counter ≡ s.irq_nesting_counter
unfolding insert_ss_tail remove_ss
rotated-counter s = elim (Option-cases ((s.threads s.current_thread).ss)) [
  | inl e ↦ rw (remove_ss, e) refl
  | inr (p, e) ↦ rw (remove_ss, e) refl
]

snoc_head : (t : ℕ) (list : List ℕ) → (u : ℕ) × (rest : List ℕ) × (list ++ (t ∷ []) ≡ (u ∷ rest))
snoc_head t [] = (t, [], refl)
snoc_head t (u ∷ list) = (u, list ++ (t ∷ []), refl)

pub is_at-some : (p : Option (ℕ × ℕ)) (i j : ℕ) → is_at p i j ≡ true → p ≡ some (i, j)
is_at-some none i j e = absurd (ground arith)
is_at-some (some (a, b)) i j e =
    let same_i : a ≡ i = ground (arith, e) in
    let same_j : b ≡ j = ground (arith, e) in rw (same_i, same_j) refl

-- A yield is a turn of the list.
pub pthread_yield_sys-IsTurn :
    (before after i j c : ℕ) (list : List ℕ) (s : Scheduler)
    → IsTurn i j (c ∷ list) s
    → IsTurn i j (list ++ (c ∷ [])) (pthread_yield_sys before after s)
unfolding pthread_yield_sys
pthread_yield_sys-IsTurn before after i j c list s k =
    let v = k.valid in
    let t = s.current_thread in
    let same : c ≡ t = ground (arith, k.current) in
    let there : mem t (s.active_threads.thread_matrix i j) ≡ true =
      rw k.here (unfold mem in ground (arith, same)) in
    let ready : is_ready t s ≡ true = ground (arith, v.links t i j, there) in
    let place : (s.threads t).ss ≡ some (i, j) =
      is_at-some ((s.threads t).ss) i j (ground (arith, v.links t i j, there)) in
    let q = remove_ss-IsRemoved t s v in
    let level : prio2ij ((remove_ss t s).threads t).sched_priority ≡ (i, j) =
      rw (q.priority t) (some-injective _ _ (sym (v.placed t ready) ∙ place)) in
    let r = rotated s in
    let moved = rotated_lem s i j list place level (rw (sym same) k.here) in
    let kept = scheduling-IsSame before after r in
    let w : IsValid r = rotated-IsValid s v ready in
    let (u, rest, e) = snoc_head c list in
    let now_here : r.active_threads.thread_matrix i j ≡ (list ++ (c ∷ [])) =
      ground (arith, moved i j, same) in
    let first : (b d x : ℕ)
        → mem x (r.active_threads.thread_matrix b d) ≡ true
        → 32 * i + j ≤ 32 * b + d =
      λ b d x m. ground (arith, moved b d, k.first b d x, m) in
    let top =
      get_head_ss-first r.active_threads i j u rest w.bitmaps k.below.0 k.below.1 (now_here ∙ e)
        first in
    let quiet = scheduling-current before after r (rw (rotated-counter s) k.outside) in
    record {
      valid = scheduling-IsValid before after r w;
      outside = rw quiet.1 refl;
      here = rw kept.lists now_here;
      below = k.below;
      first = λ b d x m. first b d x (subst (λ l. mem x (l.thread_matrix b d) ≡ true) kept.lists m);
      current = rw e (ap some (sym (quiet.0 ∙ rw (top, head_or_idle) refl)));
    }
