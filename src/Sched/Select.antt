-- ===== src/Sched/Select.antt =====
-- The domain that `xm_sched` selects.
use xmertl.Base.{ℕ, ltb, ◌≤◌, ◌≡◌, refl, true, false, ◌&&◌, Bool-cases, inl, inr}
use xmertl.Base.{List, [], ◌∷◌, ◌++◌, All, All-map, arith, Option, none, some}
use xmertl.Domain.{Domain}
use xmertl.Sched.{bypassed, kept, receive, with_pending, walk, select, is_runnable}
use xmertl.Sched.Order.{IsSorted}

-- The first domain of the list that can run has the id and the priority.
unfoldable pub IsFirst : List Domain → ℕ → ℕ → Type 0
IsFirst ds id p =
    (before : List Domain) × (d : Domain) × (after : List Domain) × (ds ≡ before ++ d ∷ after)
    × (d.id ≡ id)
    × (d.priority ≡ p)
    × (is_runnable d ≡ true)
    × All (λ x. is_runnable x ≡ false) before

-- No domain of the list that can run is more urgent.
pub IsMostUrgent : List Domain → ℕ → Type 0
IsMostUrgent ds p = All (λ x. (is_runnable x && ltb x.priority p) ≡ false) ds

-- The loop ends at the first domain that can run, with its new events; when it selects none, no
-- domain can run.
pub walk-some :
    (d : Domain) (ds : List Domain) (id : ℕ)
    → (walk d ds).1 ≡ some id
    → (p : ℕ) × IsFirst (walk d ds).0 id p
unfolding walk IsFirst
walk-some d [] id e = elim (Bool-cases (is_runnable d)) [
  | inl r ↦ (d.priority, ([], d, [], refl, ground arith, refl, r, tt))
  | inr r ↦ absurd (ground arith)
]
walk-some d (next ∷ ds) id e =
    let d' = with_pending d (kept d) in
    let next' = receive next (bypassed d) in
    elim (Bool-cases (is_runnable d')) [
      | inl r ↦ (d.priority, ([], d', next' ∷ ds, rw (r, walk) refl, ground arith, refl, r, tt))
      | inr r ↦
          let (p, (before, x, after, split, same, prio, runs, idle)) =
            walk-some next' ds id (ground arith) in
          (p, (d' ∷ before, x, after, rw (r, walk, split) refl, same, prio, runs, (r, idle)))
    ]

walk-none :
    (d : Domain) (ds : List Domain)
    → (walk d ds).1 ≡ none
    → All (λ x. is_runnable x ≡ false) (walk d ds).0
unfolding walk
walk-none d [] e = elim (Bool-cases (is_runnable d)) [
  | inl r ↦ absurd (ground arith)
  | inr r ↦ (r, tt)
]
walk-none d (next ∷ ds) e =
    let d' = with_pending d (kept d) in
    let next' = receive next (bypassed d) in
    elim (Bool-cases (is_runnable d')) [
      | inl r ↦ absurd (ground arith)
      | inr r ↦ rw (r, walk) (r, walk-none next' ds (ground arith))
    ]

walk-IsUrgent :
    (p : ℕ) (d : Domain) (ds : List Domain)
    → All (λ x. p ≤ x.priority) (d ∷ ds)
    → All (λ x. p ≤ x.priority) (walk d ds).0
unfolding walk
walk-IsUrgent p d [] h = h
walk-IsUrgent p d (next ∷ ds) h = elim (Bool-cases (is_runnable (with_pending d (kept d)))) [
  | inl r ↦ rw (r, walk) h
  | inr r ↦ rw (r, walk) (h.0, walk-IsUrgent p (receive next (bypassed d)) ds h.1)
]

walk-IsSorted : (d : Domain) (ds : List Domain) → IsSorted (d ∷ ds) → IsSorted (walk d ds).0
unfolding walk IsSorted
walk-IsSorted d [] h = h
walk-IsSorted d (next ∷ ds) h = elim (Bool-cases (is_runnable (with_pending d (kept d)))) [
  | inl r ↦ rw (r, walk) h
  | inr r ↦
      rw (r, walk)
        (
          walk-IsUrgent d.priority (receive next (bypassed d)) ds h.0,
          walk-IsSorted (receive next (bypassed d)) ds h.1,
        )
]

select-IsSorted : (ds : List Domain) → IsSorted ds → IsSorted (select ds).0
unfolding select
select-IsSorted [] h = h
select-IsSorted (d ∷ ds) h = walk-IsSorted d ds h

-- Those that can run are no more urgent than the first that can.
urgent :
    (before : List Domain) (d : Domain) (after : List Domain)
    → IsSorted (before ++ d ∷ after)
    → All (λ x. is_runnable x ≡ false) before
    → All (λ x. (is_runnable x && ltb x.priority d.priority) ≡ false) (before ++ d ∷ after)
unfolding IsSorted
urgent [] d after sorted idle = (ground arith, All-map (λ x p. ground arith) after sorted.0)
urgent (y ∷ before) d after sorted idle =
    (ground (arith, idle.0), urgent before d after sorted.1 idle.1)

IsFirst-IsMostUrgent :
    (ds : List Domain) (id p : ℕ) → IsSorted ds → IsFirst ds id p → IsMostUrgent ds p
unfolding IsFirst IsMostUrgent
IsFirst-IsMostUrgent ds id p sorted (before, d, after, split, same, prio, runs, idle) =
    rw (split, ← prio) (urgent before d after (rw (← split) sorted) idle)

-- What it means that the loop ends with a domain, or with none.
pub IsSelection : List Domain × Option ℕ → Type 0
IsSelection (ds, none) = All (λ x. is_runnable x ≡ false) ds
IsSelection (ds, some id) = (p : ℕ) × IsFirst ds id p × IsMostUrgent ds p

selection :
    (d : Domain) (ds : List Domain)
    → IsSorted (d ∷ ds)
    → (found : Option ℕ) → (walk d ds).1 ≡ found
    → IsSelection ((walk d ds).0, found)
unfolding IsSelection
selection d ds sorted none e = walk-none d ds e
selection d ds sorted (some id) e =
    let (p, first) = walk-some d ds id e in
    (p, first, IsFirst-IsMostUrgent (walk d ds).0 id p (walk-IsSorted d ds sorted) first)

-- In a list in order of priority the loop selects the first domain that can run once the events are
-- passed on, and no domain that can run is more urgent; it selects none only when none can run.
pub select-IsSelection : (ds : List Domain) → IsSorted ds → IsSelection (select ds)
unfolding select IsSelection
select-IsSelection [] sorted = tt
select-IsSelection (d ∷ ds) sorted = selection d ds sorted ((walk d ds).1) refl
