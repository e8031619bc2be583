-- ===== src/Sched/Finish.antt =====
-- `generic_trap_handler` and `exit_domain_sys`: a domain that is finished is left.
use xmertl.Base.{ℕ, ◌≡◌, ◌≢◌, ◌∙◌, refl, true, false, not, ◌&&◌, ◌==◌, Bool-cases, inl, inr, arith}
use xmertl.Base.{List, [], ◌∷◌, ◌++◌, some, Option-cases, All, All-map}
use xmertl.Domain.{
  Domain, Events, get_domain_state, set_domain_state, domain_finished, disable_events_flag,
}
use xmertl.Domain.State.{get_domain_state-set_domain_state}
use xmertl.Sched.{
  Sched, walk, select, chosen, update, is_runnable, with_pending, kept, bypassed, receive,
  search_domain_id_list, xm_sched, generic_trap_handler, exit_domain_sys,
}
use xmertl.Sched.Select.{IsFirst, walk-some}
use xmertl.Sched.Switch.{xm_sched_lem}

-- The ids of the domains differ.
unfoldable pub IsDistinct : List Domain → Type 0
IsDistinct [] = Unit
IsDistinct (d ∷ ds) = All (λ x. x.id ≢ d.id) ds × IsDistinct ds

-- Whoever has the id is finished.
IsOver : ℕ → Domain → Type 0
IsOver id x = (x.id == id) && not (get_domain_state x == domain_finished) ≡ false

walk-IsOver :
    (id : ℕ) (d : Domain) (ds : List Domain)
    → All (IsOver id) (d ∷ ds)
    → All (IsOver id) (walk d ds).0
unfolding walk IsOver get_domain_state
walk-IsOver id d [] h = h
walk-IsOver id d (next ∷ ds) h = elim (Bool-cases (is_runnable (with_pending d (kept d)))) [
  | inl r ↦ rw (r, walk) h
  | inr r ↦ rw (r, walk) (h.0, walk-IsOver id (receive next (bypassed d)) ds h.1)
]

module _ (id : ℕ) (finish : Domain → Domain)
    (over : (d : Domain) → get_domain_state (finish d) ≡ domain_finished) where
  update-IsOver : (ds : List Domain) → IsDistinct ds → All (IsOver id) (update id finish ds)
  unfolding update IsOver IsDistinct
  update-IsOver [] h = tt
  update-IsOver (d ∷ ds) h = elim (Bool-cases (d.id == id)) [
    | inl e ↦
        let same : d.id ≡ id = ground arith in
        rw (update, e) (ground (arith, over d), All-map (λ x n. ground (arith, n)) ds h.0)
    | inr e ↦ rw (update, e) (ground (arith, e), update-IsOver ds h.1)
  ]

search-other :
    (id root : ℕ) (f : Domain → Domain)
    → ((d : Domain) → (f d).id ≡ d.id)
    → root ≢ id
    → (ds : List Domain)
    → search_domain_id_list root (update id f ds) ≡ search_domain_id_list root ds
unfolding search_domain_id_list update
search-other id root f keeps ne [] = refl
search-other id root f keeps ne (d ∷ ds) =
    ground (arith, keeps d, search-other id root f keeps ne ds)

at_middle :
    (P : Domain → Type 0) (before : List Domain) (d : Domain) (after : List Domain)
    → All P (before ++ d ∷ after)
    → P d
at_middle P [] d after h = h.0
at_middle P (x ∷ before) d after h = at_middle P before d after h.1

finished-is_runnable : (d : Domain) → get_domain_state d ≡ domain_finished → is_runnable d ≡ false
unfolding is_runnable
finished-is_runnable d e = rw e refl

runs-IsOver : (id : ℕ) (d : Domain) → IsOver id d → is_runnable d ≡ true → d.id ≢ id
unfolding IsOver
runs-IsOver id d over runs = ground (arith, over, runs, finished-is_runnable d)

walk-other :
    (id : ℕ) (d : Domain) (ds : List Domain)
    → All (IsOver id) (d ∷ ds)
    → (found : ℕ) → (walk d ds).1 ≡ some found
    → found ≢ id
unfolding IsFirst
walk-other id d ds over found e =
    let (p, (before, x, after, split, same, prio, runs, idle)) = walk-some d ds found e in
    let all : All (IsOver id) (before ++ x ∷ after) = rw (← split) (walk-IsOver id d ds over) in
    rw (← same) (runs-IsOver id x (at_middle (IsOver id) before x after all) runs)

chosen-other :
    (s : Sched) (ds : List Domain) (id : ℕ)
    → All (IsOver id) ds
    → s.root ≢ id
    → chosen (record s { domains = ds }) ≢ id
unfolding select chosen
chosen-other s [] id over ne = ne
chosen-other s (d ∷ ds) id over ne = elim (Option-cases ((walk d ds).1)) [
  | inl idle ↦ rw (chosen, idle) ne
  | inr (found, e) ↦ rw (chosen, e) (walk-other id d ds over found e)
]

leave :
    (handle : ℕ → ℕ → Events → Events) (s : Sched) (finish : Domain → Domain)
    → ((d : Domain) → get_domain_state (finish d) ≡ domain_finished)
    → ((d : Domain) → (finish d).id ≡ d.id)
    → (r : Domain) → IsDistinct s.domains
    → s.root ≢ s.current
    → search_domain_id_list s.root s.domains ≡ some r
    → (s' : Sched) × (code : ℕ) × (log : List ℕ) × (xm_sched handle
          (record s { domains = update s.current finish s.domains })
        ≡ some (s', code, log))
      × (s'.current ≢ s.current)
leave handle s finish over keeps r distinct ne there =
    let after = update s.current finish s.domains in
    let over' = update-IsOver s.current finish over s.domains distinct in
    let found = search-other s.current s.root finish keeps ne s.domains ∙ there in
    let (s', code, log, d, d', ran, current, first, second, active, returned) =
      xm_sched_lem handle (record s { domains = after }) r found in
    (s', code, log, ran, rw current (chosen-other s after s.current over' ne))

-- With distinct ids and the root domain in the list, a domain other than the root domain that traps,
-- or that exits, is left: another one is the current domain when `xm_sched` returns.
pub generic_trap_handler-exit_domain_sys :
    (handle : ℕ → ℕ → Events → Events) (s : Sched) (r : Domain)
    → IsDistinct s.domains
    → s.root ≢ s.current
    → search_domain_id_list s.root s.domains ≡ some r
    → ((s' : Sched) × (code : ℕ) × (log : List ℕ) × (generic_trap_handler handle s
          ≡ some (s', code, log))
        × (s'.current ≢ s.current))
      × ((s' : Sched) × (code : ℕ) × (log : List ℕ) × (exit_domain_sys handle s
            ≡ some (s', code, log))
          × (s'.current ≢ s.current))
unfolding generic_trap_handler exit_domain_sys
generic_trap_handler-exit_domain_sys handle s r distinct ne there = (
  leave handle s (λ d. set_domain_state d domain_finished)
      (λ d. get_domain_state-set_domain_state d domain_finished (omega arith)) (λ d. refl) r
      distinct ne there,
  leave handle s
      (λ d. set_domain_state (record d { events = disable_events_flag d.events }) domain_finished)
      (λ d.
        get_domain_state-set_domain_state (record d { events = disable_events_flag d.events })
          domain_finished (omega arith))
      (λ d. refl) r distinct ne there,
)
