-- ===== src/Sched.antt =====
-- xtratum/kernel/sched.c, and the list of domains of xtratum/include/domain.h: the domains stand in
-- the list from the most urgent priority, the lowest number, to the root domain's.
pub mod Order
pub mod Routing
pub mod Select
pub mod Switch
pub mod Finish
use xmertl.Base.{ℕ, zero, suc, bit_or, bit_and, ◌&&◌, ◌||◌, Bool, true, false, not, ◌==◌, ltb}
use xmertl.Base.{Option, none, some, List, [], ◌∷◌, if◌then◌else◌}
use xmertl.Bitmap.{complement, get_domain_pending_events}
use xmertl.Domain.{
  Events, Domain, get_domain_state, set_domain_state, domain_active, domain_suspended,
  domain_finished, is_events_flag_enabled, disable_events_flag, sync_events,
}

-- A node goes before the first one that is less urgent, else to the end.
unfoldable pub insert_domain_list : Domain → List Domain → List Domain
insert_domain_list node [] = node ∷ []
insert_domain_list node (p1 ∷ list) =
    let rest = insert_domain_list node list in
    if ltb node.priority p1.priority then node ∷ p1 ∷ list else p1 ∷ rest

unfoldable pub search_domain_id_list : ℕ → List Domain → Option Domain
search_domain_id_list id [] = none
search_domain_id_list id (p1 ∷ list) =
    let rest = search_domain_id_list id list in if p1.id == id then some p1 else rest

-- The node is known by its id.
unfoldable pub remove_domain_list : ℕ → List Domain → List Domain
remove_domain_list id [] = []
remove_domain_list id (p1 ∷ list) =
    let rest = remove_domain_list id list in if p1.id == id then list else p1 ∷ rest

abbrev pub with_pending : Domain → ℕ → Domain
with_pending d pending = record d { events = record d.events { pending_events = pending } }

-- The events that a domain passes on to the next one, and those it keeps.
unfoldable pub bypassed : Domain → ℕ
unfolding get_domain_state
bypassed d =
    if get_domain_state d == domain_finished
    then d.events.pending_events
    else bit_and d.events.pending_events (complement d.events.intercepted_events)

unfoldable pub kept : Domain → ℕ
unfolding get_domain_state
kept d =
    if get_domain_state d == domain_finished
    then 0
    else bit_and d.events.pending_events d.events.intercepted_events

abbrev pub receive : Domain → ℕ → Domain
receive d passed = with_pending d (bit_or d.events.pending_events passed)

-- The test that ends the loop of `xm_sched`
unfoldable pub is_runnable : Domain → Bool
unfolding get_domain_state is_events_flag_enabled
is_runnable d =
    (get_domain_state d == domain_active)
    || ((get_domain_state d == domain_suspended)
        && (is_events_flag_enabled d.events
            && not (get_domain_pending_events d.events.pending_events d.events.masked_events == 0)))

-- The loop of `xm_sched` from the domain `d` on: the domains with their new events, and the id of
-- the domain that ends it.
unfoldable pub walk : Domain → List Domain → List Domain × Option ℕ
unfolding bypassed kept is_runnable
walk d [] = (d ∷ [], if is_runnable d then some d.id else none)
walk d (next ∷ list) =
    let d' = with_pending d (kept d) in
    let next' = receive next (bypassed d) in
    let (list', found) = walk next' list in
    if is_runnable d' then (d' ∷ next' ∷ list, some d'.id) else (d' ∷ list', found)

-- `xm_domain_list`, and the ids of `xm_current_domain` and of `xm_root_domain`
pub record Sched : Type 0 where
  pub domains : List Domain
  pub current : ℕ
  pub root : ℕ

unfoldable pub select : List Domain → List Domain × Option ℕ
unfolding walk
select [] = ([], none)
select (d ∷ list) = walk d list

-- The root domain when the loop selects none
unfoldable pub chosen : Sched → ℕ
unfolding select
chosen s = elim ((select s.domains).1) [ none ↦ s.root | some id ↦ id ]

-- What a change of the domain with an id does to the list.
unfoldable pub update : ℕ → (Domain → Domain) → List Domain → List Domain
update id change [] = []
update id change (d ∷ list) =
    let rest = update id change list in if d.id == id then change d ∷ list else d ∷ rest

module _ (handle : ℕ → ℕ → Events → Events) where
  -- After the switch the code runs for the chosen domain; the value returned comes with the state
  -- and the events that were delivered. `none` is a domain that is not in the list.
  unfoldable pub xm_sched : Sched → Option (Sched × ℕ × List ℕ)
  unfolding chosen select update search_domain_id_list set_domain_state is_events_flag_enabled
  xm_sched s =
      let id = chosen s in
      let active = update id (λ d. set_domain_state d domain_active) (select s.domains).0 in
      let switched : Sched = record s { domains = active; current = id } in
      elim (search_domain_id_list id active) [
        | none ↦ none
        | some d ↦
            if not (is_events_flag_enabled d.events)
            then some (switched, 0, [])
            else elim (sync_events handle (id == s.root) d) [
              | none ↦ none
              | some (events, log) ↦ some (
                record switched {
                  domains = update id (λ d'. record d' { events = events }) active;
                },
                1,
                log,
              )
            ]
      ]

  -- `generic_trap_handler` and `exit_domain_sys`: the current domain is finished.
  unfoldable pub generic_trap_handler : Sched → Option (Sched × ℕ × List ℕ)
  unfolding update set_domain_state xm_sched
  generic_trap_handler s =
      xm_sched (record s {
        domains = update s.current (λ d. set_domain_state d domain_finished) s.domains;
      })

  unfoldable pub exit_domain_sys : Sched → Option (Sched × ℕ × List ℕ)
  unfolding update set_domain_state xm_sched disable_events_flag
  exit_domain_sys s = xm_sched (record s {
    domains =
        update s.current
          (λ d.
            set_domain_state (record d { events = disable_events_flag d.events }) domain_finished)
          s.domains;
  })
