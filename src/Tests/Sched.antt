-- ===== src/Tests/Sched.antt =====
-- Three domains of xtratum/kernel/sched.c: a finished one, a suspended one that waits for the event
-- 3, and the root domain.
use xmertl.Base.{
  ◌≢◌, ℕ, ◌≡◌, refl, true, false, some, List, [], ◌∷◌, arith, if◌then◌else◌, ◌==◌, ◌⊎◌,
}
use xmertl.Base.{All}
use xmertl.Bitmap.{get_domain_pending_events}
use xmertl.Domain.{Events, Domain, get_domain_state, domain_active, is_events_flag_enabled}
use xmertl.Sched.{
  Sched, select, chosen, xm_sched, insert_domain_list, search_domain_id_list, remove_domain_list,
}
use xmertl.Sched.Order.{IsSorted, IsNew, insert_domain_list-IsSorted, insert_domain_list_lem}
use xmertl.Sched.Routing.{pending_in, IsWord, select-pending_in}
use xmertl.Sched.Select.{IsSelection, select-IsSelection}
use xmertl.Sched.{generic_trap_handler, exit_domain_sys}
use xmertl.Sched.Finish.{IsDistinct, generic_trap_handler-exit_domain_sys}
use xmertl.Sched.Switch.{xm_sched_lem}

abbrev with_events : ℕ → ℕ → ℕ → Events
with_events intercepted masked pending = record {
  intercepted_events = intercepted;
  masked_events = masked;
  pending_events = pending;
  event_handler = λ event. some 0;
  event_flags = 0x10;
}

abbrev finished : Domain
finished = record { id = 1; priority = 0; flags = 2; events = with_events 32 0 32 }

abbrev waiting : Domain
waiting = record { id = 2; priority = 5; flags = 1; events = with_events 8 0 24 }

abbrev linux : Domain
linux = record { id = 0; priority = 1023; flags = 0; events = with_events 65535 0 1 }

abbrev domains : List Domain
domains = finished ∷ waiting ∷ linux ∷ []

abbrev sched : Sched
sched = record { domains = domains; current = 0; root = 0 }

abbrev leave : ℕ → ℕ → Events → Events
leave h event e = e

abbrev pending_of : Domain → ℕ
pending_of d = d.events.pending_events

-- The domain that waits gets its event, and the other events go on to the root domain.
selected : (select domains).1 ≡ some 2
unfolding select get_domain_pending_events
selected = refl

domains-IsSorted : IsSorted domains
unfolding IsSorted
domains-IsSorted = ((omega arith, (omega arith, tt)), ((omega arith, tt), (tt, tt)))

select-IsSelection_example : IsSelection (select domains)
select-IsSelection_example = select-IsSelection domains domains-IsSorted

domains-IsWord : All IsWord domains
unfolding IsWord
domains-IsWord = (omega arith, (omega arith, (omega arith, tt)))

select-pending_in_example : pending_in 5 (select domains).0 ≡ pending_in 5 domains
select-pending_in_example = select-pending_in domains 5 domains-IsWord (omega arith)

insert_domain_list-IsSorted_example : IsSorted (insert_domain_list waiting domains)
insert_domain_list-IsSorted_example = insert_domain_list-IsSorted waiting domains domains-IsSorted

abbrev later : Domain
later = record waiting { id = 3 }

later-IsNew : IsNew 3 domains
unfolding IsNew
later-IsNew = (ground arith, (ground arith, (ground arith, tt)))

insert_domain_list_lem_example :
    (search_domain_id_list 2 (insert_domain_list later domains)
      ≡ (if 3 == 2 then some later else search_domain_id_list 2 domains))
    × (remove_domain_list 3 (insert_domain_list later domains) ≡ domains)
insert_domain_list_lem_example = insert_domain_list_lem later domains 2 later-IsNew

root_there : search_domain_id_list 0 domains ≡ some linux
unfolding search_domain_id_list
root_there = refl

xm_sched_lem_example :
    (s' : Sched) × (code : ℕ) × (log : List ℕ) × (d : Domain) × (d' : Domain) × (xm_sched leave
        sched
      ≡ some (s', code, log))
    × (s'.current ≡ chosen sched)
    × (search_domain_id_list (chosen sched) (select domains).0 ≡ some d)
    × (search_domain_id_list (chosen sched) s'.domains ≡ some d')
    × (get_domain_state d' ≡ domain_active)
    × (((is_events_flag_enabled d.events ≡ true) × (code ≡ 1))
        ⊎ ((is_events_flag_enabled d.events ≡ false) × (code ≡ 0) × (log ≡ [])))
xm_sched_lem_example = xm_sched_lem leave sched linux root_there

abbrev at_waiting : Sched
at_waiting = record sched { current = 2 }

domains-IsDistinct : IsDistinct domains
unfolding IsDistinct
domains-IsDistinct = ((ground arith, (ground arith, tt)), ((ground arith, tt), (tt, tt)))

generic_trap_handler-exit_domain_sys_example :
    ((s' : Sched) × (code : ℕ) × (log : List ℕ) × (generic_trap_handler leave at_waiting
        ≡ some (s', code, log))
      × (s'.current ≢ 2))
    × ((s' : Sched) × (code : ℕ) × (log : List ℕ) × (exit_domain_sys leave at_waiting
          ≡ some (s', code, log))
        × (s'.current ≢ 2))
generic_trap_handler-exit_domain_sys_example =
    generic_trap_handler-exit_domain_sys leave at_waiting linux domains-IsDistinct (ground arith)
      root_there
