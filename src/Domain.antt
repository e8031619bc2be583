-- ===== src/Domain.antt =====
-- xtratum/include/domain.h and events.h: what the hypervisor keeps of a domain, and
-- xtratum/kernel/irqs.c: how the pending events of a domain reach its handlers.
pub mod State
pub mod Delivery
use xmertl.Base.{ℕ, zero, suc, ◌+◌, ◌-◌, bit_or, bit_and, ◌&&◌, Bool, true, false, not}
use xmertl.Base.{Option, none, some, List, [], ◌∷◌, ◌==◌, if◌then◌else◌}
use xmertl.Bitmap.{complement, set_bit, get_next_set_bit_and_clear, is_some_bit_set}

-- `event_handling_t`, as far as events go. `event_handler` names the handler of an event; `none`
-- is a null pointer.
pub record Events : Type 0 where
  pub intercepted_events : ℕ
  pub masked_events : ℕ
  pub pending_events : ℕ
  pub event_handler : ℕ → Option ℕ
  pub event_flags : ℕ

-- `domain_t`, as far as scheduling goes
pub record Domain : Type 0 where
  pub id : ℕ
  pub priority : ℕ
  pub flags : ℕ
  pub events : Events

abbrev pub domain_active : ℕ
domain_active = 0x0

abbrev pub domain_suspended : ℕ
domain_suspended = 0x1

abbrev pub domain_finished : ℕ
domain_finished = 0x2

abbrev pub state_mask : ℕ
state_mask = 0xf

abbrev pub events_enabled : ℕ
events_enabled = 0x10

unfoldable pub set_domain_state : Domain → ℕ → Domain
set_domain_state d state = record d {
  flags = bit_or (bit_and d.flags (complement state_mask)) state;
}

unfoldable pub get_domain_state : Domain → ℕ
get_domain_state d = bit_and d.flags state_mask

unfoldable pub enable_events_flag : Events → Events
enable_events_flag e = record e { event_flags = bit_or e.event_flags events_enabled }

unfoldable pub disable_events_flag : Events → Events
disable_events_flag e = record e { event_flags = bit_and e.event_flags (complement events_enabled) }

unfoldable pub is_events_flag_enabled : Events → Bool
is_events_flag_enabled e = not (bit_and e.event_flags events_enabled == 0)

-- There are 32 events, so that 33 rounds are enough.
abbrev pub rounds : ℕ
rounds = 33

-- The handlers are code of the domain. `handle h event` is what the handler `h` does to the
-- domain's events; while it runs, the event is masked and the flag is off.
module _ (handle : ℕ → ℕ → Events → Events) where
  -- One call of a handler, with what `sync_root_events` does around it.
  unfoldable pub call_handler : ℕ → ℕ → Events → Events
  unfolding disable_events_flag enable_events_flag
  call_handler h event e =
      let masked : Events = record e { masked_events = set_bit e.masked_events event } in
      enable_events_flag (handle h event (disable_events_flag masked))

  -- The loop over the local copy `pending`, on fuel, with the events that handlers were called for.
  -- An event with no handler is passed over.
  unfoldable pub deliver : ℕ → ℕ → Events → Option (Events × List ℕ)
  deliver zero pending e = none
  deliver (suc fuel) pending e = elim (get_next_set_bit_and_clear pending e.masked_events) [
    | none ↦ some (e, [])
    | some (event, rest) ↦ elim (e.event_handler event) [
      | none ↦ deliver fuel rest e
      | some h ↦ elim (deliver fuel rest (call_handler h event e)) [
        | none ↦ none
        | some (e', log) ↦ some (e', event ∷ log)
      ]
    ]
  ]

  -- `sync_root_events`; `sync_domain_events` has the same loop, behind a test of the state.
  unfoldable pub sync_root_events : Events → Option (Events × List ℕ)
  sync_root_events e =
      deliver rounds e.pending_events
        (record e { pending_events = bit_and e.pending_events e.masked_events })

  unfoldable pub sync_domain_events : Domain → Option (Events × List ℕ)
  unfolding get_domain_state
  sync_domain_events d =
      let run : Option (Events × List ℕ) = deliver rounds d.events.pending_events (record d.events {
        pending_events = bit_and d.events.pending_events d.events.masked_events;
      }) in
      if get_domain_state d == domain_finished then some (d.events, []) else run

  -- `sync_events`, where `is_root` says whether the current domain is the root domain.
  unfoldable pub sync_events : Bool → Domain → Option (Events × List ℕ)
  unfolding is_events_flag_enabled
  sync_events is_root d =
      let run : Option (Events × List ℕ) =
        if is_root then sync_root_events d.events else sync_domain_events d in
      if is_events_flag_enabled d.events && is_some_bit_set d.events.pending_events
      then run
      else some (d.events, [])
