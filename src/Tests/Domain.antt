-- ===== src/Tests/Domain.antt =====
-- A domain of xtratum/kernel/irqs.c with three pending events, one of them masked.
use xmertl.Base.{
  ℕ, ◌+◌, ◌^◌, ◌==◌, ◌≡◌, refl, true, Option, none, some, List, [], ◌∷◌, arith, if◌then◌else◌,
}
use mathlib.Core.Option
use xmertl.Bitmap.{
  clear_bit, clear_bit-lt, bit_at-clear_bit, get_domain_pending_events, set_bit,
  get_next_set_bit_and_clear, ffs,
}
use xmertl.Domain.{Events, Domain, deliver, sync_root_events, sync_events, call_handler}
use xmertl.Domain.Delivery.{IsQuiet, due, sync_root_events-due, sync_events-ends}

-- Each event has a handler, but for the event 3; a handler unmasks its event again.
abbrev handler_of : ℕ → Option ℕ
handler_of event = if event == 3 then none else some 0

abbrev unmask : ℕ → ℕ → Events → Events
unmask h event e = record e { masked_events = clear_bit e.masked_events event }

abbrev events : Events
events = record {
  intercepted_events = 0;
  masked_events = 2;
  pending_events = 2 + 4 + 8 + 2 ^ 31;
  event_handler = handler_of;
  event_flags = 0x10;
}

abbrev domain : Domain
domain = record { id = 4; priority = 9; flags = 0x32; events = events }

unmask-IsQuiet : IsQuiet unmask
unfolding IsQuiet
unmask-IsQuiet h event e below word = (
  refl,
  clear_bit-lt e.masked_events event word,
  λ j b n. ground (arith, bit_at-clear_bit e.masked_events event j below b),
)

-- The events 2 and 31 are delivered, in this order.
delivered : Option.map (λ r. r.1) (sync_root_events unmask events) ≡ some (2 ∷ 31 ∷ [])
unfolding sync_root_events deliver get_next_set_bit_and_clear ffs call_handler
    get_domain_pending_events clear_bit set_bit
delivered = refl

sync_root_events-due_example :
    (e' : Events) × (sync_root_events unmask events
      ≡ some (e', due handler_of 32 (get_domain_pending_events (2 + 4 + 8 + 2 ^ 31) 2) 0))
sync_root_events-due_example = sync_root_events-due unmask unmask-IsQuiet events (omega arith)

sync_events-ends_example : (r : Events × List ℕ) × (sync_events unmask true domain ≡ some r)
sync_events-ends_example = sync_events-ends unmask true domain
