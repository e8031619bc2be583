-- ===== src/Domain/State.antt =====
-- The state of a domain in its flags, and the flag that enables events.
use xmertl.Base.{ℕ, ◌/◌, ◌%◌, ◌<◌, ◌≡◌, bit_and, bit_or, ◌∙◌, true, false, arith}
use xmertl.Base.Words.{bit_and_step, bit_or_step}
use xmertl.Base.Bits.{bit_and-zero}
use xmertl.Bitmap.{
  complement, set_bit, clear_bit, is_bit_set, is_bit_set-set_bit, is_bit_set-clear_bit,
}
use xmertl.Domain.{
  Domain, Events, set_domain_state, get_domain_state, enable_events_flag, disable_events_flag,
  is_events_flag_enabled,
}

low_four : (x : ℕ) → bit_and x 15 ≡ x % 16
low_four x = omega (
  arith,
  bit_and_step x 15,
  bit_and_step (x / 2) 7,
  bit_and_step (x / 2 / 2) 3,
  bit_and_step (x / 2 / 2 / 2) 1,
  bit_and-zero (x / 2 / 2 / 2 / 2),
)

cleared : (x : ℕ) → bit_and x (complement 15) % 16 ≡ 0
cleared x = omega (
  arith,
  bit_and_step x (complement 15),
  bit_and_step (x / 2) (complement 15 / 2),
  bit_and_step (x / 2 / 2) (complement 15 / 4),
  bit_and_step (x / 2 / 2 / 2) (complement 15 / 8),
)

merged : (x s : ℕ) → x % 16 ≡ 0 → s < 16 → bit_or x s % 16 ≡ s
merged x s h p = omega (
  arith,
  bit_or_step x s,
  bit_or_step (x / 2) (s / 2),
  bit_or_step (x / 2 / 2) (s / 2 / 2),
  bit_or_step (x / 2 / 2 / 2) (s / 2 / 2 / 2),
)

-- A state below 16 that is set is the state that is read.
pub get_domain_state-set_domain_state :
    (d : Domain) (s : ℕ) → s < 16 → get_domain_state (set_domain_state d s) ≡ s
unfolding get_domain_state set_domain_state
get_domain_state-set_domain_state d s h =
    low_four (bit_or (bit_and d.flags (complement 15)) s)
    ∙ merged (bit_and d.flags (complement 15)) s (cleared d.flags) h

pub is_events_flag_enabled-enable :
    (e : Events) → is_events_flag_enabled (enable_events_flag e) ≡ true
unfolding is_events_flag_enabled enable_events_flag is_bit_set set_bit
is_events_flag_enabled-enable e = is_bit_set-set_bit e.event_flags 4 4

pub is_events_flag_enabled-disable :
    (e : Events) → is_events_flag_enabled (disable_events_flag e) ≡ false
unfolding is_events_flag_enabled disable_events_flag is_bit_set clear_bit
is_events_flag_enabled-disable e =
    is_bit_set-clear_bit e.event_flags 4 4 (omega arith) (omega arith)
