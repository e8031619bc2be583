-- ===== src/Sched/Routing.antt =====
-- The events that `xm_sched` passes from a domain to the next one.
use xmertl.Base.{ℕ, ◌<◌, ◌^◌, max, ◌≡◌, refl, Bool-cases, inl, inr}
use xmertl.Base.{List, [], ◌∷◌, All, arith}
use xmertl.Base.Bits.{
  bit_at, bit_at-le_one, bit_at-bit_or, bit_at-bit_and, bit_at-complement, bit_at-zero,
}
use xmertl.Bitmap.{complement}
use xmertl.Domain.{Domain}
use xmertl.Sched.{bypassed, kept, receive, with_pending, walk, select, is_runnable}

-- 1 when the event is pending in one of the domains
pub pending_in : ℕ → List Domain → ℕ
pending_in event [] = 0
pending_in event (d ∷ ds) = max (bit_at d.events.pending_events event) (pending_in event ds)

-- The bitmap of intercepted events is a word.
unfoldable pub IsWord : Domain → Type 0
IsWord d = d.events.intercepted_events < 2 ^ 32

-- What a domain keeps and what it passes on are its pending events.
split :
    (d : Domain) (i : ℕ)
    → IsWord d
    → i < 32
    → max (bit_at (kept d) i) (bit_at (bypassed d) i) ≡ bit_at d.events.pending_events i
unfolding kept bypassed IsWord
split d i word below = ground (
  arith,
  bit_at-zero i,
  bit_at-le_one d.events.pending_events i,
  bit_at-le_one d.events.intercepted_events i,
  bit_at-bit_and d.events.pending_events d.events.intercepted_events i,
  bit_at-bit_and d.events.pending_events (complement d.events.intercepted_events) i,
  bit_at-complement 32 d.events.intercepted_events i word below,
)

walk-pending_in :
    (d : Domain) (ds : List Domain) (i : ℕ)
    → IsWord d
    → All IsWord ds
    → i < 32
    → pending_in i (walk d ds).0 ≡ pending_in i (d ∷ ds)
unfolding walk pending_in IsWord
walk-pending_in d [] i word words below = refl
walk-pending_in d (next ∷ ds) i word words below =
    let d' = with_pending d (kept d) in
    let next' = receive next (bypassed d) in
    let rest = walk-pending_in next' ds i words.0 words.1 below in
    let moved = bit_at-bit_or next.events.pending_events (bypassed d) i in
    elim (Bool-cases (is_runnable d')) [
      | inl e ↦
          rw (e, walk, moved)
            (omega (arith, split d i word below, bit_at-le_one next.events.pending_events i))
      | inr e ↦
          rw (e, walk, rest, moved)
            (omega (arith, split d i word below, bit_at-le_one next.events.pending_events i))
    ]

-- With intercepted bitmaps of 32 bits, the loop loses no event and makes none: an event below 32 is
-- pending in some domain afterwards exactly when it was before.
pub select-pending_in :
    (ds : List Domain) (i : ℕ)
    → All IsWord ds
    → i < 32
    → pending_in i (select ds).0 ≡ pending_in i ds
unfolding select
select-pending_in [] i words below = refl
select-pending_in (d ∷ ds) i words below = walk-pending_in d ds i words.0 words.1 below
