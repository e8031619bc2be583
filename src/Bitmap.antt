-- ===== src/Bitmap.antt =====
-- xtratum/include/bitmap.h: the bitmaps of events, `unsigned long` words of 32 bits.
-- `~ x` is `2 ^ 32 - 1 - x`, and `1 << pos` is `2 ^ pos` for the positions below 32 in use.
use xmertl.Base.{ℕ, zero, suc, ◌+◌, ◌-◌, ◌*◌, ◌^◌, ◌≤◌, ◌<◌, bit_and, bit_or}
use xmertl.Base.{◌≡◌, ◌↔◌, ◌⊎◌, inl, inr, Bool, true, false, not, Option, none, some, arith}
use xmertl.Base.{◌==◌, if◌then◌else◌, Bool-cases, Option-cases}
use xmertl.Base.Bits.{
  bit_at, bit_at-le_one, bit_at-bit_or, bit_at-bit_and, bit_at-complement, bit_at-two_pow,
  bit_and-two_pow, eq_zero_of_bits, bit_or-lt, bit_and-le,
}
use native.Mathlib.Nat.{one-le-pow, pow-le-pow_right}

-- `~ x`
abbrev pub complement : ℕ → ℕ
complement x = 2 ^ 32 - 1 - x

unfoldable pub set_bit : ℕ → ℕ → ℕ
set_bit bitmap pos = bit_or bitmap (2 ^ pos)

unfoldable pub clear_bit : ℕ → ℕ → ℕ
clear_bit bitmap pos = bit_and bitmap (complement (2 ^ pos))

unfoldable pub is_bit_set : ℕ → ℕ → Bool
is_bit_set bitmap pos = not (bit_and bitmap (2 ^ pos) == 0)

unfoldable pub is_some_bit_set : ℕ → Bool
is_some_bit_set bitmap = not (bitmap == 0)

unfoldable pub get_domain_pending_events : ℕ → ℕ → ℕ
get_domain_pending_events pending mask = bit_and (complement mask) pending

-- `bsfl` looks at the positions from 0 on; `none` is the -1 of a word with no bit.
pub ffs_from : ℕ → ℕ → ℕ → Option ℕ
ffs_from zero x i = none
ffs_from (suc left) x i =
    let rest = ffs_from left x (i + 1) in if is_bit_set x i then some i else rest

unfoldable pub ffs : ℕ → Option ℕ
unfolding ffs_from is_bit_set
ffs x = ffs_from 32 x 0

-- The position found, and `_pending` with that bit cleared.
unfoldable pub get_next_set_bit_and_clear : ℕ → ℕ → Option (ℕ × ℕ)
get_next_set_bit_and_clear pending mask = elim (ffs (get_domain_pending_events pending mask)) [
  | none ↦ none
  | some pos ↦ some (pos, clear_bit pending pos)
]

pub two_pow-lt : (i : ℕ) → i < 32 → 2 ^ i < 2 ^ 32
two_pow-lt i h =
    omega (arith, pow-le-pow_right {n = 2} (omega arith) {i = i} {j = 31} (omega arith))

pub is_bit_set_lem : (x i : ℕ) → is_bit_set x i ≡ (bit_at x i == 1)
unfolding is_bit_set
is_bit_set_lem x i = go (bit_at x i) (bit_at-le_one x i) (bit_and-two_pow x i)
  where
    go : (b : ℕ) → b ≤ 1 → bit_and x (2 ^ i) ≡ b * 2 ^ i → not (bit_and x (2 ^ i) == 0) ≡ (b == 1)
    go zero h e = ground arith
    go (suc zero) h e = ground (arith, one-le-pow i 2 (omega arith))
    go (suc (suc b)) h e = absurd (omega arith)

pub one_of_is_bit_set : (x i : ℕ) → is_bit_set x i ≡ true → bit_at x i ≡ 1
one_of_is_bit_set x i h = ground (arith, is_bit_set_lem x i)

pub zero_of_is_bit_set : (x i : ℕ) → is_bit_set x i ≡ false → bit_at x i ≡ 0
zero_of_is_bit_set x i h = ground (arith, is_bit_set_lem x i, bit_at-le_one x i)

pub bit_at-set_bit : (x p i : ℕ) → bit_at (set_bit x p) i ≡ (if p == i then 1 else bit_at x i)
unfolding set_bit
bit_at-set_bit x p i =
    ground (arith, bit_at-bit_or x (2 ^ p) i, bit_at-two_pow p i, bit_at-le_one x i)

pub bit_at-clear_bit :
    (x p i : ℕ) → p < 32 → i < 32 → bit_at (clear_bit x p) i ≡ (if p == i then 0 else bit_at x i)
unfolding clear_bit
bit_at-clear_bit x p i hp hi = ground (
  arith,
  bit_at-bit_and x (complement (2 ^ p)) i,
  bit_at-complement 32 (2 ^ p) i (two_pow-lt p hp) hi,
  bit_at-two_pow p i,
  bit_at-le_one x i,
)

pub bit_at-get_domain_pending_events :
    (pending mask i : ℕ)
    → mask < 2 ^ 32
    → i < 32
    → bit_at (get_domain_pending_events pending mask) i
      ≡ (if bit_at mask i == 0 then bit_at pending i else 0)
unfolding get_domain_pending_events
bit_at-get_domain_pending_events pending mask i hm hi = ground (
  arith,
  bit_at-bit_and (complement mask) pending i,
  bit_at-complement 32 mask i hm hi,
  bit_at-le_one mask i,
  bit_at-le_one pending i,
)

pub set_bit-lt : (x p : ℕ) → x < 2 ^ 32 → p < 32 → set_bit x p < 2 ^ 32
unfolding set_bit
set_bit-lt x p hx hp = bit_or-lt 32 x (2 ^ p) hx (two_pow-lt p hp)

pub clear_bit-lt : (x p : ℕ) → x < 2 ^ 32 → clear_bit x p < 2 ^ 32
unfolding clear_bit
clear_bit-lt x p hx = omega (arith, bit_and-le x (complement (2 ^ p)))

pub bit_at-clear_bit_le : (x p i : ℕ) → bit_at (clear_bit x p) i ≤ bit_at x i
unfolding clear_bit
bit_at-clear_bit_le x p i = omega (arith, bit_at-bit_and x (complement (2 ^ p)) i)

-- The position that `ffs_from` finds is the first of the bits from `i` on.
pub ffs_from-some :
    (left x i p : ℕ)
    → ffs_from left x i ≡ some p
    → (i ≤ p) × (p < i + left) × (bit_at x p ≡ 1) × ((j : ℕ) → i ≤ j → j < p → bit_at x j ≡ 0)
unfolding ffs_from
ffs_from-some zero x i p e = cc
ffs_from-some (suc left) x i p e = elim (Bool-cases (is_bit_set x i)) [
  | inl here ↦
      let same : i ≡ p = ground arith in
      (
        omega arith,
        omega arith,
        rw (← same) (one_of_is_bit_set x i here),
        λ j a b. absurd (omega arith),
      )
  | inr more ↦
      let rest = ffs_from-some left x (i + 1) p (ground arith) in
      (
        omega (arith, rest.0),
        omega (arith, rest.1),
        rest.2,
        λ j a b. ground (arith, zero_of_is_bit_set x i more, rest.3 j),
      )
]

pub ffs_from-none :
    (left x i : ℕ) → ffs_from left x i ≡ none → (j : ℕ) → i ≤ j → j < i + left → bit_at x j ≡ 0
unfolding ffs_from
ffs_from-none zero x i e j p q = absurd (omega arith)
ffs_from-none (suc left) x i e j p q = elim (Bool-cases (is_bit_set x i)) [
  | inl here ↦ absurd (ground arith)
  | inr more ↦
      ground (arith, zero_of_is_bit_set x i more, ffs_from-none left x (i + 1) (ground arith) j)
]

-- `bsfl` finds the lowest bit of a word, and fails only on the word 0.
pub ffs_lem :
    (x : ℕ)
    → x < 2 ^ 32
    → ((p : ℕ) → ffs x ≡ some p → (p < 32) × (bit_at x p ≡ 1) × ((j : ℕ) → j < p → bit_at x j ≡ 0))
      × ((ffs x ≡ none) ↔ (x ≡ 0))
unfolding ffs
ffs_lem x h = (
  λ p e.
      let found = ffs_from-some 32 x 0 p e in
      (omega (arith, found.1), found.2, λ j q. found.3 j (omega arith) q),
  (
    λ e. eq_zero_of_bits 32 x h (λ i p. ffs_from-none 32 x 0 e i (omega arith) (omega arith)),
    λ e. rw e,
  ),
)

pub is_bit_set-set_bit :
    (x p i : ℕ) → is_bit_set (set_bit x p) i ≡ (if p == i then true else is_bit_set x i)
is_bit_set-set_bit x p i = ground (
  arith,
  is_bit_set_lem (set_bit x p) i,
  is_bit_set_lem x i,
  bit_at-set_bit x p i,
  bit_at-le_one x i,
)

pub is_bit_set-clear_bit :
    (x p i : ℕ)
    → p < 32
    → i < 32
    → is_bit_set (clear_bit x p) i ≡ (if p == i then false else is_bit_set x i)
is_bit_set-clear_bit x p i hp hi = ground (
  arith,
  is_bit_set_lem (clear_bit x p) i,
  is_bit_set_lem x i,
  bit_at-clear_bit x p i hp hi,
  bit_at-le_one x i,
)

pub get_domain_pending_events-lt :
    (pending mask : ℕ) → get_domain_pending_events pending mask < 2 ^ 32
unfolding get_domain_pending_events
get_domain_pending_events-lt pending mask = omega (arith, bit_and-le (complement mask) pending)

pub bit_at-get_domain_pending_events_le :
    (pending mask i : ℕ) → bit_at (get_domain_pending_events pending mask) i ≤ bit_at pending i
unfolding get_domain_pending_events
bit_at-get_domain_pending_events_le pending mask i =
    omega (arith, bit_at-bit_and (complement mask) pending i)

-- The event found is pending and not masked, the lowest such, and its bit is cleared.
pub next_cases :
    (pending mask : ℕ)
    → ((get_next_set_bit_and_clear pending mask ≡ none)
        × (get_domain_pending_events pending mask ≡ 0))
      ⊎ ((p : ℕ) × (get_next_set_bit_and_clear pending mask ≡ some (p, clear_bit pending p))
          × (p < 32)
          × (bit_at (get_domain_pending_events pending mask) p ≡ 1)
          × ((j : ℕ) → j < p → bit_at (get_domain_pending_events pending mask) j ≡ 0))
unfolding get_next_set_bit_and_clear
next_cases pending mask =
    let found =
      ffs_lem (get_domain_pending_events pending mask)
        (get_domain_pending_events-lt pending mask) in
    elim (Option-cases (ffs (get_domain_pending_events pending mask))) [
      | inl e ↦ inl (rw (e, get_next_set_bit_and_clear), found.1.0 e)
      | inr (p, e) ↦
          let (below, set, first) = found.0 p e in
          inr (p, rw (e, get_next_set_bit_and_clear), below, set, first)
    ]
