-- ===== src/Tlsf/Lowest.antt =====
-- `ls_bit` finds the lowest bit of a word, and the masks of the search.
use xmertl.Base.{
  ℕ, zero, suc, ◌+◌, ◌-◌, ◌*◌, ◌/◌, ◌%◌, ◌^◌, ◌≤◌, ◌<◌, ◌≡◌, ◌∙◌, ap, refl, bit_and, inl, inr,
  arith,
}
use xmertl.Base.{ltb, ◌==◌, if◌then◌else◌, Bool-cases}
use xmertl.Base.Words.{bit_and_step}
use xmertl.Base.Bits.{
  bit_at, bit_at-le_one, bit_at-bit_and, bit_at-complement, bit_at-zero, zero-bit_and,
}
use xmertl.Base.Ints.{pos, negsuc}
use xmertl.Tlsf.{ms_bit, table, add_int, shift_of, runs}
use xmertl.Tlsf.Blocks.{ls_bit, from_bit}
use xmertl.Tlsf.Digits.{IsHighest, ms_bit_lem, two_pow-add}
use native.Mathlib.Nat.{pow-suc, one-le-pow, pow-le-pow_right}

-- `p` is the position of the lowest bit of `x`.
pub record IsLowest (x p : ℕ) : Type 0 where
  pub set : bit_at x p ≡ 1
  pub first : (j : ℕ) → j < p → bit_at x j ≡ 0

-- A number has no bit in common with what lacks to the mask above it.
disjoint : (w x : ℕ) → x < 2 ^ w → bit_and x (2 ^ w - 1 - x) ≡ 0
disjoint zero x h = let none_left : x ≡ 0 = omega (arith, h) in rw none_left (zero-bit_and 0)
disjoint (suc w) x h =
    let double : 2 ^ suc w ≡ 2 * 2 ^ w = omega (arith, pow-suc 2 w) in
    let half : (2 ^ suc w - 1 - x) / 2 ≡ 2 ^ w - 1 - x / 2 = omega (arith, double, h) in
    let e : bit_and (x / 2) ((2 ^ suc w - 1 - x) / 2) ≡ 0 =
      rw half (disjoint w (x / 2) (omega (arith, double, h))) in
    omega (arith, bit_and_step x (2 ^ suc w - 1 - x), e, double, h)

below_suc :
    (x p : ℕ)
    → x % 2 ≡ 0
    → ((j : ℕ) → j < p → bit_at (x / 2) j ≡ 0)
    → (j : ℕ) → j < suc p
    → bit_at x j ≡ 0
unfolding bit_at
below_suc x p even first zero l = even
below_suc x p even first (suc j) l = first j (omega (arith, l))

lowest :
    (w x : ℕ)
    → 0 < x
    → x < 2 ^ w
    → (p : ℕ) × (p < w) × (bit_and x (2 ^ w - x) ≡ 2 ^ p) × IsLowest x p
unfolding bit_at
lowest zero x some_x h = absurd (omega (arith, some_x, h))
lowest (suc w) x some_x h =
    let double : 2 ^ suc w ≡ 2 * 2 ^ w = omega (arith, pow-suc 2 w) in
    elim (Bool-cases (x % 2 == 1)) [
      | inl odd ↦
          let half : (2 ^ suc w - x) / 2 ≡ 2 ^ w - 1 - x / 2 = ground (arith, double, h, odd) in
          let e : bit_and (x / 2) ((2 ^ suc w - x) / 2) ≡ 0 =
            rw half (disjoint w (x / 2) (omega (arith, double, h))) in
          (
            0,
            omega arith,
            ground (arith, bit_and_step x (2 ^ suc w - x), e, double, h, odd),
            record { set = ground (arith, odd); first = λ j l. absurd (omega (arith, l)) },
          )
      | inr even ↦
          let half : (2 ^ suc w - x) / 2 ≡ 2 ^ w - x / 2 = ground (arith, double, h, even) in
          let (p, below, e, l) =
            lowest w (x / 2) (ground (arith, some_x, even)) (omega (arith, double, h)) in
          let e' : bit_and (x / 2) ((2 ^ suc w - x) / 2) ≡ 2 ^ p = ap (bit_and (x / 2)) half ∙ e in
          (
            suc p,
            omega (arith, below),
            ground (arith, bit_and_step x (2 ^ suc w - x), e', pow-suc 2 p, even),
            record { set = l.set; first = below_suc x p (ground (arith, even)) l.first },
          )
    ]

highest_unique : (p t : ℕ) → IsHighest (2 ^ p) t → t ≡ p
unfolding IsHighest
highest_unique p t (low, high) = elim (Bool-cases (t == p)) [
  | inl e ↦ ground (arith, e)
  | inr e ↦ elim (Bool-cases (ltb t p)) [
    | inl less ↦ absurd (
        omega (
          arith,
          high,
          pow-le-pow_right {n = 2} (omega arith) {i = t + 1} {j = p} (ground (arith, less)),
        ))
    | inr more ↦
        let up =
          pow-le-pow_right {n = 2} (omega arith) {i = p + 1} {j = t} (ground (arith, e, more)) in
        let double : 2 ^ (p + 1) ≡ 2 * 2 ^ p = omega (arith, two_pow-add p 1) in
        absurd (omega (arith, low, up, double, one-le-pow p 2 (omega arith)))
  ]
]

-- `ls_bit` gives the position of the lowest bit of a word that is not 0, and -1 for 0.
pub ls_bit_lem :
    (x : ℕ) → 0 < x → x < 2 ^ 32 → (p : ℕ) × (p < 32) × (ls_bit x ≡ pos p) × IsLowest x p
unfolding ls_bit
ls_bit_lem x some_x h =
    let (p, below, e, l) = lowest 32 x some_x h in
    let word : (2 ^ 32 - x) % 2 ^ 32 ≡ 2 ^ 32 - x = omega (arith, some_x, h) in
    let power = pow-le-pow_right {n = 2} (omega arith) {i = p} {j = 31} (omega (arith, below)) in
    let (t, found, highest) =
      ms_bit_lem (2 ^ p) (one-le-pow p 2 (omega arith)) (omega (arith, power)) in
    let same = highest_unique p t highest in (p, below, rw (ls_bit, word, e, found, same) refl, l)

pub ls_bit-zero : ls_bit 0 ≡ negsuc 0
unfolding ls_bit ms_bit table add_int shift_of runs
ls_bit-zero = refl

low_mask : (s i : ℕ) → bit_at (2 ^ s - 1) i ≡ (if ltb i s then 1 else 0)
unfolding bit_at
low_mask zero zero = refl
low_mask zero (suc i) = ground (arith, bit_at-zero i)
low_mask (suc s) zero = ground (arith, pow-suc 2 s, one-le-pow s 2 (omega arith))
low_mask (suc s) (suc i) =
    let half : (2 ^ suc s - 1) / 2 ≡ 2 ^ s - 1 =
      omega (arith, pow-suc 2 s, one-le-pow s 2 (omega arith)) in
    rw half (ground (arith, low_mask s i))

-- The bits of a word from a position on.
pub bit_at-from_bit :
    (x s i : ℕ)
    → s ≤ 32
    → i < 32
    → bit_at (bit_and x (from_bit s)) i ≡ (if ltb i s then 0 else bit_at x i)
bit_at-from_bit x s i hs hi =
    let some_power = one-le-pow s 2 (omega arith) in
    let power = pow-le-pow_right {n = 2} (omega arith) {i = s} {j = 32} hs in
    let same : from_bit s ≡ 2 ^ 32 - 1 - (2 ^ s - 1) = omega (arith, some_power, power) in
    ground (
      arith,
      bit_at-bit_and x (from_bit s) i,
      ap (λ m. bit_at m i) same,
      bit_at-complement 32 (2 ^ s - 1) i (omega (arith, power, some_power)) hi,
      low_mask s i,
      bit_at-le_one x i,
    )
