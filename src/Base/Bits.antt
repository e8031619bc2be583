-- ===== src/Base/Bits.antt =====
-- Words as rows of bits. `bitmap_t` and `unsigned long` are 32 bits wide on the i386 target, so
-- `~ x` is `2 ^ 32 - 1 - x`; a bit of a word is the digit 0 or 1 that `bit_at` reads.
use xmertl.Base.Words.{bit_or_step, bit_and_step}
use xmertl.Base.Tests.{◌==◌, if◌then◌else◌}
use Prim.Native.Nat.{ℕ, zero, suc, ◌-◌, ◌*◌, ◌/◌, ◌%◌, ◌^◌, ◌≤◌, ◌<◌, min, max, bit_and, bit_or}
use Prim.Native.Nat.{bit_and-bitwise}
use mathlib.Core.Path.{◌≡◌, refl, ap, ◌∙◌}
use native.Mathlib.Nat.{pow-suc}
use native.Mathlib.Omega.{arith}

unfoldable pub bit_at : ℕ → ℕ → ℕ
bit_at x zero = x % 2
bit_at x (suc i) = bit_at (x / 2) i

pub bit_at-le_one : (x i : ℕ) → bit_at x i ≤ 1
unfolding bit_at
bit_at-le_one x zero = omega arith
bit_at-le_one x (suc i) = bit_at-le_one (x / 2) i

pub bit_at-bit_or : (x y i : ℕ) → bit_at (bit_or x y) i ≡ max (bit_at x i) (bit_at y i)
unfolding bit_at
bit_at-bit_or x y zero = omega (arith, bit_or_step x y)
bit_at-bit_or x y (suc i) =
    let half : bit_or x y / 2 ≡ bit_or (x / 2) (y / 2) = omega (arith, bit_or_step x y) in
    rw half (bit_at-bit_or (x / 2) (y / 2) i)

pub bit_at-bit_and : (x y i : ℕ) → bit_at (bit_and x y) i ≡ min (bit_at x i) (bit_at y i)
unfolding bit_at
bit_at-bit_and x y zero = omega (arith, bit_and_step x y)
bit_at-bit_and x y (suc i) =
    let half : bit_and x y / 2 ≡ bit_and (x / 2) (y / 2) = omega (arith, bit_and_step x y) in
    rw half (bit_at-bit_and (x / 2) (y / 2) i)

pub zero-bit_and : (y : ℕ) → bit_and 0 y ≡ 0
zero-bit_and y = bit_and-bitwise 0 y

bit_and-zero_fuel : (n x : ℕ) → x ≤ n → bit_and x 0 ≡ 0
bit_and-zero_fuel n zero h = refl
bit_and-zero_fuel zero (suc x) h = absurd (omega arith)
bit_and-zero_fuel (suc n) (suc x) h =
    omega (arith, bit_and_step (suc x) 0, bit_and-zero_fuel n (suc x / 2) (omega arith))

pub bit_and-zero : (x : ℕ) → bit_and x 0 ≡ 0
bit_and-zero x = bit_and-zero_fuel x x (omega arith)

pub bit_at-zero : (i : ℕ) → bit_at 0 i ≡ 0
unfolding bit_at
bit_at-zero zero = refl
bit_at-zero (suc i) = bit_at-zero i

pub bit_at-complement : (k x i : ℕ) → x < 2 ^ k → i < k → bit_at (2 ^ k - 1 - x) i ≡ 1 - bit_at x i
unfolding bit_at
bit_at-complement zero x i h p = absurd (omega arith)
bit_at-complement (suc k) x zero h p = omega (arith, pow-suc 2 k)
bit_at-complement (suc k) x (suc i) h p =
    let half : (2 ^ suc k - 1 - x) / 2 ≡ 2 ^ k - 1 - x / 2 = omega (arith, pow-suc 2 k) in
    rw half (bit_at-complement k (x / 2) i (omega (arith, pow-suc 2 k)) (omega arith))

pub bit_at-two_pow : (k i : ℕ) → bit_at (2 ^ k) i ≡ (if k == i then 1 else 0)
unfolding bit_at
bit_at-two_pow zero zero = refl
bit_at-two_pow zero (suc i) = ground (arith, bit_at-zero i)
bit_at-two_pow (suc k) zero = ground (arith, pow-suc 2 k)
bit_at-two_pow (suc k) (suc i) =
    let half : 2 ^ suc k / 2 ≡ 2 ^ k = omega (arith, pow-suc 2 k) in
    rw half (bit_at-two_pow k i ∙ ground arith)

pub bit_and-two_pow : (x i : ℕ) → bit_and x (2 ^ i) ≡ bit_at x i * 2 ^ i
unfolding bit_at
bit_and-two_pow x zero = omega (arith, bit_and_step x 1, bit_and-zero (x / 2))
bit_and-two_pow x (suc i) = omega (
  arith,
  bit_and_step x (2 ^ suc i),
  bit_and_half,
  pow-suc 2 i,
  bit_and-two_pow (x / 2) i,
  ap (λ (t : ℕ). bit_at (x / 2) i * t) (pow-suc 2 i),
)
  where
    bit_and_half : bit_and (x / 2) (2 ^ suc i / 2) ≡ bit_and (x / 2) (2 ^ i)
    bit_and_half = ap (bit_and (x / 2)) (omega (arith, pow-suc 2 i))

-- A word with no bit is 0.
pub eq_zero_of_bits : (k x : ℕ) → x < 2 ^ k → ((i : ℕ) → i < k → bit_at x i ≡ 0) → x ≡ 0
unfolding bit_at
eq_zero_of_bits zero x h bits = omega arith
eq_zero_of_bits (suc k) x h bits =
    let half : x / 2 ≡ 0 =
      eq_zero_of_bits k (x / 2) (omega (arith, pow-suc 2 k)) (λ i p. bits (suc i) (omega arith)) in
    omega (arith, bits 0 (omega arith))

pub bit_or-lt : (k x y : ℕ) → x < 2 ^ k → y < 2 ^ k → bit_or x y < 2 ^ k
bit_or-lt zero x y p q =
    let x0 : x ≡ 0 = omega arith in let y0 : y ≡ 0 = omega arith in rw (x0, y0) (omega arith)
bit_or-lt (suc k) x y p q = omega (
  arith,
  pow-suc 2 k,
  bit_or_step x y,
  bit_or-lt k (x / 2) (y / 2) (omega (arith, pow-suc 2 k)) (omega (arith, pow-suc 2 k)),
)

bit_and-le_fuel : (n x y : ℕ) → x ≤ n → bit_and x y ≤ x
bit_and-le_fuel zero zero y h = omega (arith, bit_and_step 0 y, zero-bit_and (y / 2))
bit_and-le_fuel zero (suc x) y h = absurd (omega arith)
bit_and-le_fuel (suc n) zero y h = omega (arith, bit_and_step 0 y, zero-bit_and (y / 2))
bit_and-le_fuel (suc n) (suc x) y h =
    omega (arith, bit_and_step (suc x) y, bit_and-le_fuel n (suc x / 2) (y / 2) (omega arith))

pub bit_and-le : (x y : ℕ) → bit_and x y ≤ x
bit_and-le x y = bit_and-le_fuel x x y (omega arith)
