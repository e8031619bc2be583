-- ===== src/Base/Masks.antt =====
-- Masks of the low bits of a word.
use xmertl.Base.Words.{bit_and_step}
use xmertl.Base.Bits.{bit_and-zero}
use Prim.Native.Nat.{ℕ, zero, suc, ◌+◌, ◌-◌, ◌*◌, ◌/◌, ◌%◌, ◌^◌, ◌<◌, bit_and}
use mathlib.Core.Path.{◌≡◌, sym, ◌∙◌}
use native.Mathlib.Nat.{pow-suc, one-le-pow, div-add-mod, div-div-eq-div-mul, mul_assoc}
use native.Mathlib.Omega.{arith}

pub mod-double : (x m : ℕ) → 0 < m → x % (2 * m) ≡ x % 2 + 2 * (x / 2 % m)
mod-double x m h =
    let same : x / (2 * m) ≡ x / 2 / m = sym (div-div-eq-div-mul x 2 m) in
    let split : 2 * m * (x / 2 / m) ≡ 2 * (m * (x / 2 / m)) = mul_assoc 2 m (x / 2 / m) in
    let whole = div-add-mod x (2 * m) in
    let halves = div-add-mod (x / 2) m in omega (arith, rw same at whole)

-- `x & 0x1f` and the like are remainders.
pub bit_and-low : (k x : ℕ) → bit_and x (2 ^ k - 1) ≡ x % 2 ^ k
bit_and-low zero x = bit_and-zero x ∙ omega arith
bit_and-low (suc k) x =
    let some_k = one-le-pow k 2 (omega arith) in
    let double : 2 ^ suc k ≡ 2 * 2 ^ k = omega (arith, pow-suc 2 k) in
    let half : (2 ^ suc k - 1) / 2 ≡ 2 ^ k - 1 = omega (arith, pow-suc 2 k) in
    let odd : (2 ^ suc k - 1) % 2 ≡ 1 = omega (arith, pow-suc 2 k) in
    let rest : bit_and (x / 2) ((2 ^ suc k - 1) / 2) ≡ x / 2 % 2 ^ k =
      rw half (bit_and-low k (x / 2)) in
    let whole : x % 2 ^ suc k ≡ x % 2 + 2 * (x / 2 % 2 ^ k) =
      rw double (mod-double x (2 ^ k) some_k) in
    omega (arith, bit_and_step x (2 ^ suc k - 1))
