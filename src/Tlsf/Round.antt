-- ===== src/Tlsf/Round.antt =====
-- What `malloc_ex` rounds a request to, and that a block that is found has as many bytes.
use xmertl.Base.{
  ℕ, zero, suc, ◌+◌, ◌-◌, ◌*◌, ◌/◌, ◌%◌, ◌^◌, ◌≤◌, ◌<◌, ◌≡◌, ◌∙◌, ap, bit_and, inl, inr, false,
  arith,
}
use xmertl.Base.{ltb, leb, ◌==◌, Bool-cases}
use xmertl.Base.Words.{bit_and_step}
use xmertl.Base.Masks.{bit_and-low, mod-double}
use xmertl.Bitmap.{complement}
use xmertl.Tlsf.{mapping_insert, mapping_search, first_level}
use xmertl.Tlsf.Fit.{
  class_lem, raised, raised-lt, IsNotBelow, mapping_search-fits, small_insert, large_insert,
  large_search, lower_level,
}
use xmertl.Tlsf.Digits.{two_pow-add}
use xmertl.Tlsf.Blocks.{roundup_size}
use native.Mathlib.Nat.{
  pow-suc, one-le-pow, pow-le-pow_right, le-div_iff_mul-le, div-lt_iff_lt-mul, mod-eq_of_lt, mod-lt,
  div-add-mod, mul_assoc, mul_comm, mul-le-mul_left, mul-le-mul_right,
}

-- The word without its low bits.
pub bit_and-high : (w k x : ℕ) → k ≤ w → x < 2 ^ w → bit_and x (2 ^ w - 2 ^ k) ≡ x - x % 2 ^ k
bit_and-high w zero x h lt =
    let same : x % 2 ^ w ≡ x = mod-eq_of_lt lt in
    let none_left : x % 1 ≡ 0 = omega arith in
    let e : bit_and x (2 ^ w - 1) ≡ x = bit_and-low w x ∙ same in e ∙ omega (arith, none_left)
bit_and-high zero (suc k) x h lt = absurd (omega (arith, h))
bit_and-high (suc w) (suc k) x h lt =
    let p = pow-suc 2 w in
    let q = pow-suc 2 k in
    let q' : 2 ^ suc k ≡ 2 * 2 ^ k = omega (arith, q) in
    let half : (2 ^ suc w - 2 ^ suc k) / 2 ≡ 2 ^ w - 2 ^ k = omega (arith, p, q) in
    let e : bit_and (x / 2) ((2 ^ suc w - 2 ^ suc k) / 2) ≡ x / 2 - x / 2 % 2 ^ k =
      ap (bit_and (x / 2)) half
      ∙ bit_and-high w k (x / 2) (omega (arith, h)) (omega (arith, p, lt)) in
    let rest : x % 2 ^ suc k ≡ 2 * (x / 2 % 2 ^ k) + x % 2 =
      rw q' (mod-double x (2 ^ k) (one-le-pow k 2 (omega arith)) ∙ omega arith) in
    omega (arith, bit_and_step x (2 ^ suc w - 2 ^ suc k), e, p, q, rest)

pub roundup_size_lem :
    (r : ℕ)
    → r < 2 ^ 29
    → (r ≤ roundup_size r) × (roundup_size r < r + 8) × (roundup_size r % 8 ≡ 0)
unfolding roundup_size
roundup_size_lem r h =
    let word : (r + 7) % 2 ^ 32 ≡ r + 7 = omega (arith, h) in
    rw (roundup_size, word, bit_and-high 32 3 (r + 7) (omega arith) (omega (arith, h)))
      (omega (arith, h), omega (arith, h), omega (arith, h))

-- The size that is searched for, a multiple of the width of its class.
abbrev pub cut : ℕ → ℕ
cut r = raised r - raised r % 2 ^ (first_level r - 5)

module _ (r : ℕ) (large : 128 ≤ r) (hr : r < 2 ^ 29) where
  cut_lem : (r ≤ cut r) × (cut r ≡ 2 ^ (first_level r - 5) * (raised r / 2 ^ (first_level r - 5)))
  cut_lem =
      let some_q = one-le-pow (first_level r - 5) 2 (omega arith) in
      (
        omega (arith, mod-lt (raised r) some_q, some_q),
        omega (arith, div-add-mod (raised r) (2 ^ (first_level r - 5))),
      )

  cut-mod : r % 8 ≡ 0 → cut r % 8 ≡ 0
  cut-mod eight = elim (Bool-cases (leb (first_level r) 7)) [
    | inl first ↦
        let c = class_lem r large (omega (arith, hr)) in
        let same : first_level r ≡ 7 = ground (arith, first, c.level) in
        rw same (omega (arith, eight))
    | inr later ↦
        let k = first_level r - 8 in
        let split : first_level r - 5 ≡ 3 + k = ground (arith, later) in
        let power : 2 ^ (first_level r - 5) ≡ 8 * 2 ^ k = ap (λ e. 2 ^ e) split ∙ two_pow-add 3 k in
        let d = raised r / 2 ^ (first_level r - 5) in
        let e : cut r ≡ 8 * (2 ^ k * d) =
          cut_lem.1 ∙ ap (λ q. q * d) power ∙ mul_assoc 8 (2 ^ k) d in
        omega (arith, e)
  ]

  -- A block of the same line as `raised r`, or of a later one, has the size.
  cut-le_line :
      (s : ℕ) → let q = 2 ^ (first_level (raised r) - 5) in raised r / q ≤ s / q → cut r ≤ s
  cut-le_line s le =
      let r1 = raised r in
      let c = class_lem r large (omega (arith, hr)) in
      let c1 = class_lem r1 (omega (arith, large)) (omega (arith, raised-lt r large hr)) in
      let f = first_level r in
      let q = 2 ^ (f - 5) in
      let some_q = one-le-pow (f - 5) 2 (omega arith) in
      let f1 = first_level r1 in
      let q1 = 2 ^ (f1 - 5) in
      let some_q1 = one-le-pow (f1 - 5) 2 (omega arith) in
      let reached : r1 / q1 * q1 ≤ s = (le-div_iff_mul-le some_q1).0 le in
      let up : f ≤ f1 = lower_level f f1 r1 (omega (arith, c.low)) c1.high in
      elim (Bool-cases (f == f1)) [
        | inl e ↦
            let same : f ≡ f1 = ground (arith, e) in
            let width : q ≡ q1 = ap (λ e. 2 ^ (e - 5)) same in
            let line : r1 / q * q ≡ r1 / q1 * q1 = ap (λ w. r1 / w * w) width in
            omega (arith, cut_lem.1, line, reached, mul_comm q (r1 / q))
        | inr e ↦
            let power =
              pow-le-pow_right {n = 2} (omega arith) {i = f + 1} {j = f1} (ground (arith, e, up)) in
            let double : 2 ^ (f + 1) ≡ 2 ^ f * 2 = omega (arith, two_pow-add f 1) in
            let d : r1 / q < 65 =
              (div-lt_iff_lt-mul some_q).1 (omega (arith, c.high, c.width, double)) in
            let most : q * (r1 / q) ≤ q * 64 = mul-le-mul_left q (omega (arith, d)) in
            let least : 32 * q1 ≤ r1 / q1 * q1 = mul-le-mul_right q1 c1.classes in
            omega (arith, cut_lem.1, most, least, reached, c.width, c1.width, power, double)
      ]

  cut-le : (s : ℕ) → s < 2 ^ 30 → IsNotBelow (mapping_insert s) (mapping_search r) → cut r ≤ s
  cut-le s hs found =
      let r1 = raised r in
      let word : r1 % 2 ^ 32 ≡ r1 = omega (arith, raised-lt r large hr) in
      let c1 = class_lem r1 (omega (arith, large)) (omega (arith, raised-lt r large hr)) in
      let wanted = large_search r (ground (arith, large)) word in
      elim (Bool-cases (ltb s 128)) [
        | inl small ↦ absurd (ground (arith, small_insert s small, wanted, found, c1.level))
        | inr big ↦
            let c = class_lem s (ground (arith, big)) (omega (arith, hs)) in
            let stored = large_insert s big in
            elim found [
              | inl higher ↦
                  let power =
                    pow-le-pow_right {n = 2} (omega arith) {i = first_level r1 + 1}
                      {j = first_level s}
                      (omega (arith, higher, wanted, stored, c1.level, c.level)) in
                  omega (arith, c1.high, c.low, power)
              | inr (level, line) ↦
                  let same : first_level s ≡ first_level r1 =
                    omega (arith, level, wanted, stored, c1.level, c.level) in
                  let line' : s / 2 ^ (first_level s - 5) ≡ s / 2 ^ (first_level r1 - 5) =
                    ap (λ e. s / 2 ^ (e - 5)) same in
                  cut-le_line s (omega (arith, line, line', wanted, stored, c1.classes, c.classes))
            ]
      ]

large_search_r : (r : ℕ) → 128 ≤ r → r < 2 ^ 29 → (mapping_search r).r ≡ cut r
unfolding mapping_search
large_search_r r large hr =
    let c = class_lem r large (omega (arith, hr)) in
    let k = first_level r - 5 in
    let test : ltb r 128 ≡ false = ground (arith, large) in
    let word : raised r % 2 ^ 32 ≡ raised r = omega (arith, raised-lt r large hr) in
    let f : first_level r ≤ 29 = lower_level (first_level r) 29 r c.low (omega (arith, hr)) in
    let some_power = one-le-pow k 2 (omega arith) in
    let mask : complement (2 ^ k - 1) ≡ 2 ^ 32 - 2 ^ k = omega (arith, some_power) in
    let high =
      bit_and-high 32 k (raised r) (omega (arith, f)) (omega (arith, raised-lt r large hr)) in
    rw (test, word, mask) high

-- The size that is cut from the block is not below the request, and a multiple of 8, and every block
-- of the class that is searched or of a later one has it.
pub search_r :
    (r s : ℕ)
    → r % 8 ≡ 0
    → r < 2 ^ 29
    → s < 2 ^ 30
    → IsNotBelow (mapping_insert s) (mapping_search r)
    → (r ≤ (mapping_search r).r) × ((mapping_search r).r % 8 ≡ 0) × ((mapping_search r).r ≤ s)
search_r r s eight hr hs found = elim (Bool-cases (ltb r 128)) [
  | inl small ↦
      let same : (mapping_search r).r ≡ r = unfold mapping_search in ground (arith, small) in
      rw same (
        omega arith,
        eight,
        mapping_search-fits r s (omega (arith, eight)) hr (omega (arith, hs)) found,
      )
  | inr large ↦
      let big : 128 ≤ r = ground (arith, large) in
      let same : (mapping_search r).r ≡ cut r = large_search_r r big hr in
      rw same ((cut_lem r big hr).0, cut-mod r big hr eight, cut-le r big hr s hs found)
]
