-- ===== src/Tlsf/Fit.antt =====
-- The classes of block sizes: their bounds, and that a block found for a request is large enough.
use xmertl.Base.{
  ℕ, ◌+◌, ◌-◌, ◌*◌, ◌/◌, ◌%◌, ◌^◌, ◌≤◌, ◌<◌, ◌≡◌, ◌∙◌, ap, refl, true, false, inl, inr, ◌⊎◌, arith,
}
use xmertl.Base.{ltb, leb, ◌==◌, Bool-cases}
use xmertl.Tlsf.{
  first_level, Mapped, mapping_insert, mapping_search, real_fli, max_sli, small_block, max_log2_sli,
}
use xmertl.Tlsf.Digits.{IsHighest, first_level_lem, two_pow-add}
use native.Mathlib.Nat.{
  pow-le-pow_right, one-le-pow, le-div_iff_mul-le, div-lt_iff_lt-mul, lt-div-mul-add,
}

-- The first level of a larger block, and its width `q` of a class there.
pub record IsClassed (x : ℕ) : Type 0 where
  pub level : 7 ≤ first_level x
  pub low : 2 ^ first_level x ≤ x
  pub high : x < 2 ^ (first_level x + 1)
  pub width : 2 ^ first_level x ≡ 2 ^ (first_level x - 5) * 32
  pub classes : 32 ≤ x / 2 ^ (first_level x - 5)
  pub last : x / 2 ^ (first_level x - 5) < 64

pub lower_level : (f g x : ℕ) → 2 ^ f ≤ x → x < 2 ^ (g + 1) → f ≤ g
lower_level f g x low high = elim (Bool-cases (leb f g)) [
  | inl e ↦ ground arith
  | inr e ↦
      absurd
        (omega (arith, pow-le-pow_right {n = 2} (omega arith) {i = g + 1} {j = f} (ground arith)))
]

pub class_lem : (x : ℕ) → 128 ≤ x → x < 2 ^ 32 → IsClassed x
unfolding IsHighest
class_lem x h h' =
    let (low, high) = first_level_lem x (omega arith) h' in
    let f = first_level x in
    let level : 7 ≤ f = lower_level 7 f x h high in
    let q = 2 ^ (f - 5) in
    let some_q = one-le-pow (f - 5) 2 (omega arith) in
    let split : f ≡ f - 5 + 5 = omega arith in
    let split' : f + 1 ≡ f - 5 + 6 = omega arith in
    let width : 2 ^ f ≡ q * 32 = ap (λ e. 2 ^ e) split ∙ two_pow-add (f - 5) 5 in
    let width' : 2 ^ (f + 1) ≡ q * 64 = ap (λ e. 2 ^ e) split' ∙ two_pow-add (f - 5) 6 in
    record {
      level = level;
      low = low;
      high = high;
      width = width;
      classes = (le-div_iff_mul-le some_q).1 (omega arith);
      last = (div-lt_iff_lt-mul some_q).1 (omega arith);
    }

-- The class of a block below 2 ^ 30 bytes is in the two tables of free blocks.
pub mapping_insert-IsInRange :
    (r : ℕ) → r < 2 ^ 30 → ((mapping_insert r).fl < real_fli) × ((mapping_insert r).sl < max_sli)
unfolding mapping_insert
mapping_insert-IsInRange r h = elim (Bool-cases (ltb r small_block)) [
  | inl e ↦ rw e (omega arith, ground arith)
  | inr e ↦
      let c = class_lem r (ground arith) (omega arith) in
      let f = first_level r in
      let below : f ≤ 29 = lower_level f 29 r c.low h in
      rw e (omega arith, omega (arith, c.classes, c.last))
]

-- A class is not below another one: it comes later in the order of the search.
abbrev pub IsNotBelow : Mapped → Mapped → Type 0
IsNotBelow found wanted = (wanted.fl < found.fl) ⊎ ((wanted.fl ≡ found.fl) × (wanted.sl ≤ found.sl))

-- The size that `MAPPING_SEARCH` looks up for a larger request.
abbrev pub raised : ℕ → ℕ
raised r = r + (2 ^ (first_level r - max_log2_sli) - 1)

pub raised-lt : (r : ℕ) → 128 ≤ r → r < 2 ^ 29 → raised r < 2 ^ 30
raised-lt r h h' = let c = class_lem r h (omega arith) in omega (arith, c.low, c.width)

-- A block of the class of `raised r`, or of a later one of the same level, has `r` bytes.
same_level :
    (r s : ℕ)
    → 128 ≤ r
    → r < 2 ^ 29
    → let q = 2 ^ (first_level (raised r) - 5) in raised r / q ≤ s / q → r ≤ s
same_level r s h h' le =
    let c = class_lem r h (omega arith) in
    let r1 = raised r in
    let c1 = class_lem r1 (omega arith) (omega (arith, raised-lt r h h')) in
    let f = first_level r1 in
    let some_q = one-le-pow (f - 5) 2 (omega arith) in
    let reached : r1 / 2 ^ (f - 5) * 2 ^ (f - 5) ≤ s = (le-div_iff_mul-le some_q).0 le in
    let up : first_level r ≤ f = lower_level (first_level r) f r1 (omega (arith, c.low)) c1.high in
    elim (Bool-cases (first_level r == f)) [
      | inl e ↦
          let same : first_level r ≡ f = ground arith in
          let close = lt-div-mul-add {a = r1} {b = 2 ^ (f - 5)} some_q in
          let width : 2 ^ (first_level r - 5) ≡ 2 ^ (f - 5) = ap (λ e. 2 ^ (e - 5)) same in
          omega (arith, c.low, c.width)
      | inr e ↦
          let next : first_level r + 1 ≤ f = ground arith in
          let power = pow-le-pow_right {n = 2} (omega arith) {i = first_level r + 1} {j = f} next in
          let least =
            (le-div_iff_mul-le {x = 32} {y = s} some_q).0 (omega (arith, c1.classes, le)) in
          omega (arith, c.high, c1.width)
    ]

pub small_insert :
    (s : ℕ) → ltb s 128 ≡ true → ((mapping_insert s).fl ≡ 0) × ((mapping_insert s).sl ≡ s / 4)
unfolding mapping_insert
small_insert s e = rw e (refl, refl)

pub small_search :
    (r : ℕ) → ltb r 128 ≡ true → ((mapping_search r).fl ≡ 0) × ((mapping_search r).sl ≡ r / 4)
unfolding mapping_search
small_search r e = rw e (refl, refl)

pub large_insert :
    (s : ℕ)
    → ltb s 128 ≡ false
    → ((mapping_insert s).fl ≡ first_level s - 6)
      × ((mapping_insert s).sl ≡ s / 2 ^ (first_level s - 5) - 32)
unfolding mapping_insert
large_insert s e = rw e (refl, refl)

pub large_search :
    (r : ℕ)
    → ltb r 128 ≡ false
    → raised r % 2 ^ 32 ≡ raised r
    → ((mapping_search r).fl ≡ first_level (raised r) - 6)
      × ((mapping_search r).sl ≡ raised r / 2 ^ (first_level (raised r) - 5) - 32)
unfolding mapping_search
large_search r e word = rw (e, word) (refl, refl)

-- A request of a multiple of four bytes below 2 ^ 29 is looked up in a class, such that every block
-- of that class or of a later one has the bytes that were asked for.
pub mapping_search-fits :
    (r s : ℕ)
    → r % 4 ≡ 0
    → r < 2 ^ 29
    → s < 2 ^ 32
    → IsNotBelow (mapping_insert s) (mapping_search r)
    → r ≤ s
mapping_search-fits r s four hr hs found = elim (Bool-cases (ltb r 128)) [
  | inl a ↦ elim (Bool-cases (ltb s 128)) [
    | inl b ↦ ground (arith, small_search r a, small_insert s b, found)
    | inr b ↦ ground arith
  ]
  | inr a ↦
      let r1 = raised r in
      let word : r1 % 2 ^ 32 ≡ r1 = omega (arith, raised-lt r (ground arith) hr) in
      elim (Bool-cases (ltb s 128)) [
        | inl b ↦
            let level =
              (class_lem r1 (ground arith) (omega (arith, raised-lt r (ground arith) hr))).level in
            ground (arith, large_search r a word, small_insert s b, found, level)
        | inr b ↦
            let c1 = class_lem r1 (ground arith) (omega (arith, raised-lt r (ground arith) hr)) in
            let c = class_lem s (ground arith) hs in
            let wanted = large_search r a word in
            let stored = large_insert s b in
            elim found [
              | inl higher ↦
                  let next : first_level r1 + 1 ≤ first_level s = omega (arith, wanted, stored) in
                  let power =
                    pow-le-pow_right {n = 2} (omega arith) {i = first_level r1 + 1}
                      {j = first_level s} next in
                  omega (arith, c1.high, c.low)
              | inr (level, line) ↦
                  let same : first_level s ≡ first_level r1 =
                    omega (arith, wanted, stored, c1.level, c.level) in
                  let line' : s / 2 ^ (first_level s - 5) ≡ s / 2 ^ (first_level r1 - 5) =
                    ap (λ e. s / 2 ^ (e - 5)) same in
                  same_level r s (ground arith) hr
                    (omega (arith, wanted, stored, c1.classes, c.classes))
            ]
      ]
]
