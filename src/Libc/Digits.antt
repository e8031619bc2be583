-- ===== src/Libc/Digits.antt =====
-- The loop of `strtoul` against the value of the digits, which no word bounds.
use xmertl.Base.{
  ℕ, suc, ◌+◌, ◌*◌, ◌/◌, ◌%◌, ◌^◌, ◌≤◌, ◌≡◌, ◌∙◌, ap, refl, Bool, true, false, List, [], ◌∷◌, inl,
  inr, arith,
}
use xmertl.Base.{ltb, leb, if◌then◌else◌, Bool-cases}
use xmertl.Libc.Number.{digit, scan, ulong_max}
use native.Mathlib.Nat.{add-mul, mul_assoc, le-mul_of_pos_right}

-- The value of the digits that a string starts with, behind the value `acc`.
unfoldable pub numeral : ℕ → List ℕ → ℕ → ℕ
numeral base [] acc = acc
numeral base (c ∷ s) acc =
    let more = numeral base s (acc * base + digit c) in if leb base (digit c) then acc else more

-- How many they are.
unfoldable pub prefix_length : ℕ → List ℕ → ℕ
prefix_length base [] = 0
prefix_length base (c ∷ s) =
    let more = prefix_length base s in if leb base (digit c) then 0 else suc more

-- The product of a word, a byte at a time.
product :
    (v base d : ℕ)
    → (v / 256 * base + (v % 256 * base + d) / 256 ≡ (v * base + d) / 256)
      × ((v % 256 * base + d) % 256 ≡ (v * base + d) % 256)
product v base d =
    let parts : v ≡ 256 * (v / 256) + v % 256 = omega arith in
    let e : v * base ≡ 256 * (v / 256 * base) + v % 256 * base =
      ap (λ x. x * base) parts
      ∙ add-mul (256 * (v / 256)) (v % 256) base
      ∙ ap (λ x. x + v % 256 * base) (mul_assoc 256 (v / 256) base) in
    (omega (arith, e), omega (arith, e))

le-numeral : (base acc : ℕ) (s : List ℕ) → 1 ≤ base → acc ≤ numeral base s acc
unfolding numeral
le-numeral base acc [] h = omega arith
le-numeral base acc (c ∷ s) h = ground (
  arith,
  le-numeral base (acc * base + digit c) s h,
  le-mul_of_pos_right {m = base} acc (omega arith),
)

pub scan-nptr :
    (base : ℕ) (s : List ℕ) (v : ℕ) (overflow : Bool) (i : ℕ)
    → (scan base s v overflow i).nptr ≡ i + prefix_length base s
unfolding scan prefix_length
scan-nptr base [] v overflow i = omega arith
scan-nptr base (c ∷ s) v overflow i = elim (Bool-cases (leb base (digit c))) [
  | inl stop ↦ rw (scan, stop, prefix_length) (omega arith)
  | inr more ↦ rw (scan, more, prefix_length) (omega (arith, scan-nptr base s _ _ (i + 1)))
]

-- An overflow is not forgotten.
scan_overflowed : (base : ℕ) (s : List ℕ) (v i : ℕ) → (scan base s v true i).overflow ≡ true
unfolding scan
scan_overflowed base [] v i = refl
scan_overflowed base (c ∷ s) v i = elim (Bool-cases (leb base (digit c))) [
  | inl stop ↦ rw (scan, stop) refl
  | inr more ↦ rw (scan, more) (scan_overflowed base s _ (i + 1))
]

-- A digit is taken as it should be, modulo the word.
scan_step :
    (base c : ℕ) (s : List ℕ) (v i : ℕ)
    → leb base (digit c) ≡ false
    → scan base (c ∷ s) v false i
      ≡ scan base s ((v * base + digit c) % 2 ^ 32) (ltb ulong_max (v * base + digit c)) (i + 1)
unfolding scan
scan_step base c s v i more =
    let t = v * base + digit c in
    let parts = product v base (digit c) in
    let value : (t / 256 * 256 + t % 256) % 2 ^ 32 ≡ t % 2 ^ 32 = omega arith in
    let over : ltb 16777215 (t / 256) ≡ ltb ulong_max t = ground arith in
    rw (scan, more, parts.0, parts.1, value, over) refl

pub scan_lem :
    (base : ℕ) (s : List ℕ) (v i : ℕ)
    → 1 ≤ base
    → v ≤ ulong_max
    → ((scan base s v false i).overflow ≡ ltb ulong_max (numeral base s v))
      × ((if (scan base s v false i).overflow then 0 else (scan base s v false i).v)
          ≡ (if ltb ulong_max (numeral base s v) then 0 else numeral base s v))
unfolding scan numeral
scan_lem base [] v i h le = (ground (arith, le), ground (arith, le))
scan_lem base (c ∷ s) v i h le = elim (Bool-cases (leb base (digit c))) [
  | inl stop ↦ rw (scan, numeral, stop) (ground (arith, le), ground (arith, le))
  | inr more ↦
      let t = v * base + digit c in
      elim (Bool-cases (ltb ulong_max t)) [
        | inl over ↦
            let past : ltb ulong_max (numeral base s t) ≡ true =
              ground (arith, over, le-numeral base t s h) in
            rw (scan_step base c s v i more, numeral, more, over, past)
              (
                scan_overflowed base s _ (i + 1),
                rw (scan_overflowed base s (t % 2 ^ 32) (i + 1)) refl,
              )
        | inr fits ↦
            let same : t % 2 ^ 32 ≡ t = ground (arith, fits) in
            rw (scan_step base c s v i more, numeral, more, fits, same)
              (scan_lem base s t (i + 1) h (ground (arith, fits)))
      ]
]
