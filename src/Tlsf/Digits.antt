-- ===== src/Tlsf/Digits.antt =====
-- `ms_bit` finds the highest bit of a word.
use xmertl.Base.{
  ℕ, zero, suc, ◌+◌, ◌-◌, ◌*◌, ◌/◌, ◌^◌, ◌≤◌, ◌<◌, ◌≡◌, ◌∙◌, refl, inl, inr, List, ◌++◌, arith,
}
use xmertl.Base.{ltb, get_or, replicate, Bool-cases}
use xmertl.Base.Ints.{ℤ, pos, negsuc}
use xmertl.Tlsf.{runs, table, add_int, shift_of, ms_bit, first_level}
use mathlib.Core.Path.{subst}
use native.Mathlib.Nat.{mul_assoc, pow-suc, one-le-pow, le-div_iff_mul-le, div-lt_iff_lt-mul}

-- `t` is the position of the highest bit of `x`.
unfoldable pub IsHighest : ℕ → ℕ → Type 0
IsHighest x t = (2 ^ t ≤ x) × (x < 2 ^ (t + 1))

in_run : (n k : ℕ) (v d : ℤ) (rest : List ℤ) → k < n → get_or (replicate n v ++ rest) k d ≡ v
in_run zero k v d rest h = absurd (omega arith)
in_run (suc n) zero v d rest h = refl
in_run (suc n) (suc k) v d rest h = in_run n k v d rest (omega arith)

past_run :
    (n k m : ℕ) (v d : ℤ) (rest : List ℤ)
    → k ≡ n + m
    → get_or (replicate n v ++ rest) k d ≡ get_or rest m d
past_run zero k m v d rest e = let same : k ≡ m = omega arith in rw same refl
past_run (suc n) zero m v d rest e = absurd (omega arith)
past_run (suc n) (suc k) m v d rest e = past_run n k m v d rest (omega arith)

two_pow-one : (t : ℕ) → 2 ^ (t + 1) ≡ 2 ^ t * 2
two_pow-one t = let same : t + 1 ≡ suc t = omega arith in rw same (pow-suc 2 t)

get_or-runs :
    (left t k : ℕ)
    → k + 2 ^ t < 2 ^ (t + left)
    → (v : ℕ) × (get_or (runs left t) k (negsuc 0) ≡ pos v) × IsHighest (k + 2 ^ t) v
unfolding runs IsHighest
get_or-runs zero t k h = let same : t + 0 ≡ t = omega arith in absurd (omega (arith, rw same at h))
get_or-runs (suc left) t k h = elim (Bool-cases (ltb k (2 ^ t))) [
  | inl e ↦ (
    t,
    in_run (2 ^ t) k (pos t) (negsuc 0) (runs left (t + 1)) (ground arith),
    (omega arith, ground (arith, two_pow-one t)),
  )
  | inr e ↦
      let later : 2 ^ t ≤ k = ground arith in
      let double = two_pow-one t in
      let next : t + suc left ≡ t + 1 + left = omega arith in
      let same : k - 2 ^ t + 2 ^ (t + 1) ≡ k + 2 ^ t = omega (arith, double) in
      let bound : k - 2 ^ t + 2 ^ (t + 1) < 2 ^ (t + 1 + left) = rw (same, ← next) h in
      let (v, found, highest) = get_or-runs left (t + 1) (k - 2 ^ t) bound in
      (
        v,
        past_run (2 ^ t) k (k - 2 ^ t) (pos t) (negsuc 0) (runs left (t + 1)) (omega arith) ∙ found,
        rw (← same) highest,
      )
]

table_lem :
    (k : ℕ) → 0 < k → k < 256 → (v : ℕ) × (get_or table k (negsuc 0) ≡ pos v) × IsHighest k v
unfolding table
table_lem zero h h' = absurd (omega arith)
table_lem (suc k) h h' =
    let (v, found, highest) = get_or-runs 8 0 k (omega arith) in
    let same : k + 2 ^ 0 ≡ suc k = omega arith in
    (v, found, subst (λ y. IsHighest y v) same highest)

pub two_pow-add : (t a : ℕ) → 2 ^ (t + a) ≡ 2 ^ t * 2 ^ a
two_pow-add t zero = let same : t + 0 ≡ t = omega arith in rw same (omega arith)
two_pow-add t (suc a) =
    let same : t + suc a ≡ suc (t + a) = omega arith in
    rw (same, pow-suc 2 (t + a), pow-suc 2 a, two_pow-add t a) (mul_assoc (2 ^ t) (2 ^ a) 2)

-- The digits that were shifted away count.
IsHighest-shift : (x a t : ℕ) → IsHighest (x / 2 ^ a) t → IsHighest x (t + a)
unfolding IsHighest
IsHighest-shift x a t (low, high) =
    let one = one-le-pow a 2 (omega arith) in
    let next : t + a + 1 ≡ t + 1 + a = omega arith in
    (
      rw (two_pow-add t a) ((le-div_iff_mul-le one).0 low),
      rw (next, two_pow-add (t + 1) a) ((div-lt_iff_lt-mul one).0 high),
    )

add_int-pos : (v a : ℕ) → add_int (pos v) a ≡ pos (v + a)
unfolding add_int
add_int-pos v a = refl

shifted : (x : ℕ) → 0 < x → x < 2 ^ 32 → (0 < x / 2 ^ shift_of x) × (x / 2 ^ shift_of x < 256)
unfolding shift_of
shifted x h h' = (ground arith, ground arith)

-- `ms_bit` gives the position of the highest bit of a word that is not 0.
pub ms_bit_lem : (x : ℕ) → 0 < x → x < 2 ^ 32 → (t : ℕ) × (ms_bit x ≡ pos t) × IsHighest x t
unfolding ms_bit
ms_bit_lem x h h' =
    let a = shift_of x in
    let (v, found, highest) = table_lem (x / 2 ^ a) (shifted x h h').0 (shifted x h h').1 in
    (v + a, rw found (add_int-pos v a), IsHighest-shift x a v highest)

pub first_level_lem : (x : ℕ) → 0 < x → x < 2 ^ 32 → IsHighest x (first_level x)
first_level_lem x h h' = let (t, found, highest) = ms_bit_lem x h h' in rw found highest
