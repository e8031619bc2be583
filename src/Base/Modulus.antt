-- ===== src/Base/Modulus.antt =====
-- Positions that go round an array of `s` entries.
use Prim.Native.Nat.{ℕ, ◌+◌, ◌-◌, ◌%◌, ◌≤◌, ◌<◌}
use mathlib.Core.Path.{◌≡◌}
use mathlib.Core.Logic.{◌⊎◌, inl, inr}
use native.Mathlib.Nat.{mod-lt, mod-eq_of_lt, mod-add-mod, mod-eq-sub-mod}
use native.Mathlib.Decide.{dec_lt}
use native.Mathlib.Omega.{arith}

-- `k < s` entries past `p`: either the end is not reached, or the place is `s` lower.
pub round :
    (s p k : ℕ)
    → 0 < s
    → k < s
    → ((p % s + k < s) × ((p + k) % s ≡ p % s + k))
      ⊎ ((s ≤ p % s + k) × ((p + k) % s + s ≡ p % s + k))
round s p k hs hk = elim (dec_lt (p % s + k) s) [
  | yes h ↦ inl (h, omega (arith, mod-add-mod p s k, mod-eq_of_lt h))
  | no h ↦ inr (
    omega arith,
    omega (
      arith,
      mod-add-mod p s k,
      mod-eq-sub-mod {n = p % s + k} {m = s} (omega arith),
      mod-eq_of_lt {n = p % s + k - s} {m = s} (omega (arith, mod-lt p hs)),
    ),
  )
]
