-- ===== src/Libc/Parse.antt =====
-- `strtoul` on a number in a base: what it returns, and where it stops.
use xmertl.Base.{ℕ, Bool, true, false, List, ◌∷◌}

-- The number with its sign.
abbrev pub signed : Bool → List ℕ → List ℕ
signed true s = 45 ∷ s
signed false s = s

abbrev pub sign_length : Bool → ℕ
sign_length true = 1
sign_length false = 0
