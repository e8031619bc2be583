-- ===== src/Pthread/Lists.antt =====
-- Lists of threads: who stands in them, and that nobody does twice.
use xmertl.Base.{ℕ, ◌≡◌, refl, ◌&&◌, ◌||◌, Bool, true, false, not, arith}
use xmertl.Base.{List, [], ◌∷◌, ◌++◌, ◌==◌}
use xmertl.Pthread.{erase, is_empty}

unfoldable pub mem : ℕ → List ℕ → Bool
mem t [] = false
mem t (u ∷ list) = (u == t) || mem t list

unfoldable pub distinct : List ℕ → Bool
unfolding mem
distinct [] = true
distinct (u ∷ list) = not (mem u list) && distinct list

pub mem-append : (t : ℕ) (xs ys : List ℕ) → mem t (xs ++ ys) ≡ (mem t xs || mem t ys)
unfolding mem
mem-append t [] ys = refl
mem-append t (u ∷ xs) ys = ground (arith, mem-append t xs ys)

pub distinct-snoc :
    (t : ℕ) (xs : List ℕ) → mem t xs ≡ false → distinct xs ≡ true → distinct (xs ++ (t ∷ [])) ≡ true
unfolding mem distinct
distinct-snoc t [] h d = refl
distinct-snoc t (u ∷ xs) h d = ground (arith, mem-append u xs (t ∷ []), distinct-snoc t xs)

pub mem-erase :
    (t u : ℕ) (list : List ℕ)
    → distinct list ≡ true
    → mem u (erase t list) ≡ (not (u == t) && mem u list)
unfolding mem erase distinct
mem-erase t u [] d = ground arith
mem-erase t u (v ∷ list) d = ground (arith, mem-erase t u list, d)

pub distinct-erase : (t : ℕ) (list : List ℕ) → distinct list ≡ true → distinct (erase t list) ≡ true
unfolding distinct erase mem
distinct-erase t [] d = refl
distinct-erase t (u ∷ list) d = ground (arith, distinct-erase t list, mem-erase t u list, d)

pub is_empty-snoc : (t : ℕ) (xs : List ℕ) → is_empty (xs ++ (t ∷ [])) ≡ false
is_empty-snoc t [] = refl
is_empty-snoc t (u ∷ xs) = refl
