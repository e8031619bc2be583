-- ===== src/Base/Memory.antt =====
-- Arrays of bytes, and `memcpy` between two that do not overlap. `none` is an access out of range.
use xmertl.Base.Tests.{ltb, ◌==◌, if◌then◌else◌}
use xmertl.Base.Lists.{length, get_elem?, get_or, set, take, drop, length-set}
use Prim.Native.Nat.{ℕ, zero, suc, ◌+◌, ◌≤◌, ◌<◌}
use mathlib.Core.Path.{◌≡◌, refl, ap, ◌∙◌}
use mathlib.Core.Option.{Option, none, some}
use mathlib.Core.List.{List, [], ◌∷◌, ◌++◌}
use native.Mathlib.Omega.{arith}

infixl 5 ◌>>=◌
abbrev pub ◌>>=◌ {ℓ κ} : {A : Type ℓ} {B : Type κ} → Option A → (A → Option B) → Option B
none >>= f = none
some a >>= f = f a

unfoldable pub memcpy : ℕ → List ℕ → ℕ → List ℕ → ℕ → Option (List ℕ)
memcpy zero dst d src s = some dst
memcpy (suc n) dst d src s = do
  byte ← get_elem? src s
  let rest = memcpy n (set dst d byte) (d + 1) src (s + 1)
  if ltb d (length dst) then rest else none

module _ {ℓ} {A : Type ℓ} where
  pub get_elem?-eq-some :
      (xs : List A) (i : ℕ) (d : A) → i < length xs → get_elem? xs i ≡ some (get_or xs i d)
  get_elem?-eq-some [] i d h = absurd (omega arith)
  get_elem?-eq-some (x ∷ xs) zero d h = refl
  get_elem?-eq-some (x ∷ xs) (suc i) d h = get_elem?-eq-some xs i d (omega arith)

  pub get_elem?_past : (xs : List A) (i : ℕ) → length xs ≤ i → get_elem? xs i ≡ none
  get_elem?_past [] i h = refl
  get_elem?_past (x ∷ xs) zero h = absurd (omega arith)
  get_elem?_past (x ∷ xs) (suc i) h = get_elem?_past xs i (omega arith)

  pub get_or-set :
      (xs : List A) (i j : ℕ) (v d : A)
      → i < length xs
      → get_or (set xs i v) j d ≡ (if i == j then v else get_or xs j d)
  get_or-set [] i j v d h = absurd (omega arith)
  get_or-set (x ∷ xs) zero zero v d h = refl
  get_or-set (x ∷ xs) zero (suc j) v d h = ground arith
  get_or-set (x ∷ xs) (suc i) zero v d h = ground arith
  get_or-set (x ∷ xs) (suc i) (suc j) v d h = ground (arith, get_or-set xs i j v d)

  -- `f start`, `f (start + 1)`, ... : `n` entries.
  unfoldable pub slice : ℕ → ℕ → (ℕ → A) → List A
  slice start zero f = []
  slice start (suc n) f = f start ∷ slice (start + 1) n f

  pub slice_ext :
      (start n : ℕ) (f g : ℕ → A)
      → ((k : ℕ) → start ≤ k → k < start + n → f k ≡ g k)
      → slice start n f ≡ slice start n g
  unfolding slice
  slice_ext start zero f g h = refl
  slice_ext start (suc n) f g h = cc (
    h start (omega arith) (omega arith),
    slice_ext (start + 1) n f g (λ k p q. h k (omega arith) (omega arith)),
  )

  pub length-slice : (start n : ℕ) (f : ℕ → A) → length (slice start n f) ≡ n
  unfolding slice
  length-slice start zero f = refl
  length-slice start (suc n) f = ap suc (length-slice (start + 1) n f)

  pub slice-append :
      (start m n mid t : ℕ) (f : ℕ → A)
      → mid ≡ start + m
      → t ≡ m + n
      → slice start m f ++ slice mid n f ≡ slice start t f
  unfolding slice
  slice-append start zero n mid t f e e' =
      let same : mid ≡ start = omega arith in let whole : t ≡ n = omega arith in rw (same, whole)
  slice-append start (suc m) n mid zero f e e' = absurd (omega arith)
  slice-append start (suc m) n mid (suc t) f e e' =
      ap (◌∷◌ (f start)) (slice-append (start + 1) m n mid t f (omega arith) (omega arith))

  pub take-slice : (m start t : ℕ) (f : ℕ → A) → m ≤ t → take m (slice start t f) ≡ slice start m f
  unfolding slice
  take-slice zero start t f h = refl
  take-slice (suc m) start zero f h = absurd (omega arith)
  take-slice (suc m) start (suc t) f h =
      ap (◌∷◌ (f start)) (take-slice m (start + 1) t f (omega arith))

  pub drop-slice :
      (m start t mid rest : ℕ) (f : ℕ → A)
      → mid ≡ start + m
      → t ≡ m + rest
      → drop m (slice start t f) ≡ slice mid rest f
  unfolding slice
  drop-slice zero start t mid rest f e e' =
      let same : mid ≡ start = omega arith in let whole : t ≡ rest = omega arith in rw (same, whole)
  drop-slice (suc m) start zero mid rest f e e' = absurd (omega arith)
  drop-slice (suc m) start (suc t) mid rest f e e' =
      drop-slice m (start + 1) t mid rest f (omega arith) (omega arith)

  pub take-eq-slice :
      (n start : ℕ) (xs : List A) (f : ℕ → A) (d : A)
      → n ≤ length xs
      → ((k : ℕ) → k < n → get_or xs k d ≡ f (start + k))
      → take n xs ≡ slice start n f
  unfolding slice
  take-eq-slice zero start xs f d h e = refl
  take-eq-slice (suc n) start [] f d h e = absurd (omega arith)
  take-eq-slice (suc n) start (x ∷ xs) f d h e =
      let head : x ≡ f start = e 0 (omega arith) ∙ ap f (omega arith) in
      let tail : take n xs ≡ slice (start + 1) n f =
        take-eq-slice n (start + 1) xs f d (omega arith)
          (λ k p. e (suc k) (omega arith) ∙ ap f (omega arith)) in
      cc (head, tail)

-- What `memcpy` leaves at each index.
pub record IsCopied (n : ℕ) (dst : List ℕ) (d : ℕ) (src : List ℕ) (s : ℕ) (out : List ℕ)
    : Type 0 where
  pub same_length : length out ≡ length dst
  pub inside : (k : ℕ) → k < n → get_or out (d + k) 0 ≡ get_or src (s + k) 0
  pub below : (j : ℕ) → j < d → get_or out j 0 ≡ get_or dst j 0
  pub above : (j : ℕ) → d + n ≤ j → get_or out j 0 ≡ get_or dst j 0

memcpy_inside :
    (n : ℕ) (dst : List ℕ) (d : ℕ) (src : List ℕ) (s : ℕ) (out : List ℕ)
    → d < length dst
    → IsCopied n (set dst d (get_or src s 0)) (d + 1) src (s + 1) out
    → (k : ℕ) → k < suc n
    → get_or out (d + k) 0 ≡ get_or src (s + k) 0
memcpy_inside n dst d src s out hd ih zero p =
    let at : d + 0 ≡ d = omega arith in
    let from : s + 0 ≡ s = omega arith in
    rw (at, from) (ground (arith, ih.below d, get_or-set dst d d (get_or src s 0) 0))
memcpy_inside n dst d src s out hd ih (suc k) p =
    let at : d + suc k ≡ d + 1 + k = omega arith in
    let from : s + suc k ≡ s + 1 + k = omega arith in rw (at, from) (ih.inside k (omega arith))

pub memcpy-IsCopied :
    (n : ℕ) (dst : List ℕ) (d : ℕ) (src : List ℕ) (s : ℕ)
    → d + n ≤ length dst
    → s + n ≤ length src
    → (out : List ℕ) × (memcpy n dst d src s ≡ some out) × IsCopied n dst d src s out
unfolding memcpy
memcpy-IsCopied zero dst d src s hd hs = (
  dst,
  refl,
  record {
    same_length = refl;
    inside = λ k p. absurd (omega arith);
    below = λ j p. refl;
    above = λ j p. refl;
  },
)
memcpy-IsCopied (suc n) dst d src s hd hs =
    let byte = get_or src s 0 in
    let size = length-set dst d byte in
    let (out, ran, ih) =
      memcpy-IsCopied n (set dst d byte) (d + 1) src (s + 1) (omega (arith, size)) (omega arith) in
    (
      out,
      rw (get_elem?-eq-some src s 0 (omega arith)) (ground (arith, ran)),
      record {
        same_length = ih.same_length ∙ size;
        inside = memcpy_inside n dst d src s out (omega arith) ih;
        below = λ j p. ground (arith, ih.below j, get_or-set dst d j byte 0);
        above = λ j p. ground (arith, ih.above j, get_or-set dst d j byte 0);
      },
    )
