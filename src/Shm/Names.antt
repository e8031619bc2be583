-- ===== src/Shm/Names.antt =====
-- The names of the segments of shared memory.
use xmertl.Base.{ℕ, zero, suc, ◌-◌, ◌≤◌, ◌<◌, ◌≡◌, ◌↔◌, ap, refl, true, inl, inr, arith}
use xmertl.Base.{List, [], ◌∷◌, length, get_or, set, take, ◌==◌, Bool-cases}
use xmertl.Shm.{Shm, blank, xm_strcmp, xm_shm_name_check, find_name, find_free, shm_name_size}

-- The comparison finds strings equal exactly when they are.
pub xm_strcmp_lem : (a b : List ℕ) → (xm_strcmp a b ≡ true) ↔ (a ≡ b)
unfolding xm_strcmp
xm_strcmp_lem [] [] = (λ e. refl, λ e. refl)
xm_strcmp_lem [] (y ∷ b) = (λ e. ground (arith, e), λ e. cc)
xm_strcmp_lem (x ∷ a) [] = (λ e. ground (arith, e), λ e. cc)
xm_strcmp_lem (x ∷ a) (y ∷ b) =
    let (into, back) = xm_strcmp_lem a b in
    elim (Bool-cases (x == y)) [
      | inl e ↦
          let same : x ≡ y = ground arith in
          (
            λ h. let rest : a ≡ b = into (ground (arith, h)) in cc (same, rest),
            λ h. rw e (back (cc h)),
          )
      | inr e ↦
          (λ h. absurd (ground (arith, h)), λ h. let same : x ≡ y = cc h in absurd (ground arith))
    ]

pub find_name-le : (list : List Shm) (name : List ℕ) → find_name list name ≤ length list
unfolding find_name
find_name-le [] name = omega arith
find_name-le (s ∷ list) name = ground (arith, find_name-le list name)

-- A segment is found under its name when no earlier one has it.
pub find_name-set :
    (list : List Shm) (name : List ℕ) (i : ℕ) (s : Shm)
    → find_name list name ≡ length list
    → i < length list
    → s.name ≡ name
    → find_name (set list i s) name ≡ i
unfolding find_name
find_name-set [] name i s e h same = absurd (omega arith)
find_name-set (x ∷ list) name zero s e h same =
    let found : xm_strcmp s.name name ≡ true = (xm_strcmp_lem s.name name).1 same in rw found refl
find_name-set (x ∷ list) name (suc i) s e h same = elim (Bool-cases (xm_strcmp x.name name)) [
  | inl f ↦ absurd (ground arith)
  | inr f ↦ rw f (ap suc (find_name-set list name i s (ground arith) (omega arith) same))
]

-- A change that keeps a segment's name changes no lookup.
pub find_name-keep :
    (list : List Shm) (name : List ℕ) (i : ℕ) (s : Shm)
    → s.name ≡ (get_or list i blank).name
    → find_name (set list i s) name ≡ find_name list name
unfolding find_name
find_name-keep [] name i s same = refl
find_name-keep (x ∷ list) name zero s same = rw same refl
find_name-keep (x ∷ list) name (suc i) s same = rw (find_name-keep list name i s same) refl

pub find_free-le : (list : List Shm) → find_free list ≤ length list
unfolding find_free
find_free-le [] = omega arith
find_free-le (s ∷ list) = ground (arith, find_free-le list)

-- A name that passes the check is stored whole.
pub take-name : (n : ℕ) (name : List ℕ) → length name ≤ n → take n name ≡ name
take-name zero [] h = refl
take-name (suc n) [] h = refl
take-name zero (x ∷ name) h = absurd (omega arith)
take-name (suc n) (x ∷ name) h = ap (λ t. x ∷ t) (take-name n name (omega arith))

pub length-name : (name : List ℕ) → xm_shm_name_check name ≡ true → length name ≤ shm_name_size - 1
unfolding xm_shm_name_check
length-name name h = ground arith
