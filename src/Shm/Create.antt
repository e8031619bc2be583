-- ===== src/Shm/Create.antt =====
-- `xm_shm_create`: what it answers, and what it leaves in the table.
use xmertl.Base.{ℕ, zero, suc, ◌<◌, ◌≡◌, refl, true, false, ◌⊎◌, arith}
use xmertl.Base.{none, some, List, [], ◌∷◌, length, get_or, set, ◌==◌}
use xmertl.Base.Ints.{increment}
use xmertl.Shm.{
  Shm, Store, Answer, index, done, einval, enomem, enodev, ebusy, blank, xm_shm_name_check,
  find_name, find_free, shm_mem_size, page_align,
}

pub get_or-set_self :
    (list : List Shm) (i : ℕ) (s : Shm) → i < length list → get_or (set list i s) i blank ≡ s
get_or-set_self [] i s h = absurd (omega arith)
get_or-set_self (x ∷ list) zero s h = refl
get_or-set_self (x ∷ list) (suc i) s h = get_or-set_self list i s (omega arith)

module _ {Pool : Type 0} (malloc_ex : ℕ → Pool → ℕ × Pool) (free_ex : ℕ → Pool → Pool) where
  -- The entry `i` is the only one that is new, it has the name, and one user more.
  pub record IsNamed (name : List ℕ) (i : ℕ) (list list' : List Shm) : Type 0 where
    pub below : i < length list
    pub found : find_name list' name ≡ i
    pub only : list' ≡ set list i (get_or list' i blank)
    pub users : (get_or list' i blank).users ≡ increment (get_or list i blank).users

  -- The entry of a new segment, with its block; nothing else is changed but the allocator's pool.
  pub record IsNew (current : ℕ) (name : List ℕ) (i : ℕ) (s s' : Store malloc_ex free_ex)
      : Type 0 where
    pub named : IsNamed name i s.list s'.list
    pub unknown : find_name s.list name ≡ length s.list
    pub place : i ≡ find_free s.list
    pub owned : (get_or s'.list i blank).owner ≡ some current
    pub block : (get_or s'.list i blank).va_start ≡ page_align ((malloc_ex shm_mem_size s.pool).0)
    pub some_block : (page_align ((malloc_ex shm_mem_size s.pool).0) == 0) ≡ false
    pub pool : s'.pool ≡ (malloc_ex shm_mem_size s.pool).1

  -- The segment is known: it has one user more, and its other fields are as they were.
  pub record IsKnown (name : List ℕ) (i : ℕ) (s s' : Store malloc_ex free_ex) : Type 0 where
    pub named : IsNamed name i s.list s'.list
    pub known : i ≡ find_name s.list name
    pub owned : (get_or s'.list i blank).owner ≡ (get_or s.list i blank).owner
    pub block : (get_or s'.list i blank).va_start ≡ (get_or s.list i blank).va_start
    pub pool : s'.pool ≡ s.pool

  -- No block: the entry stays free, and the name is not found.
  pub record IsOutOfMemory (name : List ℕ) (s s' : Store malloc_ex free_ex) : Type 0 where
    pub unknown : find_name s.list name ≡ length s.list
    pub room : find_free s.list < length s.list
    pub no_block : page_align ((malloc_ex shm_mem_size s.pool).0) ≡ 0
    pub still : find_name s'.list name ≡ length s.list
    pub unowned : (get_or s'.list (find_free s.list) blank).owner ≡ none
    pub only : s'.list ≡ set s.list (find_free s.list) (get_or s'.list (find_free s.list) blank)

  -- What `xm_shm_create` may answer, with the store that goes with it.
  pub IsCreated : ℕ → List ℕ → Store malloc_ex free_ex → Answer × Store malloc_ex free_ex → Type 0
  IsCreated current name s (index i, s') =
      (xm_shm_name_check name ≡ true)
      × (IsNew current name i s s'
          ⊎ (IsKnown name i s s'
              ⊎ ((s' ≡ s)
                  × (i ≡ length s.list)
                  × (find_name s.list name ≡ length s.list)
                  × (find_free s.list ≡ length s.list))))
  IsCreated current name s (einval, s') = (xm_shm_name_check name ≡ false) × (s' ≡ s)
  IsCreated current name s (enomem, s') = (xm_shm_name_check name ≡ true) × IsOutOfMemory name s s'
  IsCreated current name s (done, s') = ⊥
  IsCreated current name s (enodev, s') = ⊥
  IsCreated current name s (ebusy, s') = ⊥
