-- ===== src/Shm.antt =====
-- xtratum/devs/shm/shm.c: the table of named segments of shared memory.
-- A C string is the list of its characters before the null character. A domain is known by its id,
-- and `none` is a null pointer.
pub mod Names
pub mod Create
pub mod Users
use xmertl.Base.{ℕ, zero, suc, ◌+◌, ◌-◌, ◌*◌, ◌%◌, ◌^◌, bit_and, ◌||◌, not, Bool, true, false}
use xmertl.Base.{Option, none, some, List, [], ◌∷◌, length, get_or, set, take}
use xmertl.Base.{ltb, leb, ◌==◌, if◌then◌else◌}
use xmertl.Base.Ints.{ℤ, pos, negsuc, increment, decrement}

abbrev pub xm_shm_count : ℕ
xm_shm_count = 16

abbrev pub shm_mem_size : ℕ
shm_mem_size = 8 * 4096

abbrev pub shm_name_size : ℕ
shm_name_size = 33

-- `xm_shm_t`
pub record Shm : Type 0 where
  pub name : List ℕ
  pub owner : Option ℕ
  pub va_start : ℕ
  pub size : ℕ
  pub users : ℤ

-- True is the result 0.
unfoldable pub xm_shm_name_check : List ℕ → Bool
xm_shm_name_check name = not ((length name == 0) || leb shm_name_size (length name))

-- True is the result 0: the strings are equal.
unfoldable pub xm_strcmp : List ℕ → List ℕ → Bool
xm_strcmp [] [] = true
xm_strcmp [] (y ∷ ys) = false
xm_strcmp (x ∷ xs) [] = false
xm_strcmp (x ∷ xs) (y ∷ ys) = let rest = xm_strcmp xs ys in if x == y then rest else false

-- The loop of `xm_get_shm_by_name`, which ends past the table if no segment has the name.
unfoldable pub find_name : List Shm → List ℕ → ℕ
unfolding xm_strcmp
find_name [] name = 0
find_name (s ∷ list) name =
    let rest = find_name list name in if xm_strcmp s.name name then 0 else suc rest

-- What a routine returns: an index, 0, or an error.
pub data Answer : Type 0 where
  index : ℕ → Answer
  done einval enomem enodev ebusy : Answer

unfoldable pub xm_get_shm_by_name : List Shm → List ℕ → Answer
unfolding xm_shm_name_check find_name
xm_get_shm_by_name list name =
    if xm_shm_name_check name then index (find_name list name) else einval

abbrev pub is_free : Shm → Bool
is_free s = elim s.owner [ none ↦ true | some d ↦ false ]

-- The loop over the owners of `xm_shm_create`
unfoldable pub find_free : List Shm → ℕ
find_free [] = 0
find_free (s ∷ list) = let rest = find_free list in if is_free s then 0 else suc rest

abbrev pub blank : Shm
blank = record { name = []; owner = none; va_start = 0; size = 0; users = pos 0 }

abbrev pub add_user : Shm → Shm
add_user s = record s { users = increment s.users }

abbrev pub drop_user : Shm → Shm
drop_user s = record s { users = decrement s.users }

abbrev pub is_one : ℤ → Bool
is_one (pos n) = n == 1
is_one (negsuc n) = false

abbrev pub is_owner : ℕ → Shm → Bool
is_owner current s = elim s.owner [ none ↦ false | some d ↦ d == current ]

-- Up to the next page
unfoldable pub page_align : ℕ → ℕ
page_align a = bit_and ((a + 0xFFF) % 2 ^ 32) 0xFFFFF000

-- The allocator's calls, on its pool. `malloc_ex` gives the address 0 when there is no block.
module _ {Pool : Type 0} (malloc_ex : ℕ → Pool → ℕ × Pool) (free_ex : ℕ → Pool → Pool) where
  -- `xshm_list` and `xshm_pool`
  pub record Store : Type 0 where
    pub list : List Shm
    pub pool : Pool

  -- The part of `xm_shm_create` for a name that no segment has, once the place `i` is free.
  unfoldable pub fill : ℕ → List ℕ → ℕ → Store → Answer × Store
  unfolding page_align
  fill current name i s =
      let (a, pool) = malloc_ex shm_mem_size s.pool in
      let old = get_or s.list i blank in
      let va = page_align a in
      if va == 0
      then (
        enomem,
        record { list = set s.list i (record old { owner = none; va_start = va }); pool = pool },
      )
      else (
        index i,
        record {
          list = set s.list i (record {
            name = take (shm_name_size - 1) name;
            owner = some current;
            va_start = va;
            size = shm_mem_size;
            users = increment old.users;
          });
          pool = pool;
        },
      )

  unfoldable pub xm_shm_create : ℕ → List ℕ → Store → Answer × Store
  unfolding xm_shm_name_check find_name find_free fill
  xm_shm_create current name s =
      let i = find_name s.list name in
      let free = find_free s.list in
      let fresh = if free == length s.list then (index free, s) else fill current name free s in
      let known : Store = record s { list = set s.list i (add_user (get_or s.list i blank)) } in
      if not (xm_shm_name_check name)
      then (einval, s)
      else if i == length s.list
      then fresh
      else (index i, known)

  -- What `xm_shm_open` does with the result of `xm_shm_create`. `none` is a write to the table at an
  -- error number.
  unfoldable pub open_created : Answer × Store → Option (Answer × Store)
  open_created (index i, s) =
      if i == length s.list
      then some (enomem, s)
      else some (index i, record s { list = set s.list i (add_user (get_or s.list i blank)) })
  open_created (other, s) = none

  unfoldable pub xm_shm_open : ℕ → List ℕ → Store → Option (Answer × Store)
  unfolding xm_shm_name_check open_created
  xm_shm_open current name s =
      if not (xm_shm_name_check name)
      then some (einval, s)
      else open_created (xm_shm_create current name s)

  unfoldable pub xm_shm_release : ℕ → Store → Store
  xm_shm_release i s =
      let old = get_or s.list i blank in
      record {
        list = set s.list i (record (drop_user old) { name = []; owner = none });
        pool = free_ex old.va_start s.pool;
      }

  -- An index that is not negative
  unfoldable pub xm_shm_unlink : ℕ → ℕ → Store → Answer × Store
  unfolding xm_shm_release
  xm_shm_unlink current i s =
      let old = get_or s.list i blank in
      if leb (length s.list) i
      then (enodev, s)
      else if not (is_owner current old)
      then (done, record s { list = set s.list i (drop_user old) })
      else if not (is_one old.users)
      then (ebusy, s)
      else (done, xm_shm_release i s)

  unfoldable pub xm_shm_resize : ℕ → ℕ → Store → Answer × Store
  xm_shm_resize i size s =
      let old = get_or s.list i blank in
      if ltb old.size size
      then (einval, s)
      else (done, record s { list = set s.list i (record old { size = size }) })
