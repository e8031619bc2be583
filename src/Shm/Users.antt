-- ===== src/Shm/Users.antt =====
-- The users of a segment of shared memory: what opening and unlinking it count.
use xmertl.Base.{ℕ, zero, suc, ◌-◌, ◌<◌, ◌≡◌, ap, refl, true, false, inl, inr, arith}
use xmertl.Base.{
  none, some, List, [], ◌∷◌, length, get_or, set, take, leb, ◌==◌, Bool-cases, length-set,
}
use xmertl.Base.Ints.{pos}
use xmertl.Shm.Names.{find_name-set, take-name, length-name}
use xmertl.Shm.{
  Answer, Shm, Store, index, done, ebusy, blank, add_user, drop_user, xm_strcmp, xm_shm_name_check,
  find_name, find_free, shm_name_size, shm_mem_size, page_align, fill, xm_shm_create, xm_shm_open,
  open_created, xm_shm_release, xm_shm_unlink,
}
use xmertl.Shm.Create.{get_or-set_self}

set_twice : (list : List Shm) (i : ℕ) (s t : Shm) → set (set list i s) i t ≡ set list i t
set_twice [] i s t = refl
set_twice (x ∷ list) zero s t = refl
set_twice (x ∷ list) (suc i) s t = ap (λ l. x ∷ l) (set_twice list i s t)

-- A segment without a name is not found under a name that passes the check.
find_name-unnamed :
    (list : List Shm) (name : List ℕ) (i : ℕ) (s : Shm)
    → find_name list name ≡ length list
    → xm_shm_name_check name ≡ true
    → s.name ≡ []
    → find_name (set list i s) name ≡ length list
unfolding find_name xm_shm_name_check xm_strcmp
find_name-unnamed [] name i s e ok same = refl
find_name-unnamed (x ∷ list) [] zero s e ok same = absurd (ground arith)
find_name-unnamed (x ∷ list) (c ∷ name) zero s e ok same =
    elim (Bool-cases (xm_strcmp x.name (c ∷ name))) [
      | inl f ↦ absurd (ground arith)
      | inr f ↦ rw same (ground arith)
    ]
find_name-unnamed (x ∷ list) name (suc i) s e ok same = elim (Bool-cases (xm_strcmp x.name name)) [
  | inl f ↦ absurd (ground arith)
  | inr f ↦ rw f (ap suc (find_name-unnamed list name i s (ground arith) ok same))
]

module _ {Pool : Type 0} (malloc_ex : ℕ → Pool → ℕ × Pool) (free_ex : ℕ → Pool → Pool) where
  -- A name that no segment has, a free entry that nobody uses, and a block for it.
  pub record IsFresh (name : List ℕ) (s : Store malloc_ex free_ex) : Type 0 where
    pub ok : xm_shm_name_check name ≡ true
    pub new : find_name s.list name ≡ length s.list
    pub room : find_free s.list < length s.list
    pub unused : (get_or s.list (find_free s.list) blank).users ≡ pos 0
    pub block : (page_align ((malloc_ex shm_mem_size s.pool).0) == 0) ≡ false

  abbrev entry : ℕ → List ℕ → Store malloc_ex free_ex → Shm
  entry current name s = record {
    name = take (shm_name_size - 1) name;
    owner = some current;
    va_start = page_align ((malloc_ex shm_mem_size s.pool).0);
    size = shm_mem_size;
    users = pos 1;
  }

  created :
      (current : ℕ) (name : List ℕ) (s : Store malloc_ex free_ex)
      → IsFresh name s
      → xm_shm_create malloc_ex free_ex current name s ≡ (
        index (find_free s.list),
        record {
          list = set s.list (find_free s.list) (entry current name s);
          pool = (malloc_ex shm_mem_size s.pool).1;
        },
      )
  unfolding xm_shm_create fill
  created current name s fresh =
      let unknown : (find_name s.list name == length s.list) ≡ true = ground (arith, fresh.new) in
      let some_room : (find_free s.list == length s.list) ≡ false = ground (arith, fresh.room) in
      rw (xm_shm_create, fresh.ok, unknown, some_room, fill, fresh.block, fresh.unused) refl

  -- A segment that was made and removed again.
  pub record IsRemovedAgain (current : ℕ) (name : List ℕ) (s : Store malloc_ex free_ex) (i : ℕ)
      (made gone : Answer × Store malloc_ex free_ex) : Type 0 where
    pub answered : made.0 ≡ index i
    pub found : find_name made.1.list name ≡ i
    pub owned : (get_or made.1.list i blank).owner ≡ some current
    pub counted : (get_or made.1.list i blank).users ≡ pos 1
    pub taken : made.1.pool ≡ (malloc_ex shm_mem_size s.pool).1
    pub removed : gone.0 ≡ done
    pub lost : find_name gone.1.list name ≡ length s.list
    pub unowned : (get_or gone.1.list i blank).owner ≡ none
    pub unused : (get_or gone.1.list i blank).users ≡ pos 0
    pub given_back :
        gone.1.pool
        ≡ free_ex (page_align ((malloc_ex shm_mem_size s.pool).0)) (malloc_ex shm_mem_size s.pool).1

  -- With a name that passes the check and that no segment has, a free entry without users, and a
  -- block, xm_shm_create makes a segment at the first free index: it is found there under its name,
  -- with the caller as its owner and one user, and the block is taken. Then xm_shm_unlink by the
  -- owner removes it: it is not found any more, has no owner and no user, and its address is given
  -- to free_ex.
  pub xm_shm_unlink-xm_shm_create :
      (current : ℕ) (name : List ℕ) (s : Store malloc_ex free_ex)
      → IsFresh name s
      → let made = xm_shm_create malloc_ex free_ex current name s in
        IsRemovedAgain current name s
          (find_free s.list)
          made
          (xm_shm_unlink malloc_ex free_ex current (find_free s.list) made.1)
  unfolding xm_shm_unlink xm_shm_release
  xm_shm_unlink-xm_shm_create current name s fresh =
      let i = find_free s.list in
      let e = entry current name s in
      let placed = get_or-set_self s.list i e fresh.room in
      let inside : leb (length (set s.list i e)) i ≡ false =
        ground (arith, fresh.room, length-set s.list i e) in
      let me : (current == current) ≡ true = ground arith in
      let gone : Shm = record (drop_user e) { name = []; owner = none } in
      let blanked = get_or-set_self s.list i gone fresh.room in
      let whole = take-name (shm_name_size - 1) name (length-name name fresh.ok) in
      rw
        (
          created current name s fresh,
          xm_shm_unlink,
          inside,
          placed,
          me,
          xm_shm_release,
          set_twice s.list i e gone,
        )
        (record {
          answered = refl;
          found = find_name-set s.list name i e fresh.new fresh.room whole;
          owned = ap (λ (x : Shm). x.owner) placed;
          counted = ap (λ (x : Shm). x.users) placed;
          taken = refl;
          removed = refl;
          lost = find_name-unnamed s.list name i gone fresh.new fresh.ok refl;
          unowned = ap (λ (x : Shm). x.owner) blanked;
          unused = ap (λ (x : Shm). x.users) blanked;
          given_back = refl;
        })

  -- With a name that passes the check and that no segment has, a free entry whose count of users is
  -- 0, and a block, a segment that was opened is not removed by its owner: the first opening counts
  -- two users, and the owner's call of xm_shm_unlink is answered -EBUSY.
  pub xm_shm_unlink-xm_shm_open :
      (current : ℕ) (name : List ℕ) (s : Store malloc_ex free_ex)
      → IsFresh name s
      → (s' : Store malloc_ex free_ex) × (xm_shm_open malloc_ex free_ex current name s
          ≡ some (index (find_free s.list), s'))
        × (xm_shm_unlink malloc_ex free_ex current (find_free s.list) s' ≡ (ebusy, s'))
  unfolding xm_shm_open open_created xm_shm_unlink
  xm_shm_unlink-xm_shm_open current name s fresh =
      let i = find_free s.list in
      let e = entry current name s in
      let placed = get_or-set_self s.list i e fresh.room in
      let inside : (i == length (set s.list i e)) ≡ false =
        ground (arith, fresh.room, length-set s.list i e) in
      let again =
        get_or-set_self (set s.list i e) i (add_user e)
          (omega (arith, fresh.room, length-set s.list i e)) in
      let inside' : leb (length (set (set s.list i e) i (add_user e))) i ≡ false =
        ground
          (arith, fresh.room, length-set (set s.list i e) i (add_user e), length-set s.list i e) in
      let me : (current == current) ≡ true = ground arith in
      (
        record {
          list = set (set s.list i e) i (add_user e);
          pool = (malloc_ex shm_mem_size s.pool).1;
        },
        rw (xm_shm_open, fresh.ok, created current name s fresh, open_created, inside, placed) refl,
        rw (xm_shm_unlink, inside', again, me) refl,
      )
