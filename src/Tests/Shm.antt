-- ===== src/Tests/Shm.antt =====
-- A table of two segments of xtratum/devs/shm/shm.c, with an allocator that hands out one page after
-- another.
use xmertl.Base.{ℕ, ◌+◌, ◌≡◌, refl, some, List, [], ◌∷◌, arith}
use xmertl.Base.Ints.{pos}
use xmertl.Shm.{
  Shm, Store, index, ebusy, blank, page_align, xm_strcmp, find_name, find_free, xm_shm_create,
  xm_shm_open, xm_shm_unlink, xm_shm_name_check,
}
use xmertl.Shm.Users.{
  IsFresh, IsRemovedAgain, xm_shm_unlink-xm_shm_create, xm_shm_unlink-xm_shm_open,
}

abbrev malloc : ℕ → ℕ → ℕ × ℕ
malloc size pool = (pool, pool + size)

abbrev free : ℕ → ℕ → ℕ
free address pool = pool

abbrev log_name : List ℕ
log_name = 108 ∷ 111 ∷ 103 ∷ []

abbrev other_name : List ℕ
other_name = 120 ∷ []

abbrev used : Shm
used = record { name = other_name; owner = some 3; va_start = 8192; size = 32768; users = pos 1 }

abbrev store : Store malloc free
store = record { list = used ∷ blank ∷ []; pool = 40000 }

-- The address 40000 is raised to the next page.
aligned : page_align 40000 ≡ 40960
unfolding page_align
aligned = refl

store-IsFresh : IsFresh malloc free log_name store
unfolding xm_shm_name_check find_name xm_strcmp find_free page_align
store-IsFresh = record { ok = refl; new = refl; room = omega arith; unused = refl; block = refl }

xm_shm_unlink-xm_shm_create_example :
    IsRemovedAgain malloc free 5 log_name store
      (find_free store.list)
      (xm_shm_create malloc free 5 log_name store)
      (xm_shm_unlink malloc free 5
        (find_free store.list)
        (xm_shm_create malloc free 5 log_name store).1)
xm_shm_unlink-xm_shm_create_example =
    xm_shm_unlink-xm_shm_create malloc free 5 log_name store store-IsFresh

xm_shm_unlink-xm_shm_open_example :
    (s' : Store malloc free) × (xm_shm_open malloc free 5 log_name store
      ≡ some (index (find_free store.list), s'))
    × (xm_shm_unlink malloc free 5 (find_free store.list) s' ≡ (ebusy, s'))
xm_shm_unlink-xm_shm_open_example =
    xm_shm_unlink-xm_shm_open malloc free 5 log_name store store-IsFresh
