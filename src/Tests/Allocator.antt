-- ===== src/Tests/Allocator.antt =====
-- xtratum/kernel/tlsf.c: a pool of 4096 bytes at 65536, and a client of it.
use xmertl.Base.{ℕ, ◌⊎◌, ◌+◌, ◌≡◌, refl, arith, Bool, true, false, List, [], ◌∷◌, ◌==◌}
use xmertl.Pthread.{erase}
use xmertl.Pthread.Lists.{mem}
use xmertl.Tlsf.{table, shift_of, add_int, ms_bit, mapping_insert, mapping_search}
use xmertl.Tlsf.Blocks.{
  Tlsf, malloc_ex, malloc_from, free_ex, roundup_size, find_suitable_block, ls_bit, unlisted,
  extract_block_hdr, extract_block, insert_block, cut_block, split_block, take_block, use_block,
  join_next, join_prev, give_back, tlsf_set_bit, tlsf_clear_bit,
}
use xmertl.Tlsf.Start.{
  init_memory_pool, rounddown_size, zeroed, first_block, set_up, IsSetUp, init_memory_pool-IsSetUp,
}
use xmertl.Tlsf.Client.{
  realloc, resized, Request, malloc, Client, request, requests, keep, IsServed,
}
use xmertl.Tlsf.Runs.{all_small, is_small}
use xmertl.Tlsf.Fresh.{fresh, IsApart, requests-fresh, requests-IsApart}
use xmertl.Tlsf.Use.{IsAllocated}
use xmertl.Tlsf.Malloc.{IsRefused, malloc_ex-IsPool}
use xmertl.Tlsf.Free.{IsFreed, free_ex-IsPool}
use xmertl.Base.{ltb, leb, if◌then◌else◌, ◌%◌, ◌&&◌, ◌-◌}
use xmertl.Tlsf.Resize.{realloc_ex, recharged, trimmed, cut_if, cut_off}
use xmertl.Tlsf.Realloc.{IsReallocated, realloc_ex-IsReallocated}

-- The memory before it is set up.
abbrev blank : Tlsf
blank = record {
  signature = 0;
  used_size = 0;
  fl_bitmap = 0;
  sl_bitmap = λ i. 0;
  matrix = λ i j. [];
  size = λ u. 0;
  is_free = λ u. false;
  prev_free = λ u. false;
  prev_hdr = λ u. 0;
}

abbrev two : List Request
two = malloc 100 ∷ malloc 20 ∷ realloc 68728 50 ∷ []

two_held : (requests two (fresh 4096 65536 blank)).held ≡ 68728 ∷ 68840 ∷ []
unfolding resized realloc_ex recharged trimmed cut_if cut_off requests request keep malloc_ex
    malloc_from init_memory_pool set_up zeroed first_block rounddown_size roundup_size
    find_suitable_block ls_bit ms_bit table add_int shift_of unlisted extract_block_hdr
    extract_block insert_block cut_block split_block take_block use_block join_next join_prev
    give_back tlsf_set_bit tlsf_clear_bit mapping_insert mapping_search erase mem
two_held = refl

init_memory_pool-IsSetUp_example :
    IsSetUp 4096 65536 (init_memory_pool 4096 65536 blank)
    × (init_memory_pool 8192 65536 (init_memory_pool 4096 65536 blank).1
        ≡ (0, (init_memory_pool 4096 65536 blank).1))
init_memory_pool-IsSetUp_example =
    init_memory_pool-IsSetUp 4096 65536 8192 blank (omega arith) (omega arith) refl (omega arith)
      refl refl (omega arith)

two-small : all_small two ≡ true
unfolding all_small is_small
two-small = refl

requests-fresh_example :
    (is_block : ℕ → Bool) × IsServed is_block 68720 69624 3200
      (requests two (fresh 4096 65536 blank))
requests-fresh_example =
    requests-fresh 4096 65536 blank (omega arith) (omega arith) refl (omega arith) refl refl two
      two-small

held_here :
    (p : ℕ)
    → mem p (68728 ∷ 68840 ∷ []) ≡ true
    → mem p (requests two (fresh 4096 65536 blank)).held ≡ true
held_here p h = rw two_held h

requests-IsApart_example :
    IsApart 68728 69624 68840 68728 (requests two (fresh 4096 65536 blank)).pool
unfolding mem
requests-IsApart_example =
    requests-IsApart 4096 65536 blank (omega arith) (omega arith) refl (omega arith) refl refl two
      two-small 68840 68728 (held_here 68840 refl) (held_here 68728 refl) refl

abbrev start : Tlsf
start = (init_memory_pool 4096 65536 blank).1

start-IsSetUp : IsSetUp 4096 65536 (init_memory_pool 4096 65536 blank)
start-IsSetUp = init_memory_pool-IsSetUp_example.0

malloc_ex-IsPool_example :
    ((more : ℕ → Bool) × (b : ℕ) × IsAllocated
        (λ u. u == 68720)
        more
        68720
        69624
        100
        b
        start
        (malloc_ex 100 start).1
      × ((malloc_ex 100 start).0 ≡ b + 8))
    ⊎ IsRefused (λ u. u == 68720) 100 start (malloc_ex 100 start)
malloc_ex-IsPool_example =
    malloc_ex-IsPool (λ u. u == 68720) 68720 69624 start start-IsSetUp.valid 100 (omega arith)

-- The pool with a block of 100 bytes in use
abbrev one : Client
one = requests (malloc 100 ∷ []) (fresh 4096 65536 blank)

one-IsServed : (is_block : ℕ → Bool) × IsServed is_block 68720 69624 3200 one
one-IsServed =
    requests-fresh 4096 65536 blank (omega arith) (omega arith) refl (omega arith) refl refl
      (malloc 100 ∷ []) (unfold all_small is_small in refl)

one_held : mem 68728 one.held ≡ true
unfolding mem requests request keep malloc_ex malloc_from init_memory_pool set_up zeroed first_block
    rounddown_size roundup_size find_suitable_block ls_bit ms_bit table add_int shift_of unlisted
    extract_block_hdr insert_block cut_block split_block take_block use_block mapping_insert
    mapping_search tlsf_set_bit
one_held = refl

one_used : (one-IsServed.0 68720 ≡ true) × (one.pool.is_free 68720 ≡ false)
one_used = ground (arith, one-IsServed.1.held 68728, one_held)

free_ex-IsPool_example :
    (less : ℕ → Bool) × IsFreed one-IsServed.0 less 68720 69624 68720 one.pool
      (free_ex 68728 one.pool)
free_ex-IsPool_example =
    free_ex-IsPool one-IsServed.0 68720 69624 68720 one.pool one-IsServed.1.valid one_used.0
      one_used.1

-- A memory of bytes, and a copy of it between places apart
abbrev copy : ℕ → ℕ → ℕ → (ℕ → ℕ) → ℕ → ℕ
copy dst src n m u = if leb dst u && ltb u (dst + n) then m (src + (u - dst)) else m u

abbrev bytes : ℕ → ℕ
bytes u = u % 256

realloc_ex-IsReallocated_example :
    (now : ℕ → Bool) × IsReallocated copy one-IsServed.0 now 68720 69624 68720 500 one.pool bytes
      (realloc_ex copy 68728 500 (one.pool, bytes))
realloc_ex-IsReallocated_example =
    realloc_ex-IsReallocated copy one-IsServed.0 68720 69624 one.pool one-IsServed.1.valid 68720
      one_used.0 one_used.1 500 (omega arith) (omega arith) bytes
