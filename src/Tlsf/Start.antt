-- ===== src/Tlsf/Start.antt =====
-- xtratum/kernel/tlsf.c: `init_memory_pool`. A pool that is set up is one free block. `sizeof (tlsf_t)` is
-- 3180 without a lock.
use xmertl.Base.{ℕ, ◌+◌, ◌-◌, ◌*◌, ◌/◌, ◌%◌, ◌^◌, ◌≤◌, ◌<◌, ◌≡◌, ◌∙◌, ap, refl, arith, bit_and}
use xmertl.Base.{true, false, not, ◌&&◌, ◌||◌, []}
use xmertl.Base.{ltb, leb, ◌==◌, if◌then◌else◌}
use mathlib.Core.Path.{subst}
use xmertl.Base.Bits.{zero-bit_and}
use xmertl.Bitmap.{complement, is_bit_set}
use xmertl.Pthread.Lists.{mem, distinct}
use xmertl.Pthread.Bitmaps.{IsBitmapped}
use xmertl.Tlsf.{mapping_insert, max_fli}
use xmertl.Tlsf.Fit.{mapping_insert-IsInRange}
use xmertl.Tlsf.Blocks.{
  Tlsf, insert_block, insert_mapped, poke, sub_size, mem_align, roundup_size, bhdr_overhead,
}
use xmertl.Tlsf.Round.{bit_and-high}
use xmertl.Tlsf.Pool.{view, IsPool, IsListed, insert_block-IsListed}

abbrev pub tlsf_signature : ℕ
tlsf_signature = 0x2A59FA59

-- `sizeof (tlsf_t)`
abbrev pub tlsf_size : ℕ
tlsf_size = 3180

unfoldable pub rounddown_size : ℕ → ℕ
rounddown_size r = bit_and r (complement mem_align)

rounddown_size_lem : (r : ℕ) → r < 2 ^ 32 → rounddown_size r ≡ r - r % 8
unfolding rounddown_size
rounddown_size_lem r h = bit_and-high 32 3 r (omega arith) h

-- What a call gives back as -1
abbrev pub failure : ℕ
failure = 2 ^ 32 - 1

-- The memory from `used_size` to the end of the pool is zeroed.
unfoldable pub zeroed : ℕ → ℕ → Tlsf → Tlsf
zeroed mem_pool_size mem_pool t =
    let inside = λ (u : ℕ). leb mem_pool u && ltb u (mem_pool + mem_pool_size) in
    record {
      signature = t.signature;
      used_size = 0;
      fl_bitmap = 0;
      sl_bitmap = λ i. 0;
      matrix = λ i j. [];
      size = λ u. if inside u then 0 else t.size u;
      is_free = λ u. if inside u then false else t.is_free u;
      prev_free = λ u. if inside u then false else t.prev_free u;
      prev_hdr = λ u. if inside u then 0 else t.prev_hdr u;
    }

-- The first block and the one of size 0 that ends the pool.
unfoldable pub first_block : ℕ → ℕ → ℕ → Tlsf → Tlsf
first_block mem_pool_size b size t =
    let marked = record t {
      size = poke b size t.size;
      is_free = poke b true t.is_free;
      prev_free = poke b false t.prev_free;
    } in
    let listed = insert_mapped b size marked in
    let lb = b + bhdr_overhead + size in
    record listed {
      prev_hdr = poke lb b listed.prev_hdr;
      size = poke lb 0 listed.size;
      is_free = poke lb false listed.is_free;
      prev_free = poke lb true listed.prev_free;
      used_size = sub_size mem_pool_size size;
    }

-- The block that `init_memory_pool` makes is too large.
unfoldable pub set_up : ℕ → ℕ → Tlsf → ℕ × Tlsf
set_up mem_pool_size mem_pool t =
    let clear = zeroed mem_pool_size mem_pool (record t { signature = tlsf_signature }) in
    let b = mem_pool + roundup_size tlsf_size in
    let size = rounddown_size (sub_size (sub_size mem_pool_size tlsf_size) (2 * bhdr_overhead)) in
    let large = record clear {
      size = poke b size clear.size;
      is_free = poke b true clear.is_free;
      prev_free = poke b false clear.prev_free;
    } in
    if ltb (2 ^ max_fli) (size + 1)
    then (failure, large)
    else (size, first_block mem_pool_size b size clear)

-- A pool that is set up already is left as it is. What is given back then is read at
-- `sizeof (tlsf_t)` behind the pool, where `prev_hdr` of the first block lies.
unfoldable pub init_memory_pool : ℕ → ℕ → Tlsf → ℕ × Tlsf
init_memory_pool mem_pool_size mem_pool t =
    if (mem_pool == 0) || ((mem_pool_size == 0) || ltb mem_pool_size (tlsf_size + 128))
    then (failure, t)
    else if not (mem_pool % 4 == 0)
    then (failure, t)
    else if t.signature == tlsf_signature
    then (t.prev_hdr (mem_pool + roundup_size tlsf_size) / 4 * 4, t)
    else set_up mem_pool_size mem_pool t

module _ (b size : ℕ) (t : Tlsf) (hs : 8 ≤ size) (es : size % 8 ≡ 0) (lt : size < 2 ^ 30 - 8)
    (n : ℕ) (line : (i j : ℕ) → t.matrix i j ≡ []) (v : IsBitmapped (view t)) where
  first-IsListed :
      IsListed b size
        (record t {
          size = poke b size t.size;
          is_free = poke b true t.is_free;
          prev_free = poke b false t.prev_free;
        })
        (insert_mapped b size (record t {
          size = poke b size t.size;
          is_free = poke b true t.is_free;
          prev_free = poke b false t.prev_free;
        }))
  first-IsListed =
      let range = mapping_insert-IsInRange size (omega (arith, lt)) in
      insert_block-IsListed b (mapping_insert size).fl (mapping_insert size).sl
        (record t {
          size = poke b size t.size;
          is_free = poke b true t.is_free;
          prev_free = poke b false t.prev_free;
        })
        v (omega (arith, range)) (omega (arith, range)) size refl refl
        (λ c d. ap (mem b) (line c d) ∙ unfold mem in refl)

  first_block-IsPool : IsPool (λ u. u == b) b (b + 8 + size) (first_block n b size t)
  unfolding first_block insert_block
  first_block-IsPool =
      let l = first-IsListed in
      record {
        bitmaps = l.bitmaps;
        links = λ u i j.
            let none_left : mem u (t.matrix i j) ≡ false =
              ap (mem u) (line i j) ∙ unfold mem in refl in
            ground (arith, l.links u i j, none_left);
        shape = λ u hu. ground (arith, hu, hs, es);
        bound = λ u hu. ground (arith, hu);
        room = omega (arith, lt);
        next = λ u hu. ground (arith, hu);
        gap = λ u c hu hc m. ground (arith, hu, hc, m);
        ending = ground arith;
        told = λ u hu. ground (arith, hu, hs);
        back = λ c hc e. ground (arith, hc, e, hs);
        alone = λ u hu fu. ground (arith, hu, hs);
      }

zeroed-IsBitmapped : (n p : ℕ) → (t : Tlsf) → IsBitmapped (view (zeroed n p t))
unfolding zeroed is_bit_set distinct
zeroed-IsBitmapped n p t = record {
  unique = λ i j. refl;
  second = λ i j hi hj. ground (arith, zero-bit_and (2 ^ j));
  first = λ i hi. ground (arith, zero-bit_and (2 ^ i));
  word = omega arith;
  words = λ i. omega arith;
}

roundup_lem : roundup_size tlsf_size ≡ 3184
unfolding roundup_size
roundup_lem = refl

-- What a set up does: the pool is valid and one free block, with 3200 bytes less than the pool, and
-- that is given back.
pub record IsSetUp (n pool : ℕ) (result : ℕ × Tlsf) : Type 0 where
  pub valid : IsPool (λ u. u == pool + 3184) (pool + 3184) (pool + n - 8) result.1
  pub free : result.1.is_free (pool + 3184) ≡ true
  pub size : (result.0 ≡ n - 3200) × (result.1.size (pool + 3184) ≡ n - 3200)
  pub used : result.1.used_size ≡ 3200
  pub signed : result.1.signature ≡ tlsf_signature
  pub again : result.1.prev_hdr (pool + 3184) ≡ 0

module _ (n pool : ℕ) (t : Tlsf) (least : 3308 ≤ n) (most : n < 2 ^ 30) (eight : n % 8 ≡ 0) where
  set_up_lem : IsSetUp n pool (set_up n pool t)
  unfolding set_up zeroed first_block insert_block
  set_up_lem =
      let header : sub_size n 3180 ≡ n - 3180 = omega (arith, least, most) in
      let rest : sub_size (sub_size n 3180) 16 ≡ n - 3196 =
        ap (λ m. sub_size m 16) header ∙ omega (arith, least, most) in
      let size : rounddown_size (n - 3196) ≡ n - 3200 =
        rounddown_size_lem (n - 3196) (omega (arith, most)) ∙ omega (arith, least, eight) in
      let small : ltb (2 ^ 30) (n - 3200 + 1) ≡ false = ground (arith, most) in
      let last : pool + 3184 + 8 + (n - 3200) ≡ pool + n - 8 = omega (arith, least) in
      let clear = zeroed n pool (record t { signature = tlsf_signature }) in
      let p =
        first_block-IsPool (pool + 3184) (n - 3200) clear (omega (arith, least))
          (omega (arith, least, eight)) (omega (arith, most)) n (λ i j. refl)
          (zeroed-IsBitmapped n pool (record t { signature = tlsf_signature })) in
      rw (roundup_lem, rest, size, small)
        (record {
          valid =
              subst
                (λ l.
                  IsPool (λ u. u == pool + 3184) (pool + 3184) l
                    (first_block n (pool + 3184) (n - 3200) clear))
                last p;
          free = ground (arith, least);
          size = (refl, ground (arith, least));
          used = ground (arith, least, most);
          signed = refl;
          again = ground (arith, least);
        })

-- `init_memory_pool` of a pool that is not set up, at an address that is a multiple of 4 and not 0, of
-- 3308 bytes or more and below 2 ^ 30, a multiple of 8, sets it up; and a second call of any size that
-- is not too small gives 0 and not the size of the block, and changes nothing.
pub init_memory_pool-IsSetUp :
    (n pool again : ℕ)
    → (t : Tlsf) → 3308 ≤ n
    → n < 2 ^ 30
    → n % 8 ≡ 0
    → 0 < pool
    → pool % 4 ≡ 0
    → t.signature == tlsf_signature ≡ false
    → 3308 ≤ again
    → IsSetUp n pool (init_memory_pool n pool t)
      × (init_memory_pool again pool (init_memory_pool n pool t).1
          ≡ (0, (init_memory_pool n pool t).1))
unfolding init_memory_pool
init_memory_pool-IsSetUp n pool again t least most eight some_pool aligned fresh least' =
    let test : (pool == 0) || ((n == 0) || ltb n 3308) ≡ false = ground (arith, some_pool, least) in
    let test' : (pool == 0) || ((again == 0) || ltb again 3308) ≡ false =
      ground (arith, some_pool, least') in
    let word : not (pool % 4 == 0) ≡ false = ground (arith, aligned) in
    let q = set_up_lem n pool t least most eight in
    let same : init_memory_pool n pool t ≡ set_up n pool t =
      rw (init_memory_pool, test, word, fresh) refl in
    let signed : (set_up n pool t).1.signature == tlsf_signature ≡ true =
      ground (arith, q.signed) in
    rw same (q, rw (test', word, signed, roundup_lem, q.again) refl)
