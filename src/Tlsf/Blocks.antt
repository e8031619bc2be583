-- ===== src/Tlsf/Blocks.antt =====
-- xtratum/kernel/tlsf.c: the lists of free blocks by class, and the blocks in memory. A pointer is
-- an address; a list that `free_ptr` links is a list of addresses. The fields of the headers are
-- kept by address, and the word `size` of the source as the size and its bits 0 and 1.
use xmertl.Base.{ℕ, zero, suc, ◌+◌, ◌-◌, ◌%◌, ◌^◌, bit_and, bit_or, Bool, true, false, not, ◌&&◌}
use xmertl.Base.{Option, none, some, List, [], ◌∷◌, ltb, leb, if◌then◌else◌, ◌==◌}
use xmertl.Base.Ints.{ℤ, pos, negsuc, to_ℕ}
use xmertl.Bitmap.{complement}
use xmertl.Pthread.{put_list, put_bits, head, erase, is_empty}
use xmertl.Tlsf.{ms_bit, mapping_insert, mapping_search}

abbrev pub min_block_size : ℕ
min_block_size = 8

abbrev pub bhdr_overhead : ℕ
bhdr_overhead = 8

-- `sizeof (bhdr_t)`
abbrev pub bhdr_size : ℕ
bhdr_size = 16

abbrev pub mem_align : ℕ
mem_align = 7

unfoldable pub roundup_size : ℕ → ℕ
roundup_size r = bit_and ((r + mem_align) % 2 ^ 32) (complement mem_align)

-- The pool, and the headers of the blocks in it.
pub record Tlsf : Type 0 where
  pub signature : ℕ
  pub used_size : ℕ
  pub fl_bitmap : ℕ
  pub sl_bitmap : ℕ → ℕ
  pub matrix : ℕ → ℕ → List ℕ
  pub size : ℕ → ℕ
  pub is_free : ℕ → Bool
  pub prev_free : ℕ → Bool
  pub prev_hdr : ℕ → ℕ

-- `a - b` of two `size_t`
abbrev pub sub_size : ℕ → ℕ → ℕ
sub_size a b = (a + 2 ^ 32 - b) % 2 ^ 32

-- A write to a field of the header at an address.
abbrev pub poke {ℓ} : {A : Type ℓ} → ℕ → A → (ℕ → A) → ℕ → A
poke b x field u = if u == b then x else field u

-- `GET_NEXT_BLOCK (b -> ptr.buffer, b -> size & TLSF_BLOCK_SIZE)`
abbrev pub next_block : ℕ → Tlsf → ℕ
next_block b t = b + bhdr_overhead + t.size b

unfoldable pub tlsf_set_bit : ℕ → ℕ → ℕ
tlsf_set_bit nr bitmap = bit_or bitmap (2 ^ nr)

unfoldable pub tlsf_clear_bit : ℕ → ℕ → ℕ
tlsf_clear_bit nr bitmap = bit_and bitmap (complement (2 ^ nr))

unfoldable pub ls_bit : ℕ → ℤ
ls_bit i = ms_bit (bit_and i ((2 ^ 32 - i) % 2 ^ 32))

-- The block that is found, `none` for a null pointer, and its class.
pub record Found : Type 0 where
  pub block : Option ℕ
  pub fl : ℕ
  pub sl : ℕ

abbrev pub is_above_zero : ℤ → Bool
is_above_zero (pos zero) = false
is_above_zero (pos (suc n)) = true
is_above_zero (negsuc n) = false

-- `~ 0 << n`
abbrev pub from_bit : ℕ → ℕ
from_bit n = 2 ^ 32 - 2 ^ n

unfoldable pub find_suitable_block : Tlsf → ℕ → ℕ → Found
find_suitable_block t fl sl =
    let tmp = bit_and (t.sl_bitmap fl) (from_bit sl) in
    let here = to_ℕ (ls_bit tmp) in
    let level = ls_bit (bit_and t.fl_bitmap (from_bit (fl + 1))) in
    let line = to_ℕ (ls_bit (t.sl_bitmap (to_ℕ level))) in
    if not (tmp == 0)
    then record { block = head (t.matrix fl here); fl = fl; sl = here }
    else if is_above_zero level
    then record { block = head (t.matrix (to_ℕ level) line); fl = to_ℕ level; sl = line }
    else record { block = none; fl = to_ℕ level; sl = sl }

-- What both extractions leave: the list without the block, and the bits cleared if it is empty.
unfoldable pub unlisted : ℕ → ℕ → List ℕ → Tlsf → Tlsf
unlisted fl sl list t =
    let bits = if is_empty list then tlsf_clear_bit sl (t.sl_bitmap fl) else t.sl_bitmap fl in
    record t {
      matrix = put_list fl sl list t.matrix;
      fl_bitmap =
          if is_empty list && (bits == 0) then tlsf_clear_bit fl t.fl_bitmap else t.fl_bitmap;
      sl_bitmap = put_bits fl bits t.sl_bitmap;
    }

-- The list behind its head
abbrev pub behind : List ℕ → List ℕ
behind [] = []
behind (b ∷ list) = list

unfoldable pub extract_block_hdr : ℕ → ℕ → Tlsf → Tlsf
extract_block_hdr fl sl t = unlisted fl sl (behind (t.matrix fl sl)) t

unfoldable pub extract_block : ℕ → ℕ → ℕ → Tlsf → Tlsf
extract_block b fl sl t = unlisted fl sl (erase b (t.matrix fl sl)) t

unfoldable pub insert_block : ℕ → ℕ → ℕ → Tlsf → Tlsf
insert_block b fl sl t = record t {
  matrix = put_list fl sl (b ∷ t.matrix fl sl) t.matrix;
  sl_bitmap = put_bits fl (tlsf_set_bit sl (t.sl_bitmap fl)) t.sl_bitmap;
  fl_bitmap = tlsf_set_bit fl t.fl_bitmap;
}

-- `MAPPING_INSERT` and then the macro.
abbrev pub insert_mapped : ℕ → ℕ → Tlsf → Tlsf
insert_mapped b size t = insert_block b (mapping_insert size).fl (mapping_insert size).sl t

abbrev pub extract_mapped : ℕ → Tlsf → Tlsf
extract_mapped b t = extract_block b (mapping_insert (t.size b)).fl (mapping_insert (t.size b)).sl t

-- The block ends after `size` bytes, and the rest is a block of `tmp_size` bytes.
unfoldable pub cut_block : ℕ → ℕ → ℕ → Tlsf → Tlsf
cut_block b size tmp_size t =
    let b2 = b + bhdr_overhead + size in
    record t {
      size = poke b2 tmp_size t.size;
      is_free = poke b2 true t.is_free;
      prev_free = poke b2 false t.prev_free;
      prev_hdr = poke (next_block b t) b2 t.prev_hdr;
    }

abbrev pub split_at : ℕ → ℕ → ℕ → Tlsf → Tlsf
split_at b size tmp_size t =
    let listed = insert_mapped (b + bhdr_overhead + size) tmp_size (cut_block b size tmp_size t) in
    record listed { size = poke b size listed.size; is_free = poke b false listed.is_free }

-- The found block is cut after `size` bytes, and the rest goes back to the lists.
unfoldable pub split_block : ℕ → ℕ → Tlsf → Tlsf
split_block b size t = split_at b size (sub_size (sub_size (t.size b) size) bhdr_overhead) t

-- The found block is used as it is.
unfoldable pub take_block : ℕ → Tlsf → Tlsf
take_block b t = record t {
  prev_free = poke (next_block b t) false t.prev_free;
  is_free = poke b false t.is_free;
}

-- The block found for a size that has been rounded, out of its list.
unfoldable pub use_block : ℕ → ℕ → Tlsf → ℕ × Tlsf
use_block b size t =
    let used =
      if leb bhdr_size (sub_size (t.size b) size) then split_block b size t else take_block b t in
    (
      b + bhdr_overhead,
      record used { used_size = (used.used_size + (used.size b + bhdr_overhead)) % 2 ^ 32 },
    )

-- The size that is searched for.
abbrev pub rounded : ℕ → ℕ
rounded size = if ltb size min_block_size then min_block_size else roundup_size size

-- What follows the search. The result 0 is a null pointer.
unfoldable pub malloc_from : ℕ → Found → Tlsf → ℕ × Tlsf
malloc_from size found t = elim found.block [
  | none ↦ (0, t)
  | some b ↦ use_block b size (extract_block_hdr found.fl found.sl t)
]

unfoldable pub malloc_ex : ℕ → Tlsf → ℕ × Tlsf
malloc_ex size t =
    let wanted = mapping_search (rounded size) in
    malloc_from wanted.r (find_suitable_block t wanted.fl wanted.sl) t

-- The block behind joins the block `b`.
unfoldable pub join_next : ℕ → Tlsf → Tlsf
join_next b t =
    let next = next_block b t in
    let out = extract_mapped next t in
    if t.is_free next
    then record out { size = poke b ((t.size b + (t.size next + bhdr_overhead)) % 2 ^ 32) out.size }
    else t

-- The block `b` joins the block before it, which is given back with the state.
unfoldable pub join_prev : ℕ → Tlsf → ℕ × Tlsf
join_prev b t =
    let prev = t.prev_hdr b in
    let out = extract_mapped prev t in
    if t.prev_free b
    then (
      prev,
      record out {
        size = poke prev ((t.size prev + (t.size b + bhdr_overhead)) % 2 ^ 32) out.size;
      },
    )
    else (b, t)

-- The block goes back to the lists, and the block behind it learns that.
unfoldable pub give_back : ℕ → Tlsf → Tlsf
give_back b t =
    let listed = insert_mapped b (t.size b) t in
    let next = next_block b t in
    record listed {
      prev_free = poke next true listed.prev_free;
      prev_hdr = poke next b listed.prev_hdr;
    }

unfoldable pub free_ex : ℕ → Tlsf → Tlsf
free_ex ptr t =
    let b = ptr - bhdr_overhead in
    let marked = record t {
      is_free = poke b true t.is_free;
      used_size = sub_size t.used_size (t.size b + bhdr_overhead);
    } in
    let (merged, joined) = join_prev b (join_next b marked) in
    if ptr == 0 then t else give_back merged joined
