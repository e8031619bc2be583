-- ===== src/Tlsf/Resize.antt =====
-- xtratum/kernel/tlsf.c: `realloc_ex`. The kernel's `memcpy` is a parameter on a memory of any type.
use xmertl.Base.{ℕ, ◌+◌, ◌-◌, ◌*◌, ◌%◌, ◌^◌, true, false, ◌&&◌, ◌||◌}
use xmertl.Base.{ltb, leb, ◌==◌, if◌then◌else◌}
use xmertl.Tlsf.Blocks.{
  Tlsf, bhdr_overhead, bhdr_size, sub_size, next_block, poke, insert_mapped, extract_mapped,
  malloc_ex, free_ex, rounded,
}

-- A used block `b` ends after `size` bytes, and the rest up to `next` goes to the lists.
unfoldable pub cut_off : ℕ → ℕ → ℕ → ℕ → Tlsf → Tlsf
cut_off b size tmp_size next t =
    let tmp_b = b + bhdr_overhead + size in
    let marked = record t {
      size = poke tmp_b tmp_size t.size;
      is_free = poke tmp_b true t.is_free;
      prev_free = poke next true (poke tmp_b false t.prev_free);
      prev_hdr = poke next tmp_b t.prev_hdr;
    } in
    let listed = insert_mapped tmp_b tmp_size marked in
    record listed { size = poke b size listed.size; is_free = poke b false listed.is_free }

-- The same, if there is room for a block, and `tmp_size` is what is left with its header.
unfoldable pub cut_if : ℕ → ℕ → ℕ → ℕ → Tlsf → Tlsf
cut_if b size tmp_size next t =
    if leb bhdr_size tmp_size then cut_off b size (sub_size tmp_size bhdr_overhead) next t else t

-- `used_size` loses the old bytes of the block and gets the new ones.
unfoldable pub recharged : ℕ → Tlsf → Tlsf → Tlsf
recharged b old t = record t {
  used_size =
      (sub_size old.used_size (old.size b + bhdr_overhead) + (t.size b + bhdr_overhead)) % 2 ^ 32;
}

-- The block has the bytes; a free block behind it takes part.
unfoldable pub trimmed : ℕ → ℕ → Tlsf → Tlsf
trimmed b size t =
    let next = next_block b t in
    let joined = (t.size b + (t.size next + bhdr_overhead)) % 2 ^ 32 in
    if t.is_free next
    then cut_if b size (sub_size joined size) (next_block next t) (extract_mapped next t)
    else cut_if b size (sub_size (t.size b) size) next t

-- The free block behind gives its bytes.
unfoldable pub widened : ℕ → Tlsf → Tlsf
widened b t =
    let next = next_block b t in
    let out = extract_mapped next t in
    let wide = record out {
      size = poke b ((t.size b + (t.size next + bhdr_overhead)) % 2 ^ 32) out.size;
    } in
    record wide {
      prev_hdr = poke (next_block b wide) b wide.prev_hdr;
      prev_free = poke (next_block b wide) false wide.prev_free;
    }

unfoldable pub enlarged : ℕ → ℕ → Tlsf → Tlsf
enlarged b size t =
    let wide = widened b t in cut_if b size (sub_size (wide.size b) size) (next_block b wide) wide

unfoldable pub realloc_ex {ℓ} :
    {Memory : Type ℓ} → (ℕ → ℕ → ℕ → Memory → Memory) → ℕ → ℕ → Tlsf × Memory → ℕ × Tlsf × Memory
realloc_ex memcpy ptr new_size (t, m) =
    let b = ptr - bhdr_overhead in
    let next = next_block b t in
    let size = rounded new_size in
    let (fresh, t') = malloc_ex size t in
    let cpsize = if ltb size (t'.size b) then size else t'.size b in
    if ptr == 0
    then (if new_size == 0
        then (0, t, m)
        else ((malloc_ex new_size t).0, (malloc_ex new_size t).1, m))
    else if new_size == 0
    then (0, free_ex ptr t, m)
    else if leb size (t.size b)
    then (ptr, recharged b t (trimmed b size t), m)
    else if t.is_free next && leb size ((t.size b + t.size next) % 2 ^ 32)
    then (ptr, recharged b t (enlarged b size t), m)
    else (fresh, free_ex ptr t', memcpy fresh ptr cpsize m)

-- The product wraps around; a block is filled with zeros.
unfoldable pub calloc_ex {ℓ} :
    {Memory : Type ℓ} → (ℕ → ℕ → ℕ → Memory → Memory) → ℕ → ℕ → Tlsf × Memory → ℕ × Tlsf × Memory
calloc_ex memset nelem elem_size (t, m) =
    let size = nelem * elem_size % 2 ^ 32 in
    let (ptr, t') = malloc_ex size t in
    if (nelem == 0) || (elem_size == 0)
    then (0, t, m)
    else if ptr == 0
    then (0, t', m)
    else (ptr, t', memset ptr 0 size m)

abbrev pub get_used_size : Tlsf → ℕ
get_used_size t = t.used_size

unfoldable pub destroy_memory_pool : Tlsf → Tlsf
destroy_memory_pool t = record t { signature = 0 }

-- The calls on the pool that `mp` points to, without locks.
abbrev pub rtl_malloc : ℕ → Tlsf → ℕ × Tlsf
rtl_malloc size t = malloc_ex size t

abbrev pub rtl_free : ℕ → Tlsf → Tlsf
rtl_free ptr t = free_ex ptr t

abbrev pub rtl_realloc {ℓ} :
    {Memory : Type ℓ} → (ℕ → ℕ → ℕ → Memory → Memory) → ℕ → ℕ → Tlsf × Memory → ℕ × Tlsf × Memory
rtl_realloc memcpy ptr size s = realloc_ex memcpy ptr size s

abbrev pub rtl_calloc {ℓ} :
    {Memory : Type ℓ} → (ℕ → ℕ → ℕ → Memory → Memory) → ℕ → ℕ → Tlsf × Memory → ℕ × Tlsf × Memory
rtl_calloc memset nelem elem_size s = calloc_ex memset nelem elem_size s
