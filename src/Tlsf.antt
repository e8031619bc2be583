-- ===== src/Tlsf.antt =====
-- xtratum/kernel/tlsf.c: the allocator. Here are the classes of block sizes; Blocks has the blocks in
-- memory with `malloc_ex` and `free_ex`, Resize has `realloc_ex`, and Start has `init_memory_pool`.
pub mod Digits
pub mod Fit
pub mod Blocks
pub mod Lowest
pub mod Round
pub mod Pool
pub mod Find
pub mod Cut
pub mod Merge
pub mod Join
pub mod Use
pub mod Malloc
pub mod Free
pub mod Start
pub mod Client
pub mod Served
pub mod Runs
pub mod Fresh
pub mod Resize
pub mod Trim
pub mod Sized
pub mod Inplace
pub mod Realloc
use xmertl.Base.{ℕ, zero, suc, ◌+◌, ◌-◌, ◌*◌, ◌/◌, ◌%◌, ◌^◌, bit_and, Bool, List, [], ◌∷◌, ◌++◌}
use xmertl.Base.{ltb, leb, if◌then◌else◌, get_or, replicate, ◌==◌}
use xmertl.Base.Ints.{ℤ, pos, negsuc, to_ℕ}
use xmertl.Bitmap.{complement}

abbrev pub max_fli : ℕ
max_fli = 30

abbrev pub max_log2_sli : ℕ
max_log2_sli = 5

abbrev pub max_sli : ℕ
max_sli = 2 ^ max_log2_sli

abbrev pub fli_offset : ℕ
fli_offset = 6

abbrev pub small_block : ℕ
small_block = 128

abbrev pub real_fli : ℕ
real_fli = max_fli - fli_offset

-- The table has -1, and then a run of 1 zero, of 2 ones, of 4 twos, up to 128 sevens.
runs : ℕ → ℕ → List ℤ
runs zero t = []
runs (suc left) t = replicate (2 ^ t) (pos t) ++ runs left (t + 1)

unfoldable pub table : List ℤ
unfolding runs
table = negsuc 0 ∷ runs 8 0

-- `table [..] + a`
unfoldable pub add_int : ℤ → ℕ → ℤ
add_int (pos n) a = pos (n + a)
add_int (negsuc n) a = if leb a n then negsuc (n - a) else pos (a - n - 1)

-- How far `x` is shifted to come below 256
unfoldable pub shift_of : ℕ → ℕ
shift_of x =
    if leb x 0xffff then (if leb x 0xff then 0 else 8) else if leb x 0xffffff then 16 else 24

unfoldable pub ms_bit : ℕ → ℤ
unfolding table add_int shift_of
ms_bit x = add_int (get_or table (x / 2 ^ shift_of x) (negsuc 0)) (shift_of x)

-- What the two macros do to `_r`, `_fl` and `_sl`.
pub record Mapped : Type 0 where
  pub r : ℕ
  pub fl : ℕ
  pub sl : ℕ

-- `*_fl` while it is the position of the highest bit of a size from `SMALL_BLOCK` on
abbrev pub first_level : ℕ → ℕ
first_level r = to_ℕ (ms_bit r)

unfoldable pub mapping_insert : ℕ → Mapped
unfolding ms_bit
mapping_insert r =
    if ltb r small_block
    then record { r = r; fl = 0; sl = r / (small_block / max_sli) }
    else record {
      r = r;
      fl = first_level r - fli_offset;
      sl = r / 2 ^ (first_level r - max_log2_sli) - max_sli;
    }

unfoldable pub mapping_search : ℕ → Mapped
unfolding ms_bit
mapping_search r =
    let t = 2 ^ (first_level r - max_log2_sli) - 1 in
    let r1 = (r + t) % 2 ^ 32 in
    if ltb r small_block
    then record { r = r; fl = 0; sl = r / (small_block / max_sli) }
    else record {
      r = bit_and r1 (complement t);
      fl = first_level r1 - fli_offset;
      sl = r1 / 2 ^ (first_level r1 - max_log2_sli) - max_sli;
    }
