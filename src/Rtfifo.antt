-- ===== src/Rtfifo.antt =====
-- xtratum/devs/rtfifo/rtfifo.c and rtfifo.h: the FIFO device between the root domain and the others.
-- A FIFO is one page of bytes, and two positions that only grow until the FIFO is drained. The
-- routines return the new table of FIFOs. `none` is an access out of range, or a sum beyond `long`:
-- there C says nothing. Nothing else touches a FIFO between the load and the CAS of a round.
pub mod Valid
pub mod Contents
pub mod Session
pub mod Table
use xmertl.Base.{ℕ, zero, suc, ◌+◌, ◌-◌, ◌%◌, ◌^◌, bit_and, bit_or, ◌&&◌, ◌||◌, not}
use xmertl.Base.{Bool, true, false, Option, none, some, List}
use xmertl.Base.{ltb, leb, ◌==◌, if◌then◌else◌, length, get_elem?, set}
use xmertl.Base.Ints.{ℤ, is_negative, to_ℕ}
use xmertl.Base.Memory.{◌>>=◌, memcpy}
use xmertl.Bitmap.{complement}

-- `struct fifo_struct`; `ff_addr` is the data page itself.
pub record Fifo : Type 0 where
  pub ff_flags : ℕ
  pub ff_top : ℕ
  pub ff_bom : ℕ
  pub ff_size : ℕ
  pub ff_addr : List ℕ

abbrev pub xm_fifo_count : ℕ
xm_fifo_count = 16

abbrev pub page_size : ℕ
page_size = 4096

-- FIFO_RD, FIFO_WR and FIFO_US
abbrev pub fifo_rd : ℕ
fifo_rd = 0x1

abbrev pub fifo_wr : ℕ
fifo_wr = bit_or 0x2 fifo_rd

abbrev pub fifo_us : ℕ
fifo_us = 0x8

unfoldable pub index_unvalid : ℤ → Bool
index_unvalid i = is_negative i || leb xm_fifo_count (to_ℕ i)

-- The sums are `long`. Where the first one goes past the end of `long` it wraps around, and the
-- subtraction brings it back, since a FIFO holds less than its size.
unfoldable pub fifo_used_size : Fifo → ℕ
fifo_used_size ff = (ff.ff_top + ff.ff_size - ff.ff_bom) % ff.ff_size

unfoldable pub fifo_free_size : Fifo → ℕ
fifo_free_size ff = (ff.ff_bom + ff.ff_size - ff.ff_top - 1) % ff.ff_size

unfoldable pub fifo_usable : Fifo → Bool
fifo_usable ff = not (bit_and ff.ff_flags fifo_us == 0)

unfoldable pub set_read_flags : Fifo → Fifo
set_read_flags ff = record ff { ff_flags = bit_or ff.ff_flags fifo_rd }

unfoldable pub unset_read_flags : Fifo → Fifo
unset_read_flags ff = record ff { ff_flags = bit_and ff.ff_flags (complement fifo_rd) }

unfoldable pub set_write_flags : Fifo → Fifo
set_write_flags ff = record ff { ff_flags = bit_or ff.ff_flags fifo_wr }

unfoldable pub unset_write_flags : Fifo → Fifo
unset_write_flags ff = record ff { ff_flags = bit_and ff.ff_flags (complement fifo_wr) }

-- `cmpxchg`: the value that was seen, and the value that is left.
unfoldable pub cas : ℕ → ℕ → ℕ → ℕ × ℕ
cas current old new = (current, if current == old then new else current)

-- A sum of two `long`s that are not negative.
unfoldable pub add_long : ℕ → ℕ → Option ℕ
add_long a b = if ltb (a + b) (2 ^ 31) then some (a + b) else none

-- What a routine returns: a count of bytes, -EINVAL or -ENODEV.
pub data Status : Type 0 where
  count : ℕ → Status
  einval enodev : Status

-- The bytes that a round of `rt_fifo_user_read` copies out.
unfoldable pub copy_out : Fifo → ℕ → List ℕ → Option (List ℕ)
copy_out ff sz dest =
    let bom = ff.ff_bom % ff.ff_size in
    let wrapped : Option (List ℕ) = do
      first ← memcpy (ff.ff_size - bom) dest 0 ff.ff_addr bom
      memcpy (sz - (ff.ff_size - bom)) first (ff.ff_size - bom) ff.ff_addr 0
    in let straight = memcpy sz dest 0 ff.ff_addr bom in
      if leb bom (ff.ff_top % ff.ff_size)
      then straight
      else if ltb (ff.ff_size - bom) sz
      then wrapped
      else straight

-- The data page after a round of `rt_fifo_user_write`.
unfoldable pub copy_in : Fifo → ℕ → List ℕ → Option (List ℕ)
copy_in ff sz src =
    let top = ff.ff_top % ff.ff_size in
    let wrapped : Option (List ℕ) = do
      first ← memcpy (ff.ff_size - top) ff.ff_addr top src 0
      memcpy (sz - (ff.ff_size - top)) first 0 src (ff.ff_size - top)
    in let straight = memcpy sz ff.ff_addr top src 0 in
      if leb top (ff.ff_bom % ff.ff_size)
      then straight
      else if leb sz (ff.ff_size - top)
      then straight
      else wrapped

-- The do-while of the read, on fuel.
unfoldable pub read_loop : ℕ → Fifo → ℕ → List ℕ → Option (ℕ × Fifo × List ℕ)
unfolding cas
read_loop zero ff sz dest = none
read_loop (suc fuel) ff sz dest =
    let used = fifo_used_size ff in
    let n = if ltb used sz then used else sz in
    do
      new_bom ← add_long ff.ff_bom n
      copied ← copy_out ff n dest
      let (seen, bom) = cas ff.ff_bom ff.ff_bom new_bom
      let ff' : Fifo = record ff { ff_bom = bom }
      let again = read_loop fuel ff' n copied
      if seen == ff.ff_bom then some (n, ff', copied) else again

-- The do-while of the write, on fuel.
unfoldable pub write_loop : ℕ → Fifo → ℕ → List ℕ → Option (ℕ × Fifo)
unfolding cas
write_loop zero ff sz src = none
write_loop (suc fuel) ff sz src =
    let free = fifo_free_size ff in
    let n = if ltb free sz then free else sz in
    do
      new_top ← add_long ff.ff_top n
      page ← copy_in ff n src
      let (seen, top) = cas ff.ff_top ff.ff_top new_top
      let ff' : Fifo = record ff { ff_top = top; ff_addr = page }
      let again = write_loop fuel ff' n src
      if seen == ff.ff_top then some (n, ff') else again

-- A drained FIFO starts again at position 0.
unfoldable pub restart : Fifo → Fifo
restart ff = if ff.ff_top == ff.ff_bom then record ff { ff_top = 0; ff_bom = 0 } else ff

-- `rt_fifo_user_read` and `rt_fifo_user_write` past the check of their arguments.
unfoldable pub read_fifo : Fifo → List ℕ → ℕ → Option (Status × Fifo × List ℕ)
read_fifo ff dest size =
    let usable : Option (Status × Fifo × List ℕ) = do
      (n, ff', out) ← read_loop 1 (set_read_flags ff) size dest
      some (count n, restart (unset_read_flags ff'), out)
    in if fifo_usable ff then usable else some (enodev, ff, dest)

unfoldable pub write_fifo : Fifo → List ℕ → ℕ → Option (Status × Fifo)
write_fifo ff src size =
    let usable : Option (Status × Fifo) = do
      (n, ff') ← write_loop 1 (set_write_flags ff) size src
      some (count n, unset_write_flags ff')
    in if fifo_usable ff then usable else some (enodev, ff)

-- `none` in place of `dest` or `src` is a null pointer.
unfoldable pub rt_fifo_user_read :
    List Fifo → ℤ → Option (List ℕ) → ℤ → Option (Status × List Fifo × Option (List ℕ))
rt_fifo_user_read fifos index none size = some (einval, fifos, none)
rt_fifo_user_read fifos index (some dest) size =
    let valid : Option (Status × List Fifo × Option (List ℕ)) = do
      ff ← get_elem? fifos (to_ℕ index)
      (status, ff', out) ← read_fifo ff dest (to_ℕ size)
      some (status, set fifos (to_ℕ index) ff', some out)
    in if index_unvalid index || is_negative size then some (einval, fifos, some dest) else valid

unfoldable pub rt_fifo_user_write :
    List Fifo → ℤ → Option (List ℕ) → ℤ → Option (Status × List Fifo)
rt_fifo_user_write fifos index none size = some (einval, fifos)
rt_fifo_user_write fifos index (some src) size =
    let valid : Option (Status × List Fifo) = do
      ff ← get_elem? fifos (to_ℕ index)
      (status, ff') ← write_fifo ff src (to_ℕ size)
      some (status, set fifos (to_ℕ index) ff')
    in if index_unvalid index || is_negative size then some (einval, fifos) else valid

-- It empties a FIFO.
unfoldable pub flush_fifo : Fifo → Fifo
flush_fifo ff = record ff { ff_top = 0; ff_bom = 0 }

unfoldable pub rt_fifo_user_flush : List Fifo → ℤ → Option (Status × List Fifo)
rt_fifo_user_flush fifos index =
    let valid : Option (Status × List Fifo) = do
      ff ← get_elem? fifos (to_ℕ index)
      some (count 0, set fifos (to_ℕ index) (flush_fifo ff))
    in if index_unvalid index then some (einval, fifos) else valid

abbrev pub flush_command : ℕ
flush_command = 0x01

-- Both branches on what the flush returned return it.
unfoldable pub rt_fifo_user_ioctl : List Fifo → ℤ → ℕ → Option (Status × List Fifo)
rt_fifo_user_ioctl fifos index cmd =
    let flushed = rt_fifo_user_flush fifos index in
    if index_unvalid index
    then some (einval, fifos)
    else if cmd == flush_command
    then flushed
    else some (count 0, fifos)
