-- ===== src/Tests/Rtfifo.antt =====
-- The FIFO device of xtratum/devs/rtfifo on a page of eight bytes.
use xmertl.Base.{ℕ, ◌≡◌, refl, some, List, [], ◌∷◌, arith, replicate}
use mathlib.Core.Option
use xmertl.Base.{true}
use xmertl.Base.Memory.{memcpy, slice}
use xmertl.Rtfifo.{
  Fifo, read_loop, write_loop, read_fifo, write_fifo, copy_in, copy_out, add_long, restart,
  set_read_flags, unset_read_flags, set_write_flags, unset_write_flags, fifo_usable, fifo_used_size,
  fifo_free_size,
}
use xmertl.Rtfifo.Valid.{IsValid, contents}
use xmertl.Rtfifo.Contents.{IsRead, IsWritten, read_fifo-IsRead, write_fifo-IsWritten}
use xmertl.Rtfifo.Session.{
  Op, Trace, write, read, session, call, demand, IsOrdered, session-IsOrdered,
}

-- Five bytes that go round the end of the page.
abbrev wrapped : Fifo
wrapped = record {
  ff_flags = 8;
  ff_top = 11;
  ff_bom = 6;
  ff_size = 8;
  ff_addr = 30 ∷ 31 ∷ 32 ∷ 0 ∷ 0 ∷ 0 ∷ 10 ∷ 20 ∷ [];
}

wrapped-IsValid : IsValid wrapped
wrapped-IsValid = omega arith

wrapped-contents : contents wrapped ≡ 10 ∷ 20 ∷ 30 ∷ 31 ∷ 32 ∷ []
unfolding slice
wrapped-contents = refl

usable : fifo_usable wrapped ≡ true
unfolding fifo_usable
usable = refl

abbrev moved : Trace → List ℕ × List ℕ
moved t = (t.accepted, t.delivered)

-- A write of four bytes takes the two that fit, and a read of six hands out all seven but one.
session_result :
    Option.map moved (session (write (1 ∷ 2 ∷ 3 ∷ 4 ∷ []) ∷ read 6 ∷ []) wrapped)
    ≡ some (1 ∷ 2 ∷ [], 10 ∷ 20 ∷ 30 ∷ 31 ∷ 32 ∷ 1 ∷ [])
unfolding session call read_fifo write_fifo read_loop write_loop copy_in copy_out memcpy add_long
    restart set_read_flags unset_read_flags set_write_flags unset_write_flags fifo_usable
    fifo_used_size fifo_free_size
session_result = refl

write_fifo-IsWritten_example :
    IsWritten wrapped wrapped-IsValid usable 4
      (1 ∷ 2 ∷ 3 ∷ 4 ∷ [])
      (write_fifo wrapped (1 ∷ 2 ∷ 3 ∷ 4 ∷ []) 4)
write_fifo-IsWritten_example =
    write_fifo-IsWritten wrapped wrapped-IsValid usable 4 (1 ∷ 2 ∷ 3 ∷ 4 ∷ []) (omega arith)
      (omega arith)

read_fifo-IsRead_example :
    IsRead wrapped wrapped-IsValid usable 3
      (0 ∷ 0 ∷ 0 ∷ 0 ∷ [])
      (read_fifo wrapped (0 ∷ 0 ∷ 0 ∷ 0 ∷ []) 3)
read_fifo-IsRead_example =
    read_fifo-IsRead wrapped wrapped-IsValid usable 3 (0 ∷ 0 ∷ 0 ∷ 0 ∷ []) (omega arith)
      (omega arith)

abbrev calls : List Op
calls = write (1 ∷ 2 ∷ 3 ∷ 4 ∷ []) ∷ read 6 ∷ []

session-IsOrdered_example : IsOrdered wrapped (session calls wrapped)
unfolding demand
session-IsOrdered_example = session-IsOrdered calls wrapped wrapped-IsValid usable (omega arith)

abbrev table : List Fifo
table = replicate 16 wrapped

abbrev bytes : List ℕ
bytes = 1 ∷ 2 ∷ []
