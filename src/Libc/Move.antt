-- ===== src/Libc/Move.antt =====
-- `memmove` moves a block of bytes whether or not the two regions overlap.
use xmertl.Base.{ℕ, zero, suc, ◌+◌, ◌-◌, ◌≤◌, ◌<◌, ◌≡◌, ◌&&◌, arith}
use xmertl.Base.{ltb, leb, if◌then◌else◌}
use xmertl.Libc.Str.{Ram, put, memcpy, memmove, memmove_down}

-- The bytes of the memory `m` with those from `src` on written to the `count` places from `dst` on.
abbrev pub moved : ℕ → ℕ → ℕ → Ram → Ram
moved dst src count m a = if leb dst a && ltb a (dst + count) then m (src + (a - dst)) else m a

memcpy_up :
    (dst src count : ℕ) (m : Ram) (a : ℕ)
    → dst < src
    → memcpy dst src count m a ≡ moved dst src count m a
unfolding memcpy
memcpy_up dst src zero m a h = ground arith
memcpy_up dst src (suc count) m a h =
    ground (arith, memcpy_up (dst + 1) (src + 1) count (put dst (m src) m) a)

memmove_down_lem :
    (dst src count : ℕ) (m : Ram) (a : ℕ)
    → src ≤ dst
    → memmove_down dst src count m a ≡ moved dst src count m a
unfolding memmove_down
memmove_down_lem dst src zero m a h = ground arith
memmove_down_lem dst src (suc count) m a h =
    ground (arith, memmove_down_lem dst src count (put (dst + count) (m (src + count)) m) a)

-- `memmove` writes the bytes that the source had before the call to the destination, whether or not
-- they overlap, and changes no other byte.
pub memmove_lem :
    (dst src count : ℕ) (m : Ram) (a : ℕ) → memmove dst src count m a ≡ moved dst src count m a
unfolding memmove
memmove_lem dst src count m a =
    ground (arith, memcpy_up dst src count m a, memmove_down_lem dst src count m a)
