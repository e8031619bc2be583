-- ===== src/Libc/Str.antt =====
-- partikle/core/libc/string.c. A pointer is an address of one memory of bytes. A loop that stops at
-- a terminator runs on fuel, and `none` is fuel that was too short to meet it.
use xmertl.Base.{ℕ, zero, suc, ◌+◌, ◌-◌, ◌%◌, Bool, false, not, ◌&&◌, Option, none, some}
use xmertl.Base.{ltb, leb, ◌==◌, if◌then◌else◌}
use xmertl.Base.Memory.{◌>>=◌}
use xmertl.Base.Ints.{ℤ, pos, negsuc, to_ℕ}

abbrev pub Ram : Type 0
Ram = ℕ → ℕ

abbrev pub put : ℕ → ℕ → Ram → Ram
put p v m a = if a == p then v else m a

-- `m - n` as an `int`
abbrev pub difference : ℕ → ℕ → ℤ
difference m n = if leb n m then pos (m - n) else negsuc (n - m - 1)

-- `char` has a sign on the i386: a byte from 128 on stands for itself less 256.
abbrev pub char_difference : ℕ → ℕ → ℤ
char_difference a b = difference ((a + 128) % 256) ((b + 128) % 256)

abbrev pub is_zero : ℤ → Bool
is_zero (pos n) = n == 0
is_zero (negsuc n) = false

unfoldable pub memset : ℕ → ℕ → ℕ → Ram → Ram
memset dst s zero m = m
memset dst s (suc count) m = memset (dst + 1) s count (put dst (s % 256) m)

unfoldable pub memcpy : ℕ → ℕ → ℕ → Ram → Ram
memcpy dst src zero m = m
memcpy dst src (suc count) m = memcpy (dst + 1) (src + 1) count (put dst (m src) m)

unfoldable pub memcmp : ℕ → ℕ → ℕ → Ram → ℤ
memcmp dst src zero m = pos 0
memcmp dst src (suc count) m =
    let r = char_difference (m dst) (m src) in
    let rest = memcmp (dst + 1) (src + 1) count m in if not (is_zero r) then r else rest

unfoldable pub strcpy : ℕ → ℕ → ℕ → Ram → Option Ram
strcpy zero dst src m = none
strcpy (suc fuel) dst src m =
    let copied = put dst (m src) m in
    let rest = strcpy fuel (dst + 1) (src + 1) copied in if m src == 0 then some copied else rest

pub strncpy_loop : ℕ → ℕ → ℕ → Ram → Ram
strncpy_loop zero dst src m = m
strncpy_loop (suc n) dst src m =
    let copied = put dst (m src) m in
    let rest = strncpy_loop n (dst + 1) (src + 1) copied in if m src == 0 then copied else rest

unfoldable pub strncpy : ℕ → ℕ → ℤ → Ram → Ram
unfolding strncpy_loop
strncpy dst src n m = strncpy_loop (to_ℕ n) dst src m

unfoldable pub strlen_loop : ℕ → ℕ → ℕ → Ram → Option ℕ
strlen_loop zero s i m = none
strlen_loop (suc fuel) s i m =
    let rest = strlen_loop fuel (s + 1) (i + 1) m in if m s == 0 then some i else rest

-- A null pointer has the length 0.
unfoldable pub strlen : ℕ → ℕ → Ram → Option ℕ
unfolding strlen_loop
strlen fuel s m = if s == 0 then some 0 else strlen_loop fuel s 0 m

-- The loop of `strcat` is that of `strcpy`.
unfoldable pub strcat : ℕ → ℕ → ℕ → Ram → Option Ram
strcat fuel s t m = do length ← strlen fuel s m; strcpy fuel (s + length) t m

unfoldable pub strcmp : ℕ → ℕ → ℕ → Ram → Option ℤ
strcmp zero s t m = none
strcmp (suc fuel) s t m =
    let rest = strcmp fuel (s + 1) (t + 1) m in
    if not (m s == m t)
    then some (difference (m s) (m t))
    else if m s == 0
    then some (difference (m s) (m t))
    else rest

unfoldable pub strncmp : ℕ → ℕ → ℕ → Ram → ℤ
strncmp s1 s2 zero m = pos 0
strncmp s1 s2 (suc n) m =
    let rest = strncmp (s1 + 1) (s2 + 1) n m in
    if not (m s1 == m s2) then difference (m s1) (m s2) else if m s1 == 0 then pos 0 else rest

-- `l` is the last place so far; `some none` is a null pointer.
unfoldable pub strrchr_loop : ℕ → ℕ → ℕ → Option ℕ → Ram → Option (Option ℕ)
strrchr_loop zero t ch l m = none
strrchr_loop (suc fuel) t ch l m =
    let last = if m t == ch then some t else l in
    let rest = strrchr_loop fuel (t + 1) ch last m in if m t == 0 then some last else rest

unfoldable pub strrchr : ℕ → ℕ → ℕ → Ram → Option (Option ℕ)
unfolding strrchr_loop
strrchr fuel t c m = strrchr_loop fuel t (c % 256) none m

unfoldable pub strchr_loop : ℕ → ℕ → ℕ → Ram → Option (Option ℕ)
strchr_loop zero t ch m = none
strchr_loop (suc fuel) t ch m =
    let rest = strchr_loop fuel (t + 1) ch m in
    if m t == ch then some (some t) else if m t == 0 then some none else rest

unfoldable pub strchr : ℕ → ℕ → ℕ → Ram → Option (Option ℕ)
unfolding strchr_loop
strchr fuel t c m = strchr_loop fuel t (c % 256) m

unfoldable pub strstr_loop : ℕ → ℕ → ℕ → ℕ → Ram → Option ℕ
strstr_loop zero haystack needle nl m = none
strstr_loop (suc i) haystack needle nl m =
    let rest = strstr_loop i (haystack + 1) needle nl m in
    if (m haystack == m needle) && is_zero (memcmp haystack needle nl m)
    then some haystack
    else rest

unfoldable pub strstr : ℕ → ℕ → ℕ → Ram → Option (Option ℕ)
strstr fuel haystack needle m = do
  nl ← strlen fuel needle m
  hl ← strlen fuel haystack m
  if nl == 0
      then some (some haystack)
      else if ltb hl nl
      then some none
      else some (strstr_loop (hl - nl + 1) haystack needle nl m)

-- The copy from the last byte down.
unfoldable pub memmove_down : ℕ → ℕ → ℕ → Ram → Ram
memmove_down dst src zero m = m
memmove_down dst src (suc count) m =
    memmove_down dst src count (put (dst + count) (m (src + count)) m)

-- The loop up is that of `memcpy`.
unfoldable pub memmove : ℕ → ℕ → ℕ → Ram → Ram
memmove dst src count m =
    if not (src == dst)
    then (if ltb dst src then memcpy dst src count m else memmove_down dst src count m)
    else m
