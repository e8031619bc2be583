-- ===== src/Libc/Number.antt =====
-- partikle/core/libc/stdlib.c, and the tests of partikle/core/include/ctype.h. A string is the list
-- of its bytes before the terminator; a pointer into it is the number of bytes before it. An `int`
-- is read as its `unsigned`, and `unsigned long` has 32 bits.
use xmertl.Base.{
  ℕ, zero, suc, ◌+◌, ◌-◌, ◌*◌, ◌/◌, ◌%◌, ◌^◌, bit_or, Bool, true, false, not, ◌&&◌, ◌||◌, Option,
  none, some, List, [], ◌∷◌,
}
use xmertl.Base.{ltb, leb, ◌==◌, if◌then◌else◌}
use xmertl.Base.Ints.{ℤ, pos, negsuc}

abbrev pub ulong_max : ℕ
ulong_max = 2 ^ 32 - 1

abbrev pub abs_long_min : ℕ
abs_long_min = 2147483648

-- `(unsigned int) (ch - low)`
abbrev pub from : ℕ → ℕ → ℕ
from low ch = (ch + 2 ^ 32 - low) % 2 ^ 32

unfoldable pub isdigit : ℕ → Bool
isdigit ch = ltb (from 48 ch) 10

unfoldable pub isspace : ℕ → Bool
isspace ch = ltb (from 9 ch) 5 || (ch == 32)

unfoldable pub isxdigit : ℕ → Bool
isxdigit ch = ltb (from 48 ch) 10 || ltb (from 97 (bit_or ch 0x20)) 6

unfoldable pub isalnum : ℕ → Bool
isalnum ch = ltb (from 97 (bit_or ch 0x20)) 26 || ltb (from 48 ch) 10

-- `* nptr`
abbrev pub first : List ℕ → ℕ
first [] = 0
first (c ∷ s) = c

abbrev pub rest : List ℕ → List ℕ
rest [] = []
rest (c ∷ s) = s

-- The string after its spaces, and how many they are.
unfoldable pub skip_spaces : List ℕ → ℕ → List ℕ × ℕ
skip_spaces [] i = ([], i)
skip_spaces (c ∷ s) i =
    let skipped = skip_spaces s (i + 1) in if isspace c then skipped else (c ∷ s, i)

unfoldable pub skip_sign : List ℕ × ℕ → Bool × (List ℕ × ℕ)
skip_sign (s, i) =
    if first s == 45
    then (true, (rest s, i + 1))
    else if first s == 43
    then (false, (rest s, i + 1))
    else (false, (s, i))

-- The value that a character has as a digit, as an `unsigned char`.
unfoldable pub digit : ℕ → ℕ
digit c =
    if leb 97 c
    then c - 97 + 10
    else if leb 65 c
    then c - 65 + 10
    else if leb c 57
    then (c + 256 - 48) % 256
    else 0xff

-- The value, whether it went past `ulong_max`, and the place of the first character that is no
-- digit.
pub record Scan : Type 0 where
  pub v : ℕ
  pub overflow : Bool
  pub nptr : ℕ

unfoldable pub scan : ℕ → List ℕ → ℕ → Bool → ℕ → Scan
scan base [] v overflow nptr = record { v = v; overflow = overflow; nptr = nptr }
scan base (c ∷ s) v overflow nptr =
    let d = digit c in
    let x = v % 256 * base + d in
    let w = v / 256 * base + x / 256 in
    let more =
      scan base s ((w * 256 + x % 256) % 2 ^ 32) (overflow || ltb (ulong_max / 256) w) (nptr + 1) in
    if leb base d then record { v = v; overflow = overflow; nptr = nptr } else more

-- The base and the place of the digits: `none` is a base that is refused.
abbrev pub skip_prefix : ℕ → List ℕ → ℕ → ℕ × (List ℕ × ℕ)
skip_prefix base s i =
    if ((first (rest s) == 120) || (first (rest s) == 88)) && isxdigit (first (rest (rest s)))
    then (16, (rest (rest s), i + 2))
    else (base, (s, i))

unfoldable pub choose_base : ℕ → List ℕ × ℕ → Option (ℕ × (List ℕ × ℕ))
choose_base base (s, i) =
    if (base == 16) && (first s == 48)
    then some (skip_prefix base s i)
    else if not (base == 0)
    then (if ltb 34 ((base + 2 ^ 32 - 2) % 2 ^ 32) then none else some (base, (s, i)))
    else if first s == 48
    then some (skip_prefix 8 s i)
    else some (10, (s, i))

-- The value and what `endptr` gets; `none` is an `endptr` that is not written.
unfoldable pub strtoul : List ℕ → ℕ → ℕ × Option ℕ
strtoul ptr base =
    let (neg, (signless, orig)) = skip_sign (skip_spaces ptr 0) in
    elim (choose_base base (signless, orig)) [
      | none ↦ (0, none)
      | some (chosen, (s, i)) ↦
          let end = scan chosen s 0 false i in
          let v = if end.nptr == orig then 0 else end.v in
          let nptr = if end.nptr == orig then 0 else end.nptr in
          (if end.overflow then ulong_max else if neg then (2 ^ 32 - v) % 2 ^ 32 else v, some nptr)
    ]

-- `- v` as a `long`
abbrev pub minus : ℕ → ℤ
minus zero = pos 0
minus (suc v) = negsuc v

unfoldable pub strtol : List ℕ → ℕ → ℤ × Option ℕ
strtol orig base =
    let (spaceless, i) = skip_spaces orig 0 in
    let neg = (first spaceless == 45) && isalnum (first (rest spaceless)) in
    let nptr = if neg then rest spaceless else spaceless in
    let start = if neg then i + 1 else i in
    let (v, end) = strtoul nptr base in
    let value : ℤ =
      if leb abs_long_min v
      then (if (v == abs_long_min) && neg
          then negsuc (2 ^ 31 - 1)
          else if neg
          then negsuc (2 ^ 31 - 1)
          else pos (2 ^ 31 - 1))
      else if neg
      then minus v
      else pos v in
    (value, elim end [ none ↦ none | some n ↦ some (if n == 0 then 0 else start + n) ])
