-- ===== src/Fs.antt =====
-- partikle/core/kernel/port/fs.c, dev.c, and the devices devroot.c and devcons.c: the table of open
-- files and the calls on it. A path is the list of its bytes before the terminator. `none` is an
-- access outside an array.
pub mod Devices
pub mod Reading
pub mod Slots
use xmertl.Base.{
  ℕ, zero, suc, ◌+◌, ◌-◌, ◌*◌, ◌%◌, ◌^◌, Bool, true, false, not, ◌&&◌, ◌||◌, Option, none, some,
  List, [], ◌∷◌,
}
use xmertl.Base.{ltb, leb, ◌==◌, if◌then◌else◌, length, get_elem?, set, take, drop}
use xmertl.Base.Ints.{ℤ, pos, negsuc, is_negative}
use xmertl.Libc.Number.{isdigit}

abbrev pub max_files : ℕ
max_files = 128

abbrev pub knamelen : ℕ
knamelen = 28

abbrev pub eperm : ℕ
eperm = 1

abbrev pub enoent : ℕ
enoent = 2

abbrev pub ebadf : ℕ
ebadf = 9

abbrev pub enomem : ℕ
enomem = 12

-- `type` is the place of the device in `devtab`, and `none` is `Nodev`; of `qid` the path is used.
pub record File : Type 0 where
  pub type : Option ℕ
  pub qid : ℕ
  pub flags : ℕ
  pub pos : ℕ

pub record Fs : Type 0 where
  pub files : List File
  pub errno : ℕ

abbrev pub nodev : File
nodev = record { type = none; qid = 0; flags = 0; pos = 0 }

-- What a call does: its result and the state after it.
abbrev pub Call : Type 0 → Type 0
Call A = Fs → Option (A × Fs)

-- An operation of a device; `read` gives the bytes it put into the buffer, too.
pub record Dev : Type 0 where
  pub dc : ℕ
  pub name : List ℕ
  pub «open» : List ℕ → ℕ → Call ℤ
  pub read : ℕ → ℕ → ℕ → Call (ℤ × List ℕ)
  pub write : ℕ → List ℕ → ℕ → Call ℤ
  pub close : ℕ → Call ℤ
  pub ioctl : ℕ → ℕ → ℕ → Call ℤ

abbrev pub fail : ℕ → Call ℤ
fail code s = some (negsuc 0, record s { errno = code })

abbrev pub is_nodev : File → Bool
is_nodev f = elim (f.type) [ none ↦ true | some t ↦ false ]

unfoldable pub newfd : List File → ℕ
newfd [] = 0
newfd (f ∷ files) = let later = newfd files in if is_nodev f then 0 else suc later

-- The test lets `max_files` itself pass.
unfoldable pub freefd : ℤ → Call ℤ
freefd (negsuc n) s = some (negsuc 0, s)
freefd (pos fd) s =
    if ltb max_files fd
    then some (negsuc 0, s)
    else if ltb fd (length s.files)
    then some (pos 0, record s { files = set s.files fd nodev })
    else none

unfoldable pub devno_from : ℕ → ℕ → List Dev → Option ℕ
devno_from dc i [] = none
devno_from dc i (d ∷ devtab) =
    let later = devno_from dc (i + 1) devtab in if d.dc == dc then some i else later

-- `none` is the -1.
unfoldable pub devno : ℕ → List Dev → Option ℕ
unfolding devno_from
devno dc devtab = devno_from dc 0 devtab

abbrev pub same_name : List ℕ → List ℕ → Bool
same_name [] [] = true
same_name (a ∷ s) (b ∷ t) = (a == b) && same_name s t
same_name _ _ = false

-- The device of a name.
unfoldable pub find_name : List ℕ → List Dev → Option Dev
find_name name [] = none
find_name name (d ∷ devtab) =
    let later = find_name name devtab in if same_name d.name name then some d else later

-- The bytes from `i` on before a digit or a slash.
unfoldable pub name_end : List ℕ → ℕ → ℕ
name_end [] i = i
name_end (c ∷ path) i =
    let later = name_end path (i + 1) in if isdigit c || (c == 47) then i else later

abbrev pub dev_prefix : List ℕ
dev_prefix = 47 ∷ 100 ∷ 101 ∷ 118 ∷ 47 ∷ []

-- The kernel's buffer for the name has `knamelen` bytes, and the call clears `i + 1` of it.
unfoldable pub open_sys : List Dev → List ℕ → ℕ → Call ℤ
open_sys devtab path mode s =
    let i = name_end (drop 5 path) 5 in
    if not (same_name (take 5 path) dev_prefix)
    then elim (devno 47 devtab) [
      | none ↦ none
      | some n ↦ elim (get_elem? devtab n) [ none ↦ none | some d ↦ d.«open» path mode s ]
    ]
    else if i == length path
    then fail enoent s
    else if ltb knamelen (i + 1)
    then none
    else elim (find_name (take (i - 5) (drop 5 path)) devtab) [
      | none ↦ fail enoent s
      | some d ↦ d.«open» path mode s
    ]

-- The open file of a descriptor; `none` is the `EBADF` of `checkfd`.
unfoldable pub checkfd : ℤ → List File → Option (ℕ × File × ℕ)
checkfd (negsuc n) files = none
checkfd (pos fd) files = elim (get_elem? files fd) [
  | none ↦ none
  | some f ↦ elim (f.type) [
    | none ↦ none
    | some t ↦ if leb max_files fd then none else some (fd, f, t)
  ]
]

-- `- ret` of a negative result.
abbrev pub magnitude : ℤ → ℤ
magnitude (pos n) = pos n
magnitude (negsuc n) = pos (n + 1)

unfoldable pub close_sys : List Dev → ℤ → Call ℤ
unfolding freefd
close_sys devtab fd s = elim (checkfd fd s.files) [
  | none ↦ fail ebadf s
  | some (n, f, t) ↦ elim (get_elem? devtab t) [
    | none ↦ none
    | some d ↦ elim (d.close n s) [
      | none ↦ none
      | some (ignored, closed) ↦ elim (freefd (pos n) closed) [
        | none ↦ none
        | some (code, freed) ↦ some (pos 0, freed)
      ]
    ]
  ]
]

unfoldable pub write_sys : List Dev → ℤ → List ℕ → Call ℤ
write_sys devtab fd buf s = elim (checkfd fd s.files) [
  | none ↦ fail ebadf s
  | some (n, f, t) ↦ elim (get_elem? devtab t) [
    | none ↦ none
    | some d ↦ elim (d.write n buf f.pos s) [
      | none ↦ none
      | some (ret, written) ↦ some (magnitude ret, written)
    ]
  ]
]

-- The count is a `size_t`, below 2 ^ 32.
unfoldable pub read_sys : List Dev → ℤ → ℕ → Call (ℤ × List ℕ)
read_sys devtab fd count s = elim (checkfd fd s.files) [
  | none ↦ some ((negsuc 0, []), record s { errno = ebadf })
  | some (n, f, t) ↦ elim (get_elem? devtab t) [
    | none ↦ none
    | some d ↦ elim (d.read n count f.pos s) [
      | none ↦ none
      | some ((ret, bytes), after) ↦ some ((magnitude ret, bytes), after)
    ]
  ]
]

unfoldable pub ioctl_sys : List Dev → ℤ → ℕ → ℕ → Call ℤ
ioctl_sys devtab fd cmd arg s = elim (checkfd fd s.files) [
  | none ↦ fail ebadf s
  | some (n, f, t) ↦ elim (get_elem? devtab t) [
    | none ↦ none
    | some d ↦ elim (d.ioctl n cmd arg s) [
      | none ↦ none
      | some (ret, after) ↦ some (if is_negative ret then magnitude ret else pos 0, after)
    ]
  ]
]
