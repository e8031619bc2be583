-- ===== src/Fs/Devices.antt =====
-- partikle/core/kernel/port/devroot.c, devcons.c and dev.c: the devices of the files in memory and
-- of the console. What the build puts into the root, the text of the list of drivers and of the
-- version, and the keyboard and the screen are arguments.
use xmertl.Base.{Bool, ℕ, ◌+◌, ◌-◌, ◌%◌, ◌^◌, Option, none, some, List, [], ◌∷◌}
use xmertl.Base.{ltb, leb, ◌==◌, if◌then◌else◌, length, get_or, set, take, drop}
use xmertl.Base.Ints.{ℤ, pos, negsuc}
use xmertl.Fs.{
  Fs, Call, nodev, fail, newfd, freefd, max_files, eperm, enoent, ebadf, enomem, same_name,
}

abbrev pub devclose : ℕ → Call ℤ
devclose fd s = some (pos 0, s)

abbrev pub qcons : ℕ
qcons = 0

abbrev pub qdrivers : ℕ
qdrivers = 1

abbrev pub qkprint : ℕ
qkprint = 2

abbrev pub qnull : ℕ
qnull = 3

abbrev pub qsysctl : ℕ
qsysctl = 4

abbrev pub contab : List (List ℕ × ℕ)
contab =
    (99 ∷ 111 ∷ 110 ∷ 115 ∷ [], qcons)
    ∷ (100 ∷ 114 ∷ 105 ∷ 118 ∷ 101 ∷ 114 ∷ 115 ∷ [], qdrivers)
    ∷ (107 ∷ 112 ∷ 114 ∷ 105 ∷ 110 ∷ 116 ∷ [], qkprint)
    ∷ (110 ∷ 117 ∷ 108 ∷ 108 ∷ [], qnull)
    ∷ (115 ∷ 121 ∷ 115 ∷ 99 ∷ 116 ∷ 108 ∷ [], qsysctl)
    ∷ []

unfoldable pub find_con : List ℕ → List (List ℕ × ℕ) → Option ℕ
find_con pn [] = none
find_con pn ((name, qid) ∷ table) =
    let later = find_con pn table in if same_name pn name then some qid else later

-- `dev` is `devno ('c')`. The name starts with the 13 bytes of `/dev/console/`.
unfoldable pub consopen : Option ℕ → List ℕ → ℕ → Call ℤ
consopen dev name omode s =
    let fd = newfd s.files in
    elim (find_con (drop 13 name) contab) [
      | none ↦ fail ebadf s
      | some qid ↦
          if leb max_files fd
          then elim (freefd (pos fd) s) [ none ↦ none | some (code, freed) ↦ fail enomem freed ]
          else some (
            pos fd,
            record s {
              files =
                  set s.files fd
                    (record (get_or s.files fd nodev) { type = dev; qid = qid; pos = 0 });
            },
          )
    ]

-- A read goes on where the last one stopped.
abbrev pub advance : ℕ → ℕ → Fs → Fs
advance fd n s =
    let f = get_or s.files fd nodev in
    record s { files = set s.files fd (record f { pos = f.pos + n }) }

-- `n` bytes of a text at `offset`, or as many as there are.
unfoldable pub rest_of : List ℕ → ℕ → ℕ → List ℕ
rest_of text n offset =
    if leb (length text) offset
    then []
    else take (if ltb (length text) (offset + n) then length text - offset else n)
        (drop offset text)

-- The sum is an `unsigned long`. A copy past the end of the text is `none`.
unfoldable pub readstr : ℕ → ℕ → List ℕ → Option (List ℕ)
readstr off n str =
    let size = length str in
    let count = if ltb size ((off + n) % 2 ^ 32) then size - off else n in
    if leb size off
    then some []
    else if ltb size (off + count)
    then none
    else some (take count (drop off str))

-- The count is a `size_t` that is passed on as a `long`.
abbrev pub is_negative_count : ℕ → Bool
is_negative_count n = leb (2 ^ 31) n

-- A count that is negative as a `long` is not cut to what is left, and `memmove` then goes past both
-- ends: that is `none`.
unfoldable pub rootread : (ℕ → List ℕ) → ℕ → ℕ → ℕ → Call (ℤ × List ℕ)
rootread contents fd n offset s =
    let f = get_or s.files fd nodev in
    let text = contents f.qid in
    let bytes = rest_of text n offset in
    if leb (length text) offset
    then some ((pos 0, []), s)
    else if is_negative_count n
    then none
    else some ((pos (length bytes), bytes), advance fd (length bytes) s)

abbrev pub rootwrite : ℕ → List ℕ → ℕ → Call ℤ
rootwrite fd str offset s = fail eperm s

unfoldable pub consread : (ℕ → ℕ → ℤ × List ℕ) → List ℕ → List ℕ → ℕ → ℕ → ℕ → Call (ℤ × List ℕ)
consread read_cons drivers version fd n offset s =
    let qid = (get_or s.files fd nodev).qid in
    let listed = rest_of drivers n offset in
    if qid == qcons
    then some (read_cons fd n, s)
    else if qid == qdrivers
    then (if leb (length drivers) offset
        then some ((pos 0, []), s)
        else if is_negative_count n
        then none
        else some ((pos (length listed), listed), advance fd (length listed) s))
    else if qid == qsysctl
    then elim (readstr offset n version) [
      | none ↦ none
      | some bytes ↦ some ((pos (length bytes), bytes), advance fd (length bytes) s)
    ]
    else if qid == qnull
    then some ((pos 0, []), s)
    else some ((negsuc 0, []), record s { errno = enoent })

-- `write_cons` gives how many of the bytes it showed.
unfoldable pub conswrite : (ℕ → List ℕ → ℤ) → ℕ → List ℕ → ℕ → Call ℤ
conswrite write_cons fd str offset s =
    let qid = (get_or s.files fd nodev).qid in
    if qid == qcons
    then some (write_cons fd str, s)
    else if qid == qdrivers
    then fail eperm s
    else if qid == qnull
    then some (pos (length str), s)
    else fail enoent s
