-- ===== src/Fs/Slots.antt =====
-- The table of open files: a file that is opened and closed leaves the table as it was.
use xmertl.Base.{
  ℕ, zero, suc, ◌<◌, ◌≡◌, ◌∙◌, ap, refl, true, false, Option, none, some, List, [], ◌∷◌, inl, inr,
  arith,
}
use xmertl.Base.{
  ltb, leb, Bool-cases, Option-cases, length, get_elem?, get_or, set, drop, length-set,
  get_elem?-set_self,
}
use xmertl.Base.Ints.{pos, negsuc}
use xmertl.Fs.{File, Fs, Dev, nodev, is_nodev, newfd, freefd, checkfd, close_sys, max_files, ebadf}
use xmertl.Fs.Devices.{consopen, find_con, contab, devclose}

newfd_lem :
    (files : List File)
    → newfd files < length files
    → (is_nodev (get_or files (newfd files) nodev) ≡ true)
      × (get_elem? files (newfd files) ≡ some (get_or files (newfd files) nodev))
unfolding newfd
newfd_lem [] h = absurd (omega arith)
newfd_lem (f ∷ files) h = elim (Bool-cases (is_nodev f)) [
  | inl free ↦ rw (newfd, free) (free, refl)
  | inr used ↦ rw (newfd, used) (newfd_lem files (ground (arith, h, used)))
]

-- No descriptor before the one found is free.
pub newfd-le :
    (files : List File) (i : ℕ) → i < newfd files → is_nodev (get_or files i nodev) ≡ false
unfolding newfd
newfd-le [] i h = absurd (omega arith)
newfd-le (f ∷ files) zero h = ground (arith, h)
newfd-le (f ∷ files) (suc i) h = ground (arith, h, newfd-le files i)

set_twice : (files : List File) (i : ℕ) (f g : File) → set (set files i f) i g ≡ set files i g
set_twice [] i f g = refl
set_twice (h ∷ files) zero f g = refl
set_twice (h ∷ files) (suc i) f g = ap (◌∷◌ h) (set_twice files i f g)

set_same :
    (files : List File) (i : ℕ) (f : File) → get_elem? files i ≡ some f → set files i f ≡ files
set_same [] i f e = refl
set_same (h ∷ files) zero f e = ground (arith, e)
set_same (h ∷ files) (suc i) f e = ap (◌∷◌ h) (set_same files i f e)

-- The table has its length, and a descriptor that is free has nothing left in it.
pub record IsTable (files : List File) : Type 0 where
  pub full_length : length files ≡ max_files
  pub clean : (i : ℕ) → is_nodev (get_or files i nodev) ≡ true → get_or files i nodev ≡ nodev

-- In a table of 128 files whose free entries are empty, with one of them free, opening a name that
-- the console has takes the first free descriptor, on the device `t` and at its start, and closing
-- that, by a device whose `close` does nothing, gives the state from before.
pub consopen-close_sys :
    (devtab : List Dev) (d : Dev) (t qid mode : ℕ) (name : List ℕ) (s : Fs)
    → IsTable s.files
    → newfd s.files < max_files
    → find_con (drop 13 name) contab ≡ some qid
    → get_elem? devtab t ≡ some d
    → d.close ≡ devclose
    → (s' : Fs) × (consopen (some t) name mode s ≡ some (pos (newfd s.files), s'))
      × (checkfd (pos (newfd s.files)) s'.files
          ≡ some (newfd s.files, record nodev { type = some t; qid = qid }, t))
      × (close_sys devtab (pos (newfd s.files)) s' ≡ some (pos 0, s))
unfolding consopen close_sys checkfd freefd
consopen-close_sys devtab d t qid mode name s v room known there closing =
    let fd = newfd s.files in
    let inside : fd < length s.files = omega (arith, v.full_length, room) in
    let (free, held) = newfd_lem s.files inside in
    let empty = v.clean fd free in
    let f : File = record nodev { type = some t; qid = qid } in
    let s' : Fs = record s { files = set s.files fd f } in
    let low : leb max_files fd ≡ false = ground (arith, room) in
    let now : get_elem? s'.files fd ≡ some f = get_elem?-set_self s.files fd f inside in
    let check : checkfd (pos fd) s'.files ≡ some (fd, f, t) = rw (checkfd, now, low) refl in
    let over : ltb max_files fd ≡ false = ground (arith, room) in
    let kept : ltb fd (length (set s.files fd f)) ≡ true =
      ground (arith, length-set s.files fd f, inside) in
    (
      s',
      rw (consopen, known, low, empty) refl,
      check,
      rw
          (
            close_sys,
            check,
            there,
            closing,
            over,
            kept,
            set_twice s.files fd f nodev,
            set_same s.files fd nodev (held ∙ ap some empty),
          )
          refl,
    )

-- With all 128 descriptors in use, `consopen` refuses a name that the console does not have with
-- EBADF, and for a name that it has, it writes behind the table.
pub consopen_errors :
    (dev : Option ℕ) (mode : ℕ) (name : List ℕ) (s : Fs)
    → length s.files ≡ max_files
    → newfd s.files ≡ max_files
    → consopen dev name mode s ≡ elim (find_con (drop 13 name) contab) [
      | none ↦ some (negsuc 0, record s { errno = ebadf })
      | some qid ↦ none
    ]
unfolding consopen freefd
consopen_errors dev mode name s size full = elim (Option-cases (find_con (drop 13 name) contab)) [
  | inl unknown ↦ rw (consopen, unknown) refl
  | inr (qid, known) ↦ rw (consopen, known, full, size) refl
]
