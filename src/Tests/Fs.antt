-- ===== src/Tests/Fs.antt =====
-- The console and the files of the root as the two devices of a system.
use xmertl.Base.{
  ℕ, zero, suc, ◌≡◌, refl, none, some, List, [], ◌∷◌, arith, replicate, ◌<◌, ◌==◌, if◌then◌else◌,
}
use xmertl.Base.{length, get_or, drop}
use xmertl.Base.Ints.{pos, negsuc}
use xmertl.Libc.Number.{isdigit}
use xmertl.Fs.{
  Fs, Dev, nodev, newfd, checkfd, open_sys, close_sys, write_sys, name_end, find_name, max_files,
  fail,
}
use xmertl.Fs.Devices.{
  consopen, find_con, contab, devclose, rootread, rootwrite, consread, conswrite,
}
use xmertl.Fs.Slots.{IsTable, consopen-close_sys, consopen_errors}
use xmertl.Fs.Reading.{gather, gather_lem}

abbrev contents : ℕ → List ℕ
contents qid = if qid == 5 then 1 ∷ 2 ∷ 3 ∷ 4 ∷ 5 ∷ [] else []

abbrev root : Dev
root = record {
  dc = 47;
  name = 114 ∷ 111 ∷ 111 ∷ 116 ∷ [];
  «open» = λ path mode s. fail 2 s;
  read = rootread contents;
  write = rootwrite;
  close = devclose;
  ioctl = λ fd cmd arg s. some (negsuc 21, s);
}

abbrev console : Dev
console = record {
  dc = 99;
  name = 99 ∷ 111 ∷ 110 ∷ 115 ∷ 111 ∷ 108 ∷ 101 ∷ [];
  «open» = consopen (some 1);
  read = consread (λ fd n. (pos 0, [])) [] [];
  write = conswrite (λ fd str. pos (length str));
  close = devclose;
  ioctl = λ fd cmd arg s. some (pos 0, s);
}

abbrev devtab : List Dev
devtab = root ∷ console ∷ []

abbrev boot : Fs
boot = record { files = replicate 128 nodev; errno = 0 }

get_or-replicate : (n i : ℕ) → get_or (replicate n nodev) i nodev ≡ nodev
get_or-replicate zero i = refl
get_or-replicate (suc n) zero = refl
get_or-replicate (suc n) (suc i) = get_or-replicate n i

boot-IsTable : IsTable boot.files
boot-IsTable = record { full_length = refl; clean = λ i free. get_or-replicate 128 i }

boot_room : newfd boot.files < max_files
unfolding newfd
boot_room = omega arith

-- `/dev/console/null`
abbrev null_path : List ℕ
null_path =
    47 ∷ 100 ∷ 101 ∷ 118 ∷ 47 ∷ 99 ∷ 111 ∷ 110 ∷ 115 ∷ 111 ∷ 108 ∷ 101 ∷ 47 ∷ 110 ∷ 117 ∷ 108 ∷ 108
    ∷ []

null_known : find_con (drop 13 null_path) contab ≡ some 3
unfolding find_con
null_known = refl

consopen-close_sys_example :
    (s' : Fs) × (consopen (some 1) null_path 0 boot ≡ some (pos (newfd boot.files), s'))
    × (checkfd (pos (newfd boot.files)) s'.files
        ≡ some (newfd boot.files, record nodev { type = some 1; qid = 3 }, 1))
    × (close_sys devtab (pos (newfd boot.files)) s' ≡ some (pos 0, boot))
consopen-close_sys_example =
    consopen-close_sys devtab console 1 3 0 null_path boot boot-IsTable boot_room null_known refl
      refl

abbrev used : Fs
used = record { files = replicate 128 (record nodev { type = some 0; qid = 5 }); errno = 0 }

used_full : newfd used.files ≡ max_files
unfolding newfd
used_full = refl

consopen_errors_example : consopen (some 1) null_path 0 used ≡ none
unfolding find_con
consopen_errors_example = consopen_errors (some 1) 0 null_path used refl used_full

gather_lem_example : (s' : Fs) × (gather devtab 7 2 2 used ≡ some (1 ∷ 2 ∷ 3 ∷ 4 ∷ [], s'))
gather_lem_example =
    gather_lem contents devtab root 0 7 2 (omega arith) (omega arith) refl refl 2 used
      (record nodev { type = some 0; qid = 5 }) refl refl

-- The path leads to the console, and a descriptor that is not open is refused.
opened_first : (s : Fs) × (open_sys devtab null_path 0 boot ≡ some (pos 0, s))
unfolding open_sys name_end find_name consopen find_con newfd isdigit
opened_first = (_, refl)

refused : write_sys devtab (pos 3) (1 ∷ []) boot ≡ some (negsuc 0, record boot { errno = 9 })
unfolding write_sys checkfd
refused = refl

-- `/dev/null` has neither a digit nor a slash behind the name.
no_end :
    open_sys devtab (47 ∷ 100 ∷ 101 ∷ 118 ∷ 47 ∷ 110 ∷ 117 ∷ 108 ∷ 108 ∷ []) 0 boot
    ≡ some (negsuc 0, record boot { errno = 2 })
unfolding open_sys name_end isdigit
no_end = refl
