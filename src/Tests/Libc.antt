-- ===== src/Tests/Libc.antt =====
-- The C library on overlapping regions, on short strings, on numbers and on a date.
use xmertl.Base.{
  ℕ, ◌+◌, ◌-◌, ◌%◌, ◌^◌, ◌≤◌, ◌<◌, ◌≡◌, refl, true, Option, none, some, [], ◌∷◌, ◌⊎◌, arith,
}
use xmertl.Base.{◌==◌, if◌then◌else◌}
use xmertl.Base.Ints.{pos, negsuc}
use xmertl.Libc.Str.{
  Ram, memmove, memset, memcmp, strcpy, strncpy, strcat, strcmp, strncmp, strchr, strchr_loop,
  strrchr, strrchr_loop, strstr, strstr_loop, strlen, strlen_loop,
}
use xmertl.Libc.Move.{memmove_lem}
use xmertl.Libc.Find.{is_string, equal, no_match, strstr_lem}
use xmertl.Libc.Number.{
  digit, strtoul, strtol, isspace, isxdigit, isalnum, skip_spaces, skip_sign, choose_base, scan,
}
use xmertl.Libc.Time.{Tm, isleap, mktime}
use xmertl.Libc.Calendar.{days_of_years, days_of_month, days_of_months, mktime_lem}

-- Four bytes move up by two, over themselves.
memmove_lem_example : memmove 2 0 4 (λ a. a % 256) 5 ≡ 3
memmove_lem_example = memmove_lem 2 0 4 (λ a. a % 256) 5

-- `ababc` at 100, and `abc` at 200.
abbrev strings : Ram
strings a =
    if a == 100
    then 97
    else if a == 101
    then 98
    else if a == 102
    then 97
    else if a == 103
    then 98
    else if a == 104
    then 99
    else if a == 200
    then 97
    else if a == 201
    then 98
    else if a == 202
    then 99
    else 0

strings-lt : (a : ℕ) → strings a < 256
strings-lt a = ground arith

haystack_here : is_string 5 100 strings ≡ true
unfolding is_string
haystack_here = refl

needle_here : is_string 3 200 strings ≡ true
unfolding is_string
needle_here = refl

strstr_lem_example :
    ((j : ℕ) × (strstr 9 100 200 strings ≡ some (some (100 + j)))
      × (j + 3 ≤ 5)
      × (equal 3 (100 + j) 200 strings ≡ true)
      × (no_match j 100 200 3 strings ≡ true))
    ⊎ ((strstr 9 100 200 strings ≡ some none) × (no_match (5 + 1 - 3) 100 200 3 strings ≡ true))
strstr_lem_example =
    strstr_lem 5 3 9 100 200 strings strings-lt haystack_here needle_here (omega arith)
      (omega arith) (omega arith) (omega arith)

found_third : strstr 9 100 200 strings ≡ some (some 102)
unfolding strstr strstr_loop strlen strlen_loop memcmp
found_third = refl

-- The other calls on these strings.
compared : (strcmp 9 100 200 strings ≡ some (negsuc 1)) × (strncmp 100 200 2 strings ≡ pos 0)
unfolding strcmp strncmp
compared = (refl, refl)

searched :
    (strchr 9 100 98 strings ≡ some (some 101))
    × (strrchr 9 100 98 strings ≡ some (some 103))
    × (strchr 9 100 99 strings ≡ some (some 104))
unfolding strchr strchr_loop strrchr strrchr_loop
searched = (refl, refl, refl)

abbrev byte : ℕ → Option Ram → ℕ
byte a none = 256
byte a (some m) = m a

appended : (byte 105 (strcat 9 100 200 strings) ≡ 97) × (byte 108 (strcat 9 100 200 strings) ≡ 0)
unfolding strcat strcpy strlen strlen_loop
appended = (refl, refl)

-- `strncpy` stops at the terminator, and leaves the rest of the places as they were.
not_padded : strncpy 300 200 (pos 6) (memset 300 7 6 strings) 304 ≡ 7
unfolding strncpy memset
not_padded = refl

-- `4294967296` does not fit, `0x1fg` is read up to the `g`, and a base of 37 is refused.
numbers :
    (strtoul (52 ∷ 50 ∷ 57 ∷ 52 ∷ 57 ∷ 54 ∷ 55 ∷ 50 ∷ 57 ∷ 54 ∷ []) 10 ≡ (2 ^ 32 - 1, some 10))
    × (strtoul (48 ∷ 120 ∷ 49 ∷ 102 ∷ 103 ∷ []) 0 ≡ (31, some 4))
    × (strtoul (49 ∷ []) 37 ≡ (0, none))
    × (strtol (32 ∷ 45 ∷ 55 ∷ []) 10 ≡ (negsuc 6, some 3))
unfolding strtoul strtol skip_spaces skip_sign choose_base scan digit isspace isxdigit isalnum
numbers = (refl, refl, refl, refl)

-- Noon on the first of March, 2000.
abbrev noon : Tm
noon = record { tm_sec = 0; tm_min = 0; tm_hour = 12; tm_mday = 1; tm_mon = 2; tm_year = 100 }

mktime_lem_example : mktime noon ≡ 951912000
unfolding days_of_years days_of_months days_of_month isleap
mktime_lem_example = mktime_lem noon 30 refl (omega arith) (omega arith) (omega arith)
