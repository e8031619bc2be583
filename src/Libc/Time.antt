-- ===== src/Libc/Time.antt =====
-- partikle/core/libc/time.c. The years are those from 1970 on; `time_t` is the 32 bits of a `long`.
use xmertl.Base.{
  ℕ, ◌+◌, ◌-◌, ◌*◌, ◌/◌, ◌%◌, ◌^◌, Bool, not, ◌&&◌, ◌||◌, List, [], ◌∷◌, ◌==◌, if◌then◌else◌,
  get_or,
}

-- `struct tm`, as far as `mktime` reads it.
pub record Tm : Type 0 where
  pub tm_sec : ℕ
  pub tm_min : ℕ
  pub tm_hour : ℕ
  pub tm_mday : ℕ
  pub tm_mon : ℕ
  pub tm_year : ℕ

abbrev pub tm_year_base : ℕ
tm_year_base = 1900

abbrev pub secsperday : ℕ
secsperday = 86400

unfoldable pub isleap : ℕ → Bool
isleap y = (y % 4 == 0) && (not (y % 100 == 0) || (y % 400 == 0))

unfoldable pub leap_years_from_epoch : ℕ → ℕ
leap_years_from_epoch y = (y - 1968 - 1) / 4

abbrev pub days_to_month : List ℕ
days_to_month = 0 ∷ 31 ∷ 59 ∷ 90 ∷ 120 ∷ 151 ∷ 181 ∷ 212 ∷ 243 ∷ 273 ∷ 304 ∷ 334 ∷ 365 ∷ []

abbrev pub days_to_month_leap : List ℕ
days_to_month_leap = 0 ∷ 31 ∷ 60 ∷ 91 ∷ 121 ∷ 152 ∷ 182 ∷ 213 ∷ 244 ∷ 274 ∷ 305 ∷ 335 ∷ 366 ∷ []

unfoldable pub mktime : Tm → ℕ
mktime t =
    let year = t.tm_year + tm_year_base in
    let table = if isleap year then days_to_month_leap else days_to_month in
    let days =
      365 * (t.tm_year - 70)
      + leap_years_from_epoch year
      + get_or table t.tm_mon 0
      + t.tm_mday
      - 1 in
    (days * secsperday + t.tm_hour * 3600 + t.tm_min * 60 + t.tm_sec) % 2 ^ 32
