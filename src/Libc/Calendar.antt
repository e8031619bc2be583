-- ===== src/Libc/Calendar.antt =====
-- `mktime` against a count of the days one year and one month after the other.
use xmertl.Base.{
  ℕ, zero, suc, ◌+◌, ◌-◌, ◌*◌, ◌%◌, ◌^◌, ◌≤◌, ◌<◌, ◌≡◌, sym, refl, Bool, true, false, ◌&&◌, List,
  [], ◌∷◌, ◌==◌, if◌then◌else◌, get_or, inl, inr, arith, Bool-cases,
}
use xmertl.Libc.Time.{
  Tm, isleap, leap_years_from_epoch, days_to_month, days_to_month_leap, mktime, secsperday,
}

-- The days of the `n` years from 1970 on.
unfoldable pub days_of_years : ℕ → ℕ
unfolding isleap
days_of_years zero = 0
days_of_years (suc n) = days_of_years n + (if isleap (1970 + n) then 366 else 365)

-- The lengths of the months.
unfoldable pub days_of_month : Bool → ℕ → ℕ
days_of_month leap month =
    get_or (31 ∷ (if leap then 29 else 28) ∷ 31 ∷ 30 ∷ 31 ∷ 30 ∷ 31 ∷ 31 ∷ 30 ∷ 31 ∷ 30 ∷ 31 ∷ [])
      month 0

-- The days of the first `n` months.
unfoldable pub days_of_months : Bool → ℕ → ℕ
unfolding days_of_month
days_of_months leap zero = 0
days_of_months leap (suc n) = days_of_months leap n + days_of_month leap n

years_lem : (n : ℕ) → n ≤ 130 → days_of_years n ≡ 365 * n + leap_years_from_epoch (1970 + n)
unfolding days_of_years leap_years_from_epoch isleap
years_lem zero h = refl
years_lem (suc n) h = ground (arith, years_lem n)

-- What is true of every number below a bound.
abbrev below : (ℕ → Bool) → ℕ → Bool
below test zero = true
below test (suc n) = test n && below test n

below_lem : (test : ℕ → Bool) (n i : ℕ) → below test n ≡ true → i < n → test i ≡ true
below_lem test zero i h lt = absurd (omega arith)
below_lem test (suc n) i h lt = elim (Bool-cases (i == n)) [
  | inl last ↦ let same : i ≡ n = ground (arith, last) in rw same (ground (arith, h))
  | inr less ↦ below_lem test n i (ground (arith, h)) (ground (arith, lt, less))
]

abbrev table_of : Bool → List ℕ
table_of leap = if leap then days_to_month_leap else days_to_month

abbrev agrees : Bool → ℕ → Bool
agrees leap m = get_or (table_of leap) m 0 == days_of_months leap m

all_agree : (leap : Bool) → below (agrees leap) 12 ≡ true
unfolding days_of_months
all_agree true = refl
all_agree false = refl

-- The tables are the sums of the months.
months_lem : (leap : Bool) (m : ℕ) → m < 12 → get_or (table_of leap) m 0 ≡ days_of_months leap m
months_lem leap m h = ground (arith, below_lem (agrees leap) 12 m (all_agree leap) h)

-- For a year from 1970 to 2100, a month from 0 to 11 and a day from 1 on, `mktime` counts the days
-- of the years and of the months before, in seconds and modulo the word of `time_t`.
pub mktime_lem :
    (t : Tm) (n : ℕ)
    → t.tm_year ≡ 70 + n
    → n ≤ 130
    → t.tm_mon < 12
    → 1 ≤ t.tm_mday
    → mktime t
      ≡ ((days_of_years n + days_of_months (isleap (1970 + n)) t.tm_mon + (t.tm_mday - 1))
            * secsperday
          + t.tm_hour * 3600
          + t.tm_min * 60
          + t.tm_sec)
        % 2 ^ 32
unfolding mktime
mktime_lem t n year late mon day =
    let now : t.tm_year + 1900 ≡ 1970 + n = omega (arith, year) in
    let past : t.tm_year - 70 ≡ n = omega (arith, year) in
    rw (mktime, now, past, years_lem n late, sym (months_lem (isleap (1970 + n)) t.tm_mon mon))
      (ground (arith, day))
