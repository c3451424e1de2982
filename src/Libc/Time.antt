-- ===== src/Libc/Time.antt =====
-- src/libc/common/time/gmtime.c, for times from 1970 on, which are below 2 ^ 31 in a `time_t` of 32
-- bits.
pub mod Calendar
mod Examples
use gloworm.Prelude.{
  ℕ, zero, suc, ◌+◌, ◌-◌, ◌*◌, ◌/◌, ◌%◌, Bool, not, ◌&&◌, ◌||◌, Option, none, some, List, [], ◌∷◌,
  ltb, ◌==◌, if◌then◌else◌, ◌>>=◌,
}

pub record Tm : Type 0 where
  pub tm_sec : ℕ
  pub tm_min : ℕ
  pub tm_hour : ℕ
  pub tm_mday : ℕ
  pub tm_mon : ℕ
  pub tm_year : ℕ
  pub tm_wday : ℕ
  pub tm_yday : ℕ
  pub tm_isdst : ℕ

abbrev pub sec_per_hour : ℕ
sec_per_hour = 3600

unfoldable pub leap_year : ℕ → Bool
leap_year year = year % 4 == 0 && (not (year % 100 == 0) || year % 400 == 0)

abbrev pub monthdays : List ℕ
monthdays = 31 ∷ 28 ∷ 31 ∷ 30 ∷ 31 ∷ 30 ∷ 31 ∷ 31 ∷ 30 ∷ 31 ∷ 30 ∷ 31 ∷ []

unfoldable pub year_days : ℕ → ℕ
unfolding leap_year
year_days year = if leap_year year then 366 else 365

-- The loop for `tm_year` and `tm_yday`, with the rounds left.
unfoldable pub year_from : ℕ → (year yday : ℕ) → ℕ × ℕ
unfolding year_days
year_from zero year yday = (year, yday)
year_from (suc rounds) year yday =
    let days = year_days year in
    let rest = year_from rounds (year + 1) (yday - days) in
    if ltb yday days then (year, yday) else rest

unfoldable pub month_days : (year mon entry : ℕ) → ℕ
unfolding leap_year
month_days year mon entry = if mon == 1 && leap_year year then entry + 1 else entry

-- The loop for `tm_mon` and `tm_mday`, with the entries of the table from `mon` on; none if it reads
-- behind the table.
unfoldable pub month_from : (year : ℕ) → List ℕ → (mon mday : ℕ) → Option (ℕ × ℕ)
unfolding month_days
month_from year [] mon mday = none
month_from year (entry ∷ entries) mon mday =
    let days = month_days year mon entry in
    let rest = month_from year entries (mon + 1) (mday - days) in
    if ltb mday days then some (mon, mday) else rest

-- None if the table of months is left. The argument is a `time_t` that is not negative; as `time_t`
-- has 32 bits and a sign, it is below 2 ^ 31.
unfoldable pub gmtime : ℕ → Option Tm
unfolding year_from month_from
gmtime time =
    let hournum = time / sec_per_hour in
    let hoursec = time % sec_per_hour in
    let daynum = hournum / 24 in
    let daysec = hournum % 24 * sec_per_hour + hoursec in
    let (year, yday) = year_from (daynum + 1) 1970 daynum in
    month_from (year - 1900) monthdays 0 (yday + 1) >>= λ month. some record {
      tm_sec = daysec % 60;
      tm_min = daysec % 3600 / 60;
      tm_hour = daysec / 3600;
      tm_mday = month.1;
      tm_mon = month.0;
      tm_year = year - 1900;
      tm_wday = (daynum + 4) % 7;
      tm_yday = yday;
      tm_isdst = 0;
    }
