-- ===== src/Libc/Time/Examples.antt =====
-- The theorems on `gmtime` at 2024-02-29 12:34:56, and at the end of 1970.
use gloworm.Prelude.{◌<◌, ◌+◌, ◌-◌, ◌*◌, ◌/◌, ◌≤◌, ◌≡◌, ◌⊎◌, none, some, ℕ, refl, arith}
use gloworm.Libc.Time.{Tm, monthdays, gmtime}
use gloworm.Libc.Time.Calendar.{
  YearDay, Represents, table_days, days_of_years, gmtime_lem, gmtime_year_end,
}

gmtime_lem_example :
    ((tm : Tm) × (gmtime 1709210096 ≡ some tm) × Represents 1709210096 tm)
    ⊎ ((gmtime 1709210096 ≡ none)
        × ((year d : ℕ) × YearDay (1709210096 / 86400) year d
            × (table_days (year - 1900) monthdays 0 ≤ d + 1)))
gmtime_lem_example = gmtime_lem 1709210096

gmtime_year_end_example :
    let time = (days_of_years 1 - 1) * 86400 + 7 in (time < 2147483648) × (gmtime time ≡ none)
gmtime_year_end_example = gmtime_year_end 0 7 (omega arith) (omega arith)

-- The last day of January 1970 has the day 0 of the month after it.
january_end :
    gmtime (30 * 86400)
    ≡ some record {
      tm_sec = 0;
      tm_min = 0;
      tm_hour = 0;
      tm_mday = 0;
      tm_mon = 1;
      tm_year = 70;
      tm_wday = 6;
      tm_yday = 30;
      tm_isdst = 0;
    }
unfolding gmtime
january_end = refl
