-- ===== src/Libc/Time/Calendar.antt =====
-- What `gmtime` computes, against the number of days in the years and months before a date.
use gloworm.Prelude.{
  ℕ, zero, suc, ◌+◌, ◌-◌, ◌*◌, ◌/◌, ◌%◌, ◌<◌, ◌≤◌, ◌≡◌, ◌⊎◌, inl, inr, refl, ap, subst, Option,
  none, some, List, [], ◌∷◌, ltb, ◌==◌, Bool-cases, ==_iff, arith,
}
use gloworm.Libc.Time.{
  Tm, leap_year, monthdays, year_days, year_from, month_days, month_from, gmtime,
}

-- The days in the first `n` years from 1970 on.
abbrev pub days_of_years : ℕ → ℕ
days_of_years zero = 0
days_of_years (suc n) = days_of_years n + year_days (1970 + n)

-- The days in the first `n` months of a table that starts at the month `mon`.
abbrev pub days_of_months : (year : ℕ) → List ℕ → (mon n : ℕ) → ℕ
days_of_months year entries mon zero = 0
days_of_months year [] mon (suc n) = 0
days_of_months year (entry ∷ entries) mon (suc n) =
    month_days year mon entry + days_of_months year entries (mon + 1) n

year_days-bounds : (y : ℕ) → (365 ≤ year_days y) × (year_days y ≤ 366)
unfolding year_days
year_days-bounds y = ground arith

-- The day `day` of the years from 1970 on is day `d` of the year 1970 + `m`.
pub record YearDay (day year d : ℕ) : Type 0 where
  pub years : ℕ
  pub named : year ≡ 1970 + years
  pub counted : day ≡ days_of_years years + d
  pub inside : d < year_days year

year_from-YearDay :
    (rounds n year yday : ℕ)
    → year ≡ 1970 + n
    → yday < rounds
    → let (year', d) = year_from rounds year yday in YearDay (days_of_years n + yday) year' d
unfolding year_from
year_from-YearDay zero n year yday at l = absurd (omega arith)
year_from-YearDay (suc rounds) n year yday at l = elim (Bool-cases (ltb yday (year_days year))) [
  | inl e ↦ rw e (record { years = n; named = at; counted = refl; inside = ground (arith, e) })
  | inr e ↦ rw e (
      subst
        (λ k.
          let (year', d) = year_from rounds (year + 1) (yday - year_days year) in YearDay k year' d)
        (ground (arith, e, ap year_days at))
        (year_from-YearDay rounds (suc n) (year + 1) (yday - year_days year) (omega arith)
          (ground (arith, e, year_days-bounds year))))
]

-- The days of all months of a table that starts at the month `mon`.
abbrev pub table_days : (year : ℕ) → List ℕ → (mon : ℕ) → ℕ
table_days year [] mon = 0
table_days year (entry ∷ entries) mon =
    month_days year mon entry + table_days year entries (mon + 1)

-- The day `mday` of the table, counted from its first month, is day `mday'` of the month `mon'`.
pub record MonthDay (year : ℕ) (entries : List ℕ) (mon mday mon' mday' : ℕ) : Type 0 where
  pub months : ℕ
  pub named : mon' ≡ mon + months
  pub counted : mday ≡ days_of_months year entries mon months + mday'
  pub inside : mday < days_of_months year entries mon (suc months)

abbrev Dated : (year : ℕ) → List ℕ → (mon mday : ℕ) → Option (ℕ × ℕ) → Type 0
Dated year entries mon mday r =
    ((m : ℕ × ℕ) × (r ≡ some m) × MonthDay year entries mon mday m.0 m.1)
    ⊎ ((r ≡ none) × (table_days year entries mon ≤ mday))

month_from-Dated :
    (year : ℕ) (entries : List ℕ) (mon mday : ℕ)
    → Dated year entries mon mday (month_from year entries mon mday)
unfolding month_from
month_from-Dated year [] mon mday = inr (refl, omega arith)
month_from-Dated year (entry ∷ entries) mon mday =
    elim (Bool-cases (ltb mday (month_days year mon entry))) [
      | inl e ↦ rw e (
          inl (
            (mon, mday),
            refl,
            record {
              months = 0;
              named = omega arith;
              counted = omega arith;
              inside = ground (arith, e);
            },
          ))
      | inr e ↦
          rw e (elim (month_from-Dated year entries (mon + 1) (mday - month_days year mon entry)) [
            | inl (m, r, d) ↦ inl (
              m,
              r,
              record {
                months = suc d.months;
                named = omega (arith, d.named);
                counted = ground (arith, e, d.counted);
                inside = ground (arith, e, d.inside);
              },
            )
            | inr (r, l) ↦ inr (r, ground (arith, e, l))
          ])
    ]

-- The time that the fields of a date stand for.
pub record Represents (time : ℕ) (tm : Tm) : Type 0 where
  pub date : YearDay (time / 86400) (tm.tm_year + 1900) tm.tm_yday
  pub month : MonthDay tm.tm_year monthdays 0 (tm.tm_yday + 1) tm.tm_mon tm.tm_mday
  pub clock : time % 86400 ≡ tm.tm_hour * 3600 + tm.tm_min * 60 + tm.tm_sec
  pub minutes : tm.tm_min < 60
  pub seconds : tm.tm_sec < 60
  pub weekday : tm.tm_wday ≡ (time / 86400 + 4) % 7

-- For every time from 1970 on, `gmtime` ends. Either its fields stand for the time: the days of the
-- years before `tm_year` and `tm_yday` make up the days since 1970, the days of the months before
-- `tm_mon` and `tm_mday` make up `tm_yday` and one, with `tm_mday` less than the days of its month,
-- and the clock and the day of the week are those of the time. February has 29 days here if the
-- number `tm_year`, which counts from 1900, is that of a leap year. Or it reads behind the table of
-- months, and then `tm_yday` and one is not less than the days of all months.
pub gmtime_lem :
    (time : ℕ)
    → ((tm : Tm) × (gmtime time ≡ some tm) × Represents time tm)
      ⊎ ((gmtime time ≡ none)
          × ((year d : ℕ) × YearDay (time / 86400) year d
              × (table_days (year - 1900) monthdays 0 ≤ d + 1)))
unfolding gmtime
gmtime_lem time =
    let days : ℕ = time / 3600 / 24 in
    let same : days_of_years 0 + days ≡ time / 86400 = omega arith in
    let (year, d) = year_from (days + 1) 1970 days in
    let date : YearDay (time / 86400) year d =
      subst (λ k. YearDay k year d) same
        (year_from-YearDay (days + 1) 0 1970 days refl (omega arith)) in
    elim (month_from-Dated (year - 1900) monthdays 0 (d + 1)) [
      | inl (m, r, md) ↦ rw r (
          inl (
            _,
            refl,
            record {
              date = subst (λ y. YearDay (time / 86400) y d) (omega (arith, date.named)) date;
              month = md;
              clock = omega arith;
              minutes = omega arith;
              seconds = omega arith;
              weekday = omega arith;
            },
          ))
      | inr (r, l) ↦ rw r (inr (refl, (year, d, date, l)))
    ]

days_of_years_mono : (m n : ℕ) → m < n → days_of_years (suc m) ≤ days_of_years n
days_of_years_mono m zero l = absurd (omega arith)
days_of_years_mono m (suc n) l = elim (Bool-cases (m == n)) [
  | inl e ↦ ground (
    arith,
    e,
    ap days_of_years ((==_iff m n).0 e),
    ap (λ k. year_days (1970 + k)) ((==_iff m n).0 e),
  )
  | inr e ↦ omega (arith, days_of_years_mono m n (ground (arith, e)))
]

-- A day stands in one year only.
year_unique :
    (day n year d : ℕ)
    → YearDay day year d
    → days_of_years n ≤ day
    → day < days_of_years (suc n)
    → year ≡ 1970 + n
year_unique day n year d yd from to = ground (
  arith,
  yd.named,
  yd.counted,
  yd.inside,
  days_of_years_mono n yd.years,
  days_of_years_mono yd.years n,
  ap year_days yd.named,
)

days_of_months-le :
    (year : ℕ) (entries : List ℕ) (mon n : ℕ)
    → days_of_months year entries mon n ≤ table_days year entries mon
days_of_months-le year entries mon zero = omega arith
days_of_months-le year [] mon (suc n) = omega arith
days_of_months-le year (entry ∷ entries) mon (suc n) =
    omega (arith, days_of_months-le year entries (mon + 1) n)

table_days-year_days : (y : ℕ) → 70 ≤ y → y < 400 → table_days y monthdays 0 ≤ year_days (y + 1900)
unfolding year_days leap_year month_days
table_days-year_days y l l' = ground arith

year_end : (n s : ℕ) → n < 68 → s < 86400 → gmtime ((days_of_years (suc n) - 1) * 86400 + s) ≡ none
year_end n s range clock =
    let time : ℕ = (days_of_years (suc n) - 1) * 86400 + s in
    let long = (year_days-bounds (1970 + n)).0 in
    let day : time / 86400 ≡ days_of_years (suc n) - 1 = omega arith in
    elim (gmtime_lem time) [
      | inr (r, _) ↦ r
      | inl (tm, r, rep) ↦
          let d = rep.date in
          let year : tm.tm_year + 1900 ≡ 1970 + n =
            year_unique (time / 86400) n (tm.tm_year + 1900) tm.tm_yday d (omega (arith, day, long))
              (omega (arith, day, long)) in
          let same : d.years ≡ n = omega (arith, d.named, year) in
          absurd (
            omega (
              arith,
              day,
              d.counted,
              ap days_of_years same,
              ap year_days year,
              rep.month.inside,
              days_of_months-le tm.tm_year monthdays 0 (suc rep.month.months),
              table_days-year_days tm.tm_year (omega (arith, year)) (omega (arith, year)),
            ))
    ]

last_years : (n s : ℕ) → n < 68 → s < 86400 → (days_of_years (suc n) - 1) * 86400 + s < 2147483648
unfolding year_days leap_year
last_years n s range clock =
    let first : days_of_years 68 ≡ 24837 = refl in
    omega (arith, days_of_years_mono n 68 range, first)

-- On the last day of each year from 1970 to 2037, at every second, which is a time that the 32 bits
-- of `time_t` hold, `gmtime` reads behind the table of months.
pub gmtime_year_end :
    (n s : ℕ)
    → n < 68
    → s < 86400
    → let time = (days_of_years (suc n) - 1) * 86400 + s in
      (time < 2147483648) × (gmtime time ≡ none)
gmtime_year_end n s range clock = (last_years n s range clock, year_end n s range clock)
