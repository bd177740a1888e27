-- ===== src/Datetime/Boot.antt =====
-- The time since the boot as a date.
use tpbench.Prelude.{ℕ, ◌+◌, ◌-◌, ◌*◌, ◌/◌, ◌%◌, ◌≤◌, ◌<◌, ◌≡◌, sym, subst, arith}
use native.Mathlib.Nat.{mod-eq-sub-div-mul, div-mul-le_self, mod-lt}
use tpbench.Datetime.{Datetime, clamped, btime_to_datetime}

-- The seconds that a date stands for where a month is 730 hours and a year is twelve of them.
abbrev pub seconds_of : Datetime → ℕ
seconds_of dt =
    (dt.year - 1970) * 31536000
    + (dt.month - 1) * 2628000
    + (dt.day - 1) * 86400
    + dt.hour * 3600
    + dt.min * 60
    + dt.sec

clamped_small : (most q : ℕ) → q ≤ most → clamped most q ≡ q
clamped_small most q h = ground arith

-- What is left of the seconds after each unit, where no value is clamped.
left : ℕ → ℕ → ℕ
left n unit = n - n / unit * unit

left_small : (n unit : ℕ) → 0 < unit → left n unit < unit
unfolding left
left_small n unit h = omega (arith, mod-eq-sub-div-mul n unit, mod-lt n h)

left_of : (n unit : ℕ) → n / unit * unit + left n unit ≡ n
unfolding left
left_of n unit = omega (arith, div-mul-le_self n unit)

-- A date in the ranges of a calendar that stands for `total` seconds.
pub record Stands (total : ℕ) (dt : Datetime) : Type 0 where
  pub same_seconds : seconds_of dt ≡ total
  pub from_1970 : 1970 ≤ dt.year
  pub to_2225 : dt.year ≤ 2225
  pub month_from : 1 ≤ dt.month
  pub month_to : dt.month ≤ 12
  pub day_from : 1 ≤ dt.day
  pub day_to : dt.day ≤ 31
  pub hour_to : dt.hour < 24
  pub min_to : dt.min < 60
  pub sec_to : dt.sec < 60

module _ (total : ℕ) where
  in_year : ℕ
  in_year = left total 31536000

  in_month : ℕ
  in_month = left in_year 2628000

  in_day : ℕ
  in_day = left in_month 86400

  in_hour : ℕ
  in_hour = left in_day 3600

  abbrev unclamped : Datetime
  unclamped = record {
    year = 1970 + total / 31536000;
    month = 1 + in_year / 2628000;
    day = 1 + in_month / 86400;
    hour = in_day / 3600;
    min = in_hour / 60;
    sec = left in_hour 60;
  }

  year_bound : in_year < 31536000
  unfolding in_year
  year_bound = left_small total 31536000 (omega arith)

  month_bound : in_month < 2628000
  unfolding in_month
  month_bound = left_small in_year 2628000 (omega arith)

  day_bound : in_day < 86400
  unfolding in_day
  day_bound = left_small in_month 86400 (omega arith)

  hour_bound : in_hour < 3600
  unfolding in_hour
  hour_bound = left_small in_day 3600 (omega arith)

  module _ (h : total < 256 * 31536000) where
    btime_to_datetime-unclamped : btime_to_datetime total ≡ unclamped
    unfolding btime_to_datetime in_year in_month in_day in_hour left
    btime_to_datetime-unclamped =
        let byte_hours : in_day / 3600 % 256 ≡ in_day / 3600 = omega (arith, day_bound) in
        let byte_mins : in_hour / 60 % 256 ≡ in_hour / 60 = omega (arith, hour_bound) in
        let byte_secs : left in_hour 60 % 256 ≡ left in_hour 60 =
          omega (arith, left_small in_hour 60 (omega arith)) in
        rw (
          clamped_small 255 (total / 31536000) (omega arith),
          clamped_small 11 (in_year / 2628000) (omega (arith, year_bound)),
          clamped_small 30 (in_month / 86400) (omega (arith, month_bound)),
          byte_hours,
          byte_mins,
          byte_secs,
        )

    unclamped-Stands : Stands total unclamped
    unfolding in_year in_month in_day in_hour
    unclamped-Stands = record {
      same_seconds = omega (
        arith,
        left_of total 31536000,
        left_of in_year 2628000,
        left_of in_month 86400,
        left_of in_day 3600,
        left_of in_hour 60,
      );
      from_1970 = omega arith;
      to_2225 = omega arith;
      month_from = omega arith;
      month_to = omega (arith, year_bound);
      day_from = omega arith;
      day_to = omega (arith, month_bound);
      hour_to = omega (arith, day_bound);
      min_to = omega (arith, hour_bound);
      sec_to = left_small in_hour 60 (omega arith);
    }

-- For less than 256 years of 365 days, the date is in the ranges of a calendar and stands for
-- exactly these seconds, so that nothing is clamped or cut off.
pub btime_to_datetime-Stands :
    (total : ℕ) → total < 256 * 31536000 → Stands total (btime_to_datetime total)
btime_to_datetime-Stands total h =
    subst (Stands total) (sym (btime_to_datetime-unclamped total h)) (unclamped-Stands total h)
