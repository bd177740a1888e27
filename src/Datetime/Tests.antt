-- ===== src/Datetime/Tests.antt =====
-- Runs on a date.
use tpbench.Prelude.{negsuc, ℕ, ◌<◌, ◌^◌, ◌≡◌, refl, some, arith}
use tpbench.Datetime.{Datetime, datetime_to_bits, bits_to_datetime, btime_to_datetime}
use tpbench.Datetime.Pack.{Fits, quarters, bits_to_datetime-datetime_to_bits}
use tpbench.Datetime.Boot.{Stands, btime_to_datetime-Stands}

abbrev date : Datetime
date = record { year = 2026; month = 11; day = 25; hour = 21; min = 5; sec = 59 }

date-Fits : Fits date
date-Fits = record {
  from_1970 = omega arith;
  to_2225 = omega arith;
  month_fits = omega arith;
  day_fits = omega arith;
  hour_fits = omega arith;
  min_fits = omega arith;
  sec_fits = omega arith;
}

bits_to_datetime-datetime_to_bits_example :
    (bits : ℕ) × (datetime_to_bits date (quarters (negsuc 13)) ≡ some bits)
    × (bits < 2 ^ 42)
    × (bits_to_datetime bits ≡ (date, quarters (negsuc 13)))
bits_to_datetime-datetime_to_bits_example =
    bits_to_datetime-datetime_to_bits date (negsuc 13) date-Fits (omega arith)

day_two :
    btime_to_datetime 90061 ≡ record { year = 1970; month = 1; day = 2; hour = 1; min = 1; sec = 1 }
unfolding btime_to_datetime
day_two = refl

btime_to_datetime-Stands_example : Stands 90061 (btime_to_datetime 90061)
btime_to_datetime-Stands_example = btime_to_datetime-Stands 90061 (omega arith)
