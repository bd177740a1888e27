-- ===== src/Datetime.antt =====
-- Dates and their 64-bit form (src/corelib/strftime.c). What the clock and the C library say
-- (`clock_gettime`, `gmtime_r`, `localtime_r`) and text forms are left out.
pub mod Pack
pub mod Boot
mod Tests
use tpbench.Prelude.{
  ℕ, zero, suc, ◌+◌, ◌-◌, ◌*◌, ◌/◌, ◌%◌, ◌^◌, bit_and, bit_or, ◌||◌, Option, none, some, ltb, leb,
  ◌==◌, if◌then◌else◌, ℤ, pos, negsuc,
}

-- `tpb_datetime_t`
pub record Datetime : Type 0 where
  pub year : ℕ
  pub month : ℕ
  pub day : ℕ
  pub hour : ℕ
  pub min : ℕ
  pub sec : ℕ

-- `-n`
abbrev pub negated : ℕ → ℤ
negated zero = pos zero
negated (suc n) = negsuc n

-- `tz_bias_min / 15`, which rounds towards zero, within -128 to 127.
pub tz_increments : ℤ → ℤ
tz_increments (pos m) = let q = m / 15 in if ltb 127 q then pos 127 else pos q
tz_increments (negsuc n) = let q = (n + 1) / 15 in if ltb 128 q then negsuc 127 else negated q

-- `tz_inc & 0xFF` of a number in two's complement.
pub low_byte : ℤ → ℕ
low_byte (pos m) = bit_and m 0xFF
low_byte (negsuc n) = 0xFF - bit_and n 0xFF

-- `tpb_ts_datetime_to_bits`; no shift leaves the 64 bits, since each value is under a mask.
pub datetime_to_bits : Datetime → ℤ → Option ℕ
unfolding tz_increments low_byte
datetime_to_bits dt tz_bias_min =
    let b1 = bit_or 0 (bit_and dt.sec 0x3F) in
    let b2 = bit_or b1 (bit_and dt.min 0x3F * 2 ^ 6) in
    let b3 = bit_or b2 (bit_and dt.hour 0x1F * 2 ^ 12) in
    let b4 = bit_or b3 (bit_and dt.day 0x1F * 2 ^ 17) in
    let b5 = bit_or b4 (bit_and dt.month 0xF * 2 ^ 22) in
    let b6 = bit_or b5 (bit_and (dt.year - 1970) 0xFF * 2 ^ 26) in
    let b7 = bit_or b6 (low_byte (tz_increments tz_bias_min) * 2 ^ 34) in
    if ltb dt.year 1970 || ltb (1970 + 255) dt.year then none else some b7

-- `(int16_t)tz_inc * 15`, where a byte above 127 is a negative number.
pub bias_of_byte : ℕ → ℤ
bias_of_byte u = if leb u 127 then pos (u * 15) else negated ((256 - u) * 15)

-- `tpb_ts_bits_to_datetime`
pub bits_to_datetime : ℕ → Datetime × ℤ
unfolding bias_of_byte
bits_to_datetime bits = (
  record {
    year = bit_and bits (0xFF * 2 ^ 26) / 2 ^ 26 + 1970;
    month = bit_and bits (0xF * 2 ^ 22) / 2 ^ 22;
    day = bit_and bits (0x1F * 2 ^ 17) / 2 ^ 17;
    hour = bit_and bits (0x1F * 2 ^ 12) / 2 ^ 12;
    min = bit_and bits (0x3F * 2 ^ 6) / 2 ^ 6;
    sec = bit_and bits 0x3F;
  },
  bias_of_byte (bit_and bits (0xFF * 2 ^ 34) / 2 ^ 34),
)

abbrev pub clamped : ℕ → ℕ → ℕ
clamped most q = if ltb most q then most else q

-- `tpb_ts_btime_to_datetime`, on the seconds of the boot-time clock. A field of one byte holds its
-- value modulo 256.
pub btime_to_datetime : ℕ → Datetime
btime_to_datetime total =
    let years = clamped 255 (total / 31536000) in
    let in_year = total - years * 31536000 in
    let months = clamped 11 (in_year / 2628000) in
    let in_month = in_year - months * 2628000 in
    let days = clamped 30 (in_month / 86400) in
    let in_day = in_month - days * 86400 in
    let hours = in_day / 3600 in
    let in_hour = in_day - hours * 3600 in
    let mins = in_hour / 60 in
    record {
      year = 1970 + years;
      month = 1 + months;
      day = 1 + days;
      hour = hours % 256;
      min = mins % 256;
      sec = (in_hour - mins * 60) % 256;
    }
