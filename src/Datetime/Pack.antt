-- ===== src/Datetime/Pack.antt =====
-- A date in its 64-bit form is read back.
use tpbench.Prelude.{
  ℤ, pos, negsuc, ℕ, ◌+◌, ◌-◌, ◌*◌, ◌/◌, ◌^◌, ◌≤◌, ◌<◌, bit_and, bit_or, ◌≡◌, ap, ◌∙◌, arith, some,
  ltb, and_low, and_above, or_above, zero_or, ◌||◌, false,
}
use native.Mathlib.Nat.{one-le-pow, mul-div_cancel}
use tpbench.Datetime.{
  Datetime, tz_increments, low_byte, datetime_to_bits, bias_of_byte, bits_to_datetime,
}

-- A date whose values fit their fields.
pub record Fits (dt : Datetime) : Type 0 where
  pub from_1970 : 1970 ≤ dt.year
  pub to_2225 : dt.year ≤ 2225
  pub month_fits : dt.month < 16
  pub day_fits : dt.day < 32
  pub hour_fits : dt.hour < 32
  pub min_fits : dt.min < 64
  pub sec_fits : dt.sec < 64

-- The fields next to each other, lowest first.
abbrev pub packed : Datetime → ℕ → ℕ
packed dt tz =
    dt.sec
    + dt.min * 2 ^ 6
    + dt.hour * 2 ^ 12
    + dt.day * 2 ^ 17
    + dt.month * 2 ^ 22
    + (dt.year - 1970) * 2 ^ 26
    + tz * 2 ^ 34

low_mask : (w x : ℕ) → x < 2 ^ w → bit_and x (2 ^ w - 1) ≡ x
low_mask w x h = ground (arith, and_low w 0 x h)

or_chain :
    (s m h d mo y t : ℕ)
    → s < 2 ^ 6
    → m < 2 ^ 6
    → h < 2 ^ 5
    → d < 2 ^ 5
    → mo < 2 ^ 4
    → y < 2 ^ 8
    → bit_or
        (bit_or
          (bit_or
            (bit_or (bit_or (bit_or (bit_or 0 s) (m * 2 ^ 6)) (h * 2 ^ 12)) (d * 2 ^ 17))
            (mo * 2 ^ 22))
          (y * 2 ^ 26))
        (t * 2 ^ 34)
      ≡ s + m * 2 ^ 6 + h * 2 ^ 12 + d * 2 ^ 17 + mo * 2 ^ 22 + y * 2 ^ 26 + t * 2 ^ 34
or_chain s m h d mo y t hs hm hh hd hmo hy = rw (
  zero_or s,
  or_above 6 s m hs,
  or_above 12 (s + m * 2 ^ 6) h (omega arith),
  or_above 17 (s + m * 2 ^ 6 + h * 2 ^ 12) d (omega arith),
  or_above 22 (s + m * 2 ^ 6 + h * 2 ^ 12 + d * 2 ^ 17) mo (omega arith),
  or_above 26 (s + m * 2 ^ 6 + h * 2 ^ 12 + d * 2 ^ 17 + mo * 2 ^ 22) y (omega arith),
  or_above 34 (s + m * 2 ^ 6 + h * 2 ^ 12 + d * 2 ^ 17 + mo * 2 ^ 22 + y * 2 ^ 26) t (omega arith),
)

in_range : (y : ℕ) → 1970 ≤ y → y ≤ 2225 → (ltb y 1970 || ltb (1970 + 255) y) ≡ false
in_range y a b = ground arith

pub datetime_to_bits-packed :
    (dt : Datetime) (tz : ℤ)
    → Fits dt
    → datetime_to_bits dt tz ≡ some (packed dt (low_byte (tz_increments tz)))
unfolding datetime_to_bits
datetime_to_bits-packed dt tz f =
    let year_fits : dt.year - 1970 < 2 ^ 8 = omega (arith, f.to_2225) in
    rw (
      in_range dt.year f.from_1970 f.to_2225,
      low_mask 6 dt.sec f.sec_fits,
      low_mask 6 dt.min f.min_fits,
      low_mask 5 dt.hour f.hour_fits,
      low_mask 5 dt.day f.day_fits,
      low_mask 4 dt.month f.month_fits,
      low_mask 8 (dt.year - 1970) year_fits,
      or_chain dt.sec dt.min dt.hour dt.day dt.month (dt.year - 1970) (low_byte (tz_increments tz))
          f.sec_fits f.min_fits f.hour_fits f.day_fits f.month_fits year_fits,
    )

-- A field of `w` bits above `r`, with `more` above it.
field :
    (k w r x more b : ℕ)
    → r < 2 ^ k
    → x < 2 ^ w
    → b ≡ r + (x + more * 2 ^ w) * 2 ^ k
    → bit_and b ((2 ^ w - 1) * 2 ^ k) / 2 ^ k ≡ x
field k w r x more b hr hx e =
    rw (e, and_above k r (x + more * 2 ^ w) (2 ^ w - 1) hr, and_low w more x hx)
      (mul-div_cancel x (one-le-pow k 2 (omega arith)))

pub bits_to_datetime-packed :
    (dt : Datetime) (t : ℕ)
    → Fits dt
    → t < 2 ^ 8
    → bits_to_datetime (packed dt t) ≡ (dt, bias_of_byte t)
unfolding bits_to_datetime
bits_to_datetime-packed dt t f ht =
    let y = dt.year - 1970 in
    let year_fits : y < 2 ^ 8 = omega (arith, f.to_2225) in
    let back : y + 1970 ≡ dt.year = omega (arith, f.from_1970) in
    let r1 = dt.sec in
    let r2 = r1 + dt.min * 2 ^ 6 in
    let r3 = r2 + dt.hour * 2 ^ 12 in
    let r4 = r3 + dt.day * 2 ^ 17 in
    let r5 = r4 + dt.month * 2 ^ 22 in
    let r6 = r5 + y * 2 ^ 26 in
    let l6 = t * 2 ^ 0 in
    let l5 = y + t * 2 ^ 8 in
    let l4 = dt.month + l5 * 2 ^ 4 in
    let l3 = dt.day + l4 * 2 ^ 5 in
    let l2 = dt.hour + l3 * 2 ^ 5 in
    let l1 = dt.min + l2 * 2 ^ 6 in
    let e0 : packed dt t ≡ r1 + l1 * 2 ^ 6 = omega arith in
    let s0 : bit_and (packed dt t) 63 ≡ dt.sec = rw e0 (and_low 6 l1 dt.sec f.sec_fits) in
    rw (
      s0,
      field 6 6 r1 dt.min l2 (packed dt t) (omega (arith, f.sec_fits)) f.min_fits (omega arith),
      field 12 5 r2 dt.hour l3 (packed dt t) (omega (arith, f.sec_fits, f.min_fits)) f.hour_fits
          (omega arith),
      field 17 5 r3 dt.day l4 (packed dt t) (omega (arith, f.sec_fits, f.min_fits, f.hour_fits))
          f.day_fits (omega arith),
      field 22 4 r4 dt.month l5 (packed dt t)
          (omega (arith, f.sec_fits, f.min_fits, f.hour_fits, f.day_fits)) f.month_fits
          (omega arith),
      field 26 8 r5 y t (packed dt t)
          (omega (arith, f.sec_fits, f.min_fits, f.hour_fits, f.day_fits, f.month_fits)) year_fits
          (omega arith),
      field 34 8 r6 t 0 (packed dt t)
          (omega (arith, f.sec_fits, f.min_fits, f.hour_fits, f.day_fits, f.month_fits, year_fits))
          ht (omega arith),
      back,
    )

-- The bias of `q` quarters of an hour.
abbrev pub quarters : ℤ → ℤ
quarters (pos q) = pos (q * 15)
quarters (negsuc q) = negsuc (q * 15 + 14)

-- A number of quarters that fits a signed byte.
abbrev pub IsInt8 : ℤ → Type 0
IsInt8 (pos q) = q ≤ 127
IsInt8 (negsuc q) = q ≤ 127

byte_of-quarters :
    (q : ℤ)
    → IsInt8 q
    → (low_byte (tz_increments (quarters q)) < 2 ^ 8)
      × (bias_of_byte (low_byte (tz_increments (quarters q))) ≡ quarters q)
unfolding low_byte tz_increments bias_of_byte
byte_of-quarters (pos q) h = ground (arith, low_mask 8 q)
byte_of-quarters (negsuc q) h = ground (arith, low_mask 8 q)

-- A date of the years 1970 to 2225 whose values fit their fields, and a bias of whole quarters of
-- an hour within -128 to 127, are packed into 42 bits, and unpacking gives both back.
pub bits_to_datetime-datetime_to_bits :
    (dt : Datetime) (q : ℤ)
    → Fits dt
    → IsInt8 q
    → (bits : ℕ) × (datetime_to_bits dt (quarters q) ≡ some bits)
      × (bits < 2 ^ 42)
      × (bits_to_datetime bits ≡ (dt, quarters q))
bits_to_datetime-datetime_to_bits dt q f h =
    let t = low_byte (tz_increments (quarters q)) in
    let (small, back) = byte_of-quarters q h in
    (
      packed dt t,
      datetime_to_bits-packed dt (quarters q) f,
      omega (arith, f.sec_fits, f.min_fits, f.hour_fits, f.day_fits, f.month_fits, f.to_2225),
      bits_to_datetime-packed dt t f small ∙ ap (λ b. (dt, b)) back,
    )
