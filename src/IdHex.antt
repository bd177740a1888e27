-- ===== src/IdHex.antt =====
-- The hexadecimal text of a record identifier (src/corelib/rafdb/rafdb-l1-id-util.c).
pub mod RoundTrip
mod Tests
use tpbench.Prelude.{
  ℕ, zero, suc, ◌+◌, ◌-◌, ◌*◌, ◌/◌, ◌%◌, ◌^◌, bit_or, Bool, true, false, not, ◌&&◌, ◌||◌, List, [],
  ◌∷◌, Option, none, some, leb, ◌==◌, if◌then◌else◌, Bytes, get_or,
}

abbrev between : ℕ → ℕ → ℕ → Bool
between a b c = leb a c && leb c b

-- `_sf_hex_nibble`; `none` is -1.
pub hex_nibble : ℕ → Option ℕ
hex_nibble c =
    if between 48 57 c
    then some (c - 48)
    else if between 97 102 c
    then some (c - 97 + 10)
    else if between 65 70 c
    then some (c - 65 + 10)
    else none

-- A digit of the `%02x` of the C library, and its `isxdigit`.
abbrev pub hex_digit : ℕ → ℕ
hex_digit v = if leb v 9 then v + 48 else v - 10 + 97

abbrev pub isxdigit : ℕ → Bool
isxdigit c = between 48 57 c || (between 97 102 c || between 65 70 c)

-- `tpb_raf_id_to_hex`, on the bytes of the identifier.
pub id_to_hex : Bytes → Bytes
id_to_hex [] = []
id_to_hex (b ∷ bs) = hex_digit (b / 16) ∷ hex_digit (b % 16) ∷ id_to_hex bs

-- The first loop of `tpb_raf_hex_to_id`, on what is left of the text; its end is a NUL.
pub all_hex : ℕ → Bytes → Bool
all_hex zero cs = true
all_hex (suc n) [] = false
all_hex (suc n) (c ∷ cs) = isxdigit c && all_hex n cs

abbrev pub byte_and : Option ℕ → Option ℕ → Option Bytes → Option Bytes
byte_and (some hi) (some lo) (some rest) = some (bit_or (hi * 2 ^ 4) lo % 256 ∷ rest)
byte_and _ _ _ = none

-- The second loop, two digits a turn.
pub read_pairs : ℕ → Bytes → Option Bytes
read_pairs zero cs = some []
read_pairs (suc n) [] = none
read_pairs (suc n) (h ∷ []) = none
read_pairs (suc n) (h ∷ l ∷ cs) = byte_and (hex_nibble h) (hex_nibble l) (read_pairs n cs)

-- `tpb_raf_hex_to_id`, on a text without its NUL.
pub hex_to_id : Bytes → Option Bytes
unfolding all_hex read_pairs
hex_to_id hex =
    if not (all_hex 40 hex)
    then none
    else if not (get_or hex 40 0 == 0)
    then none
    else read_pairs 20 hex
