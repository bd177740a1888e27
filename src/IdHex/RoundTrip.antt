-- ===== src/IdHex/RoundTrip.antt =====
-- An identifier and its text stand for each other.
use tpbench.Prelude.{
  ℕ, zero, suc, ◌+◌, ◌*◌, ◌/◌, ◌%◌, ◌^◌, ◌≤◌, ◌<◌, bit_or, or_below, ◌≡◌, refl, ap, subst, arith,
  Bool, true, false, not, ◌&&◌, [], ◌∷◌, Option, none, some, leb, ◌==◌, if◌then◌else◌, Bytes,
  get_or, length, map,
}
use tpbench.IdHex.{
  hex_nibble, hex_digit, isxdigit, id_to_hex, all_hex, byte_and, read_pairs, hex_to_id,
}

abbrev pub AllBytes : Bytes → Type 0
AllBytes [] = Unit
AllBytes (b ∷ bs) = (b < 256) × AllBytes bs

hex_nibble-hex_digit : (v : ℕ) → v < 16 → hex_nibble (hex_digit v) ≡ some v
unfolding hex_nibble
hex_nibble-hex_digit v h = ground arith

isxdigit-hex_digit : (v : ℕ) → v < 16 → isxdigit (hex_digit v) ≡ true
isxdigit-hex_digit v h = ground arith

halves : (b : ℕ) → b < 256 → bit_or (b / 16 * 2 ^ 4) (b % 16) % 256 ≡ b
halves b h = omega (arith, or_below 4 (b / 16) (b % 16) (omega arith))

all_hex-id_to_hex :
    (n : ℕ) (bs : Bytes) → AllBytes bs → n ≤ length bs + length bs → all_hex n (id_to_hex bs) ≡ true
unfolding all_hex id_to_hex
all_hex-id_to_hex zero bs a h = refl
all_hex-id_to_hex (suc n) [] a h = absurd (omega arith)
all_hex-id_to_hex (suc zero) (b ∷ bs) a h =
    ground (arith, isxdigit-hex_digit (b / 16) (omega (arith, a.0)))
all_hex-id_to_hex (suc (suc n)) (b ∷ bs) a h = rw (
  isxdigit-hex_digit (b / 16) (omega (arith, a.0)),
  isxdigit-hex_digit (b % 16) (omega arith),
  all_hex-id_to_hex n bs a.1 (omega arith),
)

read_pairs-id_to_hex : (bs : Bytes) → AllBytes bs → read_pairs (length bs) (id_to_hex bs) ≡ some bs
unfolding read_pairs id_to_hex
read_pairs-id_to_hex [] a = refl
read_pairs-id_to_hex (b ∷ bs) a = rw (
  hex_nibble-hex_digit (b / 16) (omega (arith, a.0)),
  hex_nibble-hex_digit (b % 16) (omega arith),
  read_pairs-id_to_hex bs a.1,
  halves b a.0,
)

past_end : (n : ℕ) (bs : Bytes) → length bs + length bs ≤ n → get_or (id_to_hex bs) n 0 ≡ 0
unfolding id_to_hex
past_end n [] h = refl
past_end zero (b ∷ bs) h = absurd (omega arith)
past_end (suc zero) (b ∷ bs) h = absurd (omega arith)
past_end (suc (suc n)) (b ∷ bs) h = past_end n bs (omega arith)

-- The text of an identifier of twenty bytes is read back as the identifier.
pub hex_to_id-id_to_hex :
    (id : Bytes) → length id ≡ 20 → AllBytes id → hex_to_id (id_to_hex id) ≡ some id
unfolding hex_to_id
hex_to_id-id_to_hex id n a =
    rw (all_hex-id_to_hex 40 id a (omega arith), past_end 40 id (omega arith))
      (subst (λ k. read_pairs k (id_to_hex id) ≡ some id) n (read_pairs-id_to_hex id a))

-- A hexadecimal digit as `id_to_hex` writes it.
abbrev pub tolower : ℕ → ℕ
tolower c = if leb 65 c && leb c 90 then c + 32 else c

hex_digit-hex_nibble : (c v : ℕ) → hex_nibble c ≡ some v → (v < 16) × (hex_digit v ≡ tolower c)
unfolding hex_nibble
hex_digit-hex_nibble c v e = ground arith

byte_and-some :
    (o p : Option ℕ) (q : Option Bytes) (id : Bytes)
    → byte_and o p q ≡ some id
    → (hi : ℕ) × (lo : ℕ) × (rest : Bytes) × (o ≡ some hi)
      × (p ≡ some lo)
      × (q ≡ some rest)
      × (bit_or (hi * 2 ^ 4) lo % 256 ∷ rest ≡ id)
byte_and-some (some hi) (some lo) (some rest) id e = (hi, lo, rest, refl, refl, refl, ground arith)
byte_and-some none p q id e = absurd (ground arith)
byte_and-some (some hi) none q id e = absurd (ground arith)
byte_and-some (some hi) (some lo) none id e = absurd (ground arith)

byte_halves :
    (hi lo : ℕ)
    → hi < 16
    → lo < 16
    → (bit_or (hi * 2 ^ 4) lo % 256 / 16 ≡ hi) × (bit_or (hi * 2 ^ 4) lo % 256 % 16 ≡ lo)
byte_halves hi lo h l =
    let whole = or_below 4 hi lo l in (omega (arith, whole), omega (arith, whole))

id_to_hex-read_pairs :
    (n : ℕ) (cs id : Bytes)
    → length cs ≡ n + n
    → read_pairs n cs ≡ some id
    → (length id ≡ n) × (id_to_hex id ≡ map tolower cs)
unfolding read_pairs id_to_hex
id_to_hex-read_pairs zero [] id h e =
    let empty : [] ≡ id = ground arith in
    subst (λ l. (length l ≡ 0) × (id_to_hex l ≡ [])) empty (refl, refl)
id_to_hex-read_pairs (suc n) (c ∷ d ∷ cs) id h e =
    let (hi, lo, rest, eh, el, er, eb) =
      byte_and-some (hex_nibble c) (hex_nibble d) (read_pairs n cs) id e in
    let (fh, dh) = hex_digit-hex_nibble c hi eh in
    let (fl, dl) = hex_digit-hex_nibble d lo el in
    let (n', text) = id_to_hex-read_pairs n cs rest (omega arith) er in
    let (upper, lower) = byte_halves hi lo fh fl in
    subst (λ l. (length l ≡ suc n) × (id_to_hex l ≡ map tolower (c ∷ d ∷ cs))) eb
      (ap suc n', rw (upper, lower, dh, dl, text))
id_to_hex-read_pairs zero (c ∷ cs) id h e = absurd (omega arith)
id_to_hex-read_pairs (suc n) [] id h e = absurd (omega arith)
id_to_hex-read_pairs (suc n) (c ∷ []) id h e = absurd (omega arith)

guarded :
    (a b : Bool) (o : Option Bytes) (id : Bytes)
    → (if not a then none else if not b then none else o) ≡ some id
    → o ≡ some id
guarded true true o id e = e
guarded true false o id e = absurd (ground arith)
guarded false b o id e = absurd (ground arith)

-- A text of forty characters that is read as an identifier is the text of it, but for the case of
-- the letters; the identifier has twenty bytes.
pub id_to_hex-hex_to_id :
    (hex id : Bytes)
    → length hex ≡ 40
    → hex_to_id hex ≡ some id
    → (length id ≡ 20) × (id_to_hex id ≡ map tolower hex)
unfolding hex_to_id
id_to_hex-hex_to_id hex id h e =
    id_to_hex-read_pairs 20 hex id h
      (guarded (all_hex 40 hex) (get_or hex 40 0 == 0) (read_pairs 20 hex) id e)
