-- ===== src/Csv/Escape.antt =====
-- The text of a cell: what the escaping writes, and when it keeps the delimiter out of the cell.
use tpbench.Prelude.{
  ℕ, Bool, false, ◌&&◌, ◌||◌, [], ◌∷◌, ◌++◌, ◌≡◌, refl, ◌∙◌, inl, inr, arith, append-nil, ◌==◌,
  if◌then◌else◌, Bool-cases, Bytes,
}
use tpbench.Csv.{ends_in_comma}

-- A backslash, a carriage return and a line feed are written as two characters.
abbrev pub shown_byte : ℕ → Bytes
shown_byte c =
    if c == b'\\'
    then b'\\' ∷ b'\\' ∷ []
    else if c == b'\r'
    then b'\\' ∷ b'r' ∷ []
    else if c == b'\n'
    then b'\\' ∷ b'n' ∷ []
    else c ∷ []

-- The text that the loop of `_sf_write_escaped_text` writes.
abbrev pub escaped_core : Bytes → Bytes
escaped_core [] = []
escaped_core (c ∷ []) = shown_byte c
escaped_core (c ∷ d ∷ rest) =
    let pair = b',' ∷ b' ' ∷ b',' ∷ escaped_core rest in
    let single = shown_byte c ++ escaped_core (d ∷ rest) in
    if (c == b',') && (d == b',') then pair else single

abbrev pub escaped : Bytes → Bytes
escaped text = escaped_core text ++ (if ends_in_comma text then b' ' ∷ [] else [])

abbrev pub starts_with_comma : Bytes → Bool
starts_with_comma [] = false
starts_with_comma (c ∷ _) = c == b','

-- Two commas in a row: the delimiter of a row.
abbrev pub has_double : Bytes → Bool
has_double [] = false
has_double (c ∷ rest) = ((c == b',') && starts_with_comma rest) || has_double rest

-- Three commas in a row.
abbrev pub has_triple : Bytes → Bool
has_triple [] = false
has_triple (c ∷ []) = false
has_triple (c ∷ d ∷ rest) =
    ((c == b',') && ((d == b',') && starts_with_comma rest)) || has_triple (d ∷ rest)

starts_with_comma-shown_byte :
    (c : ℕ) (rest : Bytes) → starts_with_comma (shown_byte c ++ rest) ≡ (c == b',')
starts_with_comma-shown_byte c rest = ground arith

starts_with_comma-escaped_core :
    (t : Bytes) → starts_with_comma (escaped_core t) ≡ starts_with_comma t
starts_with_comma-escaped_core [] = refl
starts_with_comma-escaped_core (c ∷ []) = ground arith
starts_with_comma-escaped_core (c ∷ d ∷ rest) =
    ground (arith, starts_with_comma-shown_byte c (escaped_core (d ∷ rest)))

has_double-shown_byte :
    (c : ℕ) (rest : Bytes)
    → has_double (shown_byte c ++ rest) ≡ ((c == b',') && starts_with_comma rest) || has_double rest
has_double-shown_byte c rest = ground arith

has_double-escaped_core : (t : Bytes) → has_double (escaped_core t) ≡ has_triple t
has_double-escaped_core [] = refl
has_double-escaped_core (c ∷ []) = ground arith
has_double-escaped_core (c ∷ d ∷ []) = ground (
  arith,
  has_double-shown_byte c (escaped_core (d ∷ [])),
  starts_with_comma-escaped_core (d ∷ []),
  has_double-escaped_core (d ∷ []),
)
has_double-escaped_core (c ∷ d ∷ e ∷ rest) = ground (
  arith,
  has_double-shown_byte c (escaped_core (d ∷ e ∷ rest)),
  starts_with_comma-escaped_core (d ∷ e ∷ rest),
  starts_with_comma-escaped_core (e ∷ rest),
  has_double-escaped_core (e ∷ rest),
  has_double-escaped_core (d ∷ e ∷ rest),
)

has_double-append_space : (s : Bytes) → has_double (s ++ b' ' ∷ []) ≡ has_double s
has_double-append_space [] = refl
has_double-append_space (c ∷ []) = ground arith
has_double-append_space (c ∷ d ∷ rest) = ground (arith, has_double-append_space (d ∷ rest))

-- A cell's text, as it is written, holds the delimiter `,,` exactly when the text has three commas
-- in a row.
pub has_double-escaped : (t : Bytes) → has_double (escaped t) ≡ has_triple t
has_double-escaped t = elim (Bool-cases (ends_in_comma t)) [
  | inl e ↦ rw e (has_double-append_space (escaped_core t) ∙ has_double-escaped_core t)
  | inr e ↦ rw (e, append-nil) (has_double-escaped_core t)
]

ends_in_comma-append :
    (s : Bytes) (c : ℕ) (rest : Bytes) → ends_in_comma (s ++ c ∷ rest) ≡ ends_in_comma (c ∷ rest)
unfolding ends_in_comma
ends_in_comma-append [] c rest = refl
ends_in_comma-append (x ∷ []) c rest = refl
ends_in_comma-append (x ∷ y ∷ s) c rest = ends_in_comma-append (y ∷ s) c rest

ends_in_comma-shown_byte : (c : ℕ) → ends_in_comma (shown_byte c) ≡ (c == b',')
unfolding ends_in_comma
ends_in_comma-shown_byte c = ground arith

shown_byte-cons : (c : ℕ) → (b : ℕ) × (bs : Bytes) × (shown_byte c ≡ b ∷ bs)
shown_byte-cons c = elim (Bool-cases (c == b'\\')) [
  | inl e ↦ (b'\\', b'\\' ∷ [], rw e)
  | inr e ↦ elim (Bool-cases (c == b'\r')) [
    | inl f ↦ (b'\\', b'r' ∷ [], rw (e, f))
    | inr f ↦ elim (Bool-cases (c == b'\n')) [
      | inl g ↦ (b'\\', b'n' ∷ [], rw (e, f, g))
      | inr g ↦ (c, [], rw (e, f, g))
    ]
  ]
]

escaped_core-cons :
    (c : ℕ) (rest : Bytes) → (b : ℕ) × (bs : Bytes) × (escaped_core (c ∷ rest) ≡ b ∷ bs)
escaped_core-cons c [] = shown_byte-cons c
escaped_core-cons c (d ∷ rest) = elim (Bool-cases ((c == b',') && (d == b','))) [
  | inl e ↦ (b',', b' ' ∷ b',' ∷ escaped_core rest, rw e)
  | inr e ↦ let (b, bs, f) = shown_byte-cons c in (b, bs ++ escaped_core (d ∷ rest), rw e (rw f))
]

ends_in_comma-append_core :
    (s : Bytes) (c : ℕ) (rest : Bytes)
    → ends_in_comma (s ++ escaped_core (c ∷ rest)) ≡ ends_in_comma (escaped_core (c ∷ rest))
ends_in_comma-append_core s c rest =
    let (b, bs, e) = escaped_core-cons c rest in rw e (ends_in_comma-append s b bs)

ends_in_comma-escaped_core : (t : Bytes) → ends_in_comma (escaped_core t) ≡ ends_in_comma t
unfolding ends_in_comma
ends_in_comma-escaped_core [] = refl
ends_in_comma-escaped_core (c ∷ []) = ends_in_comma-shown_byte c
ends_in_comma-escaped_core (c ∷ d ∷ []) =
    ground
      (arith, ends_in_comma-append_core (shown_byte c) d [], ends_in_comma-escaped_core (d ∷ []))
ends_in_comma-escaped_core (c ∷ d ∷ e ∷ rest) = ground (
  arith,
  ends_in_comma-append_core (shown_byte c) d (e ∷ rest),
  ends_in_comma-append_core (b',' ∷ b' ' ∷ b',' ∷ []) e rest,
  ends_in_comma-escaped_core (d ∷ e ∷ rest),
  ends_in_comma-escaped_core (e ∷ rest),
)

-- No cell's text, as it is written, ends in a comma.
pub ends_in_comma-escaped : (t : Bytes) → ends_in_comma (escaped t) ≡ false
ends_in_comma-escaped t = elim (Bool-cases (ends_in_comma t)) [
  | inl e ↦ rw e (ends_in_comma-append (escaped_core t) b' ' [] ∙ (unfold ends_in_comma in refl))
  | inr e ↦ rw (e, append-nil) (ends_in_comma-escaped_core t ∙ e)
]
