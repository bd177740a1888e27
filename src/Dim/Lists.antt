-- ===== src/Dim/Lists.antt =====
-- A list of values, printed and parsed.
use tpbench.Prelude.{
  ℕ, ◌≤◌, true, false, ◌&&◌, and_false, List, [], ◌∷◌, ◌++◌, some, ◌≡◌, refl, ap, ◌∙◌, arith,
  if◌then◌else◌, ◌==◌, Bytes, length, take, take_all, map,
}
use tpbench.Tags.{comma, nil, strtok}
use tpbench.Tags.Normal.{tail_text, joined}
use tpbench.Tags.Display.{all_plain, strtok-joined}
use tpbench.Dim.{
  Floats, bind, isspace, skip_spaces, cut_spaces, trim_whitespace, matching_from,
  find_matching_bracket, has_byte, listed, values_of, any_text, list_of, bracketed, parse_list,
}

nil-append : (a : Bytes) (b : ℕ) → nil (a ++ (b ∷ [])) ≡ false
nil-append [] b = refl
nil-append (c ∷ a) b = refl

cut_spaces-end :
    (a : Bytes) (b : ℕ) → isspace b ≡ false → cut_spaces (a ++ (b ∷ [])) ≡ a ++ (b ∷ [])
unfolding cut_spaces
cut_spaces-end [] b h = rw h refl
cut_spaces-end (c ∷ a) b h =
    ap (λ l. if isspace c && nil l then [] else c ∷ l) (cut_spaces-end a b h)
    ∙ ap (λ x. if x then [] else c ∷ (a ++ (b ∷ []))) (and_false (isspace c) _ (nil-append a b))

matching_from-plain :
    (opens closes : ℕ) (body rest : Bytes)
    → (closes == opens) ≡ false
    → has_byte opens body ≡ false
    → has_byte closes body ≡ false
    → matching_from opens closes 1 (body ++ (closes ∷ rest)) ≡ some (body, rest)
unfolding matching_from
matching_from-plain opens closes [] rest d h k = ground arith
matching_from-plain opens closes (c ∷ body) rest d h k =
    ground (arith, matching_from-plain opens closes body rest d)

has_byte-append :
    (b : ℕ) (x y : Bytes)
    → has_byte b x ≡ false
    → has_byte b y ≡ false
    → has_byte b (x ++ y) ≡ false
has_byte-append b [] y h k = k
has_byte-append b (c ∷ x) y h k = ground (arith, has_byte-append b x y)

-- Tokens without the byte.
abbrev pub NoneHas : ℕ → List Bytes → Type 0
NoneHas b [] = Unit
NoneHas b (t ∷ ts) = (has_byte b t ≡ false) × NoneHas b ts

has_byte-tail_text :
    (b : ℕ) (ts : List Bytes)
    → (comma == b) ≡ false
    → NoneHas b ts
    → has_byte b (tail_text (comma ∷ []) ts) ≡ false
has_byte-tail_text b [] d h = refl
has_byte-tail_text b (t ∷ ts) d h =
    has_byte-append b (comma ∷ t) (tail_text (comma ∷ []) ts) (ground arith)
      (has_byte-tail_text b ts d h.1)

has_byte-joined :
    (b : ℕ) (ts : List Bytes)
    → (comma == b) ≡ false
    → NoneHas b ts
    → has_byte b (joined (comma ∷ []) ts) ≡ false
has_byte-joined b [] d h = refl
has_byte-joined b (t ∷ ts) d h =
    has_byte-append b t (tail_text (comma ∷ []) ts) h.0 (has_byte-tail_text b ts d h.1)

-- Tokens without spaces at their ends.
abbrev pub AllTrimmed : List Bytes → Type 0
AllTrimmed [] = Unit
AllTrimmed (t ∷ ts) = (trim_whitespace t ≡ t) × AllTrimmed ts

map-trimmed : (ts : List Bytes) → AllTrimmed ts → map trim_whitespace ts ≡ ts
map-trimmed [] h = refl
map-trimmed (t ∷ ts) h = ap (λ x. x ∷ map trim_whitespace ts) h.0 ∙ ap (◌∷◌ t) (map-trimmed ts h.1)

-- A list as it is written on the command line.
abbrev pub list_text : List Bytes → Bytes
list_text ts = b'[' ∷ (joined (comma ∷ []) ts ++ (b']' ∷ []))

trim-list_text : (ts : List Bytes) → trim_whitespace (list_text ts) ≡ list_text ts
unfolding trim_whitespace skip_spaces isspace
trim-list_text ts = cut_spaces-end (b'[' ∷ joined (comma ∷ []) ts) b']' refl

module _ (F : Floats) where
  open F use {strtod}

  -- One or more values, none of them empty, with a comma or a bracket, or with a space at an end, as a
  -- list of at most 4095 bytes: the list is read back as these values, each with the number that the C
  -- library reads in it, and as text as soon as one of them is not a number.
  pub parse_list-list_text :
      (t : Bytes) (ts : List Bytes)
      → all_plain (t ∷ ts) ≡ true
      → NoneHas b'[' (t ∷ ts)
      → NoneHas b']' (t ∷ ts)
      → AllTrimmed (t ∷ ts)
      → length (list_text (t ∷ ts)) ≤ 4095
      → parse_list F (list_text (t ∷ ts))
        ≡ some (listed (t ∷ ts) (values_of F (t ∷ ts)) (any_text F (t ∷ ts)))
  unfolding parse_list find_matching_bracket
  parse_list-list_text t ts p o c s fits =
      let text = list_text (t ∷ ts) in
      let body = joined (comma ∷ []) (t ∷ ts) in
      let whole : trim_whitespace (take 4095 text) ≡ text =
        ap trim_whitespace (take_all 4095 text fits) ∙ trim-list_text (t ∷ ts) in
      ap (λ l. bind (bracketed F b'[' b']' l) (λ r. list_of F (map trim_whitespace (strtok r.0))))
        whole
      ∙ ap (λ o. bind o (λ r. list_of F (map trim_whitespace (strtok r.0))))
          (matching_from-plain b'[' b']' body [] refl (has_byte-joined b'[' (t ∷ ts) refl o)
            (has_byte-joined b']' (t ∷ ts) refl c))
      ∙ ap (λ l. list_of F (map trim_whitespace l)) (strtok-joined (t ∷ ts) p)
      ∙ ap (list_of F) (map-trimmed (t ∷ ts) s)
