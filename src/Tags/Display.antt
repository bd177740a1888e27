-- ===== src/Tags/Display.antt =====
-- How stored tags are shown.
use tpbench.Prelude.{
  ℕ, ◌<◌, Bool, true, false, not, ◌&&◌, List, [], ◌∷◌, ◌++◌, some, ◌==◌, Bytes, length,
  length-append, append_assoc, ◌≡◌, refl, sym, ap, ◌∙◌, subst, arith, append-nil,
}
use tpbench.Tags.{
  comma, nil, strtok, pieces, some_only, put_token, put_sep, then_token, join_rest, join,
  format_tags_display,
}
use tpbench.Tags.Normal.{tail_text, joined}

abbrev no_comma : Bytes → Bool
no_comma [] = true
no_comma (c ∷ cs) = not (c == comma) && no_comma cs

-- Tokens as they are stored: not empty, and without a comma.
abbrev pub all_plain : List Bytes → Bool
all_plain [] = true
all_plain (t ∷ ts) = (not (nil t) && no_comma t) && all_plain ts

pieces-comma : (t cs : Bytes) → no_comma t ≡ true → pieces (t ++ (comma ∷ cs)) ≡ t ∷ pieces cs
unfolding pieces
pieces-comma [] cs h = refl
pieces-comma (c ∷ t) cs h = ground (arith, pieces-comma t cs)

pieces-token : (t : Bytes) → no_comma t ≡ true → pieces t ≡ t ∷ []
unfolding pieces
pieces-token [] h = refl
pieces-token (c ∷ t) h = ground (arith, pieces-token t)

pieces-joined :
    (t : Bytes) (ts : List Bytes)
    → all_plain (t ∷ ts) ≡ true
    → pieces (joined (comma ∷ []) (t ∷ ts)) ≡ t ∷ ts
pieces-joined t [] h = ap pieces (append-nil t) ∙ pieces-token t (ground arith)
pieces-joined t (u ∷ ts) h =
    pieces-comma t (joined (comma ∷ []) (u ∷ ts)) (ground arith)
    ∙ ap (λ ps. t ∷ ps) (pieces-joined u ts (ground arith))

some_only-plain : (ts : List Bytes) → all_plain ts ≡ true → some_only ts ≡ ts
some_only-plain [] h = refl
some_only-plain (t ∷ ts) h = ground (arith, some_only-plain ts)

pub strtok-joined : (ts : List Bytes) → all_plain ts ≡ true → strtok (joined (comma ∷ []) ts) ≡ ts
unfolding strtok pieces
strtok-joined [] h = refl
strtok-joined (t ∷ ts) h = ap some_only (pieces-joined t ts h) ∙ some_only-plain (t ∷ ts) h

join_rest-fits :
    (size : ℕ) (sep out : Bytes) (ts : List Bytes)
    → length (out ++ tail_text sep ts) < size
    → join_rest size sep (some out) ts ≡ some (out ++ tail_text sep ts)
unfolding join_rest put_token
join_rest-fits size sep out [] h = ap some (sym (append-nil out))
join_rest-fits size sep out (t ∷ ts) h =
    let whole : out ++ tail_text sep (t ∷ ts) ≡ ((out ++ sep) ++ t) ++ tail_text sep ts = sym (
      append_assoc (out ++ sep) t (tail_text sep ts)
      ∙ append_assoc out sep (t ++ tail_text sep ts)
      ∙ ap (λ l. out ++ l) (sym (append_assoc sep t (tail_text sep ts)))) in
    let h' = subst (λ l. length l < size) whole h in
    let total = length-append ((out ++ sep) ++ t) (tail_text sep ts) in
    let first = length-append (out ++ sep) t in
    let start = length-append out sep in
    let put : put_sep size out sep ≡ some (out ++ sep) = ground arith in
    let put_t : put_token size (out ++ sep) t ≡ some ((out ++ sep) ++ t) = ground arith in
    ap (λ p. join_rest size sep (then_token size p t) ts) put
    ∙ ap (λ p. join_rest size sep p ts) put_t
    ∙ (join_rest-fits size sep ((out ++ sep) ++ t) ts h' ∙ ap some (sym whole))

join-fits :
    (size : ℕ) (sep : Bytes) (ts : List Bytes)
    → length (joined sep ts) < size
    → join size sep ts ≡ some (joined sep ts)
unfolding join put_token
join-fits size sep [] h = refl
join-fits size sep (t ∷ ts) h =
    let total = length-append t (tail_text sep ts) in
    let put : put_token size [] t ≡ some t = ground arith in
    ap (λ p. join_rest size sep p ts) put ∙ join_rest-fits size sep t ts h

-- Stored tags, tokens with a comma between them, are shown with a comma and a space between them,
-- when the buffer holds the text and its NUL.
pub format_tags_display-joined :
    (size : ℕ) (ts : List Bytes)
    → all_plain ts ≡ true
    → length (joined (comma ∷ 32 ∷ []) ts) < size
    → format_tags_display size (some (joined (comma ∷ []) ts)) ≡ some (joined (comma ∷ 32 ∷ []) ts)
unfolding format_tags_display
format_tags_display-joined size ts p h =
    let some_size : (size == 0) ≡ false = ground arith in
    rw (some_size, strtok-joined ts p) (join-fits size (comma ∷ 32 ∷ []) ts h)
