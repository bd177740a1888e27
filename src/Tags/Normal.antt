-- ===== src/Tags/Normal.antt =====
-- What normalized tags are, and how they are shown.
use tpbench.Prelude.{
  ℕ, ◌<◌, Bool, true, false, ◌||◌, List, [], ◌∷◌, ◌++◌, map, none, some, ◌==◌, if◌then◌else◌, Bytes,
  length, length-append, append_assoc, take, bytes_eq, bytes_eq_iff, ◌≡◌, refl, sym, ap, ◌∙◌, subst,
  arith, Bool-cases, Option-cases, inl, inr, append-nil,
}
use tpbench.Tags.{
  comma, nil, has, strtok, trim, toupper, toupper_check, accept_upper, accept_token, accept, sort,
  put_token, put_sep, then_token, join_rest, join, normalize_tags,
}
use tpbench.Tags.Order.{is_sorted, distinct, has-sort, is_sorted-sort}

-- The tokens that a text asks for: without the blanks around them, in upper case.
abbrev pub wanted : List Bytes → List Bytes
wanted [] = []
wanted (tok ∷ toks) =
    let rest = wanted toks in if nil (trim tok) then rest else map toupper (trim tok) ∷ rest

-- Tokens with `sep` between them.
abbrev pub tail_text : Bytes → List Bytes → Bytes
tail_text sep [] = []
tail_text sep (t ∷ ts) = (sep ++ t) ++ tail_text sep ts

abbrev pub joined : Bytes → List Bytes → Bytes
joined sep [] = []
joined sep (t ∷ ts) = t ++ tail_text sep ts

toupper_check-some : (t u : Bytes) → toupper_check t ≡ some u → u ≡ map toupper t
unfolding toupper_check
toupper_check-some [] u e = ground arith
toupper_check-some (c ∷ t) u e = elim (Option-cases (toupper_check t)) [
  | inl n ↦ absurd (ground arith)
  | inr (v, s) ↦ let ih = toupper_check-some t v s in ground arith
]

has-append : (t : Bytes) (ts us : List Bytes) → has t (ts ++ us) ≡ (has t ts || has t us)
has-append t [] us = refl
has-append t (x ∷ ts) us = ground (arith, has-append t ts us)

bytes_eq_sym : (a b : Bytes) → bytes_eq a b ≡ bytes_eq b a
bytes_eq_sym [] [] = refl
bytes_eq_sym [] (y ∷ b) = refl
bytes_eq_sym (x ∷ a) [] = refl
bytes_eq_sym (x ∷ a) (y ∷ b) = ground (arith, bytes_eq_sym a b)

distinct-append :
    (t : Bytes) (ts : List Bytes)
    → distinct ts ≡ true
    → has t ts ≡ false
    → distinct (ts ++ (t ∷ [])) ≡ true
distinct-append t [] d h = refl
distinct-append t (x ∷ ts) d h =
    ground (arith, distinct-append t ts, has-append x ts (t ∷ []), bytes_eq_sym x t)

-- `us` are different tokens, those of `ts` and of `new`.
abbrev Accepted : List Bytes → List Bytes → List Bytes → Type 0
Accepted ts new us = (distinct us ≡ true) × ((t : Bytes) → has t us ≡ (has t ts || has t new))

or_false : (b : Bool) → b ≡ (b || false)
or_false true = refl
or_false false = refl

bytes_eq_subst :
    (u t : Bytes) (ts : List Bytes) → has u ts ≡ true → bytes_eq u t ≡ true → has t ts ≡ true
bytes_eq_subst u t ts h e = subst (λ v. has v ts ≡ true) ((bytes_eq_iff u t).0 e) h

accept_upper-Accepted :
    (ts us : List Bytes) (u : Bytes)
    → distinct ts ≡ true
    → accept_upper ts (some u) ≡ some us
    → Accepted ts (u ∷ []) us
unfolding accept_upper
accept_upper-Accepted ts us u d e = elim (Bool-cases (has u ts)) [
  | inl h ↦
      let same : ts ≡ us = ground arith in
      subst (Accepted ts (u ∷ [])) same (d, λ t. ground (arith, bytes_eq_subst u t ts))
  | inr h ↦
      let same : ts ++ (u ∷ []) ≡ us = ground arith in
      subst (Accepted ts (u ∷ [])) same (distinct-append u ts d h, λ t. has-append t ts (u ∷ []))
]

accept_token-Accepted :
    (ts us : List Bytes) (tok : Bytes)
    → distinct ts ≡ true
    → accept_token ts tok ≡ some us
    → Accepted ts (wanted (tok ∷ [])) us
unfolding accept_token
accept_token-Accepted ts us tok d e = elim (Bool-cases (nil (trim tok))) [
  | inl n ↦
      let same : ts ≡ us = ground arith in
      rw n (subst (Accepted ts []) same (d, λ t. or_false (has t ts)))
  | inr n ↦ elim (Option-cases (toupper_check (trim tok))) [
    | inl f ↦ absurd (ground arith)
    | inr (u, f) ↦
        let accepted : accept_upper ts (some u) ≡ some us = ground arith in
        rw (n, ← toupper_check-some (trim tok) u f) (accept_upper-Accepted ts us u d accepted)
  ]
]

has-wanted :
    (t tok : Bytes) (toks : List Bytes)
    → has t (wanted (tok ∷ toks)) ≡ (has t (wanted (tok ∷ [])) || has t (wanted toks))
has-wanted t tok toks = elim (Bool-cases (nil (trim tok))) [ inl n ↦ rw n | inr n ↦ ground arith ]

accept-Accepted :
    (toks ts us : List Bytes)
    → distinct ts ≡ true
    → accept (some ts) toks ≡ some us
    → Accepted ts (wanted toks) us
unfolding accept
accept-Accepted [] ts us d e =
    let same : ts ≡ us = ground arith in subst (Accepted ts []) same (d, λ t. or_false (has t ts))
accept-Accepted (tok ∷ toks) ts us d e = elim (Option-cases (accept_token ts tok)) [
  | inl f ↦
      let never : none ≡ some us = subst (λ o. accept o toks ≡ some us) f e in absurd (ground arith)
  | inr (vs, f) ↦
      let (dv, hv) = accept_token-Accepted ts vs tok d f in
      let (du, hu) = accept-Accepted toks vs us dv (subst (λ o. accept o toks ≡ some us) f e) in
      (du, λ t. ground (arith, hu t, hv t, has-wanted t tok toks))
]

put_token-some :
    (size : ℕ) (out t o : Bytes)
    → put_token size out t ≡ some o
    → (out ++ t ≡ o) × (length o < size)
unfolding put_token
put_token-some size out t o e = ground (arith, length-append out t)

join_rest-some :
    (size : ℕ) (sep out o : Bytes) (ts : List Bytes)
    → length out < size
    → join_rest size sep (some out) ts ≡ some o
    → (out ++ tail_text sep ts ≡ o) × (length o < size)
unfolding join_rest
join_rest-some size sep out o [] h e =
    let same : out ≡ o = ground arith in
    (append-nil out ∙ same, subst (λ l. length l < size) same h)
join_rest-some size sep out o (t ∷ ts) h e = elim (Option-cases (put_sep size out sep)) [
  | inl f ↦ absurd (never (subst (λ p. join_rest size sep (then_token size p t) ts ≡ some o) f e))
  | inr (out', f) ↦ elim (Option-cases (put_token size out' t)) [
    | inl g ↦ absurd (
        never
          (subst (λ p. join_rest size sep p ts ≡ some o) (ap (λ p. then_token size p t) f ∙ g) e))
    | inr (next, g) ↦
        let (text, fits) = put_token-some size out' t next g in
        let (text', fits') =
          join_rest-some size sep next o ts fits (
            subst (λ p. join_rest size sep p ts ≡ some o) (ap (λ p. then_token size p t) f ∙ g)
              e) in
        let sep_text : out ++ sep ≡ out' = ground arith in
        (
          ground (arith, append_assoc out sep t, append_assoc out (sep ++ t) (tail_text sep ts)),
          fits',
        )
  ]
]
  where
    never : none ≡ some o → ⊥
    never n = ground arith

join-some :
    (size : ℕ) (sep o : Bytes) (ts : List Bytes)
    → 0 < size
    → join size sep ts ≡ some o
    → (joined sep ts ≡ o) × (length o < size)
unfolding join
join-some size sep o [] h e = ground arith
join-some size sep o (t ∷ ts) h e = elim (Option-cases (put_token size [] t)) [
  | inl f ↦ absurd (never (subst (λ p. join_rest size sep p ts ≡ some o) f e))
  | inr (out, f) ↦
      let (text, fits) = put_token-some size [] t out f in
      let (text', fits') =
        join_rest-some size sep out o ts fits (subst (λ p. join_rest size sep p ts ≡ some o) f e) in
      (ap (λ l. l ++ tail_text sep ts) text ∙ text', fits')
]
  where
    never : none ≡ some o → ⊥
    never n = ground arith

-- What `out` is to the tokens of a raw text.
pub record IsNormal (size : ℕ) (raw : Bytes) (out : Bytes) : Type 0 where
  pub tokens : List Bytes
  pub text : out ≡ joined (comma ∷ []) tokens
  pub sorted : is_sorted tokens ≡ true
  pub same_tokens : (t : Bytes) → has t tokens ≡ has t (wanted (strtok (take 255 raw)))
  pub fits : length out < size

-- Tags that are normalized are different tokens in ascending order, with commas between them: those
-- of the first 255 characters of the text, in upper case and without the blanks around them. With
-- the final NUL they fit the buffer.
pub normalize_tags-IsNormal :
    (size : ℕ) (raw out : Bytes) → normalize_tags size (some raw) ≡ some out → IsNormal size raw out
unfolding normalize_tags
normalize_tags-IsNormal size raw out e = elim (Bool-cases (size == 0)) [
  | inl z ↦ absurd (ground arith)
  | inr z ↦ elim (Option-cases (accept (some []) (strtok (take 255 raw)))) [
    | inl f ↦ absurd (ground arith)
    | inr (ts, f) ↦
        let (d, h) = accept-Accepted (strtok (take 255 raw)) [] ts refl f in
        let joined_to : join size (comma ∷ []) (sort ts) ≡ some out = ground arith in
        let (text, fits) = join-some size (comma ∷ []) out (sort ts) (ground arith) joined_to in
        record {
          tokens = sort ts;
          text = sym text;
          sorted = is_sorted-sort ts d;
          same_tokens = λ t. has-sort t ts ∙ h t;
          fits = fits;
        }
  ]
]
