-- ===== src/Raf/Kernel/Meta/Keys.antt =====
-- Setting a key of a kernel's metadata, and getting it.
use tpbench.Prelude.{
  ℕ, ◌+◌, ◌≤◌, ◌<◌, true, false, List, [], ◌∷◌, ◌++◌, ◌≡◌, refl, sym, subst, ap, ◌∙◌, arith,
  append_assoc, length-append, Bool-cases, inl, inr, if◌then◌else◌, leb, ◌==◌, Bytes, bytes_eq,
  bytes_eq_refl, codes, length, take, drop, take-append, drop-append, take_all,
}
use tpbench.Raf.Kernel.Meta.{
  attach, lines_of, search_of, starts_with, got, kern_arg_fail, get_line, meta_kv_get, set_lines,
  meta_kv_set,
}

-- A text without a line feed.
abbrev pub NoFeed : Bytes → Type 0
NoFeed [] = Unit
NoFeed (c ∷ cs) = ((c == 10) ≡ false) × NoFeed cs

abbrev AllNoFeed : List Bytes → Type 0
AllNoFeed [] = Unit
AllNoFeed (l ∷ ls) = NoFeed l × AllNoFeed ls

NoFeed-append : (a b : Bytes) → NoFeed a → NoFeed b → NoFeed (a ++ b)
NoFeed-append [] b h k = k
NoFeed-append (c ∷ a) b h k = (h.0, NoFeed-append a b h.1 k)

AllNoFeed-attach :
    (c : ℕ) (ls : List Bytes) → (c == 10) ≡ false → AllNoFeed ls → AllNoFeed (attach c ls)
AllNoFeed-attach c [] h k = ((h, tt), tt)
AllNoFeed-attach c (l ∷ ls) h k = ((h, k.0), k.1)

lines_of-AllNoFeed : (p : Bytes) → AllNoFeed (lines_of p)
unfolding lines_of
lines_of-AllNoFeed [] = tt
lines_of-AllNoFeed (c ∷ cs) = elim (Bool-cases (c == 10)) [
  | inl feed ↦ rw feed (tt, lines_of-AllNoFeed cs)
  | inr other ↦ rw other (AllNoFeed-attach c (lines_of cs) other (lines_of-AllNoFeed cs))
]

lines_of-line : (l rest : Bytes) → NoFeed l → lines_of (l ++ (10 ∷ rest)) ≡ l ∷ lines_of rest
unfolding lines_of
lines_of-line [] rest h = refl
lines_of-line (c ∷ l) rest h = rw h.0 (ap (attach c) (lines_of-line l rest h.1))

starts_with-append : (search value : Bytes) → starts_with search (search ++ value) ≡ true
starts_with-append search value =
    ap (λ l. bytes_eq l search) (take-append (length search) search value refl)
    ∙ bytes_eq_refl search

module _ (search value : Bytes) (value_len : ℕ) (s : NoFeed search) (v : NoFeed value)
    (fits : length value ≤ value_len) where
  -- The line with the value is found, whatever comes behind it.
  get_new_line :
      (rest : Bytes)
      → get_line search value_len (lines_of (search ++ (value ++ (10 ∷ rest)))) ≡ got value
  unfolding get_line
  get_new_line rest =
      let line : lines_of (search ++ (value ++ (10 ∷ rest))) ≡ (search ++ value) ∷ lines_of rest =
        ap lines_of (sym (append_assoc search value (10 ∷ rest)))
        ∙ lines_of-line (search ++ value) rest (NoFeed-append search value s v) in
      ap (get_line search value_len) line
      ∙ ap
          (λ b.
            if b
            then got (take value_len (drop (length search) (search ++ value)))
            else get_line search value_len (lines_of rest))
          (starts_with-append search value)
      ∙ ap (λ l. got (take value_len l)) (drop-append (length search) search value refl)
      ∙ ap got (take_all value_len value fits)

  get_set_lines :
      (ls : List Bytes)
      → AllNoFeed ls
      → get_line search value_len (lines_of (set_lines search value false ls)) ≡ got value
  unfolding get_line set_lines
  get_set_lines [] h = get_new_line []
  get_set_lines (l ∷ ls) h = elim (Bool-cases (starts_with search l)) [
    | inl same ↦ rw same (get_new_line (set_lines search value true ls))
    | inr other ↦
        (rw other (
          ap (get_line search value_len) (lines_of-line l (set_lines search value false ls) h.0)
          ∙ ap
              (λ b.
                if b
                then got (take value_len (drop (length search) l))
                else get_line search value_len (lines_of (set_lines search value false ls)))
              other
          ∙ get_set_lines ls h.1))
  ]

-- The search text of a key that fits into its buffer is the key and the equals sign.
search_of-whole : (key : Bytes) → length key + 2 < 256 → search_of key ≡ key ++ codes "="
search_of-whole key fits =
    take_all 255 (key ++ codes "=")
      (subst (λ n. n ≤ 255) (sym (length-append key (codes "="))) (omega arith))

search_of-NoFeed : (key : Bytes) → length key + 2 < 256 → NoFeed key → NoFeed (search_of key)
search_of-NoFeed key fits h =
    subst NoFeed (sym (search_of-whole key fits)) (NoFeed-append key (codes "=") h (refl, tt))

leb-false : (a b : ℕ) → b < a → leb a b ≡ false
leb-false a b h = ground arith

-- A key and a value without a line feed, the key of at most 253 bytes, the value as long as the
-- buffer of the reader at most: whatever the metadata held, the key that is set is found there, with
-- the value that was set.
pub meta_kv_get-meta_kv_set :
    (payload key value : Bytes) (value_len : ℕ)
    → NoFeed key
    → NoFeed value
    → length key + 2 < 256
    → length value ≤ value_len
    → meta_kv_get (meta_kv_set payload key value) key value_len ≡ got value
unfolding meta_kv_get meta_kv_set
meta_kv_get-meta_kv_set payload key value value_len k v short fits =
    ap
      (λ b.
        if b
        then kern_arg_fail
        else get_line (search_of key) value_len
            (lines_of (set_lines (search_of key) value false (lines_of payload))))
      (leb-false 256 (length key + 2) short)
    ∙ get_set_lines (search_of key) value value_len (search_of-NoFeed key short k) v fits
        (lines_of payload) (lines_of-AllNoFeed payload)
