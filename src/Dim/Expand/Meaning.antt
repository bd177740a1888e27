-- ===== src/Dim/Expand/Meaning.antt =====
-- What an expansion does, in terms of the driver's calls alone: which combinations there are, and
-- which calls are made for them in which order.
use tpbench.Prelude.{
  ℕ, zero, suc, ◌+◌, ◌^◌, ◌<◌, Bool, true, false, List, [], ◌∷◌, ◌++◌, Option, none, some, ◌≡◌,
  refl, sym, ap, subst, ◌∙◌, arith, map, ◌==◌, if◌then◌else◌, Bytes, length, get_elem?, fun_ext,
}
use tpbench.Dim.{Floats, Values, bind}
use tpbench.Dim.Expand.{
  Driver, last_first, pick, text_at, apply_dim_value, apply_all, new_handle, prepare, then_apply,
  expand_cartesian,
}
use tpbench.Dim.Expand.Product.{
  from, map-from, flat_map, row, combinations, expand_each, expand_cartesian-each, AllHave, size,
}

-- A value that is to be set: the name of the argument, and the text, if there is one.
abbrev pub Choice : Type 0
Choice = Bytes × Option Bytes

abbrev pub backwards {ℓ} : {A : Type ℓ} → List A → List A
backwards [] = []
backwards (x ∷ xs) = backwards xs ++ (x ∷ [])

pub last_first-backwards : {A : Type 0} (xs : List A) → last_first xs ≡ backwards xs
last_first-backwards [] = refl
last_first-backwards (x ∷ xs) = ap (λ l. l ++ (x ∷ [])) (last_first-backwards xs)

-- The strings of as many values, as far as there are strings.
abbrev pub strings : {A : Type 0} → List Bytes → List A → List (Option Bytes)
strings ts [] = []
strings [] (x ∷ xs) = none ∷ strings [] xs
strings (t ∷ ts) (x ∷ xs) = some t ∷ strings ts xs

later : (e : ℕ) → (suc e == 0) ≡ false
later e = ground arith

shift :
    {A : Type 0} (f g : ℕ → A) (k : ℕ)
    → ((j : ℕ) → f (suc j) ≡ g j)
    → map f (from 1 k) ≡ map g (from 0 k)
shift f g k h = map-from f g 1 0 k (λ j e.
    ap f {x = 1 + j} {y = suc j} (omega arith) ∙ h j ∙ ap g {x = j} {y = 0 + j} (omega arith))

module _ (F : Floats) (show : Floats.Double F → Bytes) where
  -- The texts of the values of a dimension: the strings of one of strings, else the numbers as they
  -- are printed.
  abbrev pub texts_of : Bool → Option (List Bytes) → List (Floats.Double F) → List (Option Bytes)
  texts_of true (some ts) xs = strings ts xs
  texts_of true none xs = map (λ x. some (show x)) xs
  texts_of false ts xs = map (λ x. some (show x)) xs

  abbrev pub choices : Values F → List Choice
  choices v = map (λ t. (v.parm_name, t)) (texts_of v.is_string v.str_values v.values)

  -- One choice of each dimension, in every way; the first dimension of the list changes fastest.
  abbrev pub product : List (Values F) → List (List Choice)
  product [] = [] ∷ []
  product (v ∷ vs) = flat_map (λ cs. map (λ c. c ∷ cs) (choices v)) (product vs)

module _ {S : Type 0} (driver : Driver S) where
  -- The values of a combination are set one after another, whatever the calls return: the code is
  -- that of the last one, TPBE_KERN_ARG_FAIL where there is no text.
  pub data SetsAll : List Choice → ℕ → S → ℕ → S → Type 0 where
    all_set : {err : ℕ} {s : S} → SetsAll [] err s err s
    one_set :
        {name text : Bytes} {cs : List Choice} {err e e' : ℕ} {s s' s'' : S}
        → driver.set_hdl_karg name text s ≡ (e, s')
        → SetsAll cs e s' e' s''
        → SetsAll ((name, some text) ∷ cs) err s e' s''
    no_text :
        {name : Bytes} {cs : List Choice} {err e' : ℕ} {s s'' : S}
        → SetsAll cs 6 s e' s''
        → SetsAll ((name, none) ∷ cs) err s e' s''

  -- The combinations behind the first: a handle is added, made a copy of the handle `orig`, and gets
  -- the values; a handle that cannot be added or made a copy ends it.
  pub data AddsAll (orig : ℕ) : List (List Choice) → ℕ → S → ℕ → S → Type 0 where
    all_added : {err : ℕ} {s : S} → AddsAll orig [] err s err s
    one_added :
        {cs : List Choice} {rest : List (List Choice)} {err e e' : ℕ} {s s1 s2 s3 s' : S}
        → driver.add_handle s ≡ (0, s1)
        → driver.copy_hdl_from orig s1 ≡ (0, s2)
        → SetsAll cs 0 s2 e s3
        → AddsAll orig rest e s3 e' s'
        → AddsAll orig (cs ∷ rest) err s e' s'
    not_added :
        {cs : List Choice} {rest : List (List Choice)} {err e : ℕ} {s s' : S}
        → driver.add_handle s ≡ (suc e, s')
        → AddsAll orig (cs ∷ rest) err s (suc e) s'
    not_copied :
        {cs : List Choice} {rest : List (List Choice)} {err e : ℕ} {s s1 s' : S}
        → driver.add_handle s ≡ (0, s1)
        → driver.copy_hdl_from orig s1 ≡ (suc e, s')
        → AddsAll orig (cs ∷ rest) err s (suc e) s'

  -- The handle that is there gets the first combination, and the others get handles of their own.
  pub data Expands : List (List Choice) → S → ℕ → S → Type 0 where
    nothing : {s : S} → Expands [] s 0 s
    expands :
        {cs : List Choice} {rest : List (List Choice)} {e e' : ℕ} {s s1 s' : S}
        → SetsAll cs 0 s e s1
        → AddsAll (driver.get_current_hdl_idx s) rest e s1 e' s'
        → Expands (cs ∷ rest) s e' s'

module _ (F : Floats) (show : Floats.Double F → Bytes) {S : Type 0} (driver : Driver S) where
  apply_all-SetsAll :
      (cs : List Choice) (err : ℕ) (s : S)
      → SetsAll driver cs err s
          (apply_all F show driver cs err s).0
          (apply_all F show driver cs err s).1
  unfolding apply_all apply_dim_value
  apply_all-SetsAll [] err s = all_set
  apply_all-SetsAll ((name, some text) ∷ cs) err s = one_set refl (apply_all-SetsAll cs _ _)
  apply_all-SetsAll ((name, none) ∷ cs) err s = no_text (apply_all-SetsAll cs 6 s)

  module _ (orig : ℕ) (cs : List Choice) (rest : List (List Choice)) (err : ℕ) (s : S)
      (more : (e : ℕ) (s' : S)
        → AddsAll driver orig rest e s'
            (expand_each F show driver orig false rest e s').0
            (expand_each F show driver orig false rest e s').1) where
    abbrev set_on : ℕ × S → ℕ × S
    set_on made = then_apply F show driver false made cs (expand_each F show driver orig false rest)

    copied-AddsAll :
        (s1 : S) (copied : ℕ × S)
        → driver.add_handle s ≡ (0, s1)
        → driver.copy_hdl_from orig s1 ≡ copied
        → AddsAll driver orig (cs ∷ rest) err s (set_on copied).0 (set_on copied).1
    unfolding then_apply
    copied-AddsAll s1 (zero, s2) a c = one_added a c (apply_all-SetsAll cs 0 s2) (more _ _)
    copied-AddsAll s1 (suc e, s2) a c = rw (later e) (not_copied a c)

    added-AddsAll :
        (added : ℕ × S)
        → driver.add_handle s ≡ added
        → AddsAll driver orig
            (cs ∷ rest)
            err
            s
            (set_on (if added.0 == 0 then driver.copy_hdl_from orig added.1 else added)).0
            (set_on (if added.0 == 0 then driver.copy_hdl_from orig added.1 else added)).1
    unfolding then_apply
    added-AddsAll (zero, s1) a = copied-AddsAll s1 (driver.copy_hdl_from orig s1) a refl
    added-AddsAll (suc e, s1) a = rw (later e, later e) (not_added a)

  expand_each-AddsAll :
      (orig : ℕ) (combos : List (List Choice)) (err : ℕ) (s : S)
      → AddsAll driver orig combos err s
          (expand_each F show driver orig false combos err s).0
          (expand_each F show driver orig false combos err s).1
  unfolding prepare new_handle
  expand_each-AddsAll orig [] err s = all_added
  expand_each-AddsAll orig (cs ∷ rest) err s =
      added-AddsAll orig cs rest err s (expand_each-AddsAll orig rest) (driver.add_handle s) refl

  -- The texts of the values are those that the indices pick.
  strings-lem :
      {A : Type 0} (ts : List Bytes) (xs : List A)
      → map (get_elem? ts) (from 0 (length xs)) ≡ strings ts xs
  strings-lem ts [] = refl
  strings-lem [] (x ∷ xs) =
      ap (◌∷◌ none)
        (shift (get_elem? []) (get_elem? []) (length xs) (λ j. refl) ∙ strings-lem [] xs)
  strings-lem (t ∷ ts) (x ∷ xs) =
      ap (◌∷◌ (some t))
        (shift (get_elem? (t ∷ ts)) (get_elem? ts) (length xs) (λ j. refl) ∙ strings-lem ts xs)

  abbrev shown_at : List (Floats.Double F) → ℕ → Option Bytes
  shown_at xs i = bind (get_elem? xs i) (λ x. some (show x))

  shown-lem :
      (xs : List (Floats.Double F))
      → map (shown_at xs) (from 0 (length xs)) ≡ map (λ x. some (show x)) xs
  shown-lem [] = refl
  shown-lem (x ∷ xs) =
      ap (◌∷◌ (some (show x)))
        (shift (shown_at (x ∷ xs)) (shown_at xs) (length xs) (λ j. refl) ∙ shown-lem xs)

  texts-lem :
      (text : Bool) (strs : Option (List Bytes)) (v : Values F)
      → map (text_at F show driver text strs v) (from 0 (length v.values))
        ≡ texts_of F show text strs v.values
  unfolding text_at
  texts-lem true (some ts) v = strings-lem ts v.values
  texts-lem true none v = shown-lem v.values
  texts-lem false strs v = shown-lem v.values

  map-map :
      {A B C : Type 0} (f : B → C) (g : A → B) (xs : List A)
      → map f (map g xs) ≡ map (λ x. f (g x)) xs
  map-map f g [] = refl
  map-map f g (x ∷ xs) = ap (◌∷◌ (f (g x))) (map-map f g xs)

  row-choices :
      (v : Values F) (cs : List Choice)
      → row F show driver v cs ≡ map (λ c. c ∷ cs) (choices F show v)
  unfolding pick
  row-choices v cs =
      sym (
        map-map (λ t. (v.parm_name, t) ∷ cs) (text_at F show driver v.is_string v.str_values v)
          (from 0 (length v.values)))
      ∙ ap (map (λ t. (v.parm_name, t) ∷ cs)) (texts-lem v.is_string v.str_values v)
      ∙ sym (map-map (λ c. c ∷ cs) (λ t. (v.parm_name, t)) _)

  pub combinations-product :
      (vs : List (Values F)) → combinations F show driver vs ≡ product F show vs
  combinations-product [] = refl
  combinations-product (v ∷ vs) =
      ap (λ f. flat_map f (combinations F show driver vs)) (fun_ext (row-choices v))
      ∙ ap (flat_map (λ cs. map (λ c. c ∷ cs) (choices F show v))) (combinations-product vs)

  pub expand_each-Expands :
      (combos : List (List Choice)) (s : S)
      → Expands driver combos s
          (expand_each F show driver (driver.get_current_hdl_idx s) true combos 0 s).0
          (expand_each F show driver (driver.get_current_hdl_idx s) true combos 0 s).1
  unfolding prepare then_apply
  expand_each-Expands [] s = nothing
  expand_each-Expands (cs ∷ rest) s =
      expands (apply_all-SetsAll cs 0 s)
        (expand_each-AddsAll (driver.get_current_hdl_idx s) rest _ _)

  -- The combinations that the code goes through are the product.
  pub each-Expands :
      (vals : List (Values F)) (s : S)
      → (e : ℕ) × (s' : S) × (expand_each F show driver
            (driver.get_current_hdl_idx s)
            true
            (combinations F show driver (last_first vals))
            0
            s
          ≡ (e, s'))
        × Expands driver (product F show (backwards vals)) s e s'
  each-Expands vals s =
      let combos = combinations F show driver (last_first vals) in
      let same =
        combinations-product (last_first vals) ∙ ap (product F show) (last_first-backwards vals) in
      let done = expand_each F show driver (driver.get_current_hdl_idx s) true combos 0 s in
      (
        done.0,
        done.1,
        refl,
        subst (λ l. Expands driver l s done.0 done.1) same (expand_each-Expands combos s),
      )

  -- Dimensions with a value at least, of fewer than 2 ^ 31 combinations: the values of the first
  -- combination are set on the handle that is there; for each further one, in the order in which the
  -- last dimension runs fastest, a handle is added, made a copy of the first and given the values. The
  -- calls end at the first handle that cannot be added or made a copy; the code is that of the last
  -- call, or TPBE_KERN_ARG_FAIL where a value has no text.
  pub expand_cartesian_lem :
      (vals : List (Values F)) (s : S)
      → AllHave F show driver vals
      → size F show driver (backwards vals) < 2 ^ 31
      → (e : ℕ) × (s' : S) × (expand_cartesian F show driver vals s ≡ some (e, s'))
        × Expands driver (product F show (backwards vals)) s e s'
  expand_cartesian_lem vals s h few =
      let (e, s', done, does) = each-Expands vals s in
      let few' = subst (λ l. size F show driver l < 2 ^ 31) (sym (last_first-backwards vals)) few in
      (e, s', expand_cartesian-each F show driver vals s h few' ∙ ap some done, does)
