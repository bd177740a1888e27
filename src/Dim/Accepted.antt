-- ===== src/Dim/Accepted.antt =====
-- An accepted text always gives values.
use tpbench.Prelude.{
  ◌≤◌, Bool, true, false, ◌||◌, List, [], ◌∷◌, Option, none, some, leb, ◌==◌, if◌then◌else◌, ◌≡◌,
  refl, subst, arith, Bool-cases, inl, inr, Bytes, length, take, map,
}
use tpbench.Dim.{
  Floats, DimOp, bind, op_of, isalpha, strchr, trim_whitespace, find_matching_bracket, outside,
  Spec, listed, recur, Recur, Config, list_of, bracketed, parse_list, checked_range, range_of,
  operand_of, parse_dim_recur, has_byte, spec_of, named_spec, parse_dim, generate_values, capacity,
}
use tpbench.Tags.{strtok}
use tpbench.Dim.Sequence.{generate_values-AreIterated, length-values, capacity-pos}

abbrev Each : {B : Type 0} → (B → Type 0) → Option B → Type 0
Each P none = Unit
Each P (some b) = P b

bind-Each :
    {A B : Type 0} (P : B → Type 0) (o : Option A) (f : A → Option B)
    → ((a : A) → Each P (f a))
    → Each P (bind o f)
bind-Each P none f h = tt
bind-Each P (some a) f h = h a

module _ (F : Floats) where
  open F use {Double, lt, strtod}

  -- A list of one value at least, or a sequence whose start is within its bounds.
  abbrev IsUsable : Spec F → Type 0
  IsUsable (listed strs nums text) = 1 ≤ length nums
  IsUsable (recur r) = outside F r r.st ≡ false

  abbrev AllUsable : Option (Spec F) → Type 0
  AllUsable = Each IsUsable

  if-AllUsable :
      (b : Bool) (x y : Option (Spec F))
      → AllUsable x
      → (b ≡ false → AllUsable y)
      → AllUsable (if b then x else y)
  if-AllUsable true x y h k = h
  if-AllUsable false x y h k = k refl

  list_of-AllUsable : (ts : List Bytes) → AllUsable (list_of F ts)
  unfolding list_of
  list_of-AllUsable [] = tt
  list_of-AllUsable (t ∷ ts) = omega arith

  checked_range-AllUsable : (r : Recur F) → AllUsable (checked_range F r)
  checked_range-AllUsable r =
      if-AllUsable (lt r.max r.min) none
        (if lt r.st r.min || lt r.max r.st then none else some (recur r)) tt
        (λ e. if-AllUsable (outside F r r.st) none (some (recur r)) tt (λ inside. inside))

  range_of-AllUsable : (op : DimOp) (x : Double) (ts : List Bytes) → AllUsable (range_of F op x ts)
  unfolding range_of
  range_of-AllUsable op x [] = tt
  range_of-AllUsable op x (a ∷ []) = tt
  range_of-AllUsable op x (a ∷ b ∷ []) = tt
  range_of-AllUsable op x (a ∷ b ∷ c ∷ []) = tt
  range_of-AllUsable op x (a ∷ b ∷ c ∷ d ∷ rest) = checked_range-AllUsable _

  parse_list-AllUsable : (text : Bytes) → AllUsable (parse_list F text)
  unfolding parse_list
  parse_list-AllUsable text =
      bind-Each IsUsable (bracketed F b'[' b']' (trim_whitespace (take 4095 text)))
        (λ r. list_of F (map trim_whitespace (strtok r.0)))
        (λ r. list_of-AllUsable (map trim_whitespace (strtok r.0)))

  parse_dim_recur-AllUsable : (text : Bytes) → AllUsable (parse_dim_recur F text)
  unfolding parse_dim_recur
  parse_dim_recur-AllUsable text =
      bind-Each IsUsable (strchr b'(' (trim_whitespace (take 4095 text))) _ (λ named.
        bind-Each IsUsable (if leb 16 (length named.0) then none else op_of named.0) _ (λ op.
          bind-Each IsUsable (find_matching_bracket b'(' b')' named.1) _ (λ inside.
            bind-Each IsUsable (operand_of F inside.0) _ (λ x.
              bind-Each IsUsable (bracketed F b'(' b')' (trim_whitespace inside.1)) _
                (λ range. range_of-AllUsable op x (strtok range.0))))))

  spec_of-AllUsable : (text : Bytes) → AllUsable (spec_of F text)
  unfolding spec_of
  spec_of-AllUsable [] = tt
  spec_of-AllUsable (c ∷ cs) = if-AllUsable (c == b'(') none _ tt (λ e.
      if-AllUsable (c == b'[') (parse_list F (c ∷ cs)) _ (parse_list-AllUsable (c ∷ cs)) (λ e'.
        if-AllUsable (isalpha c) (parse_dim_recur F (c ∷ cs)) none
          (parse_dim_recur-AllUsable (c ∷ cs)) (λ e''. tt)))

  abbrev IsUsableConfig : Config F → Type 0
  IsUsableConfig cfg = IsUsable cfg.spec

  some_spec :
      (name : Bytes) (o : Option (Spec F))
      → Each IsUsable o
      → Each IsUsableConfig (bind o (λ s. some (record { parm_name = take 255 name; spec = s })))
  some_spec name none h = tt
  some_spec name (some s) h = h

  named_spec-Each : (name text : Bytes) → Each IsUsableConfig (named_spec F name text)
  unfolding named_spec
  named_spec-Each name text = elim (Bool-cases (has_byte b'{' text)) [
    | inl nested ↦ rw nested tt
    | inr flat ↦ rw flat (some_spec name (spec_of F text) (spec_of-AllUsable text))
  ]

  parse_dim-Each : (text : Bytes) → Each IsUsableConfig (parse_dim F text)
  unfolding parse_dim
  parse_dim-Each text =
      bind-Each IsUsableConfig (strchr b'=' (trim_whitespace (take 4095 text)))
        (λ r. named_spec F (trim_whitespace r.0) (trim_whitespace r.1))
        (λ r. named_spec-Each (trim_whitespace r.0) (trim_whitespace r.1))

  length-usable :
      (name : Bytes) (s : Spec F)
      → IsUsable s
      → 1 ≤ length (generate_values F (record { parm_name = name; spec = s })).values
  unfolding generate_values
  length-usable name (listed strs nums text) h = h
  length-usable name (recur r) h =
      length-values F r (capacity r.nlim) r.st _ (generate_values-AreIterated F name r)
        (capacity-pos F r.nlim) h

  -- A text that is accepted, whatever the arithmetic and the reading of numbers: at least one value is
  -- generated for it.
  pub parse_dim-generate_values :
      (text : Bytes) (cfg : Config F)
      → parse_dim F text ≡ some cfg
      → 1 ≤ length (generate_values F cfg).values
  parse_dim-generate_values text cfg e =
      length-usable cfg.parm_name cfg.spec (subst (Each IsUsableConfig) e (parse_dim-Each text))
