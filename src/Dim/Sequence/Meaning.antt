-- ===== src/Dim/Sequence/Meaning.antt =====
-- What the values of a sequence are, said without the functions that make them.
use tpbench.Prelude.{
  ℕ, zero, suc, true, false, List, [], ◌∷◌, Option, none, some, ◌≡◌, ◌⊎◌, refl, sym, subst, arith,
  Bool-cases, inl, inr, Option-cases, ℤ, pos, negsuc, Bytes, ◌||◌,
}
use tpbench.Dim.{
  Floats, DimOp, plus, minus, times, over, power, Recur, outside, capacity, next_value, recur,
  generate_values,
}
use tpbench.Dim.Sequence.{plain, recur_loop-plain}

-- As many values as the limit says, if it is positive, and else 4096.
pub data HasRoom : ℤ → ℕ → Type 0 where
  limited : {k : ℕ} → HasRoom (pos (suc k)) (suc k)
  zero_limit : HasRoom (pos zero) 4096
  negative_limit : {k : ℕ} → HasRoom (negsuc k) 4096

module _ (F : Floats) where
  open F use {Double, lt, equals_zero}

  -- What an operator with the operand `x` makes of a value; nothing, of a division by zero.
  pub data Makes (x : Double) : DimOp → Double → Option Double → Type 0 where
    adds : {v : Double} → Makes x plus v (some (F.add v x))
    subtracts : {v : Double} → Makes x minus v (some (F.sub v x))
    multiplies : {v : Double} → Makes x times v (some (F.mul v x))
    divides : {v : Double} → equals_zero x ≡ false → Makes x over v (some (F.div v x))
    by_zero : {v : Double} → equals_zero x ≡ true → Makes x over v none
    raises : {v : Double} → Makes x power v (some (F.pow v x))

  module _ (r : Recur F) where
    abbrev pub Within : Double → Type 0
    Within v = (lt v r.min ≡ false) × (lt r.max v ≡ false)

    abbrev pub Outside : Double → Type 0
    Outside v = (lt v r.min ≡ true) ⊎ (lt r.max v ≡ true)

    -- The values from one on, when there is room for `k` of them.
    pub data AreValues : ℕ → Double → List Double → Type 0 where
      full : {v : Double} → AreValues 0 v []
      out : {k : ℕ} {v : Double} → Outside v → AreValues (suc k) v []
      last : {k : ℕ} {v : Double} → Within v → Makes r.x r.op v none → AreValues (suc k) v (v ∷ [])
      next :
          {k : ℕ} {v w : Double} {ws : List Double}
          → Within v
          → Makes r.x r.op v (some w)
          → AreValues k w ws
          → AreValues (suc k) v (v ∷ ws)

  operator-Makes :
      (op : DimOp) (r : Recur F) (v : Double)
      → Makes r.x op v (next_value F (record r { op = op }) v)
  unfolding next_value
  operator-Makes plus r v = adds
  operator-Makes minus r v = subtracts
  operator-Makes times r v = multiplies
  operator-Makes over r v = elim (Bool-cases (equals_zero r.x)) [
    | inl e ↦ rw e (by_zero e)
    | inr e ↦ rw e (divides e)
  ]
  operator-Makes power r v = raises

  next_value-Makes : (r : Recur F) (v : Double) → Makes r.x r.op v (next_value F r v)
  next_value-Makes r v = operator-Makes r.op r v

  outside-Outside : (r : Recur F) (v : Double) → outside F r v ≡ true → Outside r v
  outside-Outside r v e = elim (Bool-cases (lt v r.min)) [
    | inl low ↦ inl low
    | inr high ↦ inr (subst (λ b. (b || lt r.max v) ≡ true) high e)
  ]

  outside-Within : (r : Recur F) (v : Double) → outside F r v ≡ false → Within r v
  outside-Within r v e = elim (Bool-cases (lt v r.min)) [
    | inl low ↦ cc
    | inr high ↦ (high, subst (λ b. (b || lt r.max v) ≡ false) high e)
  ]

  plain-AreValues : (r : Recur F) (k : ℕ) (v : Double) → AreValues r k v (plain F r k v)
  unfolding plain
  plain-AreValues r zero v = full
  plain-AreValues r (suc k) v = elim (Bool-cases (outside F r v)) [
    | inl e ↦ rw e (out (outside-Outside r v e))
    | inr e ↦ (elim (Option-cases (next_value F r v)) [
      | inl o ↦
          rw (e, o)
            (last (outside-Within r v e) (subst (Makes r.x r.op v) o (next_value-Makes r v)))
      | inr (w, o) ↦
          rw (e, o)
            (next (outside-Within r v e) (subst (Makes r.x r.op v) o (next_value-Makes r v))
              (plain-AreValues r k w))
    ])
  ]

  HasRoom-capacity : (nlim : ℤ) (k : ℕ) → HasRoom nlim k → capacity nlim ≡ k
  HasRoom-capacity (pos (suc k)) _ limited = refl
  HasRoom-capacity (pos zero) _ zero_limit = refl
  HasRoom-capacity (negsuc k) _ negative_limit = refl

  -- A sequence by an operator: its values are the start and what the operator makes of each, all within
  -- the bounds; there are as many as the limit says, or 4096 without a positive limit, unless the next
  -- one is outside the bounds or behind a division by zero.
  pub generate_values-AreValues :
      (name : Bytes) (r : Recur F) (k : ℕ)
      → HasRoom r.nlim k
      → AreValues r k r.st (generate_values F (record { parm_name = name; spec = recur r })).values
  unfolding generate_values
  generate_values-AreValues name r k room =
      subst
        (λ n.
          AreValues r n r.st
            (generate_values F (record { parm_name = name; spec = recur r })).values)
        (HasRoom-capacity r.nlim k room)
        (subst (AreValues r (capacity r.nlim) r.st)
          (sym (recur_loop-plain F r (capacity r.nlim) 0 r.st (omega arith)))
          (plain-AreValues r (capacity r.nlim) r.st))
