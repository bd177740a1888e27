-- ===== src/Dim/Sequence.antt =====
-- The values of a sequence that is given by an operator.
pub mod Meaning
use tpbench.Prelude.{
  ℕ, zero, suc, ◌+◌, ◌≤◌, ◌<◌, true, false, List, [], ◌∷◌, Option, none, some, ◌≡◌, ◌⊎◌, refl, sym,
  ap, subst, ◌∙◌, arith, Bool-cases, inl, inr, if◌then◌else◌, Option-cases, length, ℤ, pos, negsuc,
  Bytes, get_elem?,
}
use tpbench.Dim.{
  Floats, Recur, outside, at_limit, capacity, next_value, then_rest, recur_loop, bind, recur,
  generate_values,
}

module _ (F : Floats) where
  open F use {Double}

  -- The sequence without its bounds: the value `i` steps behind the first.
  abbrev pub nth_value : Recur F → ℕ → Double → Option Double
  nth_value r zero v = some v
  nth_value r (suc i) v = bind (next_value F r v) (nth_value r i)

  -- Outside the bounds, or behind a division by zero.
  abbrev pub Stops : Recur F → Option Double → Type 0
  Stops r none = Unit
  Stops r (some v) = outside F r v ≡ true

  plain : Recur F → ℕ → Double → List Double
  plain r zero current = []
  plain r (suc left) current =
      let rest = then_rest F (next_value F r current) (plain r left) in
      if outside F r current then [] else current ∷ rest

  at_limit-left :
      (nlim : ℤ) (n left : ℕ)
      → n + suc left ≡ capacity nlim
      → at_limit nlim (n + 1) ≡ true
      → left ≡ 0
  at_limit-left (pos zero) n left e h = cc
  at_limit-left (pos (suc k)) n left e h = ground arith
  at_limit-left (negsuc k) n left e h = cc

  then_rest-nil : (o : Option Double) → then_rest F o (λ v. []) ≡ []
  then_rest-nil none = refl
  then_rest-nil (some v) = refl

  then_rest-ext :
      (o : Option Double) (f g : Double → List Double)
      → ((v : Double) → f v ≡ g v)
      → then_rest F o f ≡ then_rest F o g
  then_rest-ext none f g h = refl
  then_rest-ext (some v) f g h = h v

  -- The test of the limit says no more than the room for the values does.
  recur_loop-plain :
      (r : Recur F) (left n : ℕ) (current : Double)
      → n + left ≡ capacity r.nlim
      → recur_loop F r left n current ≡ plain r left current
  unfolding recur_loop plain
  recur_loop-plain r zero n current e = refl
  recur_loop-plain r (suc left) n current e =
      let rest : then_rest F (next_value F r current) (recur_loop F r left (n + 1))
          ≡ then_rest F (next_value F r current) (plain r left) =
        then_rest-ext (next_value F r current) _ _
          (λ v. recur_loop-plain r left (n + 1) v (omega arith)) in
      elim (Bool-cases (at_limit r.nlim (n + 1))) [
        | inl full ↦
            let none_left : left ≡ 0 = at_limit-left r.nlim n left e full in
            let nothing : then_rest F (next_value F r current) (plain r left) ≡ [] =
              subst (λ k. then_rest F (next_value F r current) (plain r k) ≡ []) (sym none_left)
                (then_rest-ext (next_value F r current) (plain r 0) (λ v. []) (λ v. refl)
                  ∙ then_rest-nil (next_value F r current)) in
            rw full (ap (λ l. if outside F r current then [] else current ∷ l) (sym nothing))
        | inr room ↦ rw room (ap (λ l. if outside F r current then [] else current ∷ l) rest)
      ]

  module _ (r : Recur F) where
    -- What the values are: those of the sequence, all within the bounds, as many as there is room for,
    -- or up to where the sequence stops.
    pub record AreIterated (current : Double) (left : ℕ) (vs : List Double) : Type 0 where
      pub each :
          (i : ℕ) (v : Double)
          → get_elem? vs i ≡ some v
          → (nth_value r i current ≡ some v) × (outside F r v ≡ false)
      pub room : length vs ≤ left
      pub end : (length vs ≡ left) ⊎ Stops r (nth_value r (length vs) current)

    AreIterated-outside :
        (left : ℕ) (current : Double)
        → outside F r current ≡ true
        → AreIterated current (suc left) []
    AreIterated-outside left current out = record {
      each = λ i v e. cc;
      room = omega arith;
      end = inr out;
    }

    some_injective : {a b : Double} → some a ≡ some b → a ≡ b
    some_injective e = cc

    each-cons :
        (current : Double) (vs : List Double)
        → outside F r current ≡ false
        → ((i : ℕ) (v : Double)
            → get_elem? vs i ≡ some v
            → (bind (next_value F r current) (nth_value r i) ≡ some v) × (outside F r v ≡ false))
        → (i : ℕ) (v : Double) → get_elem? (current ∷ vs) i ≡ some v
        → (nth_value r i current ≡ some v) × (outside F r v ≡ false)
    each-cons current vs inside h zero v e =
        (e, subst (λ x. outside F r x ≡ false) (some_injective e) inside)
    each-cons current vs inside h (suc i) v e = h i v e

    AreIterated-last :
        (left : ℕ) (current : Double)
        → outside F r current ≡ false
        → next_value F r current ≡ none
        → AreIterated current (suc left) (current ∷ [])
    AreIterated-last left current inside e = record {
      each = each-cons current [] inside (λ i v x. cc);
      room = omega arith;
      end = inr (subst (λ o. Stops r (bind o (nth_value r zero))) (sym e) tt);
    }

    AreIterated-next :
        (left : ℕ) (current d : Double) (vs : List Double)
        → outside F r current ≡ false
        → next_value F r current ≡ some d
        → AreIterated d left vs
        → AreIterated current (suc left) (current ∷ vs)
    AreIterated-next left current d vs inside e g = record {
      each = each-cons current vs inside (λ i v x.
          subst (λ o. (bind o (nth_value r i) ≡ some v) × (outside F r v ≡ false)) (sym e)
            (g.each i v x));
      room = omega (arith, g.room);
      end = elim g.end [
        | inl full ↦ inl (ap suc full)
        | inr stops ↦ inr (subst (λ o. Stops r (bind o (nth_value r (length vs)))) (sym e) stops)
      ];
    }

    plain-AreIterated :
        (left : ℕ) (current : Double) → AreIterated current left (plain r left current)
    unfolding plain
    plain-AreIterated zero current = record {
      each = λ i v e. cc;
      room = omega arith;
      end = inl refl;
    }
    plain-AreIterated (suc left) current = elim (Bool-cases (outside F r current)) [
      | inl out ↦ rw out (AreIterated-outside left current out)
      | inr inside ↦ (elim (Option-cases (next_value F r current)) [
        | inl e ↦ rw (inside, e) (AreIterated-last left current inside e)
        | inr (d, e) ↦
            rw (inside, e)
              (AreIterated-next left current d (plain r left d) inside e (plain-AreIterated left d))
      ])
    ]

  pub generate_values-AreIterated :
      (name : Bytes) (r : Recur F)
      → AreIterated r r.st
          (capacity r.nlim)
          (generate_values F (record { parm_name = name; spec = recur r })).values
  unfolding generate_values
  generate_values-AreIterated name r =
      subst (AreIterated r r.st (capacity r.nlim))
        (sym (recur_loop-plain r (capacity r.nlim) 0 r.st (omega arith)))
        (plain-AreIterated r (capacity r.nlim) r.st)

  pub length-values :
      (r : Recur F) (left : ℕ) (current : Double) (vs : List Double)
      → AreIterated r current left vs
      → 0 < left
      → outside F r current ≡ false
      → 1 ≤ length vs
  length-values r left current [] g some_room inside = elim g.end [
    | inl e ↦ absurd (omega arith)
    | inr stops ↦ cc
  ]
  length-values r left current (v ∷ vs) g some_room inside = omega arith

  pub capacity-pos : (nlim : ℤ) → 0 < capacity nlim
  capacity-pos (pos zero) = omega arith
  capacity-pos (pos (suc k)) = omega arith
  capacity-pos (negsuc k) = omega arith
