-- ===== src/Dim/Expand/One/Same.antt =====
-- The two ways in which a dimension is expanded: by its own loop, and as the only one of the
-- combinations.
use tpbench.Prelude.{
  ℕ, zero, suc, ◌+◌, ◌*◌, ◌%◌, ◌^◌, ◌≤◌, ◌<◌, Bool, true, false, List, [], ◌∷◌, none, some,
  if◌then◌else◌, leb, ◌≡◌, refl, sym, ap, ◌∙◌, arith, ◌==◌, Bytes, length,
}
use tpbench.Dim.{Floats, Config, Values, bind, generate_values}
use tpbench.Dim.Expand.{
  Driver, Pick, pick, apply_dim_value, apply_all, new_handle, picks, prepare, then_apply,
  expand_loop, expand_cartesian, total_from,
}
use tpbench.Dim.Expand.One.{unless_failed, set_value, values_loop, expand_dim_handles}

in_range : (i n : ℕ) → i < n → i % n ≡ i
in_range i n h = grind arith

once : (n : ℕ) → 1 * n ≡ n
once n = grind arith

fits : (n : ℕ) → n < 2 ^ 31 → leb (2 ^ 31) n ≡ false
fits n h = ground arith

module _ (F : Floats) (show : Floats.Double F → Bytes) {S : Type 0} (driver : Driver S) where
  unless_failed-zero :
      (r : ℕ × S) (rest : S → ℕ × S)
      → (unless_failed F show driver r rest).0 ≡ 0
      → (r.0 ≡ 0) × (unless_failed F show driver r rest ≡ rest r.1)
  unless_failed-zero (zero, s) rest h = (refl, refl)
  unless_failed-zero (suc e, s) rest h = ground arith

  then_apply-zero :
      (r : ℕ × S) (ps : List (Pick F show driver)) (rest : ℕ → S → ℕ × S)
      → r.0 ≡ 0
      → then_apply F show driver false r ps rest
        ≡ rest (apply_all F show driver ps r.0 r.1).0 (apply_all F show driver ps r.0 r.1).1
  unfolding then_apply
  then_apply-zero (zero, s) ps rest h = refl
  then_apply-zero (suc e, s) ps rest h = ground arith

  total_from-one :
      (v : Values F)
      → length v.values < 2 ^ 31
      → total_from F show driver 1 (v ∷ []) ≡ some (length v.values)
  unfolding total_from
  total_from-one v h =
      ap (λ k. if leb (2 ^ 31) k then none else some k) (once (length v.values))
      ∙ ap (λ b. if b then none else some (length v.values)) (fits (length v.values) h)

  picks-one :
      (v : Values F) (i : ℕ)
      → i < length v.values
      → picks F show driver i (v ∷ []) ≡ pick F show driver v i ∷ []
  unfolding picks
  picks-one v i h = ap (λ j. pick F show driver v j ∷ []) (in_range i (length v.values) h)

  -- A value that is set without a failure, as the only one of a combination.
  then_apply-set_value :
      (first : Bool) (orig err : ℕ) (p : Pick F show driver) (s : S) (rest : ℕ → S → ℕ × S)
      → (set_value F show driver (apply_dim_value F show driver) orig first p s).0 ≡ 0
      → then_apply F show driver first (prepare F show driver first orig err s) (p ∷ []) rest
        ≡ rest 0 (set_value F show driver (apply_dim_value F show driver) orig first p s).1
  unfolding set_value prepare apply_all
  then_apply-set_value true orig err p s rest h =
      ap (λ e. rest e (apply_dim_value F show driver p s).1) h
  then_apply-set_value false orig err p s rest h =
      let added = new_handle F show driver orig s in
      let (ok, same) = unless_failed-zero added (apply_dim_value F show driver p) h in
      then_apply-zero added (p ∷ []) rest ok
      ∙ ap (λ e. rest e (apply_dim_value F show driver p added.1).1) (sym (ap (λ r. r.0) same) ∙ h)
      ∙ ap (λ r. rest 0 r.1) (sym same)

  values_loop-expand_loop :
      (v : Values F) (orig left i err : ℕ) (s s' : S)
      → i + left ≤ length v.values
      → err ≡ 0
      → values_loop F show driver (apply_dim_value F show driver) orig v left i s ≡ (0, s')
      → expand_loop F show driver (v ∷ []) orig left i err s ≡ (0, s')
  unfolding values_loop expand_loop
  values_loop-expand_loop v orig zero i err s s' b e h = ap (λ k. (k, s)) e ∙ h
  values_loop-expand_loop v orig (suc left) i err s s' b e h =
      let p = pick F show driver v i in
      let set = set_value F show driver (apply_dim_value F show driver) orig (i == 0) p s in
      let later = values_loop F show driver (apply_dim_value F show driver) orig v left (suc i) in
      let rest = λ (e : ℕ) (s' : S). expand_loop F show driver (v ∷ []) orig left (suc i) e s' in
      let (ok, same) = unless_failed-zero set later (ap (λ r. r.0) h) in
      ap
        (λ ps.
          then_apply F show driver (i == 0) (prepare F show driver (i == 0) orig err s) ps rest)
        (picks-one v i (omega arith))
      ∙ then_apply-set_value (i == 0) orig err p s rest ok
      ∙ values_loop-expand_loop v orig left (suc i) 0 set.1 s' (omega arith) refl (sym same ∙ h)

  -- One dimension of at least one and fewer than 2 ^ 31 values, which is expanded by its own loop
  -- without a failure: the expansion of combinations does the same to the driver.
  pub expand_dim_handles-expand_cartesian :
      (cfg : Config F) (s s' : S)
      → 1 ≤ length (generate_values F cfg).values
      → length (generate_values F cfg).values < 2 ^ 31
      → expand_dim_handles F show driver cfg s ≡ (0, s')
      → expand_cartesian F show driver (generate_values F cfg ∷ []) s ≡ some (0, s')
  unfolding expand_dim_handles expand_cartesian
  expand_dim_handles-expand_cartesian cfg s s' some_values few h =
      let v = generate_values F cfg in
      let orig = driver.get_current_hdl_idx s in
      ap (λ o. bind o (λ total. some (expand_loop F show driver (v ∷ []) orig total 0 0 s)))
        (total_from-one v few)
      ∙ ap some (values_loop-expand_loop v orig (length v.values) 0 0 s s' (omega arith) refl h)
