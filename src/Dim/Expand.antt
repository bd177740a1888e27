-- ===== src/Dim/Expand.antt =====
-- Handles for all combinations of values (src/tpbcli/run/tpbcli-run.c). The driver is a parameter, its
-- functions for the handles of the kernel that is being read; a code is 0 for success.
pub mod Product
pub mod Meaning
pub mod One
use tpbench.Prelude.{
  ℕ, zero, suc, ◌+◌, ◌*◌, ◌/◌, ◌%◌, ◌^◌, Bool, true, false, ◌||◌, List, [], ◌∷◌, ◌++◌, Option, none,
  some, leb, ◌==◌, if◌then◌else◌, Bytes, length, get_elem?,
}
use tpbench.Dim.{Floats, bind, Values}

pub record Driver (S : Type 0) : Type 0 where
  pub add_handle : S → ℕ × S
  pub copy_hdl_from : ℕ → S → ℕ × S
  pub set_hdl_karg : Bytes → Bytes → S → ℕ × S
  pub set_hdl_env : Bytes → Bytes → S → ℕ × S
  pub get_current_hdl_idx : S → ℕ

-- TPBE_KERN_ARG_FAIL
abbrev kern_arg_fail : ℕ
kern_arg_fail = 6

-- The dimensions from the last to the first.
abbrev pub last_first {ℓ} : {A : Type ℓ} → List A → List A
last_first [] = []
last_first (x ∷ xs) = last_first xs ++ (x ∷ [])

-- `show` prints a number as `apply_dim_value` does: as an integer if it is one, else by "%.15g".
module _ (F : Floats) (show : Floats.Double F → Bytes) {S : Type 0} (driver : Driver S) where
  -- The text that is set for the value at an index; `none` is an index out of range.
  pub text_at : Bool → Option (List Bytes) → Values F → ℕ → Option Bytes
  text_at true (some strs) v index = get_elem? strs index
  text_at true none v index = bind (get_elem? v.values index) (λ x. some (show x))
  text_at false strs v index = bind (get_elem? v.values index) (λ x. some (show x))

  abbrev pub Pick : Type 0
  Pick = Bytes × Option Bytes

  pub pick : Values F → ℕ → Pick
  unfolding text_at
  pick v index = (v.parm_name, text_at v.is_string v.str_values v index)

  -- `apply_dim_value`
  pub apply_dim_value : Pick → S → ℕ × S
  apply_dim_value (name, none) s = (kern_arg_fail, s)
  apply_dim_value (name, some text) s = driver.set_hdl_karg name text s

  -- One value of each dimension, from the last dimension to the first; the code is that of the last call.
  pub apply_all : List Pick → ℕ → S → ℕ × S
  unfolding apply_dim_value
  apply_all [] err s = (err, s)
  apply_all (p ∷ ps) err s = let (e, s') = apply_dim_value p s in apply_all ps e s'

  -- `rem % n` and `rem / n`
  pub picks : ℕ → List (Values F) → List Pick
  unfolding pick
  picks rem [] = []
  picks rem (v ∷ vs) = pick v (rem % length v.values) ∷ picks (rem / length v.values) vs

  -- Behind the first combination, a new handle that is a copy of the first one.
  pub new_handle : ℕ → S → ℕ × S
  new_handle orig s =
      let (e, s') = driver.add_handle s in if e == 0 then driver.copy_hdl_from orig s' else (e, s')

  pub prepare : Bool → ℕ → ℕ → S → ℕ × S
  unfolding new_handle
  prepare first orig err s = if first then (err, s) else new_handle orig s

  -- A combination, and the rest of them unless there is no handle for it.
  abbrev pub then_apply : Bool → ℕ × S → List Pick → (ℕ → S → ℕ × S) → ℕ × S
  unfolding apply_all
  then_apply first (e, s) ps rest =
      if first || (e == 0) then (let (e', s') = apply_all ps e s in rest e' s') else (e, s)

  pub expand_loop : List (Values F) → ℕ → ℕ → ℕ → ℕ → S → ℕ × S
  unfolding prepare picks then_apply
  expand_loop vs orig zero c err s = (err, s)
  expand_loop vs orig (suc left) c err s =
      then_apply (c == 0) (prepare (c == 0) orig err s) (picks c vs)
        (λ e s'. expand_loop vs orig left (suc c) e s')

  -- The number of combinations as an `int`; `none` is an overflow, which C leaves undefined.
  pub total_from : ℕ → List (Values F) → Option ℕ
  total_from total [] = some total
  total_from total (v ∷ vs) =
      let rest = total_from (total * length v.values) vs in
      if leb (2 ^ 31) (total * length v.values) then none else rest

  -- `_sf_expand_cartesian_kargs` on the values of the dimensions
  unfoldable pub expand_cartesian : List (Values F) → S → Option (ℕ × S)
  unfolding expand_loop total_from
  expand_cartesian [] s = some (0, s)
  expand_cartesian (v ∷ vs) s =
      bind (total_from 1 (v ∷ vs)) (λ total.
        some (expand_loop (last_first (v ∷ vs)) (driver.get_current_hdl_idx s) total 0 0 s))
