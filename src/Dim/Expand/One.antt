-- ===== src/Dim/Expand/One.antt =====
-- Handles for the values of one dimension, of the arguments or of the environment, and what is done with
-- the dimensions that wait when the next kernel is read (src/tpbcli/run/tpbcli-run.c).
pub mod Same
pub mod Wait
use tpbench.Prelude.{
  ℕ, zero, suc, Bool, List, [], ◌∷◌, Option, none, some, map, ◌==◌, if◌then◌else◌, leb, ◌++◌, Bytes,
  length,
}
use tpbench.Dim.{Floats, Config, Values, bind, generate_values, parse_dim}
use tpbench.Dim.Expand.{Driver, Pick, pick, apply_dim_value, new_handle, expand_cartesian}

module _ (F : Floats) where
  -- `_sf_parse_kargs_dim`: the dimensions that wait then; `none` is a failure, TPBE_CLI_FAIL where
  -- MAX_DIM_CONFIGS of them wait.
  unfoldable pub parse_kargs_dim : Bytes → List (Config F) → Option (List (Config F))
  unfolding parse_dim
  parse_kargs_dim value pending =
      if leb 16 (length pending)
      then none
      else bind (parse_dim F value) (λ cfg. some (pending ++ (cfg ∷ [])))

module _ (F : Floats) (show : Floats.Double F → Bytes) {S : Type 0} (driver : Driver S) where
  -- TPBE_KERN_ARG_FAIL is 6.
  pub apply_env_dim_value : Pick F show driver → S → ℕ × S
  apply_env_dim_value (name, none) s = (6, s)
  apply_env_dim_value (name, some text) s = driver.set_hdl_env name text s

  abbrev pub unless_failed : ℕ × S → (S → ℕ × S) → ℕ × S
  unless_failed (e, s) rest = if e == 0 then rest s else (e, s)

  module _ (apply : Pick F show driver → S → ℕ × S) (orig : ℕ) where
    -- The first value is set on the handle that is there, the others on a new one.
    pub set_value : Bool → Pick F show driver → S → ℕ × S
    unfolding new_handle
    set_value first p s =
        if first then apply p s else unless_failed (new_handle F show driver orig s) (apply p)

    pub values_loop : Values F → ℕ → ℕ → S → ℕ × S
    unfolding set_value pick
    values_loop v zero i s = (0, s)
    values_loop v (suc left) i s =
        unless_failed (set_value (i == 0) (pick F show driver v i) s)
          (λ s'. values_loop v left (suc i) s')

  pub expand_dim_handles : Config F → S → ℕ × S
  unfolding values_loop generate_values apply_dim_value
  expand_dim_handles cfg s =
      let v = generate_values F cfg in
      values_loop (apply_dim_value F show driver) (driver.get_current_hdl_idx s) v (length v.values)
        0 s

  pub expand_env_dim_handles : Config F → S → ℕ × S
  unfolding values_loop generate_values apply_env_dim_value
  expand_env_dim_handles cfg s =
      let v = generate_values F cfg in
      values_loop apply_env_dim_value (driver.get_current_hdl_idx s) v (length v.values) 0 s

  -- `_sf_flush_pending_dims`: the dimensions that wait then, and the driver. A failure is only logged.
  pub flush_pending_dims : List (Config F) → S → Option (List (Config F) × S)
  unfolding expand_dim_handles expand_cartesian
  flush_pending_dims [] s = some ([], s)
  flush_pending_dims (c ∷ []) s = some ([], (expand_dim_handles c s).1)
  flush_pending_dims (c ∷ d ∷ cs) s =
      bind (expand_cartesian F show driver (map (generate_values F) (c ∷ d ∷ cs)) s)
        (λ r. some ([], r.1))
