-- ===== src/Dim/Expand/One/Wait.antt =====
-- The dimensions of a kernel, from the options `--kargs-dim` to the handles.
use tpbench.Prelude.{
  ℕ, ◌*◌, arith, ◌^◌, ◌≤◌, ◌<◌, Bool, true, false, List, [], ◌∷◌, ◌++◌, Option, none, some, ◌≡◌,
  refl, sym, ap, subst, ◌∙◌, map, leb, if◌then◌else◌, Bytes, length,
}
use tpbench.Dim.{Floats, Config, bind, parse_dim, generate_values}
use tpbench.Dim.Accepted.{parse_dim-generate_values}
use tpbench.Dim.Expand.{Driver, last_first, then_apply, apply_all, prepare}
use tpbench.Dim.Expand.Product.{AllHave, size, combinations, expand_each, expand_cartesian-each}
use tpbench.Dim.Expand.Meaning.{backwards, last_first-backwards, product, Expands, each-Expands}
use tpbench.Dim.Expand.One.{expand_dim_handles, parse_kargs_dim, flush_pending_dims}
use tpbench.Dim.Expand.One.Same.{expand_dim_handles-expand_cartesian}

injective : {A : Type 0} {a b : A} → some a ≡ some b → a ≡ b
injective e = cc

if_room :
    {A : Type 0} {a : A} (full : Bool) (o : Option A)
    → (if full then none else o) ≡ some a
    → o ≡ some a
if_room true o h = cc
if_room false o h = h

once : (n : ℕ) → 1 * n < 2 ^ 31 → n < 2 ^ 31
once n h = grind arith

module _ (F : Floats) where
  -- The dimensions that can wait: each was accepted from a text, while fewer than sixteen waited.
  pub data Waits : List (Config F) → Type 0 where
    nothing : Waits []
    one_more :
        (value : Bytes) {pending more : List (Config F)}
        → Waits pending
        → parse_kargs_dim F value pending ≡ some more
        → Waits more

module _ (F : Floats) (show : Floats.Double F → Bytes) {S : Type 0} (driver : Driver S) where
  AllHave-append :
      (cs : List (Config F)) (c : Config F)
      → AllHave F show driver (map (generate_values F) cs)
      → 1 ≤ length (generate_values F c).values
      → AllHave F show driver (map (generate_values F) (cs ++ (c ∷ [])))
  AllHave-append [] c h k = (k, tt)
  AllHave-append (d ∷ ds) c h k = (h.0, AllHave-append ds c h.1 k)

  added :
      (pending more : List (Config F)) (value : Bytes) (o : Option (Config F))
      → parse_dim F value ≡ o
      → bind o (λ cfg. some (pending ++ (cfg ∷ []))) ≡ some more
      → AllHave F show driver (map (generate_values F) pending)
      → AllHave F show driver (map (generate_values F) more)
  added pending more value none e h k = cc
  added pending more value (some cfg) e h k =
      subst (λ l. AllHave F show driver (map (generate_values F) l)) (injective h)
        (AllHave-append pending cfg k (parse_dim-generate_values F value cfg e))

  Waits-AllHave :
      (pending : List (Config F))
      → Waits F pending
      → AllHave F show driver (map (generate_values F) pending)
  unfolding parse_kargs_dim
  Waits-AllHave [] nothing = tt
  Waits-AllHave more (one_more value {pending = pending} w h) =
      added pending more value (parse_dim F value) refl (if_room (leb 16 (length pending)) _ h)
        (Waits-AllHave pending w)

  flush_pending_dims-each :
      (pending : List (Config F)) (s : S)
      → Waits F pending
      → size F show driver (last_first (map (generate_values F) pending)) < 2 ^ 31
      → ((c : Config F) → pending ≡ c ∷ [] → (expand_dim_handles F show driver c s).0 ≡ 0)
      → flush_pending_dims F show driver pending s
        ≡ some (
          [],
          (expand_each F show driver
              (driver.get_current_hdl_idx s)
              true
              (combinations F show driver (last_first (map (generate_values F) pending)))
              0
              s).1,
        )
  unfolding flush_pending_dims then_apply apply_all prepare
  flush_pending_dims-each [] s w h alone = refl
  flush_pending_dims-each (c ∷ []) s w h alone =
      let done = expand_dim_handles F show driver c s in
      let has = Waits-AllHave (c ∷ []) w in
      ap (λ (o : Option (ℕ × S)). bind o (λ r. some ([], r.1)))
        (sym (
            expand_dim_handles-expand_cartesian F show driver c s done.1 has.0 (once _ h)
              (ap (λ k. (k, done.1)) (alone c refl)))
          ∙ expand_cartesian-each F show driver (generate_values F c ∷ []) s has h)
  flush_pending_dims-each (c ∷ d ∷ cs) s w h alone =
      ap (λ (o : Option (ℕ × S)). bind o (λ r. some ([], r.1)))
        (expand_cartesian-each F show driver (map (generate_values F) (c ∷ d ∷ cs)) s
          (Waits-AllHave (c ∷ d ∷ cs) w) h)

  -- Sixteen dimensions at most wait for a kernel, as `--kargs-dim` accepts them, and have fewer than
  -- 2 ^ 31 combinations; if it is only one, its loop ends without a failure. When they are expanded
  -- none waits any more. The values of the first combination are set on the handle that is there; for
  -- each further one a handle is added, made a copy of the first and given the values, up to the first
  -- handle that cannot be added or made a copy.
  pub flush_pending_dims_lem :
      (pending : List (Config F)) (s : S)
      → Waits F pending
      → size F show driver (backwards (map (generate_values F) pending)) < 2 ^ 31
      → ((c : Config F) → pending ≡ c ∷ [] → (expand_dim_handles F show driver c s).0 ≡ 0)
      → (e : ℕ) × (s' : S) × (flush_pending_dims F show driver pending s ≡ some ([], s'))
        × Expands driver (product F show (backwards (map (generate_values F) pending))) s e s'
  flush_pending_dims_lem pending s w few alone =
      let vals = map (generate_values F) pending in
      let (e, s', done, does) = each-Expands F show driver vals s in
      let few' = subst (λ l. size F show driver l < 2 ^ 31) (sym (last_first-backwards vals)) few in
      (e, s', flush_pending_dims-each pending s w few' alone ∙ ap (λ r. some ([], r.1)) done, does)
