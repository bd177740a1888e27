-- ===== src/Dim/Expand/Product.antt =====
-- The combinations are the product of the values, the last dimension fastest.
use tpbench.Prelude.{
  ℕ, zero, suc, ◌+◌, ◌*◌, ◌/◌, ◌%◌, ◌^◌, ◌≤◌, ◌<◌, Bool, true, false, List, [], ◌∷◌, ◌++◌, none,
  some, ◌≡◌, refl, sym, ap, subst, ◌∙◌, arith, map, leb, ◌==◌, if◌then◌else◌, Bytes, length,
  fun_ext,
}
use native.Mathlib.Nat.{suc-mul, mul_assoc}
use tpbench.Dim.{Floats, bind, Values}
use tpbench.Dim.Expand.{
  Driver, last_first, Pick, pick, apply_all, picks, prepare, then_apply, expand_loop, total_from,
  expand_cartesian,
}

-- `k` numbers from `s` on
abbrev pub from : ℕ → ℕ → List ℕ
from s zero = []
from s (suc k) = s ∷ from (suc s) k

abbrev pub flat_map : {A B : Type 0} → (A → List B) → List A → List B
flat_map f [] = []
flat_map f (x ∷ xs) = f x ++ flat_map f xs

from-append : (s a b : ℕ) → from s (a + b) ≡ from s a ++ from (s + a) b
from-append s zero b =
    ap (from s) {x = 0 + b} {y = b} (omega arith)
    ∙ ap (λ k. from k b) {x = s} {y = s + 0} (omega arith)
from-append s (suc a) b =
    ap (from s) {x = suc a + b} {y = suc (a + b)} (omega arith)
    ∙ ap (◌∷◌ s) (
        from-append (suc s) a b
        ∙ ap (λ k. from (suc s) a ++ from k b) {x = suc s + a} {y = s + suc a} (omega arith))

mod_row : (q n j : ℕ) → j < n → (q * n + j) % n ≡ j
mod_row q n j h = grind arith

div_row : (q n j : ℕ) → j < n → (q * n + j) / n ≡ q
div_row q n j h = grind arith

one_more : (t n : ℕ) → suc t * n ≡ n + t * n
one_more t n = suc-mul t n ∙ omega arith

next_row : (q n : ℕ) → q * n + n ≡ suc q * n
next_row q n = sym (suc-mul q n)

later : (c : ℕ) → (suc c == 0) ≡ false
later c = ground arith

pos_product : (a b : ℕ) → 1 ≤ a → 1 ≤ b → 1 ≤ a * b
pos_product a b h k = grind arith

le-mul : (a b : ℕ) → 1 ≤ b → a ≤ a * b
le-mul a b h = grind arith

partial_fits : (a b : ℕ) → 1 ≤ b → a * b < 2 ^ 31 → leb (2 ^ 31) a ≡ false
partial_fits a b h e = let k = le-mul a b h in ground arith

one_times : (n : ℕ) → n ≡ 1 * n
one_times n = grind arith

pub map-from :
    {A : Type 0} (f g : ℕ → A) (s s' k : ℕ)
    → ((j : ℕ) → j < k → f (s + j) ≡ g (s' + j))
    → map f (from s k) ≡ map g (from s' k)
map-from f g s s' zero h = refl
map-from f g s s' (suc k) h =
    let here : f s ≡ g s' =
      ap f {x = s} {y = s + 0} (omega arith)
      ∙ h 0 (omega arith)
      ∙ ap g {x = s' + 0} {y = s'} (omega arith) in
    ap (λ x. x ∷ map f (from (suc s) k)) here
    ∙ ap (◌∷◌ (g s')) (
        map-from f g (suc s) (suc s') k (λ j e.
          ap f {x = suc s + j} {y = s + suc j} (omega arith)
          ∙ h (suc j) (omega arith)
          ∙ ap g {x = s' + suc j} {y = suc s' + j} (omega arith)))

module _ (F : Floats) (show : Floats.Double F → Bytes) {S : Type 0} (driver : Driver S) where
  -- All combinations of one value of each dimension: the first dimension of the list runs fastest.
  abbrev pub row : Values F → List (Pick F show driver) → List (List (Pick F show driver))
  row v ps = map (λ index. pick F show driver v index ∷ ps) (from 0 (length v.values))

  abbrev pub combinations : List (Values F) → List (List (Pick F show driver))
  combinations [] = [] ∷ []
  combinations (v ∷ vs) = flat_map (row v) (combinations vs)

  abbrev pub size : List (Values F) → ℕ
  size [] = 1
  size (v ∷ vs) = size vs * length v.values

  map-append : {A B : Type 0} (f : A → B) (xs ys : List A) → map f (xs ++ ys) ≡ map f xs ++ map f ys
  map-append f [] ys = refl
  map-append f (x ∷ xs) ys = ap (◌∷◌ (f x)) (map-append f xs ys)

  -- The counters of one round of the first dimension.
  picks-row :
      (v : Values F) (vs : List (Values F)) (q : ℕ)
      → map (λ c. picks F show driver c (v ∷ vs)) (from (q * length v.values) (length v.values))
        ≡ row v (picks F show driver q vs)
  unfolding picks
  picks-row v vs q = map-from _ _ (q * length v.values) 0 (length v.values) (λ j e.
      ap
        (λ i.
          pick F show driver v i
          ∷ picks F show driver ((q * length v.values + j) / length v.values) vs)
        {x = (q * length v.values + j) % length v.values} {y = 0 + j}
        (mod_row q (length v.values) j e ∙ omega arith)
      ∙ ap (λ r. pick F show driver v (0 + j) ∷ picks F show driver r vs)
          (div_row q (length v.values) j e))

  picks-rows :
      (v : Values F) (vs : List (Values F)) (q t : ℕ)
      → map (λ c. picks F show driver c (v ∷ vs)) (from (q * length v.values) (t * length v.values))
        ≡ flat_map (row v) (map (λ c. picks F show driver c vs) (from q t))
  picks-rows v vs q zero =
      ap (λ k. map (λ c. picks F show driver c (v ∷ vs)) (from (q * length v.values) k))
        {x = 0 * length v.values} {y = 0} (grind arith)
  picks-rows v vs q (suc t) =
      let n = length v.values in
      let f = λ (c : ℕ). picks F show driver c (v ∷ vs) in
      ap (λ k. map f (from (q * n) k)) (one_more t n)
      ∙ ap (map f) (from-append (q * n) n (t * n))
      ∙ map-append f (from (q * n) n) (from (q * n + n) (t * n))
      ∙ ap (λ l. l ++ map f (from (q * n + n) (t * n))) (picks-row v vs q)
      ∙ ap (λ l. row v (picks F show driver q vs) ++ l)
          (ap (λ k. map f (from k (t * n))) (next_row q n) ∙ picks-rows v vs (suc q) t)

  picks-combinations :
      (vs : List (Values F))
      → map (λ c. picks F show driver c vs) (from 0 (size vs)) ≡ combinations vs
  unfolding picks
  picks-combinations [] = refl
  picks-combinations (v ∷ vs) =
      ap (λ k. map (λ c. picks F show driver c (v ∷ vs)) (from k (size vs * length v.values)))
        {x = 0} {y = 0 * length v.values} (grind arith)
      ∙ picks-rows v vs 0 (size vs)
      ∙ ap (flat_map (row v)) (picks-combinations vs)

  -- A handle for each combination, the first one being there, until one cannot be added.
  abbrev pub expand_each : ℕ → Bool → List (List (Pick F show driver)) → ℕ → S → ℕ × S
  expand_each orig first [] err s = (err, s)
  expand_each orig first (ps ∷ rest) err s =
      then_apply F show driver first (prepare F show driver first orig err s) ps
        (λ e s'. expand_each orig false rest e s')

  expand_loop-each :
      (vs : List (Values F)) (orig left c err : ℕ) (s : S)
      → expand_loop F show driver vs orig left c err s
        ≡ expand_each orig (c == 0) (map (λ k. picks F show driver k vs) (from c left)) err s
  unfolding expand_loop
  expand_loop-each vs orig zero c err s = refl
  expand_loop-each vs orig (suc left) c err s =
      ap
        (then_apply F show driver (c == 0) (prepare F show driver (c == 0) orig err s)
          (picks F show driver c vs))
        (fun_ext (λ e. fun_ext (λ s'.
          expand_loop-each vs orig left (suc c) e s'
          ∙ ap
              (λ b.
                expand_each orig b (map (λ k. picks F show driver k vs) (from (suc c) left)) e s')
              (later c))))

  size-append :
      (vs : List (Values F)) (v : Values F) → size (vs ++ (v ∷ [])) ≡ length v.values * size vs
  size-append [] v = grind arith
  size-append (w ∷ vs) v =
      ap (λ k. k * length w.values) (size-append vs v)
      ∙ mul_assoc (length v.values) (size vs) (length w.values)

  abbrev pub AllHave : List (Values F) → Type 0
  AllHave [] = Unit
  AllHave (v ∷ vs) = (1 ≤ length v.values) × AllHave vs

  size_pos : (vs : List (Values F)) → AllHave vs → 1 ≤ size (last_first vs)
  size_pos [] h = omega arith
  size_pos (v ∷ vs) h =
      subst (λ k. 1 ≤ k) (sym (size-append (last_first vs) v))
        (pos_product (length v.values) (size (last_first vs)) h.0 (size_pos vs h.1))

  total_from-size :
      (total : ℕ) (vs : List (Values F))
      → AllHave vs
      → total * size (last_first vs) < 2 ^ 31
      → total_from F show driver total vs ≡ some (total * size (last_first vs))
  unfolding total_from
  total_from-size total [] h e = ap some {x = total} {y = total * 1} (grind arith)
  total_from-size total (v ∷ vs) h e =
      let same : total * size (last_first (v ∷ vs))
          ≡ total * length v.values * size (last_first vs) =
        ap (λ k. total * k) (size-append (last_first vs) v)
        ∙ sym (mul_assoc total (length v.values) (size (last_first vs))) in
      let fits : leb (2 ^ 31) (total * length v.values) ≡ false =
        partial_fits (total * length v.values) (size (last_first vs)) (size_pos vs h.1)
          (subst (λ k. k < 2 ^ 31) same e) in
      ap (λ b. if b then none else total_from F show driver (total * length v.values) vs) fits
      ∙ total_from-size (total * length v.values) vs h.1 (subst (λ k. k < 2 ^ 31) same e)
      ∙ ap some (sym same)

  pub expand_cartesian-each :
      (vals : List (Values F)) (s : S)
      → AllHave vals
      → size (last_first vals) < 2 ^ 31
      → expand_cartesian F show driver vals s
        ≡ some
            (expand_each (driver.get_current_hdl_idx s) true (combinations (last_first vals)) 0 s)
  unfolding expand_cartesian apply_all prepare
  expand_cartesian-each [] s h e = refl
  expand_cartesian-each (v ∷ vs) s h e =
      let orig = driver.get_current_hdl_idx s in
      let dims = last_first (v ∷ vs) in
      ap (λ o. bind o (λ total. some (expand_loop F show driver dims orig total 0 0 s)))
        (total_from-size 1 (v ∷ vs) h (subst (λ k. k < 2 ^ 31) (one_times (size dims)) e)
          ∙ ap some (sym (one_times (size dims))))
      ∙ ap some (
          expand_loop-each dims orig (size dims) 0 0 s
          ∙ ap (λ l. expand_each orig true l 0 s) (picks-combinations dims))
