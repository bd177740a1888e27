-- ===== src/Argp/Parse/Choices.antt =====
-- What is selected together: counts, exclusive options and conflicts.
pub mod Step
pub mod Laws
use tpbench.Prelude.{
  ℕ, zero, suc, ◌+◌, ◌≤◌, Bool, true, false, List, [], ◌∷◌, Option, none, some, ◌≡◌, ◌≢◌, ◌⊎◌, refl,
  sym, ap, subst, ◌∙◌, arith, Bool-cases, inl, inr, if◌then◌else◌, Option-cases, Bytes, leb, ◌==◌,
  not, ◌||◌, ◌&&◌, and_false, and_left, ℤ, pos, negsuc, bytes_eq, bytes_eq_iff, ==_iff, map,
}
use tpbench.Argp.{
  is_zero, Info, Nodes, null, node, or_else, named, cleared, reset, children, info_of, write_info,
  write_at, first, find_child_by_name, is_exclusive,
}
use tpbench.Argp.Names.{NamesDiffer}
use tpbench.Argp.Writes.{
  Deep, Whole, Found, first-Found, some_injective, info_of-write_info, info_of-write_info_ne,
  Whole-children, Whole-write_at,
}
use tpbench.Argp.Check.{
  exclusive_hit, conflict_opts_hit, set_one, validate_pre_increment, Failure, Verdict, pass, refuse,
  refuse_or, excludes, conflicts, count_verdict, zero_chosen,
}
use tpbench.Argp.Parse.{parse_args}
use tpbench.Argp.Parse.Steps.{select_with, Move, select, answer, clear, Reach, here, then_move}
use tpbench.Argp.Parse.Moves.{parse_args-Reach}

-- Not more often than its limit; nodes without a limit, and those that cannot be chosen, aside.
abbrev pub Within : ℤ → ℕ → Type 0
Within (pos zero) count = Unit
Within (pos (suc n)) count = count ≤ suc n
Within (negsuc n) count = Unit

-- Selected, and of those that can be.
abbrev pub taken : Info → Bool
taken i = i.is_set && not (is_zero i.max_chosen)

abbrev pub lists : Bytes → List Bytes → Bool
lists name [] = false
lists name (nm ∷ nms) = bytes_eq name nm || lists name nms

-- Two of the siblings, at different places, that are selected.
module _ (at : ℕ → Option Info) where
  pub record Choices : Type 0 where
    pub names : NamesDiffer at
    pub within : (n : ℕ) (i : Info) → at n ≡ some i → Within i.max_chosen i.chosen_count
    pub exclusive :
        (n m : ℕ) (i j : Info)
        → at n ≡ some i
        → at m ≡ some j
        → n ≢ m
        → taken i ≡ true
        → taken j ≡ true
        → is_exclusive i ≡ false
    pub apart :
        (n m : ℕ) (i j : Info)
        → at n ≡ some i
        → at m ≡ some j
        → n ≢ m
        → taken i ≡ true
        → taken j ≡ true
        → (lists i.name j.conflict_opts && lists j.name i.conflict_opts) ≡ false

step_none :
    (p x y : Bool) (i : Info) (rest : Option Info)
    → (if p then rest else if x then some i else if y then some i else rest) ≡ none
    → (rest ≡ none) × ((p ≡ true) ⊎ ((x ≡ false) × (y ≡ false)))
step_none true x y i rest h = (h, inl refl)
step_none false true y i rest h = cc
step_none false false true i rest h = cc
step_none false false false i rest h = (h, inr (refl, refl))

passed_over :
    (place at : ℕ) (is_set : Bool) {A : Type 0}
    → place ≢ at
    → is_set ≡ true
    → ((place == at || not is_set) ≡ true) ⊎ A
    → A
passed_over place at is_set d g (inr a) = a
passed_over place at is_set d g (inl e) = absurd (ground arith)

pub exclusive_hit-eq-none :
    (match : Info) (at place : ℕ) (c : Nodes) (m : ℕ) (s : Info)
    → exclusive_hit match at place c ≡ none
    → info_of m c ≡ some s
    → place + m ≢ at
    → s.is_set ≡ true
    → (is_exclusive match ≡ false) × (is_exclusive s ≡ false)
unfolding exclusive_hit info_of
exclusive_hit-eq-none match at place null m s h e d k = cc
exclusive_hit-eq-none match at place (node i k r) zero s h e d g =
    let found =
      (step_none (place == at || not i.is_set) (is_exclusive match) (is_exclusive i) i
        (exclusive_hit match at (suc place) r) h).1 in
    passed_over place at s.is_set (λ x. d (omega arith)) g
      (subst
        (λ x.
          ((place == at || not x.is_set) ≡ true)
          ⊎ ((is_exclusive match ≡ false) × (is_exclusive x ≡ false)))
        (some_injective e) found)
exclusive_hit-eq-none match at place (node i k r) (suc m) s h e d g =
    exclusive_hit-eq-none match at (suc place) r m s
      (step_none (place == at || not i.is_set) (is_exclusive match) (is_exclusive i) i
        (exclusive_hit match at (suc place) r) h).0
      e (λ x. d (omega arith)) g

or_else-eq-none : (a b : Option Info) → or_else a b ≡ none → (a ≡ none) × (b ≡ none)
or_else-eq-none none b e = (refl, e)
or_else-eq-none (some x) b e = cc

set_one-eq-none :
    (c : Nodes) (nm : Bytes) (m : ℕ) (s : Info) (o : Option (ℕ × Info))
    → NamesDiffer (λ k. info_of k c)
    → Found (named nm) c o
    → set_one o ≡ none
    → info_of m c ≡ some s
    → s.is_set ≡ true
    → named nm s ≡ false
set_one-eq-none c nm m s none differ f h e g = f m s e
set_one-eq-none c nm m s (some (k, other)) differ f h e g = elim (Bool-cases (named nm s)) [
  | inr n ↦ n
  | inl y ↦
      let place : k ≡ m =
        differ k m other s f.0 e
          ((bytes_eq_iff other.name nm).0 f.1 ∙ sym ((bytes_eq_iff s.name nm).0 y)) in
      let same : other ≡ s =
        some_injective (sym (subst (λ x. info_of x c ≡ some other) place f.0) ∙ e) in
      let set_too : other.is_set ≡ true = subst (λ x. x.is_set ≡ true) (sym same) g in
      let hit : some other ≡ none =
        subst (λ b. (if b then some other else none) ≡ none) set_too h in
      cc
]

pub conflict_hit-eq-none :
    (c : Nodes) (m : ℕ) (s : Info) (names : List Bytes)
    → NamesDiffer (λ k. info_of k c)
    → conflict_opts_hit names c ≡ none
    → info_of m c ≡ some s
    → s.is_set ≡ true
    → lists s.name names ≡ false
unfolding conflict_opts_hit find_child_by_name
conflict_hit-eq-none c m s [] differ h e g = refl
conflict_hit-eq-none c m s (nm ∷ nms) differ h e g =
    let both = or_else-eq-none (set_one (first (named nm) c)) (conflict_opts_hit nms c) h in
    ground (
      arith,
      set_one-eq-none c nm m s (first (named nm) c) differ (first-Found (named nm) c) both.0 e g,
      conflict_hit-eq-none c m s nms differ both.1 e g,
    )

pub refuse_or_pass :
    (why : Info → Failure) (o : Option Info) (rest : Verdict)
    → refuse_or why o rest ≡ pass
    → (o ≡ none) × (rest ≡ pass)
refuse_or_pass why none rest e = (refl, e)
refuse_or_pass why (some x) rest e = cc

zero_chosen-pass : (match : Info) (f : Option ℕ) {A : Type 0} → zero_chosen match f ≡ pass → A
zero_chosen-pass match none e = cc
zero_chosen-pass match (some f) e = cc

pub count_verdict-pass :
    (match : Info) (max : ℤ) → count_verdict match max ≡ pass → Within max (match.chosen_count + 1)
count_verdict-pass match (pos zero) e = zero_chosen-pass match match.help_fn e
count_verdict-pass match (pos (suc n)) e = ground arith
count_verdict-pass match (negsuc n) e = tt

pub Within-zero : (max : ℤ) (count : ℕ) → is_zero max ≡ true → Within max count
Within-zero (pos zero) count e = tt
Within-zero (pos (suc n)) count e = cc
Within-zero (negsuc n) count e = tt
