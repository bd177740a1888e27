-- ===== src/Argp/Parse/Mandatory.antt =====
-- The arguments that a command line must give.
use tpbench.Prelude.{
  ℕ, zero, suc, Bool, true, false, not, ◌&&◌, ◌||◌, List, [], ◌∷◌, Option, none, some, ◌≡◌, refl,
  subst, Bool-cases, inl, inr, if◌then◌else◌, Bytes,
}
use tpbench.Argp.{
  Info, Nodes, null, node, is_mandatory, has_preset, children, info_of, has_nodes, reset,
}
use tpbench.Argp.Writes.{some_injective}
use tpbench.Argp.Check.{Failure, missing, else_fail, resolve_conflict_opts_validate}
use tpbench.Argp.Parse.{
  mandatory_fail, all_mandatory_fail, any_set, Outcome, success, status, refused, Ended, ended,
  stopped, parse_loop, post_loop, if_met, handled, dispatched, finished, if_resolved, parse_args,
}

-- Each mandatory sibling is selected or has a preset value.
abbrev pub given : Info → Bool
unfolding is_mandatory has_preset
given i = not (is_mandatory i) || (i.is_set || has_preset i)

abbrev pub AllGiven : Nodes → Type 0
AllGiven c = (n : ℕ) (i : Info) → info_of n c ≡ some i → given i ≡ true

-- Of each node on the stack, and the root.
abbrev pub StackGiven : List ℕ → Nodes → Type 0
StackGiven [] c = AllGiven c
StackGiven (n ∷ way) c = AllGiven (children (n ∷ way) c) × StackGiven way c

check_none :
    (m s p : Bool) (e : Failure) (rest : Option Failure)
    → (if m && (not s && not p) then some e else rest) ≡ none
    → ((not m || (s || p)) ≡ true) × (rest ≡ none)
check_none false s p e rest h = (refl, h)
check_none true true p e rest h = (refl, h)
check_none true false true e rest h = (refl, h)
check_none true false false e rest h = cc

mandatory_fail-AllGiven : (c : Nodes) → mandatory_fail c ≡ none → AllGiven c
unfolding mandatory_fail info_of given
mandatory_fail-AllGiven null e n i a = cc
mandatory_fail-AllGiven (node j k s) e zero i a =
    subst (λ x. given x ≡ true) (some_injective a)
      (check_none (is_mandatory j) j.is_set (has_preset j) (missing j) (mandatory_fail s) e).0
mandatory_fail-AllGiven (node j k s) e (suc n) i a =
    mandatory_fail-AllGiven s
      (check_none (is_mandatory j) j.is_set (has_preset j) (missing j) (mandatory_fail s) e).1 n i a

else_fail-eq-none : (a b : Option Failure) → else_fail a b ≡ none → (a ≡ none) × (b ≡ none)
else_fail-eq-none none b e = (refl, e)
else_fail-eq-none (some x) b e = cc

all_mandatory_fail-StackGiven :
    (way : List ℕ) (c : Nodes) → all_mandatory_fail way c ≡ none → StackGiven way c
unfolding all_mandatory_fail
all_mandatory_fail-StackGiven [] c e = mandatory_fail-AllGiven c e
all_mandatory_fail-StackGiven (n ∷ way) c e =
    let both =
      else_fail-eq-none (mandatory_fail (children (n ∷ way) c)) (all_mandatory_fail way c) e in
    (
      mandatory_fail-AllGiven (children (n ∷ way) c) both.0,
      all_mandatory_fail-StackGiven way c both.1,
    )

-- The parse is not refused: it succeeds, or ends with what the command's handler returns.
abbrev pub Accepted : Outcome → Type 0
Accepted success = Unit
Accepted (status code) = Unit
Accepted (refused r) = ⊥

module _ {U : Type 0} (call : ℕ → Info → Option Bytes → U → ℕ × U) where
  if_met-eq-none :
      (o : Option Failure) (user : U) (rest : Outcome × U)
      → Accepted (if_met call o user rest).0
      → o ≡ none
  if_met-eq-none none user rest a = refl
  if_met-eq-none (some e) user rest a = absurd a

  post_loop-given :
      (root : Info) (way : List ℕ) (nodes : Nodes) (user : U)
      → Accepted (post_loop call root way nodes user).0
      → ((has_nodes nodes && not (any_set nodes)) ≡ false) × StackGiven way nodes
  unfolding post_loop
  post_loop-given root way nodes user a =
      elim (Bool-cases (has_nodes nodes && not (any_set nodes))) [
        | inl y ↦ absurd (rw y at a)
        | inr y ↦ (
          y,
          all_mandatory_fail-StackGiven way nodes (
              if_met-eq-none (all_mandatory_fail way nodes) user
                (handled call (dispatched way nodes) user) (rw y at a)),
        )
      ]

  -- How a parse that is accepted went: the loop came to its end with a tree and a stack.
  abbrev pub EndsWell : Ended call → Nodes → Type 0
  EndsWell (ended way nodes user) left =
      (left ≡ nodes) × ((has_nodes nodes && not (any_set nodes)) ≡ false) × StackGiven way nodes
  EndsWell (stopped r nodes user) left = ⊥

  finished-EndsWell :
      (root : Info) (e : Ended call)
      → Accepted (finished call root e).outcome
      → EndsWell e (finished call root e).nodes
  unfolding finished
  finished-EndsWell root (ended way nodes user) a =
      let given = post_loop-given root way nodes user a in (refl, given.0, given.1)
  finished-EndsWell root (stopped r nodes user) a = a

  if_resolved-EndsWell :
      (root : Info) (o : Option Failure) (nodes : Nodes) (user : U) (e : Ended call)
      → Accepted (if_resolved call o nodes user (finished call root e)).outcome
      → (o ≡ none) × EndsWell e (if_resolved call o nodes user (finished call root e)).nodes
  if_resolved-EndsWell root none nodes user e a = (refl, finished-EndsWell root e a)
  if_resolved-EndsWell root (some f) nodes user e a = absurd a

  -- A parse that is not refused: the check of the names of conflicts has passed, the
  -- loop over the tokens came to its end, something is selected below the root if it has children,
  -- and each mandatory child of the root and of each node then on the stack is selected or has a
  -- preset value, in the tree that the parse leaves.
  pub parse_args-EndsWell :
      (root : Info) (nodes : Nodes) (user : U) (tokens : List Bytes)
      → Accepted (parse_args call root nodes user tokens).outcome
      → (resolve_conflict_opts_validate (reset nodes) (reset nodes) ≡ none)
        × EndsWell
            (parse_loop call false tokens [] (reset nodes) user)
            (parse_args call root nodes user tokens).nodes
  unfolding parse_args
  parse_args-EndsWell root nodes user tokens a =
      if_resolved-EndsWell root (resolve_conflict_opts_validate (reset nodes) (reset nodes))
        (reset nodes) user (parse_loop call false tokens [] (reset nodes) user) a
