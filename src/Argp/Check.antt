-- ===== src/Argp/Check.antt =====
-- The checks of the parser of the command line (src/tpbcli/argp/tpbcli-argp.c): before a node is
-- selected, and of the names in the lists of conflicts before the first token is read. What is printed is
-- left out.
pub mod Writes
use tpbench.Prelude.{
  ℕ, zero, suc, ◌+◌, Bool, true, false, not, ◌||◌, List, [], ◌∷◌, Option, none, some, leb, ◌==◌,
  if◌then◌else◌, Bytes, ℤ, pos, negsuc, length, ◌&&◌,
}
use tpbench.Argp.{Info, or_else, Nodes, null, node, is_exclusive, find_child_by_name}

-- Why a command line is refused, with the node that it is refused at. All are TPBE_CLI_FAIL.
pub data Failure : Type 0 where
  excludes conflicts : Info → Info → Failure
  deprecated too_often needs_value handler_failed missing : Info → Failure
  not_a_sibling : Info → Bytes → Failure
  unknown : Bytes → Failure
  stack_full : Failure

-- `_sf_sibling_exclusive_conflict`: `place` counts the siblings, and `at` is the place of `match`.
unfoldable pub exclusive_hit : Info → ℕ → ℕ → Nodes → Option Info
unfolding is_exclusive
exclusive_hit match at place null = none
exclusive_hit match at place (node s k r) =
    let rest = exclusive_hit match at (suc place) r in
    if place == at || not s.is_set
    then rest
    else if is_exclusive match
    then some s
    else if is_exclusive s
    then some s
    else rest

-- `_sf_sibling_conflict_opts_hit`
abbrev pub set_one : Option (ℕ × Info) → Option Info
set_one none = none
set_one (some (n, other)) = if other.is_set then some other else none

unfoldable pub conflict_opts_hit : List Bytes → Nodes → Option Info
unfolding find_child_by_name
conflict_opts_hit [] c = none
conflict_opts_hit (nm ∷ nms) c =
    let rest = conflict_opts_hit nms c in or_else (set_one (find_child_by_name nm c)) rest

-- `_sf_validate_pre_increment`
pub data Verdict : Type 0 where
  pass : Verdict
  show_help : Info → Verdict
  refuse : Failure → Verdict

abbrev pub zero_chosen : Info → Option ℕ → Verdict
zero_chosen match (some f) = show_help match
zero_chosen match none = refuse (deprecated match)

abbrev pub count_verdict : Info → ℤ → Verdict
count_verdict match (pos zero) = zero_chosen match match.help_fn
count_verdict match (pos (suc n)) =
    if leb (suc n) match.chosen_count then refuse (too_often match) else pass
count_verdict match (negsuc n) = pass

abbrev pub refuse_or : (Info → Failure) → Option Info → Verdict → Verdict
refuse_or why none rest = rest
refuse_or why (some x) rest = refuse (why x)

unfoldable pub validate_pre_increment : Info → ℕ → Nodes → Verdict
unfolding exclusive_hit conflict_opts_hit
validate_pre_increment match at siblings =
    refuse_or (excludes match) (exclusive_hit match at 0 siblings) (
      refuse_or (conflicts match) (conflict_opts_hit match.conflict_opts siblings)
        (count_verdict match match.max_chosen))

-- `_sf_resolve_conflict_opts_validate` of each sibling: the first name that no sibling has.
unfoldable pub unresolved_name : List Bytes → Nodes → Option Bytes
unfolding find_child_by_name
unresolved_name [] siblings = none
unresolved_name (nm ∷ nms) siblings = elim (find_child_by_name nm siblings) [
  | none ↦ some nm
  | some found ↦ unresolved_name nms siblings
]

abbrev pub else_fail : Option Failure → Option Failure → Option Failure
else_fail none other = other
else_fail (some e) other = some e

abbrev not_found : Info → Option Bytes → Option Failure
not_found i none = none
not_found i (some nm) = some (not_a_sibling i nm)

unfoldable pub resolve_conflict_opts_validate : Nodes → Nodes → Option Failure
unfolding unresolved_name
resolve_conflict_opts_validate siblings null = none
resolve_conflict_opts_validate siblings (node i k s) =
    else_fail (not_found i (unresolved_name i.conflict_opts siblings))
      (else_fail (resolve_conflict_opts_validate k k) (resolve_conflict_opts_validate siblings s))
