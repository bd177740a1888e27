-- ===== src/Argp/Parse/Tests.antt =====
-- Runs on a tree with two options, one of them with a flag below it.
use tpbench.Prelude.{
  ℕ, zero, suc, ◌+◌, Bool, false, List, [], ◌∷◌, Option, none, some, ◌≡◌, refl, arith, Bytes, codes,
  if◌then◌else◌, ◌==◌, ℤ, pos, negsuc,
}
use tpbench.Argp.{
  ArgType, cmd, opt, flag, Info, Nodes, null, node, Conf, new_info, add_arg, find_arg, children,
  info_of, reset, first, find_child_by_name,
}
use tpbench.Argp.Names.{NamesDiffer}
use tpbench.Argp.Writes.{Whole}
use tpbench.Argp.Add.{Depths, IsTree, first_or, at_end, count, add_arg_lem}
use tpbench.Argp.Find.{first_at, levels, find_arg_lem}
use tpbench.Argp.Check.{unknown, resolve_conflict_opts_validate}
use tpbench.Argp.Parse.{Outcome, success, refused, cli_fail, parse_args, parse_loop}
use tpbench.Argp.Parse.Again.{parse_args-again}
use tpbench.Argp.Parse.Choices.{Choices}
use tpbench.Argp.Parse.Choices.Laws.{parse_args-Choices}
use tpbench.Argp.Parse.Mandatory.{Accepted, EndsWell, parse_args-EndsWell}

abbrev argument : Bytes → ArgType → ℕ → ℤ → Conf
argument name type flags max = record {
  name = name;
  short_name = none;
  desc = none;
  type = type;
  flags = flags;
  max_chosen = max;
  parse_fn = some 7;
  help_fn = none;
  preset_value = none;
  conflict_opts = [];
}

abbrev kernel : Conf
kernel = argument (codes "--kernel") opt 2 (pos 1)

abbrev all : Conf
all = argument (codes "--all") flag 0 (pos 2)

abbrev timer : Conf
timer = argument (codes "--timer") opt 1 (negsuc 0)

abbrev info : Conf → ℕ → Info
unfolding new_info
info conf depth = new_info conf depth

abbrev root : Info
root = info (argument (codes "tpbcli") cmd 0 (pos 1)) 0

abbrev tree : Nodes
tree = node (info kernel 1) (node (info all 2) null null) (node (info timer 1) null null)

-- Each handler counts its call, but for a value that begins with `x`.
abbrev status_of : Option Bytes → ℕ
status_of none = 0
status_of (some []) = 0
status_of (some (c ∷ cs)) = if c == 120 then 1 else 0

abbrev call : ℕ → Info → Option Bytes → ℕ → ℕ × ℕ
call f i value calls = (status_of value, calls + 1)

abbrev run : List Bytes → Outcome × ℕ
unfolding parse_args
run tokens = let p = parse_args call root tree 0 tokens in (p.outcome, p.user)

abbrev line : List Bytes
line = codes "--kernel" ∷ codes "triad" ∷ codes "--all" ∷ codes "--all" ∷ []

taken_twice : run line ≡ (success, 3)
unfolding run parse_args info
taken_twice = refl

not_known :
    run (codes "--kernel" ∷ codes "a" ∷ codes "--al" ∷ [])
    ≡ (refused (cli_fail (unknown (codes "--al"))), 1)
unfolding run parse_args info
not_known = refl

built : add_arg [] timer (node (info kernel 1) (node (info all 2) null null) null) ≡ some tree
unfolding add_arg info
built = refl

differ : NamesDiffer (λ k. info_of k tree)
unfolding info_of info
differ zero zero i j a b e = refl
differ zero (suc zero) i j a b e = absurd (ground arith)
differ zero (suc (suc m)) i j a b e = cc
differ (suc zero) zero i j a b e = absurd (ground arith)
differ (suc zero) (suc zero) i j a b e = refl
differ (suc zero) (suc (suc m)) i j a b e = cc
differ (suc (suc n)) m i j a b e = cc

differ_below : NamesDiffer (λ k. info_of k (node (info all 2) null null))
unfolding info_of info
differ_below zero zero i j a b e = refl
differ_below zero (suc m) i j a b e = cc
differ_below (suc n) m i j a b e = cc

differ_null : NamesDiffer (λ k. info_of k null)
unfolding info_of
differ_null n m i j a b e = cc

tree-NamesDiffer : Whole NamesDiffer tree
tree-NamesDiffer = (differ, (differ_below, (differ_null, tt, tt), (differ_null, tt, tt)))

parse_args-again_example :
    parse_args call root (parse_args call root tree 0 line).nodes 5 (codes "--timer" ∷ [])
    ≡ parse_args call root tree 5 (codes "--timer" ∷ [])
parse_args-again_example = parse_args-again call root tree 0 5 line (codes "--timer" ∷ [])

parse_args-Choices_example :
    Choices (λ k. info_of k (children (0 ∷ []) (parse_args call root tree 0 line).nodes))
parse_args-Choices_example = parse_args-Choices call root tree 0 line (0 ∷ []) tree-NamesDiffer

accepted : Accepted (parse_args call root tree 0 line).outcome
unfolding parse_args info
accepted = tt

parse_args-EndsWell_example :
    (resolve_conflict_opts_validate (reset tree) (reset tree) ≡ none)
    × EndsWell call
        (parse_loop call false line [] (reset tree) 0)
        (parse_args call root tree 0 line).nodes
parse_args-EndsWell_example = parse_args-EndsWell call root tree 0 line accepted

there : info_of 1 (children [] tree) ≡ some (info timer 1)
unfolding info_of children
there = refl

tree-Depths : Depths 1 tree
unfolding info
tree-Depths = (refl, (refl, tt, tt), (refl, tt, tt))

tree-IsTree : IsTree tree
tree-IsTree = (tree-NamesDiffer, tree-Depths)

free : find_child_by_name (codes "--file") (children (1 ∷ []) tree) ≡ none
unfolding find_child_by_name children info
free = refl

abbrev file : Conf
file = argument (codes "--file") opt 0 (pos 1)

add_arg_lem_example :
    (added : Nodes) × (add_arg (1 ∷ []) file tree ≡ some added)
    × IsTree added
    × ((test : Info → Bool)
        → first test (children (1 ∷ []) added)
          ≡ first_or
              (first test (children (1 ∷ []) tree))
              (at_end test (count (children (1 ∷ []) tree)) (new_info file 2)))
add_arg_lem_example = add_arg_lem (1 ∷ []) file tree tree-IsTree (tt, (info timer 1, there)) free

find_arg_lem_example :
    find_arg root tree (codes "--all") 2 ≡ first_at 2 (codes "--all") ((0, root) ∷ levels 1 tree)
unfolding info
find_arg_lem_example = find_arg_lem root tree (codes "--all") 2 tree-Depths
