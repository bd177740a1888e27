-- ===== src/Argp/Check/Writes.antt =====
-- The checks of `_sf_validate_pre_increment` look at siblings, not at what stands below them.
use tpbench.Prelude.{
  ℕ, zero, suc, List, [], ◌∷◌, ◌≡◌, refl, ap, ◌∙◌, if◌then◌else◌, ◌==◌, not, ◌||◌, Bytes, some,
}
use tpbench.Argp.{
  named, or_else, Info, Nodes, null, node, write_kids, find_child_by_name, is_exclusive,
}
use tpbench.Argp.Writes.{first-write_kids}
use tpbench.Argp.Check.{
  exclusive_hit, conflict_opts_hit, validate_pre_increment, refuse_or, excludes, conflicts,
  count_verdict, set_one,
}

exclusive_hit-write_kids :
    (match : Info) (at place n : ℕ) (f : Nodes → Nodes) (c : Nodes)
    → exclusive_hit match at place (write_kids n f c) ≡ exclusive_hit match at place c
unfolding exclusive_hit write_kids
exclusive_hit-write_kids match at place n f null = refl
exclusive_hit-write_kids match at place zero f (node i k s) = refl
exclusive_hit-write_kids match at place (suc n) f (node i k s) =
    ap
      (λ r.
        if place == at || not i.is_set
        then r
        else if is_exclusive match
        then some i
        else if is_exclusive i
        then some i
        else r)
      (exclusive_hit-write_kids match at (suc place) n f s)

conflict_opts_hit-write_kids :
    (names : List Bytes) (n : ℕ) (f : Nodes → Nodes) (c : Nodes)
    → conflict_opts_hit names (write_kids n f c) ≡ conflict_opts_hit names c
unfolding conflict_opts_hit find_child_by_name
conflict_opts_hit-write_kids [] n f c = refl
conflict_opts_hit-write_kids (nm ∷ nms) n f c =
    ap (λ o. or_else (set_one o) (conflict_opts_hit nms (write_kids n f c)))
      (first-write_kids (named nm) n f c)
    ∙ ap (or_else (set_one (find_child_by_name nm c))) (conflict_opts_hit-write_kids nms n f c)

pub validate-write_kids :
    (match : Info) (at n : ℕ) (f : Nodes → Nodes) (c : Nodes)
    → validate_pre_increment match at (write_kids n f c) ≡ validate_pre_increment match at c
unfolding validate_pre_increment
validate-write_kids match at n f c =
    ap
      (λ o. refuse_or (excludes match) o (
        refuse_or (conflicts match) (conflict_opts_hit match.conflict_opts (write_kids n f c))
          (count_verdict match match.max_chosen)))
      (exclusive_hit-write_kids match at 0 n f c)
    ∙ ap
        (λ o.
          refuse_or (excludes match) (exclusive_hit match at 0 c)
            (refuse_or (conflicts match) o (count_verdict match match.max_chosen)))
        (conflict_opts_hit-write_kids match.conflict_opts n f c)
