-- ===== src/Argp/Find.antt =====
-- The search for an argument by its depth.
use tpbench.Prelude.{
  ℕ, suc, ◌+◌, ◌&&◌, List, [], ◌∷◌, ◌++◌, Option, none, some, ◌≡◌, refl, sym, ap, subst, append-nil,
  ◌∙◌, arith, Bool-cases, inl, inr, if◌then◌else◌, ◌==◌, Bytes,
}
use tpbench.Argp.{Info, Nodes, null, node, answers, or_else, find_arg_dfs, find_arg}
use tpbench.Argp.Add.{Depths}

-- All nodes with their level in the tree, a node before its children and these before its siblings.
abbrev pub levels : ℕ → Nodes → List (ℕ × Info)
levels l null = []
levels l (node i k s) = (l, i) ∷ (levels (suc l) k ++ levels l s)

abbrev pub first_at : ℕ → Bytes → List (ℕ × Info) → Option Info
first_at l name [] = none
first_at l name ((m, i) ∷ rest) = if m == l && answers name i then some i else first_at l name rest

first_at-append :
    (l : ℕ) (name : Bytes) (a b : List (ℕ × Info))
    → first_at l name (a ++ b) ≡ or_else (first_at l name a) (first_at l name b)
first_at-append l name [] b = refl
first_at-append l name ((m, i) ∷ a) b = elim (Bool-cases (m == l && answers name i)) [
  | inl y ↦ rw y refl
  | inr y ↦ rw y (first_at-append l name a b)
]

same_level : (depth base l offset : ℕ) → depth ≡ base + l → (depth == base + offset) ≡ (l == offset)
same_level depth base l offset e = ground arith

find_arg_dfs-levels :
    (base l offset : ℕ) (name : Bytes) (c : Nodes)
    → Depths (base + l) c
    → find_arg_dfs (base + offset) name c ≡ first_at offset name (levels l c)
unfolding find_arg_dfs
find_arg_dfs-levels base l offset name null d = refl
find_arg_dfs-levels base l offset name (node i k s) d =
    let below : Depths (base + suc l) k = subst (λ x. Depths x k) (omega arith) d.1 in
    ap
      (λ b.
        if b && answers name i
        then some i
        else or_else (find_arg_dfs (base + offset) name k) (find_arg_dfs (base + offset) name s))
      (same_level i.depth base l offset d.0)
    ∙ ap (λ r. if l == offset && answers name i then some i else r)
        (ap (λ r. or_else r (find_arg_dfs (base + offset) name s))
            (find_arg_dfs-levels base (suc l) offset name k below)
          ∙ ap (or_else (first_at offset name (levels (suc l) k)))
              (find_arg_dfs-levels base l offset name s d.2)
          ∙ sym (first_at-append offset name (levels (suc l) k) (levels l s)))

-- In a tree with the right depths, the search from a node on finds the first of the nodes that stand
-- the given number of levels below it and have the name or short name, in the order in which a node
-- comes before its children and these before its next sibling; and nothing if there is none.
pub find_arg_lem :
    (start : Info) (kids : Nodes) (name : Bytes) (offset : ℕ)
    → Depths (suc start.depth) kids
    → find_arg start kids name offset ≡ first_at offset name ((0, start) ∷ levels 1 kids)
unfolding find_arg
find_arg_lem start kids name offset d =
    find_arg_dfs-levels start.depth 0 offset name (node start kids null)
      (omega arith, subst (λ x. Depths x kids) (omega arith) d, tt)
    ∙ ap (λ r. first_at offset name ((0, start) ∷ r)) (append-nil (levels 1 kids))
