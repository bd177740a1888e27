-- ===== src/Argp/Parse/Again.antt =====
-- A tree of arguments that is used again: a parse changes no more than the next one clears.
use tpbench.Prelude.{
  ℕ, zero, suc, false, List, [], ◌∷◌, Option, none, some, ◌≡◌, refl, ap, ◌∙◌, Bytes,
}
use tpbench.Argp.{Info, Nodes, null, node, cleared, reset, write_info, write_kids, write_at}
use tpbench.Argp.Check.{resolve_conflict_opts_validate}
use tpbench.Argp.Parse.{parse_args, parse_loop, finished, if_resolved}
use tpbench.Argp.Parse.Steps.{select_with, Move, select, answer, clear, Reach, here, then_move}
use tpbench.Argp.Parse.Moves.{parse_args-Reach}

reset-write_kids :
    (n : ℕ) (f : Nodes → Nodes) (c : Nodes)
    → ((d : Nodes) → reset (f d) ≡ reset d)
    → reset (write_kids n f c) ≡ reset c
unfolding reset write_kids
reset-write_kids n f null h = refl
reset-write_kids zero f (node i k s) h = ap (λ x. node (cleared i) x (reset s)) (h k)
reset-write_kids (suc n) f (node i k s) h =
    ap (node (cleared i) (reset k)) (reset-write_kids n f s h)

reset-write_at :
    (way : List ℕ) (f : Nodes → Nodes) (c : Nodes)
    → ((d : Nodes) → reset (f d) ≡ reset d)
    → reset (write_at way f c) ≡ reset c
unfolding write_at
reset-write_at [] f c h = h c
reset-write_at (n ∷ way) f c h =
    reset-write_at way (write_kids n f) c (λ d. reset-write_kids n f d h)

reset-write_info :
    (n : ℕ) (f : Info → Info) (c : Nodes)
    → ((i : Info) → cleared (f i) ≡ cleared i)
    → reset (write_info n f c) ≡ reset c
unfolding reset write_info
reset-write_info n f null h = refl
reset-write_info zero f (node i k s) h = ap (λ x. node x (reset k) (reset s)) (h i)
reset-write_info (suc n) f (node i k s) h =
    ap (node (cleared i) (reset k)) (reset-write_info n f s h)

pub reset-reset : (c : Nodes) → reset (reset c) ≡ reset c
unfolding reset
reset-reset null = refl
reset-reset (node i k s) =
    ap (λ x. node (cleared i) x (reset (reset s))) (reset-reset k)
    ∙ ap (node (cleared i) (reset k)) (reset-reset s)

cleared-select_with : (value : Option Bytes) (i : Info) → cleared (select_with value i) ≡ cleared i
cleared-select_with none i = refl
cleared-select_with (some v) i = refl

module _ {U : Type 0} (call : ℕ → Info → Option Bytes → U → ℕ × U) where
  reset-Move : {c d : Nodes} → Move call c d → reset d ≡ reset c
  reset-Move {c} (select way n match value at passed done) =
      reset-write_at way (write_info n (select_with value)) c
        (λ d. reset-write_info n (select_with value) d (cleared-select_with value))
  reset-Move {c} (answer m way n match f user at zero_max has done) =
      reset-write_at (m ∷ way) (write_info n (select_with none)) c
        (λ d. reset-write_info n (select_with none) d (cleared-select_with none))
  reset-Move {c} (clear way) = reset-write_at way reset c reset-reset

  reset-Reach : {c d : Nodes} → Reach call c d → reset d ≡ reset c
  reset-Reach here = refl
  reset-Reach (then_move r m) = reset-Move m ∙ reset-Reach r

  -- Whatever a parse has left in the tree, the next one returns the same, leaves the same tree and
  -- runs the same handlers as on the tree before it.
  pub parse_args-again :
      (root : Info) (nodes : Nodes) (user user' : U) (tokens tokens' : List Bytes)
      → parse_args call root (parse_args call root nodes user tokens).nodes user' tokens'
        ≡ parse_args call root nodes user' tokens'
  unfolding parse_args
  parse_args-again root nodes user user' tokens tokens' =
      let left = (parse_args call root nodes user tokens).nodes in
      let e : reset left ≡ reset nodes =
        reset-Reach (parse_args-Reach call root nodes user tokens) ∙ reset-reset nodes in
      ap
        (λ c.
          if_resolved call (resolve_conflict_opts_validate c c) c user'
            (finished call root (parse_loop call false tokens' [] c user')))
        e
