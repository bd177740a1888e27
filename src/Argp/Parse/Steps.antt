-- ===== src/Argp/Parse/Steps.antt =====
-- What parsing can do to the tree of arguments: the kinds of its steps.
use tpbench.Prelude.{ℕ, true, List, ◌∷◌, Option, none, some, ◌≡◌, Bytes}
use tpbench.Argp.{cmd, opt, is_zero, Info, Nodes, reset, children, info_of, write_info, write_at}
use tpbench.Argp.Check.{validate_pre_increment, pass}
use tpbench.Argp.Parse.{chosen, chosen_with}

-- A node is selected, with a value or not.
abbrev pub select_with : Option Bytes → Info → Info
select_with none = chosen
select_with (some value) = chosen_with value

module _ {U : Type 0} (call : ℕ → Info → Option Bytes → U → ℕ × U) where
  -- What comes before a node is selected: its handler, if it has one, was called with the value, the
  -- caller's data being some `user`, and returned 0. A command's handler is called at the end of the
  -- line, and an option is selected without its own handler where a child has answered the value.
  pub data Handled (match : Info) : Option Bytes → Type 0 where
    no_handler : {value : Option Bytes} → match.parse_fn ≡ none → Handled match value
    returned :
        {value : Option Bytes} (f : ℕ) (user : U)
        → match.parse_fn ≡ some f
        → (call f match value user).0 ≡ 0
        → Handled match value
    command : match.type ≡ cmd → Handled match none
    answered_option : match.type ≡ opt → Handled match none

  -- A node is selected after it has passed the checks of `_sf_validate_pre_increment` and was handled.
  -- A child of an option that cannot be chosen is marked as selected after its handler was called
  -- without a value and returned 0. What is below a node is cleared.
  pub data Move (c : Nodes) : Nodes → Type 0 where
    select :
        (way : List ℕ) (n : ℕ) (match : Info) (value : Option Bytes)
        → info_of n (children way c) ≡ some match
        → validate_pre_increment match n (children way c) ≡ pass
        → Handled match value
        → Move c (write_at way (write_info n (select_with value)) c)
    answer :
        (option : ℕ) (way : List ℕ) (n : ℕ) (match : Info) (f : ℕ) (user : U)
        → info_of n (children (option ∷ way) c) ≡ some match
        → is_zero match.max_chosen ≡ true
        → match.parse_fn ≡ some f
        → (call f match none user).0 ≡ 0
        → Move c (write_at (option ∷ way) (write_info n chosen) c)
    clear : (way : List ℕ) → Move c (write_at way reset c)

  pub data Reach (c : Nodes) : Nodes → Type 0 where
    here : Reach c c
    then_move : {d e : Nodes} → Reach c d → Move d e → Reach c e
