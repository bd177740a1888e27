-- ===== src/Argp/Parse.antt =====
-- The parsing of a command line (src/tpbcli/argp/tpbcli-argp.c). A handler is a function of the
-- caller: it gets the node and a value, and returns the `int` as 32 bits; it can change what `user`
-- stands for, and not the tree. What is printed is left out.
pub mod Steps
pub mod Moves
pub mod Again
pub mod Choices
pub mod Mandatory
mod Tests
use tpbench.Prelude.{
  ℕ, zero, suc, ◌+◌, Bool, true, false, not, ◌&&◌, ◌||◌, List, [], ◌∷◌, Option, none, some, leb,
  ◌==◌, if◌then◌else◌, Bytes, length, ℤ, pos, negsuc,
}
use tpbench.Argp.{
  ArgType, cmd, opt, flag, is_cmd, Info, or_else, Nodes, null, node, has_nodes, has_flag,
  is_exclusive, is_mandatory, has_preset, delegates, find_child, find_child_by_name,
  find_max_chosen_zero_child, reset, cleared, kids_of, children, info_of, write_info, write_at,
}
use tpbench.Argp.Check.{
  Failure, handler_failed, missing, needs_value, unknown, stack_full, Verdict, pass, show_help,
  refuse, validate_pre_increment, else_fail, resolve_conflict_opts_validate,
}

-- The node is selected once more.
abbrev pub chosen : Info → Info
chosen i = record i { is_set = true; chosen_count = i.chosen_count + 1 }

abbrev pub chosen_with : Bytes → Info → Info
chosen_with value i = record i {
  parsed_value = some value;
  is_set = true;
  chosen_count = i.chosen_count + 1;
}

-- `_sf_mandatory_fail`
pub mandatory_fail : Nodes → Option Failure
unfolding is_mandatory has_preset
mandatory_fail null = none
mandatory_fail (node i k s) =
    let rest = mandatory_fail s in
    if is_mandatory i && (not i.is_set && not (has_preset i)) then some (missing i) else rest

pub any_set : Nodes → Bool
any_set null = false
any_set (node i k s) = i.is_set || any_set s

-- The nodes on the stack, from the top to the root, and the last but it that is a command with a
-- handler.
pub all_mandatory_fail : List ℕ → Nodes → Option Failure
unfolding mandatory_fail children
all_mandatory_fail [] nodes = mandatory_fail nodes
all_mandatory_fail (n ∷ way) nodes =
    else_fail (mandatory_fail (children (n ∷ way) nodes)) (all_mandatory_fail way nodes)

abbrev handler_of : Option Info → Option (Info × ℕ)
handler_of none = none
handler_of (some i) = elim i.parse_fn [
  | none ↦ none
  | some f ↦ if is_cmd i.type then some (i, f) else none
]

abbrev pair_or : Option (Info × ℕ) → Option (Info × ℕ) → Option (Info × ℕ)
pair_or none other = other
pair_or (some h) other = some h

pub dispatched : List ℕ → Nodes → Option (Info × ℕ)
unfolding info_of children
dispatched [] nodes = none
dispatched (n ∷ way) nodes =
    pair_or (handler_of (info_of n (children way nodes))) (dispatched way nodes)

-- TPBE_EXIT_ON_HELP, with the node whose help is shown, and TPBE_CLI_FAIL.
pub data Refusal : Type 0 where
  exit_on_help : Info → Refusal
  cli_fail : Failure → Refusal

-- What a parse returns: success, the status of the handler that it ends with, or a refusal.
pub data Outcome : Type 0 where
  success : Outcome
  status : ℕ → Outcome
  refused : Refusal → Outcome

module _ {U : Type 0} (call : ℕ → Info → Option Bytes → U → ℕ × U) where
  run_handler : Option ℕ → Info → Option Bytes → U → ℕ × U
  run_handler none i value user = (0, user)
  run_handler (some f) i value user = call f i value user

  -- What one token does: the next one is looked at, or the one behind it where it was the value;
  -- the rest of the line is left to another parser; or the parse ends.
  pub data Next : Type 0 where
    next : Bool → List ℕ → Nodes → U → Next
    delegated : List ℕ → Nodes → U → Next
    stop : Refusal → Nodes → U → Next

  -- The node is pushed on the stack, which has 128 places.
  abbrev pub pushed : Bool → Bool → ℕ → List ℕ → Nodes → U → Next
  pushed skip delegate n way nodes user =
      if leb 128 (length way + 1)
      then stop (cli_fail stack_full) nodes user
      else if delegate
      then delegated (n ∷ way) nodes user
      else next skip (n ∷ way) nodes user

  abbrev pub if_passed : Verdict → Nodes → U → Next → Next
  if_passed pass nodes user rest = rest
  if_passed (show_help i) nodes user rest = stop (exit_on_help i) nodes user
  if_passed (refuse e) nodes user rest = stop (cli_fail e) nodes user

  abbrev pub found_or : Option (ℕ × Info) → (ℕ → Info → Next) → Next → Next
  found_or none use_it rest = rest
  found_or (some (n, i)) use_it rest = use_it n i

  take_cmd : Info → ℕ → List ℕ → Nodes → U → Next
  unfolding delegates
  take_cmd match n way nodes user =
      pushed false (delegates match) n way (write_at way (write_info n chosen) nodes) user

  take_flag : Info → ℕ → List ℕ → Nodes → U → Next
  unfolding run_handler
  take_flag match n way nodes user =
      let (code, user') = run_handler match.parse_fn match none user in
      if code == 0
      then next false way (write_at way (write_info n chosen) nodes) user'
      else stop (cli_fail (handler_failed match)) nodes user'

  -- The value names a child of the option that cannot be chosen, such as its help.
  take_zero_child : Option ℕ → Info → ℕ → ℕ → List ℕ → Nodes → U → Next
  take_zero_child (some f) hchild j n way nodes user =
      let (code, user') = call f hchild none user in
      if code == 0
      then next true way
          (write_at way (write_info n chosen) (write_at (n ∷ way) (write_info j chosen) nodes))
          user'
      else stop (cli_fail (handler_failed hchild)) nodes user'
  take_zero_child none hchild j n way nodes user =
      if_passed (validate_pre_increment hchild j (children (n ∷ way) nodes)) nodes user
        (next true way nodes user)

  take_value : Info → ℕ → List ℕ → Nodes → U → Bytes → Next
  unfolding run_handler
  take_value match n way nodes user value =
      let (code, user') = run_handler match.parse_fn match (some value) user in
      let nodes' = write_at way (write_info n (chosen_with value)) nodes in
      if code == 0
      then (if has_nodes (children (n ∷ way) nodes')
          then pushed true false n way nodes' user'
          else next true way nodes' user')
      else stop (cli_fail (handler_failed match)) nodes user'

  take_opt : Info → ℕ → List ℕ → Nodes → U → Option Bytes → Next
  unfolding take_zero_child take_value find_max_chosen_zero_child write_info
  take_opt match n way nodes user none = stop (cli_fail (needs_value match)) nodes user
  take_opt match n way nodes user (some value) =
      found_or (find_max_chosen_zero_child value (children (n ∷ way) nodes))
        (λ j hchild. take_zero_child hchild.parse_fn hchild j n way nodes user)
        (take_value match n way nodes user value)

  take_match : ArgType → Info → ℕ → List ℕ → Nodes → U → Option Bytes → Next
  unfolding take_cmd take_flag take_opt
  take_match cmd match n way nodes user value = take_cmd match n way nodes user
  take_match flag match n way nodes user value = take_flag match n way nodes user
  take_match opt match n way nodes user value = take_opt match n way nodes user value

  pub matched : Info → ℕ → List ℕ → Nodes → U → Option Bytes → Next
  unfolding take_match validate_pre_increment
  matched match n way nodes user value =
      if_passed (validate_pre_increment match n (children way nodes)) nodes user
        (take_match match.type match n way nodes user value)

  -- From the label `retry` on: the top of the stack is popped, and the state of its children
  -- cleared, until a node on the stack has a child for the token.
  pub parse_token : Bytes → Option Bytes → List ℕ → Nodes → U → Next
  unfolding matched find_child write_at
  parse_token token value [] nodes user =
      found_or (find_child token nodes) (λ n match. matched match n [] nodes user value)
        (stop (cli_fail (unknown token)) nodes user)
  parse_token token value (m ∷ way) nodes user =
      let popped = parse_token token value way (write_at (m ∷ way) reset nodes) user in
      found_or (find_child token (children (m ∷ way) nodes))
        (λ n match. matched match n (m ∷ way) nodes user value) popped

  -- How the loop over the tokens ends.
  pub data Ended : Type 0 where
    ended : List ℕ → Nodes → U → Ended
    stopped : Refusal → Nodes → U → Ended

  abbrev pub head : List Bytes → Option Bytes
  head [] = none
  head (t ∷ ts) = some t

  abbrev pub go_on : Next → (Bool → List ℕ → Nodes → U → Ended) → Ended
  go_on (next skip way nodes user) rest = rest skip way nodes user
  go_on (delegated way nodes user) rest = ended way nodes user
  go_on (stop o nodes user) rest = stopped o nodes user

  pub parse_loop : Bool → List Bytes → List ℕ → Nodes → U → Ended
  unfolding parse_token
  parse_loop skip [] way nodes user = ended way nodes user
  parse_loop true (t ∷ ts) way nodes user = parse_loop false ts way nodes user
  parse_loop false (t ∷ ts) way nodes user =
      go_on (parse_token t (head ts) way nodes user)
        (λ skip way' nodes' user'. parse_loop skip ts way' nodes' user')

  -- `_sf_post_loop`
  abbrev pub handled : Option (Info × ℕ) → U → Outcome × U
  handled none user = (success, user)
  handled (some (i, f)) user = let (code, user') = call f i none user in (status code, user')

  abbrev pub if_met : Option Failure → U → Outcome × U → Outcome × U
  if_met none user rest = rest
  if_met (some e) user rest = (refused (cli_fail e), user)

  pub post_loop : Info → List ℕ → Nodes → U → Outcome × U
  unfolding all_mandatory_fail dispatched any_set
  post_loop root way nodes user =
      if has_nodes nodes && not (any_set nodes)
      then (refused (exit_on_help root), user)
      else if_met (all_mandatory_fail way nodes) user (handled (dispatched way nodes) user)

  -- `tpbcli_parse_args` on the tokens behind the program's name: what it returns, the tree that it
  -- leaves, and what the handlers made of `user`.
  pub record Parsed : Type 0 where
    pub outcome : Outcome
    pub nodes : Nodes
    pub user : U

  abbrev pub finished : Info → Ended → Parsed
  unfolding post_loop
  finished root (ended way nodes user) =
      let (o, user') = post_loop root way nodes user in
      record { outcome = o; nodes = nodes; user = user' }
  finished root (stopped o nodes user) = record { outcome = refused o; nodes = nodes; user = user }

  abbrev pub if_resolved : Option Failure → Nodes → U → Parsed → Parsed
  if_resolved none nodes user rest = rest
  if_resolved (some e) nodes user rest = record {
    outcome = refused (cli_fail e);
    nodes = nodes;
    user = user;
  }

  pub parse_args : Info → Nodes → U → List Bytes → Parsed
  unfolding parse_loop post_loop reset resolve_conflict_opts_validate
  parse_args root nodes user tokens =
      let clear = reset nodes in
      if_resolved (resolve_conflict_opts_validate clear clear) clear user
        (finished root (parse_loop false tokens [] clear user))
