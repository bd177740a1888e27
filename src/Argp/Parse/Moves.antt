-- ===== src/Argp/Parse/Moves.antt =====
-- What parsing does to the tree of arguments is made of steps.
use tpbench.Prelude.{
  Option-cases, arith, ℕ, ◌+◌, Bool, true, false, List, [], ◌∷◌, Option, none, some, ◌≡◌, refl, sym,
  ap, subst, ◌∙◌, Bool-cases, inl, inr, if◌then◌else◌, Bytes, leb, ◌==◌, ◌&&◌, and_left, length,
}
use tpbench.Argp.{
  ArgType, cmd, opt, flag, is_zero, answers, Info, Nodes, reset, children, info_of, write_info,
  write_kids, write_at, find_child, find_max_chosen_zero_child, has_nodes, delegates,
}
use tpbench.Argp.Writes.{Found, first-Found, info_of-write_kids, children-write_at}
use tpbench.Argp.Check.Writes.{validate-write_kids}
use tpbench.Argp.Check.{validate_pre_increment, Verdict, pass, show_help, refuse, Failure}
use tpbench.Argp.Parse.{
  chosen, chosen_with, Next, next, delegated, stop, pushed, take_cmd, take_flag, take_zero_child,
  take_value, take_opt, take_match, matched, parse_token, Ended, ended, stopped, parse_loop,
  parse_args, run_handler, if_passed, found_or, go_on, finished, if_resolved, Parsed, head,
}
use tpbench.Argp.Parse.Steps.{
  select_with, Handled, no_handler, returned, command, answered_option, select, answer, clear,
  Reach, here, then_move,
}

zero_code : (n : ℕ) → (n == 0) ≡ true → n ≡ 0
zero_code n e = ground arith

module _ {U : Type 0} (call : ℕ → Info → Option Bytes → U → ℕ × U) where
  abbrev pub nodes_after : Next call → Nodes
  nodes_after (next skip way nodes user) = nodes
  nodes_after (delegated way nodes user) = nodes
  nodes_after (stop o nodes user) = nodes

  abbrev pub nodes_at_end : Ended call → Nodes
  nodes_at_end (ended way nodes user) = nodes
  nodes_at_end (stopped o nodes user) = nodes

  module _ {c : Nodes} where
    pushed-Reach :
        (skip delegate : Bool) (n : ℕ) (way : List ℕ) (nodes : Nodes) (user : U)
        → Reach call c nodes
        → Reach call c (nodes_after (pushed call skip delegate n way nodes user))
    pushed-Reach skip delegate n way nodes user r = elim (Bool-cases (leb 128 (length way + 1))) [
      | inl full ↦ rw full r
      | inr room ↦ rw room (pushed_or delegate)
    ]
      where
        pushed_or :
            (d : Bool)
            → Reach call c (
                nodes_after
                  (if d then delegated (n ∷ way) nodes user else next skip (n ∷ way) nodes user))
        pushed_or true = r
        pushed_or false = r

    if_passed-Reach :
        (v : Verdict) (nodes : Nodes) (user : U) (rest : Next call)
        → Reach call c nodes
        → (v ≡ pass → Reach call c (nodes_after rest))
        → Reach call c (nodes_after (if_passed call v nodes user rest))
    if_passed-Reach pass nodes user rest r h = h refl
    if_passed-Reach (show_help i) nodes user rest r h = r
    if_passed-Reach (refuse e) nodes user rest r h = r

    found_or-Reach :
        (test : Info → Bool) (d : Nodes) (o : Option (ℕ × Info)) (use_it : ℕ → Info → Next call)
        (rest : Next call)
        → Found test d o
        → ((n : ℕ) (i : Info)
            → info_of n d ≡ some i
            → test i ≡ true
            → Reach call c (nodes_after (use_it n i)))
        → Reach call c (nodes_after rest)
        → Reach call c (nodes_after (found_or call o use_it rest))
    found_or-Reach test d none use_it rest f h r = r
    found_or-Reach test d (some (n, i)) use_it rest f h r = h n i f.0 f.1

    -- A sibling that is there and has passed the checks.
    module _ (match : Info) (n : ℕ) (way : List ℕ) (nodes : Nodes) (user : U)
        (r : Reach call c nodes) (there : info_of n (children way nodes) ≡ some match) where
      module _ (passed : validate_pre_increment match n (children way nodes) ≡ pass) where
        selected :
            (value : Option Bytes)
            → Handled call match value
            → Reach call c (write_at way (write_info n (select_with value)) nodes)
        selected value done = then_move r (select way n match value there passed done)

        Handled-value :
            (value : Option Bytes)
            → ((run_handler call match.parse_fn match value user).0 == 0) ≡ true
            → Handled call match value
        unfolding run_handler
        Handled-value value e = elim (Option-cases match.parse_fn) [
          | inl none_there ↦ no_handler none_there
          | inr (f, has) ↦ returned f user has (
              zero_code _
                (subst (λ o. ((run_handler call o match value user).0 == 0) ≡ true) has e))
        ]

        take_cmd-Reach :
            match.type ≡ cmd → Reach call c (nodes_after (take_cmd call match n way nodes user))
        unfolding take_cmd
        take_cmd-Reach t =
            pushed-Reach false (delegates match) n way _ user (selected none (command t))

        take_flag-Reach : Reach call c (nodes_after (take_flag call match n way nodes user))
        unfolding take_flag
        take_flag-Reach =
            elim (Bool-cases ((run_handler call match.parse_fn match none user).0 == 0)) [
              | inl e ↦ rw e (selected none (Handled-value none e))
              | inr e ↦ rw e r
            ]

        take_value-Reach :
            (value : Bytes)
            → Reach call c (nodes_after (take_value call match n way nodes user value))
        unfolding take_value
        take_value-Reach value =
            let done = run_handler call match.parse_fn match (some value) user in
            let nodes' = write_at way (write_info n (chosen_with value)) nodes in
            elim (Bool-cases (done.0 == 0)) [
              | inl e ↦ (elim (Bool-cases (has_nodes (children (n ∷ way) nodes'))) [
                | inl k ↦
                    rw (e, k)
                      (pushed-Reach true false n way nodes' done.1
                        (selected (some value) (Handled-value (some value) e)))
                | inr k ↦ rw (e, k) (selected (some value) (Handled-value (some value) e))
              ])
              | inr e ↦ rw e r
            ]

        answered :
            (j : ℕ) (hchild : Info) (f : ℕ)
            → match.type ≡ opt
            → info_of j (children (n ∷ way) nodes) ≡ some hchild
            → is_zero hchild.max_chosen ≡ true
            → hchild.parse_fn ≡ some f
            → (call f hchild none user).0 ≡ 0
            → Reach call c (
                write_at way (write_info n chosen) (write_at (n ∷ way) (write_info j chosen) nodes))
        unfolding children write_at
        answered j hchild f t at zero_max has done =
            let d = write_at way (write_kids n (write_info j chosen)) nodes in
            let same : children way d ≡ write_kids n (write_info j chosen) (children way nodes) =
              children-write_at way (write_kids n (write_info j chosen)) nodes refl in
            then_move (then_move r (answer n way j hchild f user at zero_max has done)) (
              select way n match none
                (ap (info_of n) same
                  ∙ info_of-write_kids n n (write_info j chosen) (children way nodes)
                  ∙ there)
                (ap (validate_pre_increment match n) same
                  ∙ validate-write_kids match n n (write_info j chosen) (children way nodes)
                  ∙ passed)
                (answered_option t))

        take_zero_child-Reach :
            (f : Option ℕ) (hchild : Info) (j : ℕ)
            → match.type ≡ opt
            → info_of j (children (n ∷ way) nodes) ≡ some hchild
            → is_zero hchild.max_chosen ≡ true
            → hchild.parse_fn ≡ f
            → Reach call c (nodes_after (take_zero_child call f hchild j n way nodes user))
        unfolding take_zero_child
        take_zero_child-Reach (some f) hchild j t at zero_max has =
            elim (Bool-cases ((call f hchild none user).0 == 0)) [
              | inl e ↦ rw e (answered j hchild f t at zero_max has (zero_code _ e))
              | inr e ↦ rw e r
            ]
        take_zero_child-Reach none hchild j t at zero_max has =
            if_passed-Reach (validate_pre_increment hchild j (children (n ∷ way) nodes)) nodes user
              _ r (λ e. r)

        take_opt-Reach :
            (value : Option Bytes)
            → match.type ≡ opt
            → Reach call c (nodes_after (take_opt call match n way nodes user value))
        unfolding take_opt find_max_chosen_zero_child
        take_opt-Reach none t = r
        take_opt-Reach (some value) t =
            let test = λ (i : Info). is_zero i.max_chosen && answers value i in
            found_or-Reach test (children (n ∷ way) nodes) _ _ _
              (first-Found test (children (n ∷ way) nodes))
              (λ j h at e. take_zero_child-Reach h.parse_fn h j t at (and_left _ _ e) refl)
              (take_value-Reach value)

        take_match-Reach :
            (type : ArgType) (value : Option Bytes)
            → match.type ≡ type
            → Reach call c (nodes_after (take_match call type match n way nodes user value))
        unfolding take_match
        take_match-Reach cmd value t = take_cmd-Reach t
        take_match-Reach flag value t = take_flag-Reach
        take_match-Reach opt value t = take_opt-Reach value t

      matched-Reach :
          (value : Option Bytes)
          → Reach call c (nodes_after (matched call match n way nodes user value))
      unfolding matched
      matched-Reach value =
          if_passed-Reach (validate_pre_increment match n (children way nodes)) nodes user _ r
            (λ passed. take_match-Reach passed match.type value refl)

    parse_token-Reach :
        (token : Bytes) (value : Option Bytes) (way : List ℕ) (nodes : Nodes) (user : U)
        → Reach call c nodes
        → Reach call c (nodes_after (parse_token call token value way nodes user))
    unfolding parse_token find_child children
    parse_token-Reach token value [] nodes user r =
        found_or-Reach (answers token) nodes _ _ _ (first-Found (answers token) nodes)
          (λ n match at e. matched-Reach match n [] nodes user r at value) r
    parse_token-Reach token value (m ∷ way) nodes user r =
        found_or-Reach (answers token) (children (m ∷ way) nodes) _ _ _
          (first-Found (answers token) (children (m ∷ way) nodes))
          (λ n match at e. matched-Reach match n (m ∷ way) nodes user r at value)
          (parse_token-Reach token value way (write_at (m ∷ way) reset nodes) user
            (then_move r (clear (m ∷ way))))

    go_on-Reach :
        (t : Next call) (rest : Bool → List ℕ → Nodes → U → Ended call)
        → Reach call c (nodes_after t)
        → ((skip : Bool) (way : List ℕ) (nodes : Nodes) (user : U)
            → Reach call c nodes
            → Reach call c (nodes_at_end (rest skip way nodes user)))
        → Reach call c (nodes_at_end (go_on call t rest))
    go_on-Reach (next skip way nodes user) rest r h = h skip way nodes user r
    go_on-Reach (delegated way nodes user) rest r h = r
    go_on-Reach (stop o nodes user) rest r h = r

    parse_loop-Reach :
        (skip : Bool) (tokens : List Bytes) (way : List ℕ) (nodes : Nodes) (user : U)
        → Reach call c nodes
        → Reach call c (nodes_at_end (parse_loop call skip tokens way nodes user))
    unfolding parse_loop
    parse_loop-Reach true [] way nodes user r = r
    parse_loop-Reach false [] way nodes user r = r
    parse_loop-Reach true (t ∷ ts) way nodes user r = parse_loop-Reach false ts way nodes user r
    parse_loop-Reach false (t ∷ ts) way nodes user r =
        go_on-Reach (parse_token call t (head call ts) way nodes user)
          (λ skip way' nodes' user'. parse_loop call skip ts way' nodes' user')
          (parse_token-Reach t (head call ts) way nodes user r)
          (λ skip way' nodes' user' r'. parse_loop-Reach skip ts way' nodes' user' r')

  finished-nodes : (root : Info) (e : Ended call) → (finished call root e).nodes ≡ nodes_at_end e
  unfolding finished
  finished-nodes root (ended way nodes user) = refl
  finished-nodes root (stopped o nodes user) = refl

  if_resolved-Reach :
      (c nodes : Nodes) (o : Option Failure) (user : U) (rest : Parsed call)
      → Reach call c nodes
      → Reach call c rest.nodes
      → Reach call c (if_resolved call o nodes user rest).nodes
  if_resolved-Reach c nodes none user rest r s = s
  if_resolved-Reach c nodes (some e) user rest r s = r

  pub parse_args-Reach :
      (root : Info) (nodes : Nodes) (user : U) (tokens : List Bytes)
      → Reach call (reset nodes) (parse_args call root nodes user tokens).nodes
  unfolding parse_args
  parse_args-Reach root nodes user tokens =
      let clear_nodes = reset nodes in
      let loop = parse_loop call false tokens [] clear_nodes user in
      if_resolved-Reach clear_nodes clear_nodes _ user _ here (
        subst (Reach call clear_nodes) (sym (finished-nodes root loop))
          (parse_loop-Reach false tokens [] clear_nodes user here))
