-- ===== src/Argp/Parse/Choices/Laws.antt =====
-- The choices stay sound under every step of a parse.
use tpbench.Prelude.{
  ◌∷◌, ℕ, zero, suc, ◌+◌, true, List, Option, none, some, ◌≡◌, ◌≢◌, refl, sym, ap, subst, ◌∙◌,
  arith, Bytes, not, ◌&&◌, and_left, ℤ, pos, negsuc,
}
use tpbench.Argp.{
  is_zero, Info, Nodes, null, node, cleared, reset, children, info_of, write_info, is_exclusive,
}
use tpbench.Argp.Names.{NamesDiffer}
use tpbench.Argp.Writes.{Deep, Whole, some_injective, Whole-children, Whole-write_at}
use tpbench.Argp.Check.{
  exclusive_hit, conflict_opts_hit, validate_pre_increment, pass, refuse_or, excludes, conflicts,
  count_verdict,
}
use tpbench.Argp.Parse.{parse_args}
use tpbench.Argp.Parse.Steps.{select_with, Move, select, answer, clear, Reach, here, then_move}
use tpbench.Argp.Parse.Moves.{parse_args-Reach}
use tpbench.Argp.Parse.Choices.{
  Within, taken, Choices, exclusive_hit-eq-none, conflict_hit-eq-none, refuse_or_pass,
  count_verdict-pass, Within-zero,
}
use tpbench.Argp.Parse.Choices.Step.{Beside, Choices-write_info}

Choices-null : Choices (λ k. info_of k null)
unfolding info_of
Choices-null = record {
  names = λ n m i j a b e. cc;
  within = λ n i a. cc;
  exclusive = λ n m i j a b d g h. cc;
  apart = λ n m i j a b d g h. cc;
}

info_of-reset :
    (k : ℕ) (c : Nodes) (i' : Info)
    → info_of k (reset c) ≡ some i'
    → (i : Info) × (info_of k c ≡ some i) × (i' ≡ cleared i)
unfolding info_of reset
info_of-reset k null i' e = cc
info_of-reset zero (node i x s) i' e = (i, refl, sym (some_injective e))
info_of-reset (suc k) (node i x s) i' e = info_of-reset k s i' e

not_taken : (i j : Info) {A : Type 0} → i ≡ cleared j → taken i ≡ true → A
not_taken i j e g = let h = subst (λ x. taken x ≡ true) e g in cc

Within-cleared : (max : ℤ) → Within max 0
Within-cleared (pos zero) = tt
Within-cleared (pos (suc n)) = omega arith
Within-cleared (negsuc n) = tt

-- Where the names of siblings differ, a cleared chain is sound.
Choices-reset : (c : Nodes) → NamesDiffer (λ k. info_of k c) → Choices (λ k. info_of k (reset c))
Choices-reset c differ = record {
  names = λ n m i j a b e.
      let x = info_of-reset n c i a in
      let y = info_of-reset m c j b in
      differ n m x.0 y.0 x.1 y.1 (ap (λ z. z.name) (sym x.2) ∙ e ∙ ap (λ z. z.name) y.2);
  within = λ n i a.
      let x = info_of-reset n c i a in
      subst (λ z. Within z.max_chosen z.chosen_count) (sym x.2) (Within-cleared x.0.max_chosen);
  exclusive = λ n m i j a b d g h. let x = info_of-reset n c i a in not_taken i x.0 x.2 g;
  apart = λ n m i j a b d g h. let x = info_of-reset n c i a in not_taken i x.0 x.2 g;
}

Deep-reset : (c : Nodes) → Deep NamesDiffer c → Deep Choices (reset c)
unfolding reset
Deep-reset null d = tt
Deep-reset (node i k s) d = (Choices-reset k d.0, Deep-reset k d.1, Deep-reset s d.2)

Deep-names : (c : Nodes) → Deep Choices c → Deep NamesDiffer c
Deep-names null d = tt
Deep-names (node i k s) d = (d.0.names, Deep-names k d.1, Deep-names s d.2)

Whole-reset : (c : Nodes) → Whole NamesDiffer c → Whole Choices (reset c)
Whole-reset c w = (Choices-reset c w.0, Deep-reset c w.1)

Deep-write_info :
    (n : ℕ) (f : Info → Info) (c : Nodes) → Deep Choices c → Deep Choices (write_info n f c)
unfolding write_info
Deep-write_info n f null d = tt
Deep-write_info zero f (node i k s) d = d
Deep-write_info (suc n) f (node i k s) d = (d.0, d.1, Deep-write_info n f s d.2)

name-select_with : (value : Option Bytes) (i : Info) → (select_with value i).name ≡ i.name
name-select_with none i = refl
name-select_with (some v) i = refl

flags-select_with :
    (value : Option Bytes) (i : Info) → is_exclusive (select_with value i) ≡ is_exclusive i
unfolding is_exclusive
flags-select_with none i = refl
flags-select_with (some v) i = refl

opts-select_with :
    (value : Option Bytes) (i : Info) → (select_with value i).conflict_opts ≡ i.conflict_opts
opts-select_with none i = refl
opts-select_with (some v) i = refl

Within-select_with :
    (value : Option Bytes) (i : Info)
    → Within i.max_chosen (i.chosen_count + 1)
    → Within (select_with value i).max_chosen (select_with value i).chosen_count
Within-select_with none i h = h
Within-select_with (some v) i h = h

all_Beside :
    (c : Nodes) (n : ℕ) (match : Info)
    → exclusive_hit match n 0 c ≡ none
    → conflict_opts_hit match.conflict_opts c ≡ none
    → NamesDiffer (λ k. info_of k c)
    → (m : ℕ) (j : Info) → m ≢ n
    → info_of m c ≡ some j
    → taken j ≡ true
    → Beside match j
all_Beside c n match alone free differ m j d b h =
    let is_set = and_left j.is_set (not (is_zero j.max_chosen)) h in
    let both = exclusive_hit-eq-none match n 0 c m j alone b (λ e. d (omega arith)) is_set in
    (both.0, both.1, conflict_hit-eq-none c m j match.conflict_opts differ free b is_set)

Choices-select :
    (c : Nodes) (n : ℕ) (match : Info) (value : Option Bytes)
    → info_of n c ≡ some match
    → validate_pre_increment match n c ≡ pass
    → Choices (λ k. info_of k c)
    → Choices (λ k. info_of k (write_info n (select_with value) c))
unfolding validate_pre_increment
Choices-select c n match value at passed before =
    let excluded =
      refuse_or_pass (excludes match) (exclusive_hit match n 0 c)
        (refuse_or (conflicts match) (conflict_opts_hit match.conflict_opts c)
          (count_verdict match match.max_chosen))
        passed in
    let conflicting =
      refuse_or_pass (conflicts match) (conflict_opts_hit match.conflict_opts c)
        (count_verdict match match.max_chosen) excluded.1 in
    Choices-write_info n (select_with value) c match at (name-select_with value)
      (flags-select_with value) (opts-select_with value)
      (Within-select_with value match (count_verdict-pass match match.max_chosen conflicting.1))
      (λ t. all_Beside c n match excluded.0 conflicting.0 before.names) before

Choices-answer :
    (c : Nodes) (n : ℕ) (match : Info)
    → info_of n c ≡ some match
    → is_zero match.max_chosen ≡ true
    → Choices (λ k. info_of k c)
    → Choices (λ k. info_of k (write_info n (select_with none) c))
Choices-answer c n match at zero_max before =
    Choices-write_info n (select_with none) c match at (name-select_with none)
      (flags-select_with none) (opts-select_with none)
      (Within-zero match.max_chosen (match.chosen_count + 1) zero_max)
      (λ t m j d b h. let e = subst (λ z. (true && not z) ≡ true) zero_max t in cc) before

module _ {U : Type 0} (call : ℕ → Info → Option Bytes → U → ℕ × U) where
  Choices-Move : {c d : Nodes} → Move call c d → Whole Choices c → Whole Choices d
  Choices-Move {c} (select way n match value at passed done) w =
      Whole-write_at Choices Choices-null way (write_info n (select_with value)) c
        (λ u. (
          Choices-select (children way c) n match value at passed u.0,
          Deep-write_info n (select_with value) (children way c) u.1,
        ))
        w
  Choices-Move {c} (answer m way n match f user at zero_max has done) w =
      Whole-write_at Choices Choices-null (m ∷ way) (write_info n (select_with none)) c
        (λ u. (
          Choices-answer (children (m ∷ way) c) n match at zero_max u.0,
          Deep-write_info n (select_with none) (children (m ∷ way) c) u.1,
        ))
        w
  Choices-Move {c} (clear way) w =
      Whole-write_at Choices Choices-null way reset c
        (λ u. Whole-reset (children way c) (u.0.names, Deep-names (children way c) u.1)) w

  Choices-Reach : {c d : Nodes} → Reach call c d → Whole Choices c → Whole Choices d
  Choices-Reach here w = w
  Choices-Reach (then_move r m) w = Choices-Move m (Choices-Reach r w)

-- A tree of arguments in which no two siblings have one name, and any command line: after the parse,
-- whether it succeeds or not, no node is selected more often than it may be, and of two siblings that
-- are selected neither is exclusive and they do not name one another as conflicts; nodes that cannot
-- be chosen aside.
pub parse_args-Choices :
    {U : Type 0} (call : ℕ → Info → Option Bytes → U → ℕ × U) (root : Info) (nodes : Nodes)
    (user : U) (tokens : List Bytes) (way : List ℕ)
    → Whole NamesDiffer nodes
    → Choices (λ k. info_of k (children way (parse_args call root nodes user tokens).nodes))
parse_args-Choices call root nodes user tokens way h =
    (Whole-children Choices Choices-null way _
      (Choices-Reach call (parse_args-Reach call root nodes user tokens) (Whole-reset nodes h))).0
