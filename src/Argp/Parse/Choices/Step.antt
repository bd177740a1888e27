-- ===== src/Argp/Parse/Choices/Step.antt =====
-- A write to one sibling.
use tpbench.Prelude.{
  ℕ, true, false, some, ◌≡◌, ◌≢◌, ◌⊎◌, refl, sym, ap, subst, ◌∙◌, arith, Bool-cases, inl, inr, ◌==◌,
  ◌&&◌, and_false, ==_iff,
}
use tpbench.Argp.{Info, Nodes, info_of, write_info, is_exclusive}
use tpbench.Argp.Names.{NamesDiffer}
use tpbench.Argp.Writes.{some_injective, info_of-write_info, info_of-write_info_ne}
use tpbench.Argp.Parse.Choices.{Within, taken, lists, Choices}

-- What stands at a place after a write to one sibling.
Written : ℕ → (Info → Info) → Nodes → ℕ → Info → Type 0
Written n f c k i' =
    ((k ≡ n) × ((i : Info) × (info_of n c ≡ some i) × (i' ≡ f i)))
    ⊎ ((k ≢ n) × (info_of k c ≡ some i'))

write_info-Written :
    (n : ℕ) (f : Info → Info) (c : Nodes) (match : Info) (k : ℕ) (i' : Info)
    → info_of n c ≡ some match
    → info_of k (write_info n f c) ≡ some i'
    → Written n f c k i'
unfolding Written
write_info-Written n f c match k i' at e = elim (Bool-cases (k == n)) [
  | inl y ↦
      let same : k ≡ n = (==_iff k n).0 y in
      inl (
        same,
        (
          match,
          at,
          some_injective (
              sym (subst (λ x. info_of x (write_info n f c) ≡ some i') same e)
              ∙ info_of-write_info n f c at),
        ),
      )
  | inr y ↦
      let other : k ≢ n = λ (x : k ≡ n). absurd (ground arith) in
      inr (other, sym (info_of-write_info_ne k n f c other) ∙ e)
]

-- What the checks let pass beside a node.
abbrev pub Beside : Info → Info → Type 0
Beside match j =
    (is_exclusive match ≡ false)
    × (is_exclusive j ≡ false)
    × (lists j.name match.conflict_opts ≡ false)

module _ (n : ℕ) (f : Info → Info) (c : Nodes) (match : Info) (at : info_of n c ≡ some match)
    (name_kept : (i : Info) → (f i).name ≡ i.name)
    (flags_kept : (i : Info) → is_exclusive (f i) ≡ is_exclusive i)
    (opts_kept : (i : Info) → (f i).conflict_opts ≡ i.conflict_opts)
    (counted : Within (f match).max_chosen (f match).chosen_count)
    (beside : taken (f match) ≡ true
      → (m : ℕ) (j : Info) → m ≢ n
      → info_of m c ≡ some j
      → taken j ≡ true
      → Beside match j)
    (before : Choices (λ k. info_of k c)) where
  is_match : {i i' : Info} → info_of n c ≡ some i → i' ≡ f i → i' ≡ f match
  is_match a e = e ∙ ap f (some_injective (sym a ∙ at))

  names_after : NamesDiffer (λ k. info_of k (write_info n f c))
  unfolding Written
  names_after k m i j a b e = elim (write_info-Written n f c match k i at a) [
    | inl (p, (i0, a0, e0)) ↦ (elim (write_info-Written n f c match m j at b) [
      | inl (q, r) ↦ p ∙ sym q
      | inr (q, b0) ↦
          p ∙ before.names n m i0 j a0 b0 (sym (name_kept i0) ∙ ap (λ x. x.name) (sym e0) ∙ e)
    ])
    | inr (p, a0) ↦ (elim (write_info-Written n f c match m j at b) [
      | inl (q, (j0, b0, f0)) ↦
          before.names k n i j0 a0 b0 (e ∙ ap (λ x. x.name) f0 ∙ name_kept j0) ∙ sym q
      | inr (q, b0) ↦ before.names k m i j a0 b0 e
    ])
  ]

  Within-after :
      (k : ℕ) (i : Info)
      → info_of k (write_info n f c) ≡ some i
      → Within i.max_chosen i.chosen_count
  unfolding Written
  Within-after k i a = elim (write_info-Written n f c match k i at a) [
    | inl (p, (i0, a0, e0)) ↦
        subst (λ x. Within x.max_chosen x.chosen_count) (sym (is_match a0 e0)) counted
    | inr (p, a0) ↦ before.within k i a0
  ]

  exclusive_after :
      (k m : ℕ) (i j : Info)
      → info_of k (write_info n f c) ≡ some i
      → info_of m (write_info n f c) ≡ some j
      → k ≢ m
      → taken i ≡ true
      → taken j ≡ true
      → is_exclusive i ≡ false
  unfolding Written
  exclusive_after k m i j a b d g h = elim (write_info-Written n f c match k i at a) [
    | inl (p, (i0, a0, e0)) ↦ (elim (write_info-Written n f c match m j at b) [
      | inl (q, r) ↦ absurd (d (p ∙ sym q))
      | inr (q, b0) ↦
          let same = is_match a0 e0 in
          ap (λ x. is_exclusive x) same
          ∙ flags_kept match
          ∙ (beside (subst (λ x. taken x ≡ true) same g) m j q b0 h).0
    ])
    | inr (p, a0) ↦ (elim (write_info-Written n f c match m j at b) [
      | inl (q, (j0, b0, f0)) ↦
          (beside (subst (λ x. taken x ≡ true) (is_match b0 f0) h) k i p a0 g).1
      | inr (q, b0) ↦ before.exclusive k m i j a0 b0 d g h
    ])
  ]

  apart_after :
      (k m : ℕ) (i j : Info)
      → info_of k (write_info n f c) ≡ some i
      → info_of m (write_info n f c) ≡ some j
      → k ≢ m
      → taken i ≡ true
      → taken j ≡ true
      → (lists i.name j.conflict_opts && lists j.name i.conflict_opts) ≡ false
  unfolding Written
  apart_after k m i j a b d g h = elim (write_info-Written n f c match k i at a) [
    | inl (p, (i0, a0, e0)) ↦ (elim (write_info-Written n f c match m j at b) [
      | inl (q, r) ↦ absurd (d (p ∙ sym q))
      | inr (q, b0) ↦
          let same = is_match a0 e0 in
          let free = (beside (subst (λ x. taken x ≡ true) same g) m j q b0 h).2 in
          and_false (lists i.name j.conflict_opts) _
            (ap (λ x. lists j.name x) (ap (λ x. x.conflict_opts) same ∙ opts_kept match) ∙ free)
    ])
    | inr (p, a0) ↦ (elim (write_info-Written n f c match m j at b) [
      | inl (q, (j0, b0, f0)) ↦
          let same = is_match b0 f0 in
          let free = (beside (subst (λ x. taken x ≡ true) same h) k i p a0 g).2 in
          rw (ap (λ x. lists i.name x) (ap (λ x. x.conflict_opts) same ∙ opts_kept match) ∙ free)
            refl
      | inr (q, b0) ↦ before.apart k m i j a0 b0 d g h
    ])
  ]

  pub Choices-write_info : Choices (λ k. info_of k (write_info n f c))
  Choices-write_info = record {
    names = names_after;
    within = Within-after;
    exclusive = exclusive_after;
    apart = apart_after;
  }
