-- ===== src/Argp/Add.antt =====
-- Adding arguments to the tree.
use tpbench.Prelude.{
  ℕ, zero, suc, ◌+◌, Bool, false, List, [], ◌∷◌, Option, none, some, ◌≡◌, ◌⊎◌, refl, sym, ap, subst,
  ◌∙◌, arith, Bool-cases, inl, inr, if◌then◌else◌, length, bytes_eq_iff,
}
use tpbench.Argp.{
  Info, Nodes, null, node, behind_one, first, named, find_child_by_name, kids_of, children, info_of,
  write_kids, write_at, Conf, new_info, append_node, if_new, add_arg,
}
use tpbench.Argp.Writes.{Deep, Whole, Found, first-Found, some_injective, Whole-write_at}
use tpbench.Argp.Names.{NamesDiffer}

-- Each node stands at the depth that it has noted.
abbrev pub Depths : ℕ → Nodes → Type 0
Depths d null = Unit
Depths d (node i k s) = (i.depth ≡ d) × Depths (suc d) k × Depths d s

-- No two siblings have one name, and the depths are right.
abbrev pub IsTree : Nodes → Type 0
IsTree nodes = Whole NamesDiffer nodes × Depths 1 nodes

abbrev pub IsThere : List ℕ → Nodes → Type 0
IsThere [] c = Unit
IsThere (n ∷ way) c = IsThere way c × ((i : Info) × (info_of n (children way c) ≡ some i))

abbrev pub count : Nodes → ℕ
count null = 0
count (node i k s) = suc (count s)

-- The search in a chain that has got a last node.
abbrev pub first_or : Option (ℕ × Info) → Option (ℕ × Info) → Option (ℕ × Info)
first_or none other = other
first_or (some x) other = some x

behind_one-first_or :
    (a b : Option (ℕ × Info)) → behind_one (first_or a b) ≡ first_or (behind_one a) (behind_one b)
behind_one-first_or none b = refl
behind_one-first_or (some (n, i)) b = refl

abbrev pub at_end : (Info → Bool) → ℕ → Info → Option (ℕ × Info)
at_end test n new = if test new then some (n, new) else none

behind_one-at_end :
    (test : Info → Bool) (n : ℕ) (new : Info)
    → behind_one (at_end test n new) ≡ at_end test (suc n) new
behind_one-at_end test n new = elim (Bool-cases (test new)) [
  | inl y ↦ rw y refl
  | inr y ↦ rw y refl
]

first-append_node :
    (test : Info → Bool) (new : Info) (c : Nodes)
    → first test (append_node new c) ≡ first_or (first test c) (at_end test (count c) new)
unfolding first append_node
first-append_node test new null = refl
first-append_node test new (node i k s) = elim (Bool-cases (test i)) [
  | inl y ↦ rw y refl
  | inr y ↦ rw y (
      ap behind_one (first-append_node test new s)
      ∙ behind_one-first_or (first test s) (at_end test (count s) new)
      ∙ ap (first_or (behind_one (first test s))) (behind_one-at_end test (count s) new))
]

info_of-append_node :
    (k : ℕ) (new : Info) (c : Nodes) (i : Info)
    → info_of k (append_node new c) ≡ some i
    → (info_of k c ≡ some i) ⊎ ((k ≡ count c) × (i ≡ new))
unfolding info_of append_node
info_of-append_node zero new null i e = inr (refl, sym (some_injective e))
info_of-append_node (suc k) new null i e = cc
info_of-append_node zero new (node j x s) i e = inl e
info_of-append_node (suc k) new (node j x s) i e = elim (info_of-append_node k new s i e) [
  | inl h ↦ inl h
  | inr (p, q) ↦ inr (ap suc p, q)
]

NamesDiffer-append_node :
    (new : Info) (c : Nodes)
    → ((k : ℕ) (i : Info) → info_of k c ≡ some i → named new.name i ≡ false)
    → NamesDiffer (λ k. info_of k c)
    → NamesDiffer (λ k. info_of k (append_node new c))
NamesDiffer-append_node new c fresh differ n m i j a b e = elim (info_of-append_node n new c i a) [
  | inl p ↦ (elim (info_of-append_node m new c j b) [
    | inl q ↦ differ n m i j p q e
    | inr (q, r) ↦ clash n i p (e ∙ ap (λ x. x.name) r)
  ])
  | inr (p, r) ↦ (elim (info_of-append_node m new c j b) [
    | inl q ↦ clash m j q (sym e ∙ ap (λ x. x.name) r)
    | inr (q, s) ↦ p ∙ sym q
  ])
]
  where
    clash : (k : ℕ) (x : Info) {A : Type 0} → info_of k c ≡ some x → x.name ≡ new.name → A
    clash k x p e = let y = (bytes_eq_iff x.name new.name).1 e in let n = fresh k x p in cc

NamesDiffer-null : NamesDiffer (λ k. info_of k null)
unfolding info_of
NamesDiffer-null = λ n m i j a b e. cc

Deep-append_node :
    (new : Info) (c : Nodes) → Deep NamesDiffer c → Deep NamesDiffer (append_node new c)
unfolding append_node info_of
Deep-append_node new null d = (NamesDiffer-null, tt, tt)
Deep-append_node new (node i k s) d = (d.0, d.1, Deep-append_node new s d.2)

Depths-append_node :
    (d : ℕ) (new : Info) (c : Nodes) → new.depth ≡ d → Depths d c → Depths d (append_node new c)
unfolding append_node
Depths-append_node d new null e h = (e, tt, tt)
Depths-append_node d new (node i k s) e h = (h.0, h.1, Depths-append_node d new s e h.2)

Depths-write_kids :
    (d n : ℕ) (f : Nodes → Nodes) (c : Nodes)
    → ((e : Nodes) → Depths (suc d) e → Depths (suc d) (f e))
    → Depths d c
    → Depths d (write_kids n f c)
unfolding write_kids
Depths-write_kids d n f null h w = tt
Depths-write_kids d zero f (node i k s) h w = (w.0, h k w.1, w.2)
Depths-write_kids d (suc n) f (node i k s) h w = (w.0, w.1, Depths-write_kids d n f s h w.2)

Depths-write_at :
    (way : List ℕ) (d : ℕ) (f : Nodes → Nodes) (c : Nodes)
    → d ≡ length way + 1
    → ((e : Nodes) → Depths d e → Depths d (f e))
    → Depths 1 c
    → Depths 1 (write_at way f c)
unfolding write_at
Depths-write_at [] d f c q h w =
    let one : d ≡ 1 = omega arith in
    subst (λ x. Depths x (f c)) one (h c (subst (λ x. Depths x c) (sym one) w))
Depths-write_at (n ∷ way) d f c q h w =
    let above : d ≡ suc (length way + 1) = omega arith in
    Depths-write_at way (length way + 1) (write_kids n f) c refl
      (λ e v.
        Depths-write_kids (length way + 1) n f e
          (subst (λ x. (y : Nodes) → Depths x y → Depths x (f y)) above h) v)
      w

kids_of-write_there :
    (n : ℕ) (f : Nodes → Nodes) (c : Nodes) {i : Info}
    → info_of n c ≡ some i
    → kids_of n (write_kids n f c) ≡ f (kids_of n c)
unfolding kids_of write_kids info_of
kids_of-write_there n f null h = cc
kids_of-write_there zero f (node i k s) h = refl
kids_of-write_there (suc n) f (node i k s) h = kids_of-write_there n f s h

children-write_there :
    (way : List ℕ) (f : Nodes → Nodes) (c : Nodes)
    → IsThere way c
    → children way (write_at way f c) ≡ f (children way c)
unfolding children write_at
children-write_there [] f c h = refl
children-write_there (n ∷ way) f c h =
    ap (kids_of n) (children-write_there way (write_kids n f) c h.0)
    ∙ kids_of-write_there n f (children way c) h.1.1

-- An argument with a new name, added to a node of the tree: no two siblings have one name then
-- either, and the depths stay right; whatever is searched for among the children of the node is found
-- where it was, and only what none of them was found for can be the new one, behind them.
pub add_arg_lem :
    (way : List ℕ) (conf : Conf) (nodes : Nodes)
    → IsTree nodes
    → IsThere way nodes
    → find_child_by_name conf.name (children way nodes) ≡ none
    → (added : Nodes) × (add_arg way conf nodes ≡ some added)
      × IsTree added
      × ((test : Info → Bool)
          → first test (children way added)
            ≡ first_or
                (first test (children way nodes))
                (at_end test (count (children way nodes)) (new_info conf (length way + 1))))
unfolding add_arg find_child_by_name new_info
add_arg_lem way conf nodes t there free =
    let new = new_info conf (length way + 1) in
    let absent =
      subst (Found (named conf.name) (children way nodes)) free
        (first-Found (named conf.name) (children way nodes)) in
    (
      write_at way (append_node new) nodes,
      ap (λ o. if_new o (write_at way (append_node new) nodes)) free,
      (
        Whole-write_at NamesDiffer NamesDiffer-null way (append_node new) nodes
            (λ u. (
              NamesDiffer-append_node new (children way nodes) absent u.0,
              Deep-append_node new (children way nodes) u.1,
            ))
            t.0,
        Depths-write_at way (length way + 1) (append_node new) nodes refl
            (λ e. Depths-append_node (length way + 1) new e refl) t.1,
      ),
      λ test.
          ap (first test) (children-write_there way (append_node new) nodes there)
          ∙ first-append_node test new (children way nodes),
    )
