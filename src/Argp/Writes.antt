-- ===== src/Argp/Writes.antt =====
-- What is read after a write to the tree of arguments.
use tpbench.Prelude.{
  ℕ, zero, suc, Bool, true, false, List, [], ◌∷◌, Option, none, some, ◌≡◌, refl, sym, ap, subst,
  ◌∙◌, Bool-cases, inl, inr, if◌then◌else◌, ◌≢◌, fun_ext,
}
use tpbench.Argp.{
  Info, Nodes, null, node, behind_one, first, kids_of, children, info_of, write_info, write_kids,
  write_at,
}

-- A node that is found is at its place, and passes the test; else no sibling does.
abbrev pub Found : (Info → Bool) → Nodes → Option (ℕ × Info) → Type 0
Found test c none = (m : ℕ) (i : Info) → info_of m c ≡ some i → test i ≡ false
Found test c (some (n, i)) = (info_of n c ≡ some i) × (test i ≡ true)

pub some_injective : {a b : Info} → some a ≡ some b → a ≡ b
some_injective e = cc

Found-behind_one :
    (test : Info → Bool) (j : Info) (k s : Nodes) (o : Option (ℕ × Info))
    → test j ≡ false
    → Found test s o
    → Found test (node j k s) (behind_one o)
unfolding info_of
Found-behind_one test j k s none e h = λ m i a. none_passes m i a
  where
    none_passes : (m : ℕ) (i : Info) → info_of m (node j k s) ≡ some i → test i ≡ false
    none_passes zero i a = subst (λ x. test x ≡ false) (some_injective a) e
    none_passes (suc m) i a = h m i a
Found-behind_one test j k s (some (n, i)) e h = h

pub first-Found : (test : Info → Bool) (c : Nodes) → Found test c (first test c)
unfolding first info_of
first-Found test null = λ m i a. cc
first-Found test (node j k s) = elim (Bool-cases (test j)) [
  | inl y ↦ rw y (refl, y)
  | inr n ↦ rw n (Found-behind_one test j k s (first test s) n (first-Found test s))
]

pub first-write_kids :
    (test : Info → Bool) (n : ℕ) (f : Nodes → Nodes) (c : Nodes)
    → first test (write_kids n f c) ≡ first test c
unfolding first write_kids
first-write_kids test n f null = refl
first-write_kids test zero f (node i k s) = refl
first-write_kids test (suc n) f (node i k s) =
    ap (λ r. if test i then some (zero, i) else behind_one r) (first-write_kids test n f s)

pub info_of-write_kids :
    (m n : ℕ) (f : Nodes → Nodes) (c : Nodes) → info_of m (write_kids n f c) ≡ info_of m c
unfolding info_of write_kids
info_of-write_kids m n f null = refl
info_of-write_kids zero zero f (node i k s) = refl
info_of-write_kids (suc m) zero f (node i k s) = refl
info_of-write_kids zero (suc n) f (node i k s) = refl
info_of-write_kids (suc m) (suc n) f (node i k s) = info_of-write_kids m n f s

pub info_of-write_info :
    (n : ℕ) (f : Info → Info) (c : Nodes) {i : Info}
    → info_of n c ≡ some i
    → info_of n (write_info n f c) ≡ some (f i)
unfolding info_of write_info
info_of-write_info n f null h = cc
info_of-write_info zero f (node j k s) h = cc
info_of-write_info (suc n) f (node j k s) h = info_of-write_info n f s h

pub info_of-write_info_ne :
    (m n : ℕ) (f : Info → Info) (c : Nodes) → m ≢ n → info_of m (write_info n f c) ≡ info_of m c
unfolding info_of write_info
info_of-write_info_ne m n f null h = refl
info_of-write_info_ne zero zero f (node j k s) h = absurd (h refl)
info_of-write_info_ne (suc m) zero f (node j k s) h = refl
info_of-write_info_ne zero (suc n) f (node j k s) h = refl
info_of-write_info_ne (suc m) (suc n) f (node j k s) h =
    info_of-write_info_ne m n f s (λ e. h (ap suc e))

pub kids_of-write_kids :
    (n : ℕ) (f : Nodes → Nodes) (c : Nodes)
    → f null ≡ null
    → kids_of n (write_kids n f c) ≡ f (kids_of n c)
unfolding kids_of write_kids
kids_of-write_kids n f null h = sym h
kids_of-write_kids zero f (node i k s) h = refl
kids_of-write_kids (suc n) f (node i k s) h = kids_of-write_kids n f s h

-- Reading at the place of a write that leaves NULL alone.
pub children-write_at :
    (way : List ℕ) (f : Nodes → Nodes) (c : Nodes)
    → f null ≡ null
    → children way (write_at way f c) ≡ f (children way c)
unfolding children write_at
children-write_at [] f c h = refl
children-write_at (n ∷ way) f c h =
    ap (kids_of n) (children-write_at way (write_kids n f) c refl)
    ∙ kids_of-write_kids n f (children way c) h

-- Invariants of the tree of the form: for each chain of siblings. A write to the children of one node
-- keeps the siblings above it as they are.
abbrev pub Deep : ((ℕ → Option Info) → Type 0) → Nodes → Type 0
Deep P null = Unit
Deep P (node i k s) = P (λ m. info_of m k) × Deep P k × Deep P s

abbrev pub Whole : ((ℕ → Option Info) → Type 0) → Nodes → Type 0
Whole P c = P (λ m. info_of m c) × Deep P c

module _ (P : (ℕ → Option Info) → Type 0) (P-null : P (λ m. info_of m null)) where
  Deep-kids_of : (n : ℕ) (c : Nodes) → Deep P c → Whole P (kids_of n c)
  unfolding kids_of
  Deep-kids_of n null d = (P-null, tt)
  Deep-kids_of zero (node i k s) d = (d.0, d.1)
  Deep-kids_of (suc n) (node i k s) d = Deep-kids_of n s d.2

  pub Whole-children : (way : List ℕ) (c : Nodes) → Whole P c → Whole P (children way c)
  unfolding children
  Whole-children [] c w = w
  Whole-children (n ∷ way) c w = Deep-kids_of n (children way c) (Whole-children way c w).1

  Deep-write_kids :
      (n : ℕ) (f : Nodes → Nodes) (c : Nodes)
      → (Whole P (kids_of n c) → Whole P (f (kids_of n c)))
      → Deep P c
      → Deep P (write_kids n f c)
  unfolding kids_of write_kids
  Deep-write_kids n f null h d = tt
  Deep-write_kids zero f (node i k s) h d = let w = h (d.0, d.1) in (w.0, w.1, d.2)
  Deep-write_kids (suc n) f (node i k s) h d = (d.0, d.1, Deep-write_kids n f s h d.2)

  pub Whole-write_at :
      (way : List ℕ) (f : Nodes → Nodes) (c : Nodes)
      → (Whole P (children way c) → Whole P (f (children way c)))
      → Whole P c
      → Whole P (write_at way f c)
  unfolding children write_at
  Whole-write_at [] f c h w = h w
  Whole-write_at (n ∷ way) f c h w =
      Whole-write_at way (write_kids n f) c
        (λ u. (
          subst P (fun_ext (λ m. sym (info_of-write_kids m n f (children way c)))) u.0,
          Deep-write_kids n f (children way c) h u.1,
        ))
        w
