-- ===== src/Tags/Order.antt =====
-- The order of tokens, and what sorting does with a list of different tokens.
use tpbench.Prelude.{
  Bool, true, false, not, ◌&&◌, ◌||◌, List, [], ◌∷◌, Bytes, bytes_eq, ◌≡◌, refl, arith,
}
use tpbench.Tags.{before, insert, sort, has}

before_trans : (a b c : Bytes) → before a b ≡ true → before b c ≡ true → before a c ≡ true
before_trans [] [] c p q = ground arith
before_trans [] (y ∷ b) [] p q = ground arith
before_trans [] (y ∷ b) (z ∷ c) p q = refl
before_trans (x ∷ a) [] c p q = ground arith
before_trans (x ∷ a) (y ∷ b) [] p q = ground arith
before_trans (x ∷ a) (y ∷ b) (z ∷ c) p q = ground (arith, before_trans a b c)

before_total : (a b : Bytes) → bytes_eq b a ≡ false → before a b ≡ false → before b a ≡ true
before_total [] [] e p = ground arith
before_total [] (y ∷ b) e p = ground arith
before_total (x ∷ a) [] e p = refl
before_total (x ∷ a) (y ∷ b) e p = ground (arith, before_total a b)

abbrev all_after : Bytes → List Bytes → Bool
all_after x [] = true
all_after x (y ∷ ys) = before x y && all_after x ys

-- Each token comes before all that follow it, so that none stands there twice.
abbrev pub is_sorted : List Bytes → Bool
is_sorted [] = true
is_sorted (x ∷ xs) = all_after x xs && is_sorted xs

abbrev pub distinct : List Bytes → Bool
distinct [] = true
distinct (x ∷ xs) = not (has x xs) && distinct xs

all_after_trans :
    (x y : Bytes) (ts : List Bytes)
    → before x y ≡ true
    → all_after y ts ≡ true
    → all_after x ts ≡ true
all_after_trans x y [] p q = refl
all_after_trans x y (z ∷ ts) p q = ground (arith, before_trans x y z, all_after_trans x y ts)

all_after-insert :
    (x y : Bytes) (ts : List Bytes)
    → before x y ≡ true
    → all_after x ts ≡ true
    → all_after x (insert y ts) ≡ true
unfolding insert
all_after-insert x y [] p q = ground arith
all_after-insert x y (z ∷ ts) p q = ground (arith, all_after-insert x y ts)

has-insert : (t x : Bytes) (ts : List Bytes) → has t (insert x ts) ≡ (bytes_eq x t || has t ts)
unfolding insert
has-insert t x [] = refl
has-insert t x (y ∷ ts) = ground (arith, has-insert t x ts)

is_sorted-insert :
    (x : Bytes) (ts : List Bytes)
    → is_sorted ts ≡ true
    → has x ts ≡ false
    → is_sorted (insert x ts) ≡ true
unfolding insert
is_sorted-insert x [] s h = refl
is_sorted-insert x (y ∷ ts) s h = ground (
  arith,
  is_sorted-insert x ts,
  all_after-insert y x ts,
  all_after_trans x y ts,
  before_total x y,
)

pub has-sort : (t : Bytes) (ts : List Bytes) → has t (sort ts) ≡ has t ts
unfolding sort
has-sort t [] = refl
has-sort t (x ∷ ts) = ground (arith, has-insert t x (sort ts), has-sort t ts)

pub is_sorted-sort : (ts : List Bytes) → distinct ts ≡ true → is_sorted (sort ts) ≡ true
unfolding sort
is_sorted-sort [] d = refl
is_sorted-sort (x ∷ ts) d =
    ground (arith, is_sorted-insert x (sort ts), is_sorted-sort ts, has-sort x ts)
