-- ===== src/Argp/Names.antt =====
-- That no two siblings have one name.
use tpbench.Prelude.{ℕ, Option, some, ◌≡◌}
use tpbench.Argp.{Info}

abbrev pub NamesDiffer : (ℕ → Option Info) → Type 0
NamesDiffer at = (n m : ℕ) (i j : Info) → at n ≡ some i → at m ≡ some j → i.name ≡ j.name → n ≡ m
