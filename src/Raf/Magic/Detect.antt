-- ===== src/Raf/Magic/Detect.antt =====
-- A signature names its file type, domain and position, and `tpb_raf_detect_file` reads it back.
use Prim.Native.Nat.{bit_and, bit_or}
use tpbench.Prelude.{
  ℕ, zero, suc, ◌<◌, Bool, true, ◌&&◌, [], ◌∷◌, ◌++◌, some, ◌≡◌, ◌⊎◌, inl, inr, ◌↔◌, refl, sym,
  subst, arith, ◌==◌, ==_iff, Bytes, bytes_eq_iff, length,
}
use tpbench.Raf.Magic.{
  build_magic, validate_magic, pos_start, ftype_entry, ftype_record, detected, detect_magic,
  detect_file,
}

-- The file types and domains that the program has.
abbrev pub IsFtype : ℕ → Type 0
IsFtype f = (f ≡ ftype_entry) ⊎ (f ≡ ftype_record)

abbrev pub IsDomain : ℕ → Type 0
IsDomain d = d < 4

domain_cases : (P : ℕ → Type 0) → P 0 → P 1 → P 2 → P 3 → (d : ℕ) → IsDomain d → P d
domain_cases P p q r t zero h = p
domain_cases P p q r t (suc zero) h = q
domain_cases P p q r t (suc (suc zero)) h = r
domain_cases P p q r t (suc (suc (suc zero))) h = t
domain_cases P p q r t (suc (suc (suc (suc d)))) h = absurd (omega arith)

ftype_cases : (P : ℕ → Type 0) → P 0xe0 → P 0xd0 → (f : ℕ) → IsFtype f → P f
ftype_cases P p q f (inl e) = subst P (sym e) p
ftype_cases P p q f (inr e) = subst P (sym e) q

kind_cases :
    (P : ℕ → ℕ → Type 0)
    → ((d : ℕ) → IsDomain d → P 0xe0 d)
    → ((d : ℕ) → IsDomain d → P 0xd0 d)
    → (f d : ℕ) → IsFtype f
    → IsDomain d
    → P f d
kind_cases P p q f d hf hd = ftype_cases (λ f. P f d) (p d hd) (q d hd) f hf

-- The high half of the byte gives the file type back and the low half the domain.
abbrev Halves : ℕ → ℕ → Type 0
Halves f d = (bit_and (bit_or f d) 0xf0 ≡ f) × (bit_and (bit_or f d) 0x0f ≡ d)

halves : (f d : ℕ) → IsFtype f → IsDomain d → Halves f d
halves =
    kind_cases Halves
      (domain_cases (Halves 0xe0) (refl, refl) (refl, refl) (refl, refl) (refl, refl))
      (domain_cases (Halves 0xd0) (refl, refl) (refl, refl) (refl, refl) (refl, refl))

all_below : ℕ → (ℕ → Bool) → Bool
all_below zero p = true
all_below (suc n) p = p n && all_below n p

all_below_lem : (n : ℕ) (p : ℕ → Bool) (x : ℕ) → all_below n p ≡ true → x < n → p x ≡ true
unfolding all_below
all_below_lem zero p x h lt = absurd (omega arith)
all_below_lem (suc n) p x h lt = ground (arith, all_below_lem n p x)

join_table : all_below 256 (λ b. bit_or (bit_and b 0xf0) (bit_and b 0x0f) == b) ≡ true
unfolding all_below
join_table = refl

-- A byte is its two halves.
join_halves : (b : ℕ) → b < 256 → bit_or (bit_and b 0xf0) (bit_and b 0x0f) ≡ b
join_halves b h =
    (==_iff (bit_or (bit_and b 0xf0) (bit_and b 0x0f)) b).0
      (all_below_lem 256 (λ b. bit_or (bit_and b 0xf0) (bit_and b 0x0f) == b) b join_table h)

-- A file that begins with the start signature of a type and a domain is detected as just these.
pub detect_file-build_magic :
    (f d : ℕ) (rest : Bytes)
    → IsFtype f
    → IsDomain d
    → detect_file (some (build_magic f d pos_start ++ rest)) ≡ detected f d
unfolding detect_file detect_magic build_magic
detect_file-build_magic f d rest hf hd = ground (arith, halves f d hf hd)

-- What is detected is written in the signature: eight bytes are taken for a file of type `f` and
-- domain `d` exactly when they are the start signature of `f` and `d`, and the program has these.
pub detect_magic_iff :
    (a b c d e p g h f n : ℕ)
    → e < 256
    → (detect_magic (a ∷ b ∷ c ∷ d ∷ e ∷ p ∷ g ∷ h ∷ []) ≡ detected f n)
      ↔ ((a ∷ b ∷ c ∷ d ∷ e ∷ p ∷ g ∷ h ∷ [] ≡ build_magic f n pos_start) × IsFtype f × IsDomain n)
unfolding detect_magic build_magic
detect_magic_iff a b c d e p g h f n lt = (sound, complete)
  where
    sound :
        detect_magic (a ∷ b ∷ c ∷ d ∷ e ∷ p ∷ g ∷ h ∷ []) ≡ detected f n
        → ((a ∷ b ∷ c ∷ d ∷ e ∷ p ∷ g ∷ h ∷ [] ≡ build_magic f n pos_start)
            × IsFtype f
            × IsDomain n)
    sound r = ground (arith, join_halves e lt)

    complete :
        ((a ∷ b ∷ c ∷ d ∷ e ∷ p ∷ g ∷ h ∷ [] ≡ build_magic f n pos_start) × IsFtype f × IsDomain n)
        → detect_magic (a ∷ b ∷ c ∷ d ∷ e ∷ p ∷ g ∷ h ∷ []) ≡ detected f n
    complete (r, hf, hd) = ground (arith, halves f n hf hd)

pub validate_magic_iff :
    (bs : Bytes) (f d p : ℕ) → (validate_magic bs f d p ≡ true) ↔ (bs ≡ build_magic f d p)
unfolding validate_magic
validate_magic_iff bs f d p = bytes_eq_iff bs (build_magic f d p)

pub validate-build_magic : (f d p : ℕ) → validate_magic (build_magic f d p) f d p ≡ true
validate-build_magic f d p = (validate_magic_iff _ f d p).1 refl

-- No signature passes for that of another file type, domain or position.
pub build_magic_injective :
    (f d p f' d' p' : ℕ)
    → IsFtype f
    → IsDomain d
    → IsFtype f'
    → IsDomain d'
    → validate_magic (build_magic f d p) f' d' p' ≡ true
    → (f ≡ f') × (d ≡ d') × (p ≡ p')
unfolding build_magic
build_magic_injective f d p f' d' p' hf hd hf' hd' v = ground (
  arith,
  (validate_magic_iff (build_magic f d p) f' d' p').0 v,
  halves f d hf hd,
  halves f' d' hf' hd',
)

pub length-build_magic : (f d p : ℕ) → length (build_magic f d p) ≡ 8
unfolding build_magic
length-build_magic f d p = refl
