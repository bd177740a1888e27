-- ===== src/Raf/Id/Digest.antt =====
-- What the identifiers are digests of.
use native.Mathlib.Nat.{pow-suc}
use tpbench.Prelude.{
  ℕ, zero, suc, ◌+◌, ◌-◌, ◌*◌, ◌/◌, ◌%◌, ◌^◌, ◌<◌, List, [], ◌∷◌, ◌++◌, ◌≡◌, refl, arith, ltb,
  Bytes, codes, Bool-cases, inl, inr,
}
use tpbench.Sha1.Digest.{sha1, feed, joined, final-feed}
use tpbench.Raf.Id.{digits, decimal, gen_task_id, gen_taskcapsule_id, gen_tbatch_id}

-- The number that decimal digits stand for, behind those of `acc`.
abbrev pub value_of : ℕ → Bytes → ℕ
value_of acc [] = acc
value_of acc (c ∷ cs) = value_of (acc * 10 + (c - 48)) cs

value_of-append :
    (acc : ℕ) (xs : Bytes) (c : ℕ) → value_of acc (xs ++ (c ∷ [])) ≡ value_of acc xs * 10 + (c - 48)
value_of-append acc [] c = refl
value_of-append acc (x ∷ xs) c = value_of-append (acc * 10 + (x - 48)) xs c

-- Enough digits are written for the number.
pub value_of-digits : (fuel v : ℕ) → v < 10 ^ suc fuel → value_of 0 (digits (suc fuel) v) ≡ v
unfolding digits
value_of-digits zero v h = ground (arith, value_of-append 0 [] (48 + v % 10))
value_of-digits (suc fuel) v h = elim (Bool-cases (ltb v 10)) [
  | inl one ↦ rw one (ground (arith, value_of-append 0 [] (48 + v % 10)))
  | inr more ↦
      let fewer : v / 10 < 10 ^ suc fuel = omega (arith, pow-suc 10 (suc fuel)) in
      let rest = value_of-digits fuel (v / 10) fewer in
      rw more (omega (arith, value_of-append 0 (digits (suc fuel) (v / 10)) (48 + v % 10), rest))
]

abbrev pub task_parts : ℕ → ℕ → Bytes → Bytes → Bytes → Bytes → ℕ → ℕ → ℕ → List Bytes
task_parts utc_bits btime hostname username tbatch_id kernel_id hdl_id pid tid =
    decimal utc_bits
    ∷ decimal btime
    ∷ hostname
    ∷ username
    ∷ tbatch_id
    ∷ kernel_id
    ∷ decimal hdl_id
    ∷ decimal pid
    ∷ decimal tid
    ∷ []

-- The identifiers of a task and of its capsule are the SHA-1 digests of the same texts and bytes, one
-- behind the other, after the word `task` and after the word `taskcapsule` with its NUL. All
-- numbers of 64 bits stand there with all their decimal digits.
pub gen_task_id_lem :
    (utc_bits btime : ℕ) (hostname username tbatch_id kernel_id : Bytes) (hdl_id pid tid : ℕ)
    → let parts = task_parts utc_bits btime hostname username tbatch_id kernel_id hdl_id pid tid in
      (gen_task_id utc_bits btime hostname username tbatch_id kernel_id hdl_id pid tid
        ≡ sha1 (joined (codes "task" ∷ parts)))
      × (gen_taskcapsule_id utc_bits btime hostname username tbatch_id kernel_id hdl_id pid tid
          ≡ sha1 (joined ((codes "taskcapsule" ++ (0 ∷ [])) ∷ parts)))
      × ((v : ℕ) → v < 2 ^ 64 → value_of 0 (decimal v) ≡ v)
unfolding gen_task_id gen_taskcapsule_id feed
gen_task_id_lem utc_bits btime hostname username tbatch_id kernel_id hdl_id pid tid =
    let parts = task_parts utc_bits btime hostname username tbatch_id kernel_id hdl_id pid tid in
    (
      final-feed (codes "task" ∷ parts),
      final-feed ((codes "taskcapsule" ++ (0 ∷ [])) ∷ parts),
      λ v h. value_of-digits 19 v (omega arith),
    )

-- The identifier of a batch is the SHA-1 digest of its texts, one behind the other, after the word
-- `tbatch`.
pub gen_tbatch_id_lem :
    (utc_bits btime : ℕ) (hostname username : Bytes) (front_pid : ℕ)
    → gen_tbatch_id utc_bits btime hostname username front_pid
      ≡ sha1 (
          joined (
            codes "tbatch"
            ∷ decimal utc_bits
            ∷ decimal btime
            ∷ hostname
            ∷ username
            ∷ decimal front_pid
            ∷ []))
unfolding gen_tbatch_id feed
gen_tbatch_id_lem utc_bits btime hostname username front_pid = final-feed (
    codes "tbatch"
    ∷ decimal utc_bits
    ∷ decimal btime
    ∷ hostname
    ∷ username
    ∷ decimal front_pid
    ∷ [])
