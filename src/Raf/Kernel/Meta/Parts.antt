-- ===== src/Raf/Kernel/Meta/Parts.antt =====
-- The copy of the data of all headers in tpb_raf_kernel_update_meta_key
-- (src/corelib/rafdb/rafdb-l3-kernel-patch.c).
use tpbench.Prelude.{
  ℕ, zero, suc, ◌+◌, ◌≤◌, ◌<◌, ◌%◌, ◌^◌, true, List, [], ◌∷◌, ◌++◌, Option, none, some, ◌≡◌, refl,
  sym, ap, ◌∙◌, arith, append_assoc, Bool-cases, inl, inr, leb, ◌==◌, Bytes, length, take, drop,
  drop-drop,
}
use tpbench.Raf.Record.{MetaHeader}
use tpbench.Raf.Kernel.Meta.{joined_to, part, copy_parts}

-- The bytes of the data of the headers.
abbrev pub sizes : List MetaHeader → ℕ
sizes [] = 0
sizes (h ∷ hs) = h.data_size + sizes hs

take_parts : (d t n : ℕ) (xs : Bytes) → n ≡ d + t → take d xs ++ take t (drop d xs) ≡ take n xs
take_parts zero t n xs e = ap (λ k. take k xs) {x = t} {y = n} (omega arith)
take_parts (suc d) t zero xs e = absurd (omega arith)
take_parts (suc d) zero (suc n) [] e = refl
take_parts (suc d) (suc t) (suc n) [] e = refl
take_parts (suc d) t (suc n) (x ∷ xs) e = ap (◌∷◌ x) (take_parts d t n xs (omega arith))

take_on :
    (off d t : ℕ) (b : Bytes)
    → take d (drop off b) ++ take t (drop (off + d) b) ≡ take (d + t) (drop off b)
take_on off d t b =
    ap (λ l. take d (drop off b) ++ take t l) (sym (drop-drop d off b))
    ∙ take_parts d t (d + t) (drop off b) refl

part_lem :
    (h : MetaHeader) (off : ℕ) (bytes rest : Bytes)
    → off + h.data_size ≤ length bytes
    → part h off bytes (some rest) ≡ some (take h.data_size (drop off bytes) ++ rest)
part_lem h off bytes rest e = elim (Bool-cases (h.data_size == 0)) [
  | inl empty ↦
      let z : h.data_size ≡ 0 = ground arith in
      rw empty (ap (λ n. some (take n (drop off bytes) ++ rest)) (sym z))
  | inr full ↦
      let b : leb (off + h.data_size) (length bytes) ≡ true = ground arith in rw (full, b) refl
]

pub small : (n : ℕ) → n < 2 ^ 64 → n % 2 ^ 64 ≡ n
small n e = omega arith

-- The data of the next header, and those behind it.
next_part :
    (h : MetaHeader) (off : ℕ) (bytes rest : Bytes) (after : ℕ → Option Bytes)
    → off + h.data_size ≤ length bytes
    → length bytes < 2 ^ 64
    → after (off + h.data_size) ≡ some rest
    → part h off bytes (after ((off + h.data_size) % 2 ^ 64))
      ≡ some (take h.data_size (drop off bytes) ++ rest)
next_part h off bytes rest after e w r =
    ap (part h off bytes) (ap after (small (off + h.data_size) (omega arith)) ∙ r)
    ∙ part_lem h off bytes rest e

module _ (payload bytes : Bytes) (w : length bytes < 2 ^ 64) where
  pub copy_behind :
      (off : ℕ) (hs : List MetaHeader)
      → off + sizes hs ≤ length bytes
      → copy_parts none payload bytes off hs ≡ some (take (sizes hs) (drop off bytes))
  unfolding copy_parts
  copy_behind off [] e = refl
  copy_behind off (h ∷ hs) e =
      next_part h off bytes (take (sizes hs) (drop (off + h.data_size) bytes))
        (λ n. copy_parts none payload bytes n hs) (omega arith) w
        (copy_behind (off + h.data_size) hs (omega arith))
      ∙ ap some (take_on off h.data_size (sizes hs) bytes)

  pub copy_parts_from :
      (off p : ℕ) (before : List MetaHeader) (h : MetaHeader) (after : List MetaHeader)
      (tail : Bytes)
      → p ≡ off + sizes before + h.data_size
      → off + sizes before ≤ length bytes
      → p < 2 ^ 64
      → copy_parts none payload bytes p after ≡ some tail
      → copy_parts (some (length before)) payload bytes off (before ++ (h ∷ after))
        ≡ some (take (sizes before) (drop off bytes) ++ ((payload ++ (0 ∷ [])) ++ tail))
  unfolding copy_parts
  copy_parts_from off p [] h after tail q e f r = ap (joined_to (payload ++ (0 ∷ []))) (
      ap (λ n. copy_parts none payload bytes n after) {y = p}
        (small (off + h.data_size) (omega arith) ∙ omega arith)
      ∙ r)
  copy_parts_from off p (b ∷ before) h after tail q e f r =
      let behind = (payload ++ (0 ∷ [])) ++ tail in
      next_part b off bytes (take (sizes before) (drop (off + b.data_size) bytes) ++ behind)
        (λ n. copy_parts (some (length before)) payload bytes n (before ++ (h ∷ after)))
        (omega arith) w
        (copy_parts_from (off + b.data_size) p before h after tail (omega arith) (omega arith) f r)
      ∙ ap some (
          sym (
            append_assoc (take b.data_size (drop off bytes))
              (take (sizes before) (drop (off + b.data_size) bytes)) behind)
          ∙ ap (λ l. l ++ behind) (take_on off b.data_size (sizes before) bytes))
