-- ===== src/Sha1/HashFile.antt =====
-- The hash of a file.
use tpbench.Prelude.{
  ℕ, zero, suc, ◌+◌, ◌≤◌, ◌≡◌, refl, ap, ◌∙◌, subst, [], ◌∷◌, ◌++◌, none, some, Bool, true, false,
  append-nil, append_assoc, arith, Bytes, length, take, drop, ltb, length-drop, length-take,
  take-append-drop,
}
use tpbench.Sha1.{Ctx, init, update, read_loop, hash, file_io_fail, hash_file}
use tpbench.Sha1.Stream.{Holds, init-Holds, update-Holds}
use tpbench.Sha1.Digest.{sha1, final-sha1}

read_loop-Holds :
    (fuel : ℕ) (x : Ctx) (m cs : Bytes)
    → length cs ≤ fuel
    → Holds x m
    → Holds (read_loop fuel x cs) (m ++ cs)
unfolding read_loop
read_loop-Holds zero x m [] h k = rw append-nil k
read_loop-Holds zero x m (c ∷ cs) h k = absurd (omega arith)
read_loop-Holds (suc fuel) x m [] h k = rw append-nil k
read_loop-Holds (suc fuel) x m (c ∷ cs) h k =
    let some_bytes : ltb 0 (length (take 4096 (c ∷ cs))) ≡ true =
      ground (arith, length-take 4096 (c ∷ cs)) in
    let fewer : length (drop 4096 (c ∷ cs)) ≤ fuel = omega (arith, length-drop 4096 (c ∷ cs)) in
    let whole =
      append_assoc m (take 4096 (c ∷ cs)) (drop 4096 (c ∷ cs))
      ∙ ap (λ l. m ++ l) (take-append-drop 4096 (c ∷ cs)) in
    rw some_bytes (
      subst (λ l. Holds (read_loop fuel (update x (take 4096 (c ∷ cs))) (drop 4096 (c ∷ cs))) l)
        whole
        (read_loop-Holds fuel (update x (take 4096 (c ∷ cs))) (m ++ take 4096 (c ∷ cs))
          (drop 4096 (c ∷ cs)) fewer (update-Holds x m (take 4096 (c ∷ cs)) k)))

-- A file that can be read is hashed to the SHA-1 digest of its bytes; an error while reading, and a
-- file that cannot be opened, are reported.
pub hash_file-sha1 :
    (cs : Bytes)
    → (hash_file (some cs) false ≡ hash (sha1 cs))
      × (hash_file (some cs) true ≡ file_io_fail)
      × ((failed : Bool) → hash_file none failed ≡ file_io_fail)
unfolding hash_file
hash_file-sha1 cs = (
  ap hash (
      final-sha1 (read_loop (length cs + 1) init cs) cs
        (read_loop-Holds (length cs + 1) init [] cs (omega arith) init-Holds)),
  refl,
  λ failed. refl,
)
