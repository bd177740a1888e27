-- ===== src/Sha1/Digest.antt =====
-- The digest is that of RFC 3174: of the message padded with a one bit, zeros and its length.
use tpbench.Prelude.{
  ℕ, zero, suc, ◌+◌, ◌-◌, ◌*◌, ◌/◌, ◌%◌, ◌^◌, ◌≤◌, ◌<◌, ◌≡◌, refl, sym, ap, ◌∙◌, List, [], ◌∷◌,
  ◌++◌, append-nil, append_assoc, arith, Bytes, length, take, drop, ltb, Bool-cases, inl, inr,
  length-append, length-take, length-drop, length-replicate, take-append, drop-append, take_all,
  replicate,
}
use tpbench.Sha1.{
  Regs, Ctx, initial_state, process_block, splice, update, init, be_bytes, digest_of, last_block,
  final,
}
use tpbench.Sha1.Blocks.{absorb, absorb-zero, absorb-suc}
use tpbench.Sha1.Stream.{Holds, init-Holds, update-Holds, length-splice, take-splice, absorb_split}

-- RFC 3174, section 4: behind the message, 0x80, zeros up to 56 bytes modulo 64, and the length in
-- bits as eight bytes, most significant first.
abbrev pub padding : ℕ → Bytes
padding n = 0x80 ∷ (replicate ((119 - n % 64) % 64) 0 ++ be_bytes 8 (8 * n % 2 ^ 64))

-- Section 6.1: the blocks of the padded message, one after the other.
pub sha1 : Bytes → Bytes
sha1 m = let p = m ++ padding (length m) in digest_of (absorb (length p / 64) initial_state p)

replicate-add : (n k : ℕ) → replicate (n + k) zero ≡ replicate n 0 ++ replicate k 0
replicate-add zero k = ap (λ j. replicate j 0) {x = zero + k} {y = k} (omega arith)
replicate-add (suc n) k =
    ap (λ j. replicate j 0) {x = suc n + k} {y = suc (n + k)} (omega arith)
    ∙ ap (◌∷◌ 0) (replicate-add n k)

length-be_bytes : (n v : ℕ) → length (be_bytes n v) ≡ n
unfolding be_bytes
length-be_bytes zero v = refl
length-be_bytes (suc n) v = ap suc (length-be_bytes n v)

-- A write up to the end of a block.
splice_end :
    (buf : Bytes) (at : ℕ) (bs : Bytes)
    → at + length bs ≡ length buf
    → splice buf at bs ≡ take at buf ++ bs
splice_end buf at bs h =
    sym (
      take_all (at + length bs) (splice buf at bs)
        (omega (arith, length-splice buf at bs (omega arith))))
    ∙ take-splice buf at bs (omega arith)

last_block_lem :
    (buf : Bytes) (used bits : ℕ)
    → length buf ≡ 64
    → used ≤ 56
    → last_block buf used bits ≡ take used buf ++ (replicate (56 - used) 0 ++ be_bytes 8 bits)
unfolding last_block
last_block_lem buf used bits h le =
    let zeros : Bytes = replicate (56 - used) 0 in
    let n : length zeros ≡ 56 - used = length-replicate (56 - used) 0 in
    splice_end (splice buf used zeros) 56 (be_bytes 8 bits)
      (omega (arith, length-splice buf used zeros (omega arith), length-be_bytes 8 bits))
    ∙ ap (λ k. k ++ be_bytes 8 bits)
        (ap (λ j. take j (splice buf used zeros)) {x = 56} {y = used + length zeros} (omega arith)
          ∙ take-splice buf used zeros (omega arith))
    ∙ append_assoc (take used buf) zeros (be_bytes 8 bits)

length-last_block :
    (buf : Bytes) (used bits : ℕ)
    → length buf ≡ 64
    → used ≤ 56
    → length (last_block buf used bits) ≡ 64
length-last_block buf used bits h le = rw (last_block_lem buf used bits h le) (
    omega (
      arith,
      length-append (take used buf) (replicate (56 - used) 0 ++ be_bytes 8 bits),
      length-append (replicate (56 - used) zero) (be_bytes 8 bits),
      length-take used buf,
      length-replicate (56 - used) zero,
      length-be_bytes 8 bits,
    ))

absorb_one : (s : Regs) (p : Bytes) → length p ≡ 64 → absorb (length p / 64) s p ≡ process_block s p
absorb_one s p h =
    let e : length p / 64 ≡ 1 = omega arith in
    rw (e, absorb-suc, absorb-zero, take_all 64 p (omega arith))

absorb_two :
    (s : Regs) (p q : Bytes)
    → length p ≡ 64
    → length q ≡ 64
    → absorb (length (p ++ q) / 64) s (p ++ q) ≡ process_block (process_block s p) q
absorb_two s p q h k =
    let e : length (p ++ q) / 64 ≡ 2 = omega (arith, length-append p q) in
    rw (
      e,
      absorb-suc,
      take-append 64 p q (sym h),
      drop-append 64 p q (sym h),
      absorb-suc,
      absorb-zero,
      take_all 64 q (omega arith),
    )

-- Finishing a context that holds `m`: its buffer with the one bit behind what is left over of `m`.
module _ (x : Ctx) (m : Bytes) (h : Holds x m) where
  abbrev used : ℕ
  used = x.count % 64

  abbrev bits : ℕ
  bits = x.count * 8 % 2 ^ 64

  abbrev held : Bytes
  held = drop (64 * (length m / 64)) m

  abbrev marked : Bytes
  marked = splice x.buf used (0x80 ∷ [])

  used-eq : used ≡ length m % 64
  used-eq = omega (arith, h.counted)

  bits-eq : bits ≡ 8 * length m % 2 ^ 64
  bits-eq = omega (arith, h.counted)

  length-held : length held ≡ used
  length-held = omega (arith, used-eq, length-drop (64 * (length m / 64)) m)

  length-marked : length marked ≡ 64
  length-marked =
      length-splice x.buf used (0x80 ∷ []) (omega (arith, h.pending.buffer_size))
      ∙ h.pending.buffer_size

  take-marked : take (used + 1) marked ≡ held ++ 0x80 ∷ []
  take-marked =
      take-splice x.buf used (0x80 ∷ []) (omega (arith, h.pending.buffer_size))
      ∙ ap (λ k. k ++ 0x80 ∷ []) (ap (λ j. take j x.buf) used-eq ∙ h.pending.buffered)

  absorbed :
      (p : Bytes)
      → p ≡ held ++ padding (length m)
      → digest_of (absorb (length p / 64) x.state p) ≡ sha1 m
  unfolding sha1
  absorbed p e =
      rw (e, h.pending.processed)
        (ap digest_of (sym (absorb_split initial_state m (padding (length m)))))

  one_block : used + 1 ≤ 56 → last_block marked (used + 1) bits ≡ held ++ padding (length m)
  one_block le =
      last_block_lem marked (used + 1) bits length-marked le
      ∙ ap (λ k. k ++ (replicate (56 - (used + 1)) 0 ++ be_bytes 8 bits)) take-marked
      ∙ append_assoc held (0x80 ∷ []) (replicate (56 - (used + 1)) 0 ++ be_bytes 8 bits)
      ∙ ap (λ j. held ++ 0x80 ∷ (replicate j 0 ++ be_bytes 8 bits)) {x = 56 - (used + 1)}
          {y = (119 - length m % 64) % 64} (omega (arith, used-eq))
      ∙ ap (λ v. held ++ 0x80 ∷ (replicate ((119 - length m % 64) % 64) 0 ++ be_bytes 8 v)) bits-eq

  abbrev cleared : Bytes
  cleared = splice marked (used + 1) (replicate (64 - (used + 1)) 0)

  cleared-eq : cleared ≡ held ++ 0x80 ∷ replicate (64 - (used + 1)) 0
  cleared-eq =
      splice_end marked (used + 1) (replicate (64 - (used + 1)) 0)
        (omega (arith, length-replicate (64 - (used + 1)) zero, length-marked))
      ∙ ap (λ k. k ++ replicate (64 - (used + 1)) 0) take-marked
      ∙ append_assoc held (0x80 ∷ []) (replicate (64 - (used + 1)) 0)

  length-cleared : length cleared ≡ 64
  length-cleared =
      length-splice marked (used + 1) (replicate (64 - (used + 1)) 0)
        (omega (arith, length-replicate (64 - (used + 1)) zero, length-marked))
      ∙ length-marked

  two_blocks : 56 < used + 1 → cleared ++ last_block cleared 0 bits ≡ held ++ padding (length m)
  two_blocks lt =
      ap (λ k. cleared ++ k) (last_block_lem cleared 0 bits length-cleared (omega arith))
      ∙ ap (λ k. k ++ (replicate 56 0 ++ be_bytes 8 bits)) cleared-eq
      ∙ append_assoc held (0x80 ∷ replicate (64 - (used + 1)) 0) (replicate 56 0 ++ be_bytes 8 bits)
      ∙ ap (λ k. held ++ 0x80 ∷ k)
          (sym (append_assoc (replicate (64 - (used + 1)) 0) (replicate 56 0) (be_bytes 8 bits))
            ∙ ap (λ k. k ++ be_bytes 8 bits) (sym (replicate-add (64 - (used + 1)) 56))
            ∙ ap (λ j. replicate j 0 ++ be_bytes 8 bits) {x = 64 - (used + 1) + 56}
                {y = (119 - length m % 64) % 64} (omega (arith, used-eq)))
      ∙ ap (λ v. held ++ 0x80 ∷ (replicate ((119 - length m % 64) % 64) 0 ++ be_bytes 8 v)) bits-eq

  -- A context that holds `m` gives the digest of `m`.
  pub final-sha1 : final x ≡ sha1 m
  unfolding final
  final-sha1 = elim (Bool-cases (ltb 56 (used + 1))) [
    | inl long ↦
        let e = two_blocks (ground arith) in
        let last = length-last_block cleared 0 bits length-cleared (omega arith) in
        rw long (
          ap digest_of
            (sym (absorb_two x.state cleared (last_block cleared 0 bits) length-cleared last))
          ∙ absorbed _ e)
    | inr short ↦
        let le : used + 1 ≤ 56 = ground arith in
        let last = length-last_block marked (used + 1) bits length-marked le in
        rw short (
          ap digest_of (sym (absorb_one x.state (last_block marked (used + 1) bits) last))
          ∙ absorbed _ (one_block le))
  ]

-- The digest of a message fed in pieces is the digest of the message: where the cuts are does not
-- matter.
unfoldable pub feed : Ctx → List Bytes → Ctx
feed x [] = x
feed x (d ∷ ds) = feed (update x d) ds

abbrev pub joined : List Bytes → Bytes
joined [] = []
joined (d ∷ ds) = d ++ joined ds

feed-Holds :
    (ds : List Bytes) (x : Ctx) (m : Bytes) → Holds x m → Holds (feed x ds) (m ++ joined ds)
unfolding feed
feed-Holds [] x m h = rw append-nil h
feed-Holds (d ∷ ds) x m h =
    rw (← append_assoc m d (joined ds)) (feed-Holds ds (update x d) (m ++ d) (update-Holds x m d h))

-- Whatever pieces a message is fed in, `tpb_sha1_final` gives the SHA-1 digest of the whole.
pub final-feed : (ds : List Bytes) → final (feed init ds) ≡ sha1 (joined ds)
final-feed ds = final-sha1 (feed init ds) (joined ds) (feed-Holds ds init [] init-Holds)
