-- ===== src/Sha1/Stream.antt =====
-- `tpb_sha1_update` is streaming: what a context holds depends on the bytes fed, not on how they
-- were cut into calls.
use tpbench.Prelude.{
  ℕ, suc, ◌+◌, ◌-◌, ◌*◌, ◌/◌, ◌%◌, ◌^◌, ◌≤◌, ◌<◌, ◌≡◌, refl, sym, ap, ◌∙◌, [], ◌++◌, append_assoc,
  arith, Bytes, length, take, drop, ltb, if◌then◌else◌, Bool-cases, inl, inr, length-append,
  length-take, length-drop, drop-drop, take-append, take-append_ge, drop-append_le, drop-append_ge,
  take_all, nil_of_length,
}
use tpbench.Sha1.{Regs, Ctx, initial_state, process_block, splice, consume, init, update}
use tpbench.Sha1.Blocks.{absorb, absorb-zero, absorb-suc, absorb-add, absorb-append, block_loop_lem}

-- The state, buffer and count stand for the message `m`: its whole blocks are processed, the rest
-- is at the front of the buffer.
pub record Pending (s : Regs) (x : Ctx) (m : Bytes) : Type 0 where
  pub processed : x.state ≡ absorb (length m / 64) s m
  pub buffer_size : length x.buf ≡ 64
  pub buffered : take (length m % 64) x.buf ≡ drop (64 * (length m / 64)) m

pub record Holds (x : Ctx) (m : Bytes) : Type 0 where
  pub counted : x.count ≡ length m % 2 ^ 64
  pub pending : Pending initial_state x m

pub init-Holds : Holds init []
unfolding init
init-Holds = record {
  counted = refl;
  pending = record { processed = sym (absorb-zero _ _); buffer_size = refl; buffered = refl };
}

pub length-splice :
    (buf : Bytes) (at : ℕ) (bs : Bytes)
    → at + length bs ≤ length buf
    → length (splice buf at bs) ≡ length buf
length-splice buf at bs h = omega (
  arith,
  length-append (take at buf) (bs ++ drop (at + length bs) buf),
  length-append bs (drop (at + length bs) buf),
  length-take at buf,
  length-drop (at + length bs) buf,
)

-- Up to the end of what was written, the old front and the new bytes.
pub take-splice :
    (buf : Bytes) (at : ℕ) (bs : Bytes)
    → at + length bs ≤ length buf
    → take (at + length bs) (splice buf at bs) ≡ take at buf ++ bs
take-splice buf at bs h =
    ap (take (at + length bs)) (sym (append_assoc (take at buf) bs (drop (at + length bs) buf)))
    ∙ take-append (at + length bs) (take at buf ++ bs) (drop (at + length bs) buf)
        (omega (arith, length-append (take at buf) bs, length-take at buf))

abbrev stored : Bytes → Bytes → Bytes
stored buf rest = if ltb 0 (length rest) then splice buf 0 rest else buf

stored_lem :
    (buf rest : Bytes) (k : ℕ)
    → length buf ≡ 64
    → length rest ≡ k
    → k < 64
    → (length (stored buf rest) ≡ 64) × (take k (stored buf rest) ≡ rest)
stored_lem buf rest k h e lt = elim (Bool-cases (ltb 0 (length rest))) [
  | inl more ↦ rw more (
    length-splice buf 0 rest (omega arith) ∙ h,
    ap (λ j. take j (splice buf 0 rest)) {x = k} {y = 0 + length rest} (omega arith)
        ∙ take-splice buf 0 rest (omega arith),
  )
  | inr nothing ↦
      rw nothing
        (h, ap (λ j. take j buf) {x = k} {y = 0} (ground arith) ∙ nil_of_length rest (ground arith))
]

-- From the loop on, the whole blocks of `p` are processed and the rest is in the buffer.
consume-Pending :
    (s : Regs) (c : ℕ) (buf p : Bytes) → length buf ≡ 64 → Pending s (consume s c buf p) p
unfolding consume
consume-Pending s c buf p h =
    let rest : Bytes = drop (64 * (length p / 64)) p in
    let kept =
      stored_lem buf rest (length p % 64) h (omega (arith, length-drop (64 * (length p / 64)) p))
        (omega arith) in
    rw (block_loop_lem (length p) s p (omega arith))
      (record { processed = refl; buffer_size = kept.0; buffered = kept.1 })

-- A first block in front of what is pending.
Pending-block :
    (s : Regs) (x : Ctx) (p : Bytes)
    → 64 ≤ length p
    → Pending (process_block s (take 64 p)) x (drop 64 p)
    → Pending s x p
Pending-block s x p h r =
    let q : ℕ = length (drop 64 p) / 64 in
    let e : length p / 64 ≡ suc q = omega (arith, length-drop 64 p) in
    let m : length p % 64 ≡ length (drop 64 p) % 64 = omega (arith, length-drop 64 p) in
    record {
      processed = r.processed ∙ sym (absorb-suc q s p) ∙ ap (λ j. absorb j s p) (sym e);
      buffer_size = r.buffer_size;
      buffered =
          ap (λ j. take j x.buf) m
          ∙ r.buffered
          ∙ drop-drop (64 * q) 64 p
          ∙ ap (λ j. drop j p) {x = 64 + 64 * q} {y = 64 * (length p / 64)} (omega arith);
    }

-- The blocks of a message are those of a front and those of what the front leaves over.
pub absorb_split :
    (s : Regs) (m z : Bytes)
    → let t = drop (64 * (length m / 64)) m in
      absorb (length (m ++ z) / 64) s (m ++ z)
      ≡ absorb (length (t ++ z) / 64) (absorb (length m / 64) s m) (t ++ z)
absorb_split s m z =
    let q : ℕ = length m / 64 in
    let t : Bytes = drop (64 * q) m in
    let size = length-append t z in
    let whole = length-append m z in
    let cut = length-drop (64 * q) m in
    let blocks : length (m ++ z) / 64 ≡ q + length (t ++ z) / 64 = omega arith in
    rw (
      blocks,
      absorb-add,
      drop-append_le (64 * q) m z (omega arith),
      absorb-append q s m z (omega arith),
    )

-- The bytes fed behind the blocks of `m`: those left over of `m`, and the new ones.
Pending-append :
    (s : Regs) (x : Ctx) (m d : Bytes)
    → Pending (absorb (length m / 64) s m) x (drop (64 * (length m / 64)) m ++ d)
    → Pending s x (m ++ d)
Pending-append s x m d r =
    let q : ℕ = length m / 64 in
    let t : Bytes = drop (64 * q) m in
    let n : ℕ = length (t ++ d) / 64 in
    let size = length-append t d in
    let whole = length-append m d in
    let cut = length-drop (64 * q) m in
    let split : drop (64 * q) (m ++ d) ≡ t ++ d = drop-append_le (64 * q) m d (omega arith) in
    let rest : length (m ++ d) % 64 ≡ length (t ++ d) % 64 = omega arith in
    record {
      processed = r.processed ∙ sym (absorb_split s m d);
      buffer_size = r.buffer_size;
      buffered =
          ap (λ j. take j x.buf) rest
          ∙ r.buffered
          ∙ ap (drop (64 * n)) (sym split)
          ∙ drop-drop (64 * n) (64 * q) (m ++ d)
          ∙ ap (λ j. drop j (m ++ d)) {x = 64 * q + 64 * n} {y = 64 * (length (m ++ d) / 64)}
              (omega arith);
    }

-- A call on a context that holds `t` in its buffer.
module _ (x : Ctx) (t d : Bytes) (size : length x.buf ≡ 64) (small : length t ≡ x.count % 64)
    (front : take (x.count % 64) x.buf ≡ t) where
  abbrev used : ℕ
  used = x.count % 64

  fits-Pending :
      (c : ℕ)
      → length d < 64 - used
      → Pending x.state (record x { count = c; buf = splice x.buf used d }) (t ++ d)
  fits-Pending c lt =
      let len = length-append t d in
      let blocks : length (t ++ d) / 64 ≡ 0 = omega arith in
      record {
        processed = rw (blocks, absorb-zero);
        buffer_size = length-splice x.buf used d (omega arith) ∙ size;
        buffered =
            ap (λ j. take j (splice x.buf used d)) {x = length (t ++ d) % 64} {y = used + length d}
              (omega arith)
            ∙ take-splice x.buf used d (omega arith)
            ∙ ap (λ k. k ++ d) front
            ∙ ap (λ j. drop j (t ++ d)) {x = 0} {y = 64 * (length (t ++ d) / 64)} (omega arith);
      }

  abbrev space : ℕ
  space = 64 - used

  full-block : space ≤ length d → splice x.buf used (take space d) ≡ take 64 (t ++ d)
  full-block le =
      let n = length-take space d in
      sym (
        take_all 64 (splice x.buf used (take space d))
          (omega (arith, length-splice x.buf used (take space d) (omega arith))))
      ∙ ap (λ j. take j (splice x.buf used (take space d))) {x = 64}
          {y = used + length (take space d)} (omega arith)
      ∙ take-splice x.buf used (take space d) (omega arith)
      ∙ ap (λ k. k ++ take space d) front
      ∙ ap (λ j. t ++ take j d) {x = space} {y = 64 - length t} (omega arith)
      ∙ sym (take-append_ge 64 t d (omega arith))

  rest-block : space ≤ length d → drop space d ≡ drop 64 (t ++ d)
  rest-block le =
      ap (λ j. drop j d) {x = space} {y = 64 - length t} (omega arith)
      ∙ sym (drop-append_ge 64 t d (omega arith))

  update-Pending : Pending x.state (update x d) (t ++ d)
  unfolding update
  update-Pending = elim (Bool-cases (ltb 0 used)) [
    | inl some_held ↦ elim (Bool-cases (ltb (length d) space)) [
      | inl fits ↦ rw (some_held, fits) (fits-Pending _ (ground arith))
      | inr fills ↦
          let le : space ≤ length d = ground arith in
          rw (some_held, fills)
            (Pending-block x.state _ (t ++ d) (omega (arith, length-append t d)) (
              rw (full-block le, rest-block le)
                (consume-Pending _ _ _ _
                  (omega (arith, length-take 64 (t ++ d), length-append t d)))))
    ]
    | inr nothing ↦
        let empty : t ≡ [] = sym (nil_of_length t (ground arith)) in
        rw (nothing, empty) (consume-Pending x.state _ x.buf d size)
  ]

count-update : (x : Ctx) (d : Bytes) → (update x d).count ≡ (x.count + length d) % 2 ^ 64
unfolding update consume
count-update x d = ground arith

-- Feeding `d` to a context that holds `m` makes it hold `m` followed by `d`.
pub update-Holds : (x : Ctx) (m d : Bytes) → Holds x m → Holds (update x d) (m ++ d)
update-Holds x m d h =
    let held : Bytes = drop (64 * (length m / 64)) m in
    let small : length held ≡ x.count % 64 = omega (arith, length-drop (64 * (length m / 64)) m) in
    let front : take (x.count % 64) x.buf ≡ held =
      ap (λ j. take j x.buf) {x = x.count % 64} {y = length m % 64} (omega arith)
      ∙ h.pending.buffered in
    record {
      counted = omega (arith, count-update x d, length-append m d);
      pending =
          Pending-append initial_state (update x d) m d (
            rw (← h.pending.processed) (update-Pending x held d h.pending.buffer_size small front));
    }
