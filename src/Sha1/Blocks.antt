-- ===== src/Sha1/Blocks.antt =====
-- Whole blocks of a message, as a plain recursion, and the loop of `tpb_sha1_update` as an instance.
use tpbench.Prelude.{
  ℕ, zero, suc, ◌+◌, ◌-◌, ◌*◌, ◌/◌, ◌≤◌, ◌≡◌, refl, ap, ◌∙◌, ◌++◌, arith, Bytes, length, take, drop,
  leb, Bool-cases, inl, inr, length-drop, drop-drop, take-append_le, drop-append_le,
}
use tpbench.Sha1.{Regs, process_block, block_loop}

-- The state after the first `n` blocks of a message.
pub absorb : ℕ → Regs → Bytes → Regs
absorb zero s m = s
absorb (suc n) s m = absorb n (process_block s (take 64 m)) (drop 64 m)

pub absorb-zero : (s : Regs) (m : Bytes) → absorb 0 s m ≡ s
unfolding absorb
absorb-zero s m = refl

pub absorb-suc :
    (n : ℕ) (s : Regs) (m : Bytes)
    → absorb (suc n) s m ≡ absorb n (process_block s (take 64 m)) (drop 64 m)
unfolding absorb
absorb-suc n s m = refl

pub absorb-add :
    (k n : ℕ) (s : Regs) (m : Bytes)
    → absorb (k + n) s m ≡ absorb n (absorb k s m) (drop (64 * k) m)
unfolding absorb
absorb-add zero n s m = ap (λ k. absorb k s m) {x = zero + n} {y = n} (omega arith)
absorb-add (suc k) n s m =
    ap (λ j. absorb j s m) {x = suc k + n} {y = suc (k + n)} (omega arith)
    ∙ absorb-add k n (process_block s (take 64 m)) (drop 64 m)
    ∙ ap (absorb n _) (
        drop-drop (64 * k) 64 m
        ∙ ap (λ j. drop j m) {x = 64 + 64 * k} {y = 64 * suc k} (omega arith))

-- Bytes behind the blocks do not count.
pub absorb-append :
    (n : ℕ) (s : Regs) (m d : Bytes) → 64 * n ≤ length m → absorb n s (m ++ d) ≡ absorb n s m
unfolding absorb
absorb-append zero s m d h = refl
absorb-append (suc n) s m d h = ground (
  arith,
  take-append_le 64 m d,
  drop-append_le 64 m d,
  length-drop 64 m,
  absorb-append n (process_block s (take 64 m)) (drop 64 m) d,
)

-- The loop takes every whole block, and leaves what is behind them.
pub block_loop_lem :
    (fuel : ℕ) (s : Regs) (p : Bytes)
    → length p ≤ fuel
    → block_loop fuel s p ≡ (absorb (length p / 64) s p, drop (64 * (length p / 64)) p)
unfolding block_loop
block_loop_lem zero s p h = let e : length p / 64 ≡ 0 = omega arith in rw (e, absorb-zero)
block_loop_lem (suc fuel) s p h = elim (Bool-cases (leb 64 (length p))) [
  | inl more ↦
      let n = (length p - 64) / 64 in
      let e : length p / 64 ≡ suc n = ground arith in
      let e' : length (drop 64 p) / 64 ≡ n = rw length-drop in
      rw (more, e)
        (block_loop_lem fuel (process_block s (take 64 p)) (drop 64 p)
            (rw length-drop (ground arith))
          ∙ rw e' (
              rw (absorb-suc, drop-drop)
                (ap (λ j. (absorb n (process_block s (take 64 p)) (drop 64 p), drop j p))
                  {x = 64 + 64 * n} {y = 64 * suc n} (omega arith))))
  | inr none_left ↦ let e : length p / 64 ≡ 0 = ground arith in rw (none_left, e, absorb-zero)
]
