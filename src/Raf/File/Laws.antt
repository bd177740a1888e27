-- ===== src/Raf/File/Laws.antt =====
-- What reads and writes in sequence do: a writer of known bytes at the end of a file, and a reader
-- of known bytes wherever they stand.
use tpbench.Prelude.{
  ℕ, ◌+◌, ◌-◌, ◌^◌, ◌≤◌, ◌<◌, Bool, true, [], ◌++◌, ◌≡◌, sym, ap, ◌∙◌, arith, Bytes, length, take,
  drop, append-nil, append_assoc, subst, length-append, take-append, drop-append, drop-nil,
  le_bytes, of_le, length-le_bytes, of_le-le_bytes,
}
use tpbench.Raf.File.{
  Outcome, ok, fail, M, ◌>>=◌, ◌>>◌, then_do, return, require, fread, fwrite, write_u64, write_u32,
  read_u64, read_u32, fseek, fseek_cur,
}

-- At the end of a file with room for it, `m` writes `bs`.
pub record Writes (m : M (Unit {0})) (bs : Bytes) : Type 0 where
  pub run :
      (past : Bytes) (room : ℕ)
      → length bs ≤ room
      → m (record { past = past; ahead = []; gap = 0; room = room })
        ≡ ok tt (record { past = past ++ bs; ahead = []; gap = 0; room = room - length bs })

pub Writes-fwrite : (bs : Bytes) → Writes (fwrite bs) bs
unfolding fwrite
Writes-fwrite bs = record { run = λ past room h. ground (arith, drop-nil ℕ (length bs)) }

pub Writes-return : Writes (return tt) []
Writes-return = record { run = λ past room h. ground (arith, append-nil past) }

infixr 6 ◌then_writes◌
pub ◌then_writes◌ :
    {m k : M (Unit {0})} {bs cs : Bytes} → Writes m bs → Writes k cs → Writes (m >> k) (bs ++ cs)
◌then_writes◌ {m} {k} {bs} {cs} hm hk = record {
  run = λ past room h. ground (
    arith,
    length-append bs cs,
    hm.run past room,
    hk.run (past ++ bs) (room - length bs),
    append_assoc past bs cs,
  );
}

pub Writes-write_u64 : (v : ℕ) → Writes (write_u64 v) (le_bytes 8 v)
unfolding write_u64
Writes-write_u64 v = Writes-fwrite (le_bytes 8 v)

pub Writes-write_u32 : (v : ℕ) → Writes (write_u32 v) (le_bytes 4 v)
unfolding write_u32
Writes-write_u32 v = Writes-fwrite (le_bytes 4 v)

-- Where the file goes on with `bs`, `m` reads them and returns `a`.
pub record Reads {A : Type 0} (m : M A) (bs : Bytes) (a : A) : Type 0 where
  pub run :
      (past rest : Bytes) (room : ℕ)
      → m (record { past = past; ahead = bs ++ rest; gap = 0; room = room })
        ≡ ok a (record { past = past ++ bs; ahead = rest; gap = 0; room = room })

pub Reads-fread : (n : ℕ) (bs : Bytes) → length bs ≡ n → Reads (fread n) bs bs
unfolding fread
Reads-fread n bs h = record {
  run = λ past rest room.
      ground (
        arith,
        length-append bs rest,
        take-append n bs rest (sym h),
        drop-append n bs rest (sym h),
      );
}

pub Reads-return : {A : Type 0} (a : A) → Reads (return a) [] a
Reads-return a = record { run = λ past rest room. rw append-nil }

pub Reads-bind :
    {A B : Type 0} (m : M A) (k : A → M B) (bs cs : Bytes) {a : A} {b : B}
    → Reads m bs a
    → Reads (k a) cs b
    → Reads (m >>= k) (bs ++ cs) b
Reads-bind m k bs cs {a} {b} hm hk = record {
  run = λ past rest room.
      ap (λ l. then_do (m (record { past = past; ahead = l; gap = 0; room = room })) k)
        (append_assoc bs cs rest)
      ∙ ap (λ r. then_do r k) (hm.run past (cs ++ rest) room)
      ∙ hk.run (past ++ bs) rest room
      ∙ ap (λ l. ok b (record { past = l; ahead = rest; gap = 0; room = room }))
          (append_assoc past bs cs);
}

pub Reads-then :
    {A B : Type 0} {m : M A} {bs cs : Bytes} {a : A} {b : B} (k : A → M B)
    → Reads m bs a
    → Reads (k a) cs b
    → Reads (m >>= k) (bs ++ cs) b
Reads-then {A} {B} {m} {bs} {cs} k hm hk = Reads-bind m k bs cs hm hk

-- A first read, with what the rest then does.
pub Reads-step :
    {A B : Type 0} (m : M A) (k : A → M B) (bs past rest : Bytes) (room : ℕ) {a : A} {r : Outcome B}
    → Reads m bs a
    → k a (record { past = past ++ bs; ahead = rest; gap = 0; room = room }) ≡ r
    → (m >>= k) (record { past = past; ahead = bs ++ rest; gap = 0; room = room }) ≡ r
Reads-step m k bs past rest room hm h = ap (λ o. then_do o k) (hm.run past rest room) ∙ h

pub Reads-require :
    {A : Type 0} (b : Bool) (k : M A) (cs : Bytes) {a : A}
    → b ≡ true
    → Reads k cs a
    → Reads (require b >> k) cs a
Reads-require b k cs e hk = record { run = λ past rest room. rw e (hk.run past rest room) }

-- A last read that is still looked at.
pub Reads-last :
    {A B : Type 0} (m : M A) (k : A → M B) (bs : Bytes) {a : A} {b : B}
    → Reads m bs a
    → Reads (k a) [] b
    → Reads (m >>= k) bs b
Reads-last m k bs {a} {b} hm hk =
    subst (λ l. Reads (m >>= k) l b) (append-nil bs) (Reads-bind m k bs [] hm hk)

-- A last read whose result is wrapped up.
pub Reads-map :
    {A B : Type 0} (m : M A) (g : A → B) (bs : Bytes) {a : A}
    → Reads m bs a
    → Reads (m >>= λ v. return (g v)) bs (g a)
Reads-map m g bs hm = record {
  run = λ past rest room. ap (λ r. then_do r (λ v. return (g v))) (hm.run past rest room);
}

pub Reads-read_u64 : (v : ℕ) → v < 2 ^ 64 → Reads read_u64 (le_bytes 8 v) v
unfolding read_u64
Reads-read_u64 v h = record {
  run = λ past rest room.
      ap (λ r. then_do r (λ bs. return (of_le bs)))
        ((Reads-fread 8 (le_bytes 8 v) (length-le_bytes 8 v)).run past rest room)
      ∙ ap (λ x. ok x (record { past = past ++ le_bytes 8 v; ahead = rest; gap = 0; room = room }))
          (of_le-le_bytes 8 v h);
}

pub Reads-read_u32 : (v : ℕ) → v < 2 ^ 32 → Reads read_u32 (le_bytes 4 v) v
unfolding read_u32
Reads-read_u32 v h = record {
  run = λ past rest room.
      ap (λ r. then_do r (λ bs. return (of_le bs)))
        ((Reads-fread 4 (le_bytes 4 v) (length-le_bytes 4 v)).run past rest room)
      ∙ ap (λ x. ok x (record { past = past ++ le_bytes 4 v; ahead = rest; gap = 0; room = room }))
          (of_le-le_bytes 4 v h);
}

-- A write over what stands ahead.
pub fwrite_over :
    (bs past ahead : Bytes) (room : ℕ)
    → length bs ≤ room
    → fwrite bs (record { past = past; ahead = ahead; gap = 0; room = room })
      ≡ ok tt (record {
        past = past ++ bs;
        ahead = drop (length bs) ahead;
        gap = 0;
        room = room - length bs;
      })
unfolding fwrite
fwrite_over bs past ahead room h = ground arith

-- A write that the device does not take whole.
pub fwrite_short :
    (bs past ahead : Bytes) (room : ℕ)
    → room < length bs
    → fwrite bs (record { past = past; ahead = ahead; gap = 0; room = room })
      ≡ fail (record { past = past ++ take room bs; ahead = drop room ahead; gap = 0; room = 0 })
unfolding fwrite
fwrite_short bs past ahead room h = ground arith

-- A position within the file cuts it in two.
pub fseek_to :
    (p room : ℕ) (past ahead a b : Bytes)
    → past ++ ahead ≡ a ++ b
    → length a ≡ p
    → fseek p (record { past = past; ahead = ahead; gap = 0; room = room })
      ≡ ok tt (record { past = a; ahead = b; gap = 0; room = room })
unfolding fseek
fseek_to p room past ahead a b e n =
    let whole = length-append a b in
    let none_left : p - length (a ++ b) ≡ 0 = omega arith in
    rw (e, take-append p a b (sym n), drop-append p a b (sym n), none_left)

-- Bytes that are skipped.
pub Reads-skip : {A : Type 0} (bs : Bytes) (a : A) → Reads (fseek_cur (length bs) >> return a) bs a
unfolding fseek_cur
Reads-skip bs a = record {
  run = λ past rest room.
      let place : length (past ++ bs) ≡ length past + 0 + length bs =
        omega (arith, length-append past bs) in
      ap (λ o. then_do o (λ _. return a))
        (fseek_to (length past + 0 + length bs) room past (bs ++ rest) (past ++ bs) rest
          (sym (append_assoc past bs rest)) place);
}
