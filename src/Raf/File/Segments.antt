-- ===== src/Raf/File/Segments.antt =====
-- Runs over a file that is a list of segments: reads and writes of whole segments, and moves to the
-- border between two.
use tpbench.Prelude.{
  ℕ, ◌+◌, ◌-◌, ◌≤◌, ◌≡◌, refl, sym, ap, ◌∙◌, subst, Bool, true, arith, List, [], ◌∷◌, ◌++◌,
  append-nil, append_assoc, length-append, take, drop, take-append-drop, take-append, drop-append,
  Bytes, length,
}
use tpbench.Raf.File.{ok, M, ◌>>=◌, ◌>>◌, then_do, return, require, fseek, fwrite}
use tpbench.Raf.File.Laws.{Reads, fwrite_over}
use tpbench.Raf.File.Seek.{Holding, at_place, seek_lem, Done, Runs}

abbrev pub joined : List Bytes → Bytes
joined [] = []
joined (x ∷ xs) = x ++ joined xs

abbrev pub total : List Bytes → ℕ
total [] = 0
total (x ∷ xs) = length x + total xs

pub joined-append : (xs ys : List Bytes) → joined (xs ++ ys) ≡ joined xs ++ joined ys
joined-append [] ys = refl
joined-append (x ∷ xs) ys =
    ap (λ l. x ++ l) (joined-append xs ys) ∙ sym (append_assoc x (joined xs) (joined ys))

pub joined-merge :
    (xs : List Bytes) (a b : Bytes) (ys : List Bytes)
    → joined (xs ++ (a ∷ b ∷ ys)) ≡ joined (xs ++ ((a ++ b) ∷ ys))
joined-merge [] a b ys = sym (append_assoc a b (joined ys))
joined-merge (x ∷ xs) a b ys = ap (λ l. x ++ l) (joined-merge xs a b ys)

pub length-joined : (xs : List Bytes) → length (joined xs) ≡ total xs
length-joined [] = refl
length-joined (x ∷ xs) = omega (arith, length-append x (joined xs), length-joined xs)

joined-snoc : (xs : List Bytes) (x : Bytes) → joined (xs ++ (x ∷ [])) ≡ joined xs ++ x
joined-snoc xs x = joined-append xs (x ∷ []) ∙ ap (λ l. joined xs ++ l) (append-nil x)

-- With `xs` behind the position and `ys` ahead, `m` ends with `w` and a file that holds `new`.
pub record RunsAt {A : Type 0} (m : M A) (xs ys : List Bytes) (room : ℕ) (w : A) (new : Bytes)
    (left : ℕ) : Type 0 where
  pub run : Done (m (at_place (joined xs) (joined ys) room)) w new left

-- A move to the border behind the first `n` segments.
pub begin_at :
    {B : Type 0} {room left : ℕ} {new : Bytes} {w : B} (k : M B) (p n : ℕ) (l : List Bytes)
    → total (take n l) ≡ p
    → RunsAt k (take n l) (drop n l) room w new left
    → Runs (fseek p >> k) (joined l) room w new left
begin_at {B} {room} {left} {new} {w} k p n l e d = record {
  run = λ f h.
      let xs = take n l in
      let ys = drop n l in
      let start : Holding (joined xs ++ joined ys) room f = record {
        bytes = h.bytes ∙ ap joined (sym (take-append-drop n l)) ∙ joined-append xs ys;
        no_gap = h.no_gap;
        room_left = h.room_left;
      } in
      subst (λ o. Done o w new left)
        (sym (
          ap (λ o. then_do o (λ _. k))
            (seek_lem p room f (joined xs) (joined ys) start (length-joined xs ∙ e))))
        d.run;
}

pub from_place :
    {B : Type 0} {room left : ℕ} {new : Bytes} {xs ys : List Bytes} {w : B} (k : M B)
    → Runs k (joined (xs ++ ys)) room w new left
    → RunsAt k xs ys room w new left
from_place {B} {room} {left} {new} {xs} {ys} {w} k d = record {
  run =
      d.run (at_place (joined xs) (joined ys) room)
        (record { bytes = sym (joined-append xs ys); no_gap = refl; room_left = refl });
}

pub seek_to :
    {B : Type 0} {room left : ℕ} {new : Bytes} {xs ys : List Bytes} {w : B} (k : M B) (p n : ℕ)
    → total (take n (xs ++ ys)) ≡ p
    → RunsAt k (take n (xs ++ ys)) (drop n (xs ++ ys)) room w new left
    → RunsAt (fseek p >> k) xs ys room w new left
seek_to {B} {room} {left} {new} {xs} {ys} {w} k p n e d =
    from_place (fseek p >> k) (begin_at k p n (xs ++ ys) e d)

pub read_seg :
    {A B : Type 0} {m : M A} {room left : ℕ} {new : Bytes} {xs : List Bytes} {seg : Bytes}
    {ys : List Bytes} {v : A} {w : B} (k : A → M B)
    → Reads m seg v
    → RunsAt (k v) (xs ++ (seg ∷ [])) ys room w new left
    → RunsAt (m >>= k) xs (seg ∷ ys) room w new left
read_seg {A} {B} {m} {room} {left} {new} {xs} {seg} {ys} {v} {w} k r d = record {
  run =
      subst (λ o. Done o w new left)
        (sym (
          ap (λ o. then_do o k) (r.run (joined xs) (joined ys) room)
          ∙ ap (λ l. k v (at_place l (joined ys) room)) (sym (joined-snoc xs seg))))
        d.run;
}

pub check_seg :
    {B : Type 0} {room left : ℕ} {new : Bytes} {xs ys : List Bytes} {w : B} (b : Bool) (k : M B)
    → b ≡ true
    → RunsAt k xs ys room w new left
    → RunsAt (require b >> k) xs ys room w new left
check_seg {B} {room} {left} {new} {xs} {ys} {w} b k e d =
    subst (λ c. RunsAt (require c >> k) xs ys room w new left) (sym e) (record { run = d.run })

-- A write over what stands ahead, which leaves `zs` of it.
pub write_over :
    {B : Type 0} {room left : ℕ} {new : Bytes} {xs ys : List Bytes} {w : B} (bs : Bytes) (k : M B)
    (zs : List Bytes)
    → drop (length bs) (joined ys) ≡ joined zs
    → length bs ≤ room
    → RunsAt k (xs ++ (bs ∷ [])) zs (room - length bs) w new left
    → RunsAt (fwrite bs >> k) xs ys room w new left
write_over {B} {room} {left} {new} {xs} {ys} {w} bs k zs e fits d = record {
  run =
      subst (λ o. Done o w new left)
        (sym (
          ap (λ o. then_do o (λ _. k)) (fwrite_over bs (joined xs) (joined ys) room fits)
          ∙ ap (λ l. k (at_place (joined xs ++ bs) l (room - length bs))) e
          ∙ ap (λ l. k (at_place l (joined zs) (room - length bs))) (sym (joined-snoc xs bs))))
        d.run;
}

pub write_seg :
    {B : Type 0} {room left : ℕ} {new : Bytes} {xs : List Bytes} {seg : Bytes} {ys : List Bytes}
    {w : B} (bs : Bytes) (k : M B)
    → length seg ≡ length bs
    → length bs ≤ room
    → RunsAt k (xs ++ (bs ∷ [])) ys (room - length bs) w new left
    → RunsAt (fwrite bs >> k) xs (seg ∷ ys) room w new left
write_seg {B} {room} {left} {new} {xs} {seg} {ys} {w} bs k s fits d =
    write_over bs k ys (drop-append (length bs) seg (joined ys) (sym s)) fits d

pub ends_with :
    {B : Type 0} {room : ℕ} {xs ys : List Bytes} (w : B)
    → RunsAt (return w) xs ys room w (joined (xs ++ ys)) room
ends_with {B} {room} {xs} {ys} w = record {
  run = (
    at_place (joined xs) (joined ys) room,
    refl,
    record { bytes = sym (joined-append xs ys); no_gap = refl; room_left = refl },
  );
}

-- A step that is run from any position, and what comes after it.
pub call :
    {A B : Type 0} {m : M A} {room mid left : ℕ} {old next new : Bytes} {v : A} {w : B}
    (k : A → M B)
    → Runs m old room v next mid
    → Runs (k v) next mid w new left
    → Runs (m >>= k) old room w new left
call {A} {B} {m} {room} {mid} {left} {old} {next} {new} {v} {w} k r d = record {
  run = λ f h.
      let (f', e, h') = r.run f h in
      subst (λ o. Done o w new left) (sym (ap (λ o. then_do o k) e)) (d.run f' h');
}

-- A last write over what stands ahead.
pub write_last_over :
    {room : ℕ} {xs ys : List Bytes} (bs : Bytes) (zs : List Bytes)
    → drop (length bs) (joined ys) ≡ joined zs
    → length bs ≤ room
    → RunsAt (fwrite bs) xs ys room tt (joined (xs ++ (bs ∷ zs))) (room - length bs)
write_last_over {room} {xs} {ys} bs zs e fits = record {
  run = (
    at_place (joined xs ++ bs) (joined zs) (room - length bs),
    fwrite_over bs (joined xs) (joined ys) room fits
        ∙ ap (λ l. ok tt (at_place (joined xs ++ bs) l (room - length bs))) e,
    record {
      bytes = append_assoc (joined xs) bs (joined zs) ∙ sym (joined-append xs (bs ∷ zs));
      no_gap = refl;
      room_left = refl;
    },
  );
}

pub write_last_seg :
    {room : ℕ} {xs : List Bytes} {seg : Bytes} {ys : List Bytes} (bs : Bytes)
    → length seg ≡ length bs
    → length bs ≤ room
    → RunsAt (fwrite bs) xs (seg ∷ ys) room tt (joined (xs ++ (bs ∷ ys))) (room - length bs)
write_last_seg {room} {xs} {seg} {ys} bs s fits =
    write_last_over bs ys (drop-append (length bs) seg (joined ys) (sym s)) fits

-- A result without a step.
pub result : {A : Type 0} {room : ℕ} {old : Bytes} (v : A) → Runs (return v) old room v old room
result v = record { run = λ f h. (f, refl, h) }

-- A segment, found by where it stands.
pub seg_at :
    (p n i : ℕ) (l : List Bytes) (seg : Bytes) (ys : List Bytes)
    → drop i l ≡ seg ∷ ys
    → total (take i l) ≡ p
    → length seg ≡ n
    → take n (drop p (joined l)) ≡ seg
seg_at p n i l seg ys e t s =
    let before = joined (take i l) in
    let cut : joined l ≡ before ++ joined (drop i l) =
      ap joined (sym (take-append-drop i l)) ∙ joined-append (take i l) (drop i l) in
    ap (λ b. take n (drop p b)) cut
    ∙ ap (take n) (drop-append p before (joined (drop i l)) (sym (length-joined (take i l) ∙ t)))
    ∙ ap (λ k. take n (joined k)) e
    ∙ take-append n seg (joined ys) (sym s)

-- A move to the border between two lists of segments.
pub begin_behind :
    {B : Type 0} {room left : ℕ} {new : Bytes} {w : B} (k : M B) (p : ℕ) (xs ys : List Bytes)
    → total xs ≡ p
    → RunsAt k xs ys room w new left
    → Runs (fseek p >> k) (joined (xs ++ ys)) room w new left
begin_behind {B} {room} {left} {new} {w} k p xs ys e d =
    let first = take-append (length xs) xs ys refl in
    let rest = drop-append (length xs) xs ys refl in
    begin_at k p (length xs) (xs ++ ys) (ap total first ∙ e) (
      subst (λ l. RunsAt k l (drop (length xs) (xs ++ ys)) room w new left) (sym first)
        (subst (λ l. RunsAt k xs l room w new left) (sym rest) d))

-- A segment that is a list of segments itself.
pub joined-inline :
    (xs zs ys : List Bytes) → joined (xs ++ (joined zs ∷ ys)) ≡ joined (xs ++ (zs ++ ys))
joined-inline [] zs ys = sym (joined-append zs ys)
joined-inline (x ∷ xs) zs ys = ap (λ l. x ++ l) (joined-inline xs zs ys)

pub total-append : (xs ys : List Bytes) → total (xs ++ ys) ≡ total xs + total ys
total-append [] ys = omega arith
total-append (x ∷ xs) ys = omega (arith, total-append xs ys)
