-- ===== src/Raf/File/Seek.antt =====
-- Reading and writing at a place of a file, whatever the position before.
use tpbench.Prelude.{
  ℕ, ◌-◌, ◌≤◌, ◌++◌, ◌≡◌, refl, sym, ap, ◌∙◌, subst, Bool, true, arith, append_assoc, length-append,
  drop, drop-append, take-append, Bytes, length,
}
use tpbench.Raf.File.{
  File, Outcome, ok, fail, fault, M, ◌>>=◌, ◌>>◌, then_do, require, fseek, fwrite,
}
use tpbench.Raf.File.Laws.{Reads, fwrite_over}

-- The file holds `whole`, and the device takes `room` bytes.
pub record Holding (whole : Bytes) (room : ℕ) (f : File) : Type 0 where
  pub bytes : f.past ++ f.ahead ≡ whole
  pub no_gap : f.gap ≡ 0
  pub room_left : f.room ≡ room

abbrev pub at_place : Bytes → Bytes → ℕ → File
at_place a b room = record { past = a; ahead = b; gap = 0; room = room }

pub seek_lem :
    (p room : ℕ) (f : File) (a b : Bytes)
    → Holding (a ++ b) room f
    → length a ≡ p
    → fseek p f ≡ ok tt (at_place a b room)
unfolding fseek
seek_lem p room f a b h n =
    let whole = length-append a b in
    let none_left : p - length (a ++ b) ≡ 0 = omega arith in
    rw (h.bytes, h.room_left, take-append p a b (sym n), drop-append p a b (sym n), none_left)

-- A run that ends with a value and a file that holds `whole`.
abbrev pub Done : {A : Type 0} → Outcome A → A → Bytes → ℕ → Type 0
Done o v whole room = (f : File) × (o ≡ ok v f) × Holding whole room f

-- A read where the position is, at `p`, and a check.
pub read_here :
    {A B : Type 0} (m : M A) (k : A → M B) (room left : ℕ) (whole a seg b : Bytes) {v : A} {w : B}
    → Reads m seg v
    → Done (k v (at_place (a ++ seg) b room)) w whole left
    → Done ((m >>= k) (at_place a (seg ++ b) room)) w whole left
read_here m k room left whole a seg b {v} {w} r d =
    subst (λ o. Done o w whole left) (sym (ap (λ o. then_do o k) (r.run a b room))) d

-- From any position of a file that holds `old`, `m` ends with `w` and a file that holds `new`.
pub record Runs {A : Type 0} (m : M A) (old : Bytes) (room : ℕ) (w : A) (new : Bytes) (left : ℕ)
    : Type 0 where
  pub run : (f : File) → Holding old room f → Done (m f) w new left

pub read_at :
    {A B : Type 0} (m : M A) (k : A → M B) (p room left : ℕ) (whole new a seg b : Bytes) {v : A}
    {w : B}
    → a ++ (seg ++ b) ≡ whole
    → length a ≡ p
    → Reads m seg v
    → Runs (k v) whole room w new left
    → Runs (fseek p >> (m >>= k)) whole room w new left
read_at m k p room left whole new a seg b {v} {w} e n r d = record {
  run = λ f h.
      let start : Holding (a ++ (seg ++ b)) room f = record {
        bytes = h.bytes ∙ sym e;
        no_gap = h.no_gap;
        room_left = h.room_left;
      } in
      subst (λ o. Done o w new left)
        (sym (
          ap (λ o. then_do o (λ _. m >>= k)) (seek_lem p room f a (seg ++ b) start n)
          ∙ ap (λ o. then_do o k) (r.run a b room)))
        (d.run (at_place (a ++ seg) b room)
          (record { bytes = append_assoc a seg b ∙ e; no_gap = refl; room_left = refl }));
}

pub check_that :
    {B : Type 0} (b : Bool) (k : M B) (room left : ℕ) (old new : Bytes) {w : B}
    → b ≡ true
    → Runs k old room w new left
    → Runs (require b >> k) old room w new left
check_that b k room left old new {w} e d =
    subst (λ c. Runs (require c >> k) old room w new left) (sym e) (record { run = d.run })

-- A write at `p` over as many bytes, with what comes behind it and as the last.
write_lem :
    (bs : Bytes) (p room : ℕ) (f : File) (whole a seg b : Bytes)
    → Holding whole room f
    → a ++ (seg ++ b) ≡ whole
    → length a ≡ p
    → length seg ≡ length bs
    → length bs ≤ room
    → (fseek p >> fwrite bs) f ≡ ok tt (at_place (a ++ bs) b (room - length bs))
write_lem bs p room f whole a seg b h e n s fits =
    let start : Holding (a ++ (seg ++ b)) room f = record {
      bytes = h.bytes ∙ sym e;
      no_gap = h.no_gap;
      room_left = h.room_left;
    } in
    let behind : drop (length bs) (seg ++ b) ≡ b = drop-append (length bs) seg b (sym s) in
    ap (λ o. then_do o (λ _. fwrite bs)) (seek_lem p room f a (seg ++ b) start n)
    ∙ fwrite_over bs a (seg ++ b) room fits
    ∙ ap (λ l. ok tt (at_place (a ++ bs) l (room - length bs))) behind

pub write_last :
    (bs : Bytes) (p room : ℕ) (whole new a seg b : Bytes)
    → a ++ (seg ++ b) ≡ whole
    → a ++ (bs ++ b) ≡ new
    → length a ≡ p
    → length seg ≡ length bs
    → length bs ≤ room
    → Runs (fseek p >> fwrite bs) whole room tt new (room - length bs)
write_last bs p room whole new a seg b e e' n s fits = record {
  run = λ f h. (
    at_place (a ++ bs) b (room - length bs),
    write_lem bs p room f whole a seg b h e n s fits,
    record { bytes = append_assoc a bs b ∙ e'; no_gap = refl; room_left = refl },
  );
}

then_assoc :
    {B : Type 0} (o : Outcome (Unit {0})) (m : M (Unit {0})) (k : M B)
    → then_do o (λ _. m >> k) ≡ then_do (then_do o (λ _. m)) (λ _. k)
then_assoc (ok tt f) m k = refl
then_assoc (fail f) m k = refl
then_assoc fault m k = refl

pub then_assoc_two :
    {B : Type 0} (o : Outcome (Unit {0})) (l m : M (Unit {0})) (k : M B)
    → then_do o (λ _. l >> m >> k) ≡ then_do (then_do o (λ _. l >> m)) (λ _. k)
then_assoc_two (ok tt f) l m k = then_assoc (l f) m k
then_assoc_two (fail f) l m k = refl
then_assoc_two fault l m k = refl

pub write_at :
    {B : Type 0} (bs : Bytes) (k : M B) (p room left : ℕ) (whole next new a seg b : Bytes) {w : B}
    → a ++ (seg ++ b) ≡ whole
    → a ++ (bs ++ b) ≡ next
    → length a ≡ p
    → length seg ≡ length bs
    → length bs ≤ room
    → Runs k next (room - length bs) w new left
    → Runs (fseek p >> (fwrite bs >> k)) whole room w new left
write_at bs k p room left whole next new a seg b {w} e e' n s fits d = record {
  run = λ f h.
      subst (λ o. Done o w new left)
        (sym (
          then_assoc (fseek p f) (fwrite bs) k
          ∙ ap (λ o. then_do o (λ _. k)) (write_lem bs p room f whole a seg b h e n s fits)))
        (d.run (at_place (a ++ bs) b (room - length bs))
          (record { bytes = append_assoc a bs b ∙ e'; no_gap = refl; room_left = refl }));
}

-- A run over the same bytes, written another way.
pub run_over :
    {A : Type 0} {m : M A} {room left : ℕ} {old old' new new' : Bytes} {w : A}
    → old ≡ old'
    → new' ≡ new
    → Runs m old' room w new' left
    → Runs m old room w new left
run_over {A} {m} {room} {left} {old} {old'} {new} {new'} {w} e e' r =
    subst (λ l. Runs m l room w new left) (sym e) (subst (λ l. Runs m old' room w l left) e' r)
