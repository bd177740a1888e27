-- ===== src/Raf/File.antt =====
-- An open binary file as stdio shows it: what lies before and behind the position, and how many
-- bytes the device still takes. A function returns normally, goes to its `fail` label, or does what
-- C leaves undefined (`fault`). Bytes that `fwrite` takes are in the file at once.
pub mod Laws
pub mod Seek
pub mod Segments
use tpbench.Prelude.{
  ℕ, ◌+◌, ◌-◌, Bool, true, false, List, [], ◌∷◌, ◌++◌, leb, ltb, if◌then◌else◌, Bytes, length, take,
  drop, replicate, le_bytes, of_le,
}

-- `gap` is how far the position stands behind the end of the file.
pub record File : Type 0 where
  pub past : Bytes
  pub ahead : Bytes
  pub gap : ℕ
  pub room : ℕ

pub data Outcome {ℓ} (A : Type ℓ) : Type ℓ where
  ok : A → File → Outcome A
  fail : File → Outcome A
  fault : Outcome A

abbrev pub M : Type 0 → Type 0
M A = File → Outcome A

infixl 5 ◌>>=◌
infixr 5 ◌>>◌
abbrev pub then_do : {A B : Type 0} → Outcome A → (A → M B) → Outcome B
then_do (ok a f) k = k a f
then_do (fail f) k = fail f
then_do fault k = fault

abbrev pub ◌>>=◌ : {A B : Type 0} → M A → (A → M B) → M B
◌>>=◌ m k f = then_do (m f) k

abbrev pub ◌>>◌ : {B : Type 0} → M (Unit {0}) → M B → M B
◌>>◌ m k f = then_do (m f) (λ _. k)

abbrev pub return : {A : Type 0} → A → M A
return a f = ok a f

-- `goto fail`
abbrev pub goto_fail : {A : Type 0} → M A
goto_fail f = fail f

abbrev pub require : Bool → M (Unit {0})
require true f = ok tt f
require false f = fail f

-- The bytes of the file, and a file just opened.
abbrev pub contents : File → Bytes
contents f = f.past ++ f.ahead

abbrev pub opened : Bytes → ℕ → File
opened bs room = record { past = []; ahead = bs; gap = 0; room = room }

-- `fread(p, 1, n, fp) != n` goes to fail.
unfoldable pub fread : ℕ → M Bytes
fread n f =
    if leb n (length f.ahead)
    then ok (take n f.ahead) (record f { past = f.past ++ take n f.ahead; ahead = drop n f.ahead })
    else fail (record f { past = f.past ++ f.ahead; ahead = [] })

-- `fwrite(p, 1, n, fp) != n` goes to fail.
unfoldable pub fwrite : Bytes → M (Unit {0})
fwrite bs f =
    if leb (length bs) f.room
    then ok tt (record {
      past = f.past ++ (replicate f.gap 0 ++ bs);
      ahead = drop (length bs) f.ahead;
      gap = 0;
      room = f.room - length bs;
    })
    else fail (record {
      past = f.past ++ (replicate f.gap 0 ++ take f.room bs);
      ahead = drop f.room f.ahead;
      gap = 0;
      room = 0;
    })

-- `fseek(fp, p, SEEK_SET)`
unfoldable pub fseek : ℕ → M (Unit {0})
fseek p f =
    let whole = f.past ++ f.ahead in
    ok tt (record f { past = take p whole; ahead = drop p whole; gap = p - length whole })

-- `fseek(fp, n, SEEK_CUR)`
unfoldable pub fseek_cur : ℕ → M (Unit {0})
unfolding fseek
fseek_cur n f = fseek (length f.past + f.gap + n) f

-- `_tpb_raf_l1_write_u64`, `_u32`, `_tpb_raf_l1_read_u64`, `_u32`
unfoldable pub write_u64 : ℕ → M (Unit {0})
unfolding fwrite
write_u64 v = fwrite (le_bytes 8 v)

unfoldable pub write_u32 : ℕ → M (Unit {0})
unfolding fwrite
write_u32 v = fwrite (le_bytes 4 v)

unfoldable pub read_u64 : M ℕ
unfolding fread
read_u64 = do bs ← fread 8; return (of_le bs)

unfoldable pub read_u32 : M ℕ
unfolding fread
read_u32 = do bs ← fread 4; return (of_le bs)
