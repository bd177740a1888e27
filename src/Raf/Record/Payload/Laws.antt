-- ===== src/Raf/Record/Payload/Laws.antt =====
-- Headers and data of a record, written and read back, for every domain.
use tpbench.Prelude.{
  ℕ, ◌≤◌, Bool, true, false, List, [], ◌∷◌, ◌++◌, Option, none, some, ◌≡◌, refl, sym, ap, ◌∙◌,
  arith, append-nil, Bool-cases, inl, inr, ltb, leb, ◌==◌, Bytes, length, take_all, nil_of_length,
}
use tpbench.Raf.File.{opened, fread, M}
use tpbench.Raf.File.Laws.{
  Writes, Writes-fwrite, Writes-return, ◌then_writes◌, Reads, Reads-fread, Reads-return,
  Reads-require, Reads-last, Reads-map, Reads-then, Reads-skip,
}
use tpbench.Raf.Magic.{pos_split, pos_end, ftype_record, build_magic}
use tpbench.Raf.Magic.Detect.{validate-build_magic, length-build_magic}
use tpbench.Raf.Record.{MetaHeader, write_data, write_magic_and_data}
use tpbench.Raf.Record.Header.{
  headers_text, AllStorable, all_stored, Writes-write_headers, Reads-read_headers,
}
use tpbench.Raf.Record.Payload.{
  write_headers_of, read_headers_of, read_data, read_payload, told, success, close_write, loaded,
  close_read,
}

abbrev pub payload_text : ℕ → Bytes → Bytes
payload_text domain bytes =
    build_magic ftype_record domain pos_split ++ (bytes ++ build_magic ftype_record domain pos_end)

no_headers : (n : ℕ) (hs : List MetaHeader) → n ≡ length hs → ltb 0 n ≡ false → hs ≡ []
no_headers n hs c e = sym (nil_of_length hs (ground (arith, c)))

pub Writes-write_headers_of :
    (n : ℕ) (hs : List MetaHeader)
    → n ≡ length hs
    → AllStorable hs
    → Writes (write_headers_of n hs) (headers_text hs)
unfolding write_headers_of
Writes-write_headers_of n hs c s = elim (Bool-cases (ltb 0 n)) [
  | inl e ↦ rw e (rw c (Writes-write_headers hs s))
  | inr e ↦ rw e (rw (no_headers n hs c e) Writes-return)
]

pub Reads-read_headers_of :
    (n : ℕ) (hs : List MetaHeader)
    → n ≡ length hs
    → AllStorable hs
    → Reads (read_headers_of n) (headers_text hs) (all_stored hs)
unfolding read_headers_of
Reads-read_headers_of n hs c s = elim (Bool-cases (ltb 0 n)) [
  | inl e ↦ rw e (rw c (Reads-read_headers hs s))
  | inr e ↦ rw e (rw (no_headers n hs c e) (Reads-return []))
]

Writes-write_data : (bytes : Bytes) → Writes (write_data (some bytes) (length bytes)) bytes
unfolding write_data
Writes-write_data [] = Writes-return
Writes-write_data (c ∷ cs) =
    let n = length (c ∷ cs) in
    let some_data : (n == 0) ≡ false = ground arith in
    let enough : leb n n ≡ true = ground arith in
    rw (some_data, enough, take_all n (c ∷ cs) (omega arith)) (Writes-fwrite (c ∷ cs))

pub Writes-payload :
    (domain : ℕ) (bytes : Bytes)
    → Writes (write_magic_and_data domain (some bytes) (length bytes)) (payload_text domain bytes)
unfolding write_magic_and_data
Writes-payload domain bytes =
    Writes-fwrite (build_magic ftype_record domain pos_split)
    then_writes Writes-write_data bytes
    then_writes Writes-fwrite (build_magic ftype_record domain pos_end)

-- The data that comes back: NULL if there is none, or if it was not asked for.
abbrev pub data_read : Bytes → Option Bytes
data_read [] = none
data_read (c ∷ cs) = some (c ∷ cs)

abbrev pub data_asked : Bool → Bytes → Option Bytes
data_asked true bytes = data_read bytes
data_asked false bytes = none

-- The size that the caller gets: none if the data were not asked for.
abbrev pub size_asked : Bool → Bytes → Option ℕ
size_asked true bytes = some (length bytes)
size_asked false bytes = none

pub told-length : (want : Bool) (bytes : Bytes) → told want (length bytes) ≡ size_asked want bytes
told-length true bytes = refl
told-length false bytes = refl

Reads-read_data :
    (want : Bool) (bytes : Bytes)
    → Reads (read_data want (length bytes)) bytes (data_asked want bytes)
unfolding read_data
Reads-read_data true [] = Reads-return none
Reads-read_data false [] = Reads-return none
Reads-read_data true (c ∷ cs) =
    let some_data : ltb 0 (length (c ∷ cs)) ≡ true = ground arith in
    rw some_data (Reads-map (fread (length (c ∷ cs))) some (c ∷ cs) (Reads-fread _ (c ∷ cs) refl))
Reads-read_data false (c ∷ cs) =
    let some_data : ltb 0 (length (c ∷ cs)) ≡ true = ground arith in
    rw some_data (Reads-skip (c ∷ cs) none)

pub Reads-payload :
    (domain : ℕ) (want : Bool) (bytes : Bytes)
    → Reads
        (read_payload domain want (length bytes))
        (payload_text domain bytes)
        (data_asked want bytes)
unfolding read_payload
Reads-payload domain want bytes =
    Reads-then _ (Reads-fread 8 _ (length-build_magic ftype_record domain pos_split)) (
      Reads-require _ _ _ (validate-build_magic ftype_record domain pos_split) (
        Reads-then _ (Reads-read_data want bytes) (
          Reads-last _ _ _ (Reads-fread 8 _ (length-build_magic ftype_record domain pos_end)) (
            Reads-require _ _ _ (validate-build_magic ftype_record domain pos_end)
              (Reads-return _)))))

-- A file that is written from its start, and one that is read from its start.
pub written-Saved :
    (m : M (Unit {0})) (bs : Bytes) (room : ℕ)
    → Writes m bs
    → length bs ≤ room
    → close_write (m (opened [] room)) ≡ some (success, some bs)
written-Saved m bs room w fits =
    ap close_write (w.run [] room fits) ∙ ap (λ l. some (success, some l)) (append-nil bs)

pub read-Loaded :
    {A : Type 0} (m : M (A × Option ℕ × Option Bytes)) (bs : Bytes) {a : A} {n : Option ℕ}
    {d : Option Bytes}
    → Reads m bs (a, n, d)
    → close_read (m (opened bs 0)) ≡ loaded a n d
read-Loaded m bs r =
    ap (λ l. close_read (m (opened l 0))) (sym (append-nil bs)) ∙ ap close_read (r.run [] [] 0)
