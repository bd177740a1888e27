-- ===== src/Raf/Record/Header.antt =====
-- Headers on disk: what is written is read back, and what a corrupt count of dimensions does.
use tpbench.Prelude.{
  ℕ, zero, suc, ◌-◌, ◌^◌, ◌≤◌, ◌<◌, List, [], ◌∷◌, ◌++◌, ◌≡◌, arith, Bytes, length, take, replicate,
  le_bytes,
}
use tpbench.Raf.File.{ok, fread, read_u32, read_u64}
use tpbench.Raf.File.Laws.{
  Writes, Writes-fwrite, Writes-return, ◌then_writes◌, Writes-write_u32, Writes-write_u64, Reads,
  Reads-fread, Reads-return, Reads-bind, Reads-map, Reads-read_u32, Reads-read_u64,
}
use tpbench.Raf.Record.{
  hdr_fixed_size, MetaHeader, write_dimsizes, write_dimnames, write_header, write_headers,
  read_dimsizes, read_dimnames, read_header, read_headers,
}

-- The bytes of the first `k` dimensions.
abbrev pub sizes_text : ℕ → List ℕ → Bytes
sizes_text zero ds = []
sizes_text (suc k) [] = []
sizes_text (suc k) (d ∷ ds) = le_bytes 8 d ++ sizes_text k ds

abbrev pub names_text : ℕ → List Bytes → Bytes
names_text zero ds = []
names_text (suc k) [] = []
names_text (suc k) (d ∷ ds) = d ++ names_text k ds

abbrev pub header_text : MetaHeader → Bytes
header_text h =
    le_bytes 4 hdr_fixed_size
    ++ (le_bytes 4 h.ndim
        ++ (le_bytes 8 h.data_size
            ++ (le_bytes 4 h.type_bits
                ++ (le_bytes 4 h.reserve
                    ++ (le_bytes 8 h.uattr_bits
                        ++ (h.name
                            ++ (h.tag
                                ++ (h.note
                                    ++ (sizes_text h.ndim h.dimsizes
                                        ++ names_text h.ndim h.dimnames)))))))))

abbrev pub headers_text : List MetaHeader → Bytes
headers_text [] = []
headers_text (h ∷ hs) = header_text h ++ headers_text hs

-- What a header must be to be stored: values that fit their fields, and full arrays.
abbrev pub AllBelow : ℕ → List ℕ → Type 0
AllBelow n [] = Unit
AllBelow n (x ∷ xs) = (x < n) × AllBelow n xs

abbrev pub AllLength : ℕ → List Bytes → Type 0
AllLength n [] = Unit
AllLength n (x ∷ xs) = (length x ≡ n) × AllLength n xs

pub record IsStorable (h : MetaHeader) : Type 0 where
  pub dims : h.ndim ≤ 7
  pub data_size_fits : h.data_size < 2 ^ 64
  pub type_bits_fits : h.type_bits < 2 ^ 32
  pub reserve_fits : h.reserve < 2 ^ 32
  pub uattr_bits_fits : h.uattr_bits < 2 ^ 64
  pub name_size : length h.name ≡ 256
  pub tag_size : length h.tag ≡ 256
  pub note_size : length h.note ≡ 2048
  pub sizes_count : length h.dimsizes ≡ 7
  pub sizes_fit : AllBelow (2 ^ 64) h.dimsizes
  pub names_count : length h.dimnames ≡ 7
  pub names_size : AllLength 64 h.dimnames

-- A header as it comes back: the block size that is written for every header, and nothing in the
-- dimensions that it does not use.
abbrev pub stored : MetaHeader → MetaHeader
stored h = record h {
  block_size = hdr_fixed_size;
  dimsizes = take h.ndim h.dimsizes ++ replicate (7 - h.ndim) 0;
  dimnames = take h.ndim h.dimnames ++ replicate (7 - h.ndim) (replicate 64 0);
}

Writes-dimsizes :
    (k : ℕ) (ds : List ℕ) → k ≤ length ds → Writes (write_dimsizes k ds) (sizes_text k ds)
unfolding write_dimsizes
Writes-dimsizes zero ds h = Writes-return
Writes-dimsizes (suc k) [] h = absurd (omega arith)
Writes-dimsizes (suc k) (d ∷ ds) h =
    Writes-write_u64 d then_writes Writes-dimsizes k ds (omega arith)

Writes-dimnames :
    (k : ℕ) (ds : List Bytes) → k ≤ length ds → Writes (write_dimnames k ds) (names_text k ds)
unfolding write_dimnames
Writes-dimnames zero ds h = Writes-return
Writes-dimnames (suc k) [] h = absurd (omega arith)
Writes-dimnames (suc k) (d ∷ ds) h = Writes-fwrite d then_writes Writes-dimnames k ds (omega arith)

pub Writes-write_header : (h : MetaHeader) → IsStorable h → Writes (write_header h) (header_text h)
unfolding write_header
Writes-write_header h s =
    Writes-write_u32 hdr_fixed_size
    then_writes Writes-write_u32 h.ndim
    then_writes Writes-write_u64 h.data_size
    then_writes Writes-write_u32 h.type_bits
    then_writes Writes-write_u32 h.reserve
    then_writes Writes-write_u64 h.uattr_bits
    then_writes Writes-fwrite h.name
    then_writes Writes-fwrite h.tag
    then_writes Writes-fwrite h.note
    then_writes Writes-dimsizes h.ndim h.dimsizes (omega arith)
    then_writes Writes-dimnames h.ndim h.dimnames (omega arith)

Reads-dimsizes :
    (k slots : ℕ) (ds : List ℕ)
    → length ds ≡ slots
    → k ≤ slots
    → AllBelow (2 ^ 64) ds
    → Reads (read_dimsizes k slots) (sizes_text k ds) (take k ds ++ replicate (slots - k) 0)
unfolding read_dimsizes
Reads-dimsizes zero slots ds n h b =
    let e : slots - 0 ≡ slots = omega arith in rw e (Reads-return (replicate slots 0))
Reads-dimsizes (suc k) slots [] n h b = absurd (omega arith)
Reads-dimsizes (suc k) zero (d ∷ ds) n h b = absurd (omega arith)
Reads-dimsizes (suc k) (suc slots) (d ∷ ds) n h b =
    let e : suc slots - suc k ≡ slots - k = omega arith in
    Reads-bind read_u64 _ (le_bytes 8 d) (sizes_text k ds) (Reads-read_u64 d b.0) (
      rw e (
        Reads-map (read_dimsizes k slots) (λ vs. d ∷ vs) (sizes_text k ds)
          (Reads-dimsizes k slots ds (omega arith) (omega arith) b.1)))

Reads-dimnames :
    (k slots : ℕ) (ds : List Bytes)
    → length ds ≡ slots
    → k ≤ slots
    → AllLength 64 ds
    → Reads
        (read_dimnames k slots)
        (names_text k ds)
        (take k ds ++ replicate (slots - k) (replicate 64 0))
unfolding read_dimnames
Reads-dimnames zero slots ds n h b =
    let e : slots - 0 ≡ slots = omega arith in
    rw e (Reads-return (replicate slots (replicate 64 0)))
Reads-dimnames (suc k) slots [] n h b = absurd (omega arith)
Reads-dimnames (suc k) zero (d ∷ ds) n h b = absurd (omega arith)
Reads-dimnames (suc k) (suc slots) (d ∷ ds) n h b =
    let e : suc slots - suc k ≡ slots - k = omega arith in
    Reads-bind (fread 64) _ d (names_text k ds) (Reads-fread 64 d b.0) (
      rw e (
        Reads-map (read_dimnames k slots) (λ vs. d ∷ vs) (names_text k ds)
          (Reads-dimnames k slots ds (omega arith) (omega arith) b.1)))

pub Reads-read_header :
    (h : MetaHeader) → IsStorable h → Reads read_header (header_text h) (stored h)
unfolding read_header
Reads-read_header h s =
    let ndim_fits : h.ndim < 2 ^ 32 = omega (arith, s.dims) in
    Reads-bind read_u32 _ _ _ (Reads-read_u32 hdr_fixed_size (omega arith)) (
      Reads-bind read_u32 _ _ _ (Reads-read_u32 h.ndim ndim_fits) (
        Reads-bind read_u64 _ _ _ (Reads-read_u64 h.data_size s.data_size_fits) (
          Reads-bind read_u32 _ _ _ (Reads-read_u32 h.type_bits s.type_bits_fits) (
            Reads-bind read_u32 _ _ _ (Reads-read_u32 h.reserve s.reserve_fits) (
              Reads-bind read_u64 _ _ _ (Reads-read_u64 h.uattr_bits s.uattr_bits_fits) (
                Reads-bind (fread 256) _ _ _ (Reads-fread 256 h.name s.name_size) (
                  Reads-bind (fread 256) _ _ _ (Reads-fread 256 h.tag s.tag_size) (
                    Reads-bind (fread 2048) _ _ _ (Reads-fread 2048 h.note s.note_size) (
                      Reads-bind (read_dimsizes h.ndim 7) _ _ _
                        (Reads-dimsizes h.ndim 7 h.dimsizes s.sizes_count s.dims s.sizes_fit)
                        (Reads-map (read_dimnames h.ndim 7) _ _ (
                          Reads-dimnames h.ndim 7 h.dimnames s.names_count s.dims
                            s.names_size)))))))))))

abbrev pub AllStorable : List MetaHeader → Type 0
AllStorable [] = Unit
AllStorable (h ∷ hs) = IsStorable h × AllStorable hs

abbrev pub all_stored : List MetaHeader → List MetaHeader
all_stored [] = []
all_stored (h ∷ hs) = stored h ∷ all_stored hs

pub Writes-write_headers :
    (hs : List MetaHeader)
    → AllStorable hs
    → Writes (write_headers (length hs) hs) (headers_text hs)
unfolding write_headers
Writes-write_headers [] s = Writes-return
Writes-write_headers (h ∷ hs) s = Writes-write_header h s.0 then_writes Writes-write_headers hs s.1

pub Reads-read_headers :
    (hs : List MetaHeader)
    → AllStorable hs
    → Reads (read_headers (length hs)) (headers_text hs) (all_stored hs)
unfolding read_headers
Reads-read_headers [] s = Reads-return []
Reads-read_headers (h ∷ hs) s =
    Reads-bind read_header _ (header_text h) (headers_text hs) (Reads-read_header h s.0) (
      Reads-map (read_headers (length hs)) (λ l. stored h ∷ l) (headers_text hs)
        (Reads-read_headers hs s.1))

-- Headers written to a file with room for them are read back, with the block size that is always
-- written and with the unused dimensions cleared.
pub read-write_headers :
    (hs : List MetaHeader) (past rest : Bytes) (room : ℕ)
    → AllStorable hs
    → length (headers_text hs) ≤ room
    → (write_headers (length hs) hs (record { past = past; ahead = []; gap = 0; room = room })
        ≡ ok tt (record {
          past = past ++ headers_text hs;
          ahead = [];
          gap = 0;
          room = room - length (headers_text hs);
        }))
      × (read_headers
            (length hs)
            (record { past = past; ahead = headers_text hs ++ rest; gap = 0; room = room })
          ≡ ok
              (all_stored hs)
              (record { past = past ++ headers_text hs; ahead = rest; gap = 0; room = room }))
read-write_headers hs past rest room s h =
    ((Writes-write_headers hs s).run past room h, (Reads-read_headers hs s).run past rest room)
