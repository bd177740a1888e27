-- ===== src/Raf/Record.antt =====
-- The headers of a record file (src/corelib/rafdb/rafdb-l1-record-io.c). An array of the program is
-- a list; reading or storing behind its end is `fault`. The memory that `calloc` gives is zero.
pub mod Header
pub mod Patch
pub mod Payload
pub mod Span
pub mod Corrupt
pub mod Tests
use tpbench.Prelude.{
  ℕ, zero, suc, ◌+◌, ◌-◌, ◌*◌, ◌^◌, ◌%◌, Bool, true, false, ◌&&◌, ◌||◌, List, [], ◌∷◌, ◌++◌, Option,
  none, some, ltb, leb, ◌==◌, if◌then◌else◌, Bytes, length, take, drop, replicate, bytes_eq,
}
use tpbench.Raf.File.{
  File, Outcome, fault, M, ◌>>=◌, ◌>>◌, return, fread, fwrite, fseek, write_u32, write_u64,
  read_u32, read_u64,
}
use tpbench.Raf.Magic.{pos_split, pos_end, ftype_record, build_magic}

abbrev pub ndim_max : ℕ
ndim_max = 7

abbrev pub hdr_fixed_size : ℕ
hdr_fixed_size = 3096

-- `tpb_meta_header_t`; the last two are arrays of `ndim_max` places.
pub record MetaHeader : Type 0 where
  pub block_size : ℕ
  pub ndim : ℕ
  pub data_size : ℕ
  pub type_bits : ℕ
  pub reserve : ℕ
  pub uattr_bits : ℕ
  pub name : Bytes
  pub tag : Bytes
  pub note : Bytes
  pub dimsizes : List ℕ
  pub dimnames : List Bytes

abbrev pub undefined : {A : Type 0} → M A
undefined f = fault

-- The loops over `j < ndim`, on what is left of the count and of the array.
pub write_dimsizes : ℕ → List ℕ → M (Unit {0})
write_dimsizes zero ds = return tt
write_dimsizes (suc k) [] = undefined
write_dimsizes (suc k) (d ∷ ds) = write_u64 d >> write_dimsizes k ds

pub write_dimnames : ℕ → List Bytes → M (Unit {0})
write_dimnames zero ds = return tt
write_dimnames (suc k) [] = undefined
write_dimnames (suc k) (d ∷ ds) = fwrite d >> write_dimnames k ds

pub write_header : MetaHeader → M (Unit {0})
unfolding write_dimsizes write_dimnames
write_header h = do
  write_u32 hdr_fixed_size
  write_u32 h.ndim
  write_u64 h.data_size
  write_u32 h.type_bits
  write_u32 h.reserve
  write_u64 h.uattr_bits
  fwrite h.name
  fwrite h.tag
  fwrite h.note
  write_dimsizes h.ndim h.dimsizes
  write_dimnames h.ndim h.dimnames

-- `_tpb_raf_l1_hdr_serialized_len_at`
unfoldable pub hdr_serialized_len_at : ℕ → M ℕ
hdr_serialized_len_at hdr_base = do
  fseek (hdr_base + 4)
  ndim ← read_u32
  return (32 + 256 + 256 + 2048 + ndim * 8 + ndim * 64)

-- `_tpb_raf_l1_write_headers`: `n` is the count, the list the array.
pub write_headers : ℕ → List MetaHeader → M (Unit {0})
write_headers zero hs = return tt
write_headers (suc n) [] = undefined
write_headers (suc n) (h ∷ hs) = write_header h >> write_headers n hs

-- Filling an array of `slots` zeros from the front with `k` values.
pub read_dimsizes : ℕ → ℕ → M (List ℕ)
read_dimsizes zero slots = return (replicate slots 0)
read_dimsizes (suc k) zero = do v ← read_u64; undefined
read_dimsizes (suc k) (suc slots) = do v ← read_u64; vs ← read_dimsizes k slots; return (v ∷ vs)

pub read_dimnames : ℕ → ℕ → M (List Bytes)
read_dimnames zero slots = return (replicate slots (replicate 64 0))
read_dimnames (suc k) zero = do v ← fread 64; undefined
read_dimnames (suc k) (suc slots) = do v ← fread 64; vs ← read_dimnames k slots; return (v ∷ vs)

pub read_header : M MetaHeader
unfolding read_dimsizes read_dimnames
read_header = do
  block_size ← read_u32
  ndim ← read_u32
  data_size ← read_u64
  type_bits ← read_u32
  reserve ← read_u32
  uattr_bits ← read_u64
  name ← fread 256
  tag ← fread 256
  note ← fread 2048
  dimsizes ← read_dimsizes ndim ndim_max
  dimnames ← read_dimnames ndim ndim_max
  return (record {
    block_size = block_size;
    ndim = ndim;
    data_size = data_size;
    type_bits = type_bits;
    reserve = reserve;
    uattr_bits = uattr_bits;
    name = name;
    tag = tag;
    note = note;
    dimsizes = dimsizes;
    dimnames = dimnames;
  })

-- `_tpb_raf_l1_read_headers`
pub read_headers : ℕ → M (List MetaHeader)
read_headers zero = return []
read_headers (suc n) = do h ← read_header; hs ← read_headers n; return (h ∷ hs)

-- `fwrite(data, 1, datasize, fp)`, where `data` may be NULL.
unfoldable pub write_data : Option Bytes → ℕ → M (Unit {0})
write_data none datasize = return tt
write_data (some bytes) datasize =
    if datasize == 0
    then return tt
    else if leb datasize (length bytes)
    then fwrite (take datasize bytes)
    else undefined

-- `_tpb_raf_l1_write_magic_and_data`
unfoldable pub write_magic_and_data : ℕ → Option Bytes → ℕ → M (Unit {0})
unfolding write_data
write_magic_and_data domain bytes datasize = do
  fwrite (build_magic ftype_record domain pos_split)
  write_data bytes datasize
  fwrite (build_magic ftype_record domain pos_end)

-- The bytes of a block up to its first NUL, as `strcmp` sees them.
abbrev pub c_string : Bytes → Bytes
c_string [] = []
c_string (c ∷ cs) = let rest = c ∷ c_string cs in if c == 0 then [] else rest

-- `_tpb_raf_l1_find_header_by_name`, from index `i` on; `none` is -1.
find_from : ℕ → List MetaHeader → Bytes → Option ℕ
find_from i [] name = none
find_from i (h ∷ hs) name =
    let rest = find_from (i + 1) hs name in if bytes_eq (c_string h.name) name then some i else rest

pub find_header_by_name : List MetaHeader → Bytes → Option ℕ
unfolding find_from
find_header_by_name hs name = find_from 0 hs name

-- `tpb_raf_header_data_ptr`: the offset and the number of bytes, or why there is none. The sums are
-- of `uint64_t`.
pub data Pointed : Type 0 where
  span : ℕ → ℕ → Pointed
  list_not_found file_io_fail nullptr_arg : Pointed

unfoldable pub offset_from : ℕ → ℕ → List MetaHeader → ℕ
offset_from off zero hs = off
offset_from off (suc i) [] = off
offset_from off (suc i) (h ∷ hs) = offset_from ((off + h.data_size) % 2 ^ 64) i hs

unfoldable pub size_at : ℕ → List MetaHeader → ℕ
size_at i [] = 0
size_at zero (h ∷ hs) = h.data_size
size_at (suc i) (h ∷ hs) = size_at i hs

pub header_data_ptr : List MetaHeader → Bool → ℕ → ℕ → Pointed
unfolding offset_from size_at
header_data_ptr hs has_data datasize idx =
    let off = offset_from 0 idx hs in
    let dsz = size_at idx hs in
    if leb (length hs) idx
    then list_not_found
    else if ltb datasize off || ltb (datasize - off) dsz
    then file_io_fail
    else if (if has_data then false else true) && (ltb 0 off || ltb 0 dsz)
    then nullptr_arg
    else span off dsz
