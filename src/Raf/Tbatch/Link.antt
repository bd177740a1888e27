-- ===== src/Raf/Tbatch/Link.antt =====
-- A task that is linked to its batch in place (src/corelib/rafdb/rafdb-l3-tbatch-taglink.c): its
-- identifier goes behind the data of the first header, `TaskID`, and before those of the second,
-- `KernelID`, and the sizes are patched.
pub mod Segments
pub mod Checks
pub mod Steps
pub mod Laws
mod Tests
use tpbench.Prelude.{
  ℕ, ◌+◌, ◌/◌, ◌%◌, ◌^◌, Bool, ◌&&◌, ltb, ◌==◌, Bytes, bytes_eq, codes, length, take, get_or,
}
use tpbench.Raf.File.{
  M, ◌>>=◌, ◌>>◌, return, require, fread, fwrite, fseek, write_u64, read_u32, read_u64,
}
use tpbench.Raf.Magic.{magic_len, pos_start, pos_end, ftype_record, dom_tbatch, validate_magic}
use tpbench.Raf.Record.{hdr_serialized_len_at}
use tpbench.Raf.Record.Patch.{Patched, patch_file}

-- `strncmp(namechk, word, hn) == 0` and `namechk[hn] == 0`, on the 256 bytes of a name.
abbrev pub is_name : Bytes → Bytes → Bool
is_name word namechk =
    bytes_eq (take (length word) namechk) word && (get_or namechk (length word) 0 == 0)

-- A place that is computed as a `long`, in two's complement; `fseek` refuses a negative one.
abbrev pub seek_long : {B : Type 0} → ℕ → M B → M B
seek_long p k = require (ltb (p % 2 ^ 64) (2 ^ 63)) >> (fseek (p % 2 ^ 64) >> k)

-- The names and sizes of the two headers: where the second begins, and where both end.
pub check_headers : M (ℕ × ℕ)
check_headers = do
  fseek 256
  nheader ← read_u32
  require (nheader == 2)
  fseek (388 + 32)
  namechk ← fread 256
  require (is_name (codes "TaskID") namechk)
  len0 ← hdr_serialized_len_at 388
  fseek (388 + len0 + 32)
  namechk1 ← fread 256
  require (is_name (codes "KernelID") namechk1)
  len1 ← hdr_serialized_len_at (388 + len0)
  return (388 + len0, 388 + len0 + len1)

-- The sizes of the data of the two headers, which must be those of all data.
pub check_sizes : ℕ → ℕ → ℕ → M (ℕ × ℕ)
check_sizes datasize hdr1_base split_off = do
  fseek (388 + 8)
  hdr0_ds ← read_u64
  fseek (hdr1_base + 8)
  hdr1_ds ← read_u64
  require (hdr0_ds % 20 == 0)
  require ((hdr0_ds + hdr1_ds) % 2 ^ 64 == datasize)
  (seek_long (split_off + 8 + datasize) (do
    magic ← fread magic_len
    require (validate_magic magic ftype_record dom_tbatch pos_end)
    return (hdr0_ds, hdr1_ds)))

-- The identifier goes between the data of the first header and the rest of the file. Where `malloc`
-- fails `fread` would.
pub insert_task : Bytes → ℕ → ℕ → ℕ → M (Unit {0})
insert_task task_id split_off hdr0_ds hdr1_ds = seek_long (split_off + 8 + hdr0_ds) (do
  tail ← fread ((hdr1_ds + magic_len) % 2 ^ 64)
  (seek_long (split_off + 8 + hdr0_ds) (do fwrite task_id; fwrite tail)))

pub patch_sizes : ℕ → ℕ → M (Unit {0})
patch_sizes datasize hdr0_ds = do
  fseek 16
  write_u64 ((datasize + 20) % 2 ^ 64)
  fseek (388 + 8)
  write_u64 ((hdr0_ds + 20) % 2 ^ 64)
  fseek (388 + 2336)
  write_u64 ((hdr0_ds + 20) % 2 ^ 64 / 20)

pub append_tbatch_body : Bytes → M (Unit {0})
append_tbatch_body task_id = do
  magic ← fread magic_len
  require (validate_magic magic ftype_record dom_tbatch pos_start)
  metasize ← read_u64
  datasize ← read_u64
  (hdr1_base, split_off) ← check_headers
  (hdr0_ds, hdr1_ds) ← check_sizes datasize hdr1_base split_off
  insert_task task_id split_off hdr0_ds hdr1_ds
  patch_sizes datasize hdr0_ds

-- `tpb_raf_record_append_tbatch`
pub record_append_tbatch : Bool → Bool → Bool → ℕ → Bytes → Bytes → Patched × Bytes
record_append_tbatch opens locks flushed room bytes task_id =
    patch_file opens locks flushed room (append_tbatch_body task_id) bytes
