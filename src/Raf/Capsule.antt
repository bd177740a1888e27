-- ===== src/Raf/Capsule.antt =====
-- The growth of a capsule in place (src/corelib/rafdb/rafdb-l3-task-taglink.c): a task identifier is
-- written over the end signature of the capsule's record, and the sizes are patched.
pub mod Text
pub mod Grow
pub mod Append
mod Tests
use tpbench.Prelude.{
  ℕ, ◌+◌, ◌*◌, ◌/◌, ◌%◌, ◌^◌, Bool, true, false, not, ◌&&◌, Option, none, some, ltb, ◌==◌,
  if◌then◌else◌, Bytes, bytes_eq, codes, take, get_or,
}
use tpbench.Raf.File.{
  File, Outcome, ok, fail, fault, M, ◌>>=◌, ◌>>◌, require, contents, opened, fread, fwrite, fseek,
  write_u64, read_u32, read_u64,
}
use tpbench.Raf.Magic.{
  magic_len, pos_start, pos_end, ftype_record, dom_task, build_magic, validate_magic,
}

-- `strncmp(namechk, "TaskID", 6) == 0` and `namechk[6] == 0`, on the 256 bytes of a name.
abbrev pub is_capsule_name : Bytes → Bool
is_capsule_name namechk = bytes_eq (take 6 namechk) (codes "TaskID") && (get_or namechk 6 0 == 0)

-- The `long` of the end signature in two's complement.
abbrev pub end_offset : ℕ → ℕ → ℕ
end_offset hdr0_ndim datasize =
    (308 + 32 + 256 + 256 + 2048 + hdr0_ndim * 8 + hdr0_ndim * 64 + 8 + datasize) % 2 ^ 64

-- The checks: the offset of the end signature and the size of the data. `fseek` refuses an offset
-- that is negative.
pub check_rest : ℕ → M (ℕ × ℕ)
check_rest datasize = do
  fseek 172
  nheader ← read_u32
  require (nheader == 1)
  fseek 340
  namechk ← fread 256
  require (is_capsule_name namechk)
  require (datasize % 20 == 0)
  fseek 312
  hdr0_ndim ← read_u32
  require (ltb (end_offset hdr0_ndim datasize) (2 ^ 63))
  fseek (end_offset hdr0_ndim datasize)
  check ← fread magic_len
  require (validate_magic check ftype_record dom_task pos_end)
  (λ f. ok (end_offset hdr0_ndim datasize, datasize) f)

abbrev pub check_sizes : M (ℕ × ℕ)
check_sizes = do metasize ← read_u64; datasize ← read_u64; check_rest datasize

pub check_capsule : M (ℕ × ℕ)
unfolding check_rest
check_capsule = do
  magic ← fread magic_len
  require (validate_magic magic ftype_record dom_task pos_start)
  check_sizes

-- The writes: the identifier and the end signature, and the three sizes.
pub grow_capsule : Bytes → ℕ → ℕ → M (Unit {0})
grow_capsule task_id end_magic_off datasize = do
  fseek end_magic_off
  fwrite task_id
  fwrite (build_magic ftype_record dom_task pos_end)
  fseek 16
  write_u64 ((datasize + 20) % 2 ^ 64)
  fseek 316
  write_u64 ((datasize + 20) % 2 ^ 64)
  fseek 2900
  write_u64 ((datasize + 20) % 2 ^ 64 / 20)

pub append_capsule_body : Bytes → M (Unit {0})
unfolding check_capsule grow_capsule
append_capsule_body task_id = do (off, datasize) ← check_capsule; grow_capsule task_id off datasize

pub data Appended : Type 0 where
  success file_io_fail : Appended

abbrev pub close_capsule : Bool → Bytes → Outcome (Unit {0}) → Appended × Bytes
close_capsule flushed bytes (ok _ f) = (if flushed then success else file_io_fail, contents f)
close_capsule flushed bytes (fail f) = (file_io_fail, contents f)
close_capsule flushed bytes fault = (file_io_fail, bytes)

-- `tpb_raf_record_append_task_capsule` on the bytes of the file: whether it can be opened, locked
-- and flushed, and the bytes that the device takes. The file is not buffered.
pub record_append_task_capsule : Bool → Bool → Bool → ℕ → Bytes → Bytes → Appended × Bytes
unfolding append_capsule_body
record_append_task_capsule opens locks flushed room bytes task_id =
    if not opens
    then (file_io_fail, bytes)
    else if not locks
    then (file_io_fail, bytes)
    else close_capsule flushed bytes (append_capsule_body task_id (opened bytes room))
