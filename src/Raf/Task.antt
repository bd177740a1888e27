-- ===== src/Raf/Task.antt =====
-- The record file of a task (src/corelib/rafdb/rafdb-l2-task.c).
pub mod RoundTrip
mod Tests
use tpbench.Prelude.{
  ℕ, ◌+◌, ◌*◌, ◌%◌, ◌^◌, Bool, true, false, not, ◌&&◌, ◌||◌, List, [], ◌∷◌, Option, none, some, ltb,
  ◌==◌, if◌then◌else◌, Bytes, length, replicate,
}
use tpbench.Raf.File.{
  File, Outcome, ok, fail, fault, M, ◌>>=◌, ◌>>◌, return, require, contents, opened, fread, fwrite,
  fseek_cur, write_u32, write_u64, read_u32, read_u64,
}
use tpbench.Raf.Magic.{
  magic_len, pos_start, pos_split, pos_end, ftype_record, dom_task, build_magic, validate_magic,
}
use tpbench.Raf.Record.{MetaHeader, hdr_fixed_size, write_magic_and_data}
use tpbench.Raf.Record.Payload.{
  file_io_fail, cli_fail, Saved, close_write, write_headers_of, read_headers_of, read_payload, told,
  Loaded, load_fail, close_read,
}

abbrev pub reserve_size : ℕ
reserve_size = 128

-- `task_attr_t`
pub record TaskAttr : Type 0 where
  pub task_record_id : Bytes
  pub derive_to : Bytes
  pub inherit_from : Bytes
  pub tbatch_id : Bytes
  pub kernel_id : Bytes
  pub utc_bits : ℕ
  pub btime : ℕ
  pub duration : ℕ
  pub exit_code : ℕ
  pub handle_index : ℕ
  pub pid : ℕ
  pub tid : ℕ
  pub ninput : ℕ
  pub noutput : ℕ
  pub nheader : ℕ
  pub reserve : ℕ
  pub headers : List MetaHeader

-- The product is one of `uint32_t`.
pub metasize_of : ℕ → ℕ
metasize_of nheader = 156 + reserve_size + nheader * hdr_fixed_size % 2 ^ 32

-- From `fopen` to `fclose`.
pub write_task_body : TaskAttr → Option Bytes → ℕ → M (Unit {0})
write_task_body attr bytes datasize = do
  fwrite (build_magic ftype_record dom_task pos_start)
  write_u64 (metasize_of attr.nheader)
  write_u64 datasize
  fwrite attr.task_record_id
  fwrite attr.derive_to
  fwrite attr.inherit_from
  fwrite attr.tbatch_id
  fwrite attr.kernel_id
  write_u64 attr.utc_bits
  write_u64 attr.btime
  write_u64 attr.duration
  write_u32 attr.exit_code
  write_u32 attr.handle_index
  write_u32 attr.pid
  write_u32 attr.tid
  write_u32 attr.ninput
  write_u32 attr.noutput
  write_u32 attr.nheader
  write_u32 attr.reserve
  fwrite (replicate reserve_size 0)
  write_headers_of attr.nheader attr.headers
  write_magic_and_data dom_task bytes datasize

-- `tpb_raf_record_write_task` on the file of the record: whether `fopen(.., "wb")` succeeds, and
-- the room that there is on the device. What `fclose` returns is not looked at.
pub record_write_task : Bool → ℕ → Option Bytes → TaskAttr → Option Bytes → ℕ → Saved
record_write_task fopen_ok room disk attr bytes datasize =
    if fopen_ok
    then close_write (write_task_body attr bytes datasize (opened [] room))
    else some (file_io_fail, disk)

-- `tpb_raf_record_create_task_capsule`
pub record_create_task_capsule : Bool → ℕ → Option Bytes → TaskAttr → Bytes → Saved
record_create_task_capsule fopen_ok room disk attr first_task_id =
    if not (attr.nheader == 1) || (not (attr.ninput == 0) || not (attr.noutput == 0))
    then some (cli_fail, disk)
    else record_write_task fopen_ok room disk attr (some first_task_id) 20

-- From `fopen` to `fclose`: the attributes, the size of the data, and the data if asked for.
pub read_task_body : Bool → M (TaskAttr × Option ℕ × Option Bytes)
read_task_body want_data = do
  magic ← fread magic_len
  require (validate_magic magic ftype_record dom_task pos_start)
  metasize ← read_u64
  ds ← read_u64
  task_record_id ← fread 20
  derive_to ← fread 20
  inherit_from ← fread 20
  tbatch_id ← fread 20
  kernel_id ← fread 20
  utc_bits ← read_u64
  btime ← read_u64
  duration ← read_u64
  exit_code ← read_u32
  handle_index ← read_u32
  pid ← read_u32
  tid ← read_u32
  ninput ← read_u32
  noutput ← read_u32
  nheader ← read_u32
  reserve ← read_u32
  reserved ← fread reserve_size
  headers ← read_headers_of nheader
  bytes ← read_payload dom_task want_data ds
  return (
    record {
      task_record_id = task_record_id;
      derive_to = derive_to;
      inherit_from = inherit_from;
      tbatch_id = tbatch_id;
      kernel_id = kernel_id;
      utc_bits = utc_bits;
      btime = btime;
      duration = duration;
      exit_code = exit_code;
      handle_index = handle_index;
      pid = pid;
      tid = tid;
      ninput = ninput;
      noutput = noutput;
      nheader = nheader;
      reserve = reserve;
      headers = headers;
    },
    told want_data ds,
    bytes,
  )

-- `tpb_raf_record_read_task` on the file of the record; `none` cannot be opened.
pub record_read_task : Bool → Option Bytes → Loaded TaskAttr
record_read_task want_data none = load_fail
record_read_task want_data (some bytes) = close_read (read_task_body want_data (opened bytes 0))
