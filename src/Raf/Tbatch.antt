-- ===== src/Raf/Tbatch.antt =====
-- The record file of a tbatch (src/corelib/rafdb/rafdb-l2-tbatch.c).
pub mod RoundTrip
pub mod Counters
pub mod Link
mod Tests
use tpbench.Prelude.{
  ℕ, ◌+◌, ◌*◌, ◌%◌, ◌^◌, Bool, List, [], Option, none, some, if◌then◌else◌, Bytes, replicate,
}
use tpbench.Raf.File.{
  M, ◌>>=◌, ◌>>◌, return, require, opened, fread, fwrite, write_u32, write_u64, read_u32, read_u64,
}
use tpbench.Raf.Magic.{magic_len, pos_start, ftype_record, dom_tbatch, build_magic, validate_magic}
use tpbench.Raf.Record.{MetaHeader, hdr_fixed_size, write_magic_and_data}
use tpbench.Raf.Record.Payload.{
  file_io_fail, Saved, close_write, write_headers_of, read_headers_of, read_payload, told, Loaded,
  load_fail, close_read,
}

-- `tbatch_attr_t`
pub record TbatchAttr : Type 0 where
  pub tbatch_id : Bytes
  pub derive_to : Bytes
  pub inherit_from : Bytes
  pub utc_bits : ℕ
  pub btime : ℕ
  pub duration : ℕ
  pub hostname : Bytes
  pub username : Bytes
  pub front_pid : ℕ
  pub nkernel : ℕ
  pub ntask : ℕ
  pub nscore : ℕ
  pub batch_type : ℕ
  pub nheader : ℕ
  pub headers : List MetaHeader

-- The product is one of `uint32_t`.
pub metasize_of : ℕ → ℕ
metasize_of nheader = 236 + 128 + nheader * hdr_fixed_size % 2 ^ 32

-- From `fopen` to `fclose`.
pub write_tbatch_body : TbatchAttr → Option Bytes → ℕ → M (Unit {0})
write_tbatch_body attr bytes datasize = do
  fwrite (build_magic ftype_record dom_tbatch pos_start)
  write_u64 (metasize_of attr.nheader)
  write_u64 datasize
  fwrite attr.tbatch_id
  fwrite attr.derive_to
  fwrite attr.inherit_from
  write_u64 attr.utc_bits
  write_u64 attr.btime
  write_u64 attr.duration
  fwrite attr.hostname
  fwrite attr.username
  write_u32 attr.front_pid
  write_u32 attr.nkernel
  write_u32 attr.ntask
  write_u32 attr.nscore
  write_u32 attr.batch_type
  write_u32 attr.nheader
  fwrite (replicate 128 0)
  write_headers_of attr.nheader attr.headers
  write_magic_and_data dom_tbatch bytes datasize

-- `tpb_raf_record_write_tbatch` on the file of the record: whether `fopen(.., "wb")` succeeds, and the
-- room that there is on the device. What `fclose` returns is not looked at.
pub record_write_tbatch : Bool → ℕ → Option Bytes → TbatchAttr → Option Bytes → ℕ → Saved
record_write_tbatch fopen_ok room disk attr bytes datasize =
    if fopen_ok
    then close_write (write_tbatch_body attr bytes datasize (opened [] room))
    else some (file_io_fail, disk)

-- From `fopen` to `fclose`: the attributes, the size of the data, and the data if asked for. A
-- caller that does not ask for the data is not told their size either.
pub read_tbatch_body : Bool → M (TbatchAttr × Option ℕ × Option Bytes)
read_tbatch_body want_data = do
  magic ← fread magic_len
  require (validate_magic magic ftype_record dom_tbatch pos_start)
  metasize ← read_u64
  ds ← read_u64
  tbatch_id ← fread 20
  derive_to ← fread 20
  inherit_from ← fread 20
  utc_bits ← read_u64
  btime ← read_u64
  duration ← read_u64
  hostname ← fread 64
  username ← fread 64
  front_pid ← read_u32
  nkernel ← read_u32
  ntask ← read_u32
  nscore ← read_u32
  batch_type ← read_u32
  nheader ← read_u32
  reserved ← fread 128
  headers ← read_headers_of nheader
  bytes ← read_payload dom_tbatch want_data ds
  return (
    record {
      tbatch_id = tbatch_id;
      derive_to = derive_to;
      inherit_from = inherit_from;
      utc_bits = utc_bits;
      btime = btime;
      duration = duration;
      hostname = hostname;
      username = username;
      front_pid = front_pid;
      nkernel = nkernel;
      ntask = ntask;
      nscore = nscore;
      batch_type = batch_type;
      nheader = nheader;
      headers = headers;
    },
    told want_data ds,
    bytes,
  )

-- `tpb_raf_record_read_tbatch` on the file of the record; `none` cannot be opened.
pub record_read_tbatch : Bool → Option Bytes → Loaded TbatchAttr
record_read_tbatch want_data none = load_fail
record_read_tbatch want_data (some bytes) = close_read (read_tbatch_body want_data (opened bytes 0))
