-- ===== src/Raf/Rtenv.antt =====
-- The record file of a rtenv (src/corelib/rafdb/rafdb-l2-runtime-environment.c).
pub mod RoundTrip
pub mod Entry
pub mod Counter
mod Tests
mod EntryTests
use tpbench.Prelude.{
  ℕ, ◌+◌, ◌*◌, ◌%◌, ◌^◌, Bool, true, List, [], Option, none, some, if◌then◌else◌, Bytes, replicate,
}
use tpbench.Raf.File.{
  M, ◌>>=◌, ◌>>◌, return, require, opened, fread, fwrite, write_u32, write_u64, read_u32, read_u64,
}
use tpbench.Raf.Magic.{magic_len, pos_start, ftype_record, dom_rtenv, build_magic, validate_magic}
use tpbench.Raf.Record.{MetaHeader, hdr_fixed_size, write_magic_and_data}
use tpbench.Raf.Record.Payload.{
  success, file_io_fail, Saved, close_write, write_headers_of, read_headers_of, read_payload,
  Loaded, load_fail, close_read,
}

-- `tpb_raf_rtenv_attr_t`. The identifiers are signed, in two's complement.
pub record RtenvAttr : Type 0 where
  pub id : ℕ
  pub name : Bytes
  pub hostname : Bytes
  pub utc_bits : ℕ
  pub inherit_from : ℕ
  pub derive_to : ℕ
  pub ntask : ℕ
  pub ntbatch : ℕ
  pub note : Bytes
  pub napp : ℕ
  pub nenv : ℕ
  pub nheader : ℕ
  pub reserve : Bytes

pub metasize_of : ℕ → ℕ
metasize_of nheader = 1832 + nheader * hdr_fixed_size

pub write_attr_meta : RtenvAttr → M (Unit {0})
write_attr_meta attr = do
  write_u32 attr.id
  fwrite attr.name
  fwrite attr.hostname
  write_u64 attr.utc_bits
  write_u32 attr.inherit_from
  write_u32 attr.derive_to
  write_u32 attr.ntask
  write_u32 attr.ntbatch
  fwrite attr.note
  write_u32 attr.napp
  write_u32 attr.nenv
  write_u32 attr.nheader
  fwrite attr.reserve

pub read_attr_meta : M RtenvAttr
read_attr_meta = do
  id ← read_u32
  name ← fread 256
  hostname ← fread 256
  utc_bits ← read_u64
  inherit_from ← read_u32
  derive_to ← read_u32
  ntask ← read_u32
  ntbatch ← read_u32
  note ← fread 256
  napp ← read_u32
  nenv ← read_u32
  nheader ← read_u32
  reserve ← fread 1024
  return (record {
    id = id;
    name = name;
    hostname = hostname;
    utc_bits = utc_bits;
    inherit_from = inherit_from;
    derive_to = derive_to;
    ntask = ntask;
    ntbatch = ntbatch;
    note = note;
    napp = napp;
    nenv = nenv;
    nheader = nheader;
    reserve = reserve;
  })

-- From `fopen` to `fclose`.
pub write_rtenv_body : RtenvAttr → List MetaHeader → Option Bytes → ℕ → M (Unit {0})
unfolding write_attr_meta
write_rtenv_body attr headers bytes datasize = do
  fwrite (build_magic ftype_record dom_rtenv pos_start)
  write_u64 (metasize_of attr.nheader)
  write_u64 datasize
  write_attr_meta attr
  write_headers_of attr.nheader headers
  write_magic_and_data dom_rtenv bytes datasize

-- `fclose` fails when the bytes cannot be written out.
abbrev pub close_checked : Bool → Saved → Saved
close_checked closes none = none
close_checked closes (some (success, disk)) = some (if closes then success else file_io_fail, disk)
close_checked closes (some (s, disk)) = some (s, disk)

-- `tpb_raf_record_write_rtenv` on the file of the record: whether `fopen(.., "wb")` and `fclose`
-- succeed, and the room that there is on the device. The headers are not NULL.
pub record_write_rtenv :
    Bool → Bool → ℕ → Option Bytes → RtenvAttr → List MetaHeader → Option Bytes → ℕ → Saved
record_write_rtenv fopen_ok closes room disk attr headers bytes datasize =
    if fopen_ok
    then close_checked closes
        (close_write (write_rtenv_body attr headers bytes datasize (opened [] room)))
    else some (file_io_fail, disk)

-- From `fopen` to `fclose`: the attributes and the headers, the size of the data, and the data.
pub read_rtenv_body : M ((RtenvAttr × List MetaHeader) × Option ℕ × Option Bytes)
unfolding read_attr_meta
read_rtenv_body = do
  magic ← fread magic_len
  require (validate_magic magic ftype_record dom_rtenv pos_start)
  metasize ← read_u64
  dsize ← read_u64
  attr ← read_attr_meta
  headers ← read_headers_of attr.nheader
  bytes ← read_payload dom_rtenv true dsize
  return ((attr, headers), some dsize, bytes)

-- `tpb_raf_record_read_rtenv` on the file of the record; `none` cannot be opened.
pub record_read_rtenv : Option Bytes → Loaded (RtenvAttr × List MetaHeader)
record_read_rtenv none = load_fail
record_read_rtenv (some bytes) = close_read (read_rtenv_body (opened bytes 0))
