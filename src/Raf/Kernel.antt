-- ===== src/Raf/Kernel.antt =====
-- The record file of a kernel (src/corelib/rafdb/rafdb-l2-kernel.c).
pub mod RoundTrip
pub mod Entry
pub mod Active
pub mod Meta
mod Tests
mod EntryTests
use tpbench.Prelude.{
  ℕ, ◌+◌, ◌*◌, ◌%◌, ◌^◌, Bool, List, [], Option, none, some, if◌then◌else◌, Bytes, replicate,
}
use tpbench.Raf.File.{
  M, ◌>>=◌, ◌>>◌, return, require, opened, fread, fwrite, write_u32, write_u64, read_u32, read_u64,
}
use tpbench.Raf.Magic.{magic_len, pos_start, ftype_record, dom_kernel, build_magic, validate_magic}
use tpbench.Raf.Record.{MetaHeader, hdr_fixed_size, write_magic_and_data}
use tpbench.Raf.Record.Payload.{
  file_io_fail, Saved, close_write, write_headers_of, read_headers_of, read_payload, told, Loaded,
  load_fail, close_read,
}

-- `kernel_attr_t`
pub record KernelAttr : Type 0 where
  pub kernel_id : Bytes
  pub derive_to : Bytes
  pub inherit_from : Bytes
  pub kernel_name : Bytes
  pub version : Bytes
  pub description : Bytes
  pub narg : ℕ
  pub nmetric : ℕ
  pub kctrl : ℕ
  pub nheader : ℕ
  pub active : ℕ
  pub utc_bits : ℕ
  pub headers : List MetaHeader

-- The product is one of `uint32_t`.
pub metasize_of : ℕ → ℕ
metasize_of nheader = 2448 + 180 + nheader * hdr_fixed_size % 2 ^ 32

-- From `fopen` to `fclose`.
pub write_kernel_body : KernelAttr → Option Bytes → ℕ → M (Unit {0})
write_kernel_body attr bytes datasize = do
  fwrite (build_magic ftype_record dom_kernel pos_start)
  write_u64 (metasize_of attr.nheader)
  write_u64 datasize
  fwrite attr.kernel_id
  fwrite attr.derive_to
  fwrite attr.inherit_from
  fwrite attr.kernel_name
  fwrite attr.version
  fwrite attr.description
  write_u32 attr.narg
  write_u32 attr.nmetric
  write_u32 attr.kctrl
  write_u32 attr.nheader
  write_u32 attr.active
  write_u64 attr.utc_bits
  fwrite (replicate 180 0)
  write_headers_of attr.nheader attr.headers
  write_magic_and_data dom_kernel bytes datasize

-- `tpb_raf_record_write_kernel` on the file of the record: whether `fopen(.., "wb")` succeeds, and the
-- room that there is on the device. What `fclose` returns is not looked at.
pub record_write_kernel : Bool → ℕ → Option Bytes → KernelAttr → Option Bytes → ℕ → Saved
record_write_kernel fopen_ok room disk attr bytes datasize =
    if fopen_ok
    then close_write (write_kernel_body attr bytes datasize (opened [] room))
    else some (file_io_fail, disk)

-- From `fopen` to `fclose`: the attributes, the size of the data, and the data if asked for. A
-- caller that does not ask for the data is not told their size either.
pub read_kernel_body : Bool → M (KernelAttr × Option ℕ × Option Bytes)
read_kernel_body want_data = do
  magic ← fread magic_len
  require (validate_magic magic ftype_record dom_kernel pos_start)
  metasize ← read_u64
  ds ← read_u64
  kernel_id ← fread 20
  derive_to ← fread 20
  inherit_from ← fread 20
  kernel_name ← fread 256
  version ← fread 64
  description ← fread 2048
  narg ← read_u32
  nmetric ← read_u32
  kctrl ← read_u32
  nheader ← read_u32
  active ← read_u32
  utc_bits ← read_u64
  reserved ← fread 180
  headers ← read_headers_of nheader
  bytes ← read_payload dom_kernel want_data ds
  return (
    record {
      kernel_id = kernel_id;
      derive_to = derive_to;
      inherit_from = inherit_from;
      kernel_name = kernel_name;
      version = version;
      description = description;
      narg = narg;
      nmetric = nmetric;
      kctrl = kctrl;
      nheader = nheader;
      active = active;
      utc_bits = utc_bits;
      headers = headers;
    },
    told want_data ds,
    bytes,
  )

-- `tpb_raf_record_read_kernel` on the file of the record; `none` cannot be opened.
pub record_read_kernel : Bool → Option Bytes → Loaded KernelAttr
record_read_kernel want_data none = load_fail
record_read_kernel want_data (some bytes) = close_read (read_kernel_body want_data (opened bytes 0))
