-- ===== src/Raf/Record/Payload.antt =====
-- What the record files of all domains share (src/corelib/rafdb/rafdb-l2-*.c): the headers, the data
-- between the split and the end signature, and how a function that writes or reads a record ends.
pub mod Laws
use tpbench.Prelude.{ℕ, Bool, true, false, List, [], Option, none, some, ltb, if◌then◌else◌, Bytes}
use tpbench.Raf.File.{
  Outcome, ok, fail, fault, M, ◌>>=◌, ◌>>◌, return, require, contents, fread, fseek_cur,
}
use tpbench.Raf.Magic.{magic_len, pos_split, pos_end, ftype_record, validate_magic}
use tpbench.Raf.Record.{MetaHeader, write_headers, read_headers}

pub data Status : Type 0 where
  success file_io_fail cli_fail : Status

-- The status and the file, `none` where C leaves it open what happens.
abbrev pub Saved : Type 0
Saved = Option (Status × Option Bytes)

abbrev pub close_write : Outcome (Unit {0}) → Saved
close_write (ok _ f) = some (success, some (contents f))
close_write (fail f) = some (file_io_fail, some (contents f))
close_write fault = none

pub write_headers_of : ℕ → List MetaHeader → M (Unit {0})
write_headers_of nheader headers =
    if ltb 0 nheader then write_headers nheader headers else return tt

pub read_headers_of : ℕ → M (List MetaHeader)
read_headers_of nheader = if ltb 0 nheader then read_headers nheader else return []

-- The data, read if the caller asks for it and skipped if not. Where `malloc` fails `fread` would.
pub read_data : Bool → ℕ → M (Option Bytes)
read_data true ds = if ltb 0 ds then (do bytes ← fread ds; return (some bytes)) else return none
read_data false ds = if ltb 0 ds then fseek_cur ds >> return none else return none

-- From the split signature to the end of the file.
pub read_payload : ℕ → Bool → ℕ → M (Option Bytes)
unfolding read_data
read_payload domain want_data ds = do
  split ← fread magic_len
  require (validate_magic split ftype_record domain pos_split)
  bytes ← read_data want_data ds
  last ← fread magic_len
  require (validate_magic last ftype_record domain pos_end)
  return bytes

-- `*datasize` is written only for a caller that asks for the data; `none` is left as it was.
abbrev pub told : Bool → ℕ → Option ℕ
told true ds = some ds
told false ds = none

-- The attributes of a record, and the size of its data and the data if asked for.
pub data Loaded (A : Type 0) : Type 0 where
  loaded : A → Option ℕ → Option Bytes → Loaded A
  load_fail : Loaded A
  undefined_load : Loaded A

abbrev pub close_read : {A : Type 0} → Outcome (A × Option ℕ × Option Bytes) → Loaded A
close_read (ok (a, ds, bytes) f) = loaded a ds bytes
close_read (fail f) = load_fail
close_read fault = undefined_load
