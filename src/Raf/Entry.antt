-- ===== src/Raf/Entry.antt =====
-- The table of a domain, a `.tpbe` file (src/corelib/rafdb/rafdb-l1-entry.c): the start signature,
-- rows of one size, the end signature. A row is appended over the end signature, which is written
-- again behind it.
pub mod Table
pub mod Rows
pub mod Append
pub mod Damage
mod Tests
use tpbench.Prelude.{
  ℕ, ◌+◌, ◌-◌, ◌*◌, ◌/◌, ◌%◌, ◌^◌, Bool, true, false, not, List, [], ◌∷◌, Option, none, some, ltb,
  leb, ◌==◌, if◌then◌else◌, Bytes, length,
}
use tpbench.Raf.File.{
  File, Outcome, ok, fail, fault, M, ◌>>=◌, ◌>>◌, return, goto_fail, require, contents, opened,
  fread, fwrite, fseek,
}
use tpbench.Raf.Magic.{magic_len, pos_start, pos_end, ftype_entry, build_magic, validate_magic}

pub data Status : Type 0 where
  success file_io_fail malloc_fail : Status

-- What the calls on the file report: whether `open`, `flock`, `fdopen`, `fstat` and `fclose`
-- succeed, and how many bytes the device takes.
pub record Env : Type 0 where
  pub open_ok : Bool
  pub flock_ok : Bool
  pub fdopen_ok : Bool
  pub fstat_ok : Bool
  pub fclose_ok : Bool
  pub room : ℕ

-- From `fstat` to `fclose`, on the open file of `size` bytes.
pub append_body : ℕ → Bool → ℕ → Bytes → M (Unit {0})
append_body domain fstat_ok size entry =
    let start_magic = build_magic ftype_entry domain pos_start in
    let end_magic = build_magic ftype_entry domain pos_end in
    require fstat_ok
    >> (if size == 0
        then (fwrite start_magic >> fwrite entry >> fwrite end_magic)
        else if ltb size (2 * magic_len)
        then goto_fail
        else (do
          fseek (size - magic_len)
          check ← fread magic_len
          require (validate_magic check ftype_entry domain pos_end)
          fseek (size - magic_len)
          fwrite entry
          fwrite end_magic))

-- `none` is a file that is not there.
abbrev pub close_append : Bool → Outcome (Unit {0}) → Status × Option Bytes
close_append closed (ok _ f) = (if closed then success else file_io_fail, some (contents f))
close_append closed (fail f) = (file_io_fail, some (contents f))
close_append closed fault = (file_io_fail, none)

abbrev pub created : Option Bytes → Bytes
created none = []
created (some bytes) = bytes

-- `_tpb_raf_l1_entry_append`
pub entry_append : Env → ℕ → Option Bytes → Bytes → Status × Option Bytes
entry_append env domain disk entry =
    let bytes = created disk in
    if not env.open_ok
    then (file_io_fail, disk)
    else if not env.flock_ok
    then (file_io_fail, some bytes)
    else if not env.fdopen_ok
    then (file_io_fail, some bytes)
    else close_append env.fclose_ok
        (append_body domain env.fstat_ok (length bytes) entry (opened bytes env.room))

-- The rows and their number, or an error.
pub data Listing : Type 0 where
  listed : Bytes → ℕ → Listing
  error : Status → Listing

abbrev close_list : Outcome Listing → Listing
close_list (ok r f) = r
close_list (fail f) = error file_io_fail
close_list fault = error file_io_fail

-- The rows and the end signature.
pub read_rows : ℕ → ℕ → ℕ → M Listing
read_rows domain n entry_size = do
  buf ← fread (n * entry_size)
  magic_check ← fread magic_len
  require (validate_magic magic_check ftype_entry domain pos_end)
  return (listed buf n)

-- From `fopen` on. `malloc` fails for a number of rows that is negative as an `int`.
pub list_body : ℕ → ℕ → ℕ → M Listing
unfolding read_rows
list_body domain n entry_size = do
  magic_check ← fread magic_len
  require (validate_magic magic_check ftype_entry domain pos_start)
  (if n == 0
      then return (listed [] 0)
      else if leb (2 ^ 31) n
      then return (error malloc_fail)
      else read_rows domain n entry_size)

-- `_tpb_raf_l1_entry_list`, with whether `fopen` succeeds; `n` is cast to `int`.
pub entry_list : Bool → ℕ → ℕ → Option Bytes → Listing
entry_list fopen_ok domain entry_size none = listed [] 0
entry_list fopen_ok domain entry_size (some bytes) =
    let data_size = length bytes - 2 * magic_len in
    if ltb (length bytes) (2 * magic_len)
    then error file_io_fail
    else if not (data_size % entry_size == 0)
    then error file_io_fail
    else if not fopen_ok
    then error file_io_fail
    else close_list (list_body domain (data_size / entry_size % 2 ^ 32) entry_size (opened bytes 0))
