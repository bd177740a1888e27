-- ===== src/Raf/Magic.antt =====
-- Signatures of eight bytes (src/corelib/rafdb/rafdb-l1-magic.c): `E1 54 50 42`, the file type and
-- domain, the position, `31 E0`.
pub mod Detect
mod Tests
use Prim.Native.Nat.{bit_and, bit_or}
use tpbench.Prelude.{
  ℕ, ◌≤◌, Bool, true, false, not, ◌&&◌, ◌||◌, List, [], ◌∷◌, Option, none, some, ◌==◌, leb,
  if◌then◌else◌, Bytes, bytes_eq, get_or, length, take,
}

abbrev pub magic_len : ℕ
magic_len = 8

abbrev pub pos_start : ℕ
pos_start = 0x53

abbrev pub pos_split : ℕ
pos_split = 0x44

abbrev pub pos_end : ℕ
pos_end = 0x45

abbrev pub ftype_entry : ℕ
ftype_entry = 0xe0

abbrev pub ftype_record : ℕ
ftype_record = 0xd0

abbrev pub dom_tbatch : ℕ
dom_tbatch = 0

abbrev pub dom_kernel : ℕ
dom_kernel = 1

abbrev pub dom_task : ℕ
dom_task = 2

abbrev pub dom_rtenv : ℕ
dom_rtenv = 3

unfoldable pub build_magic : ℕ → ℕ → ℕ → Bytes
build_magic ftype domain pos =
    0xe1 ∷ 0x54 ∷ 0x50 ∷ 0x42 ∷ bit_or ftype domain ∷ pos ∷ 0x31 ∷ 0xe0 ∷ []

unfoldable pub validate_magic : Bytes → ℕ → ℕ → ℕ → Bool
validate_magic magic ftype domain pos = bytes_eq magic (build_magic ftype domain pos)

pub match_magic_prefix : Bytes → Bool
match_magic_prefix p =
    (get_or p 0 0 == 0xe1)
    && ((get_or p 1 0 == 0x54) && ((get_or p 2 0 == 0x50) && (get_or p 3 0 == 0x42)))

-- File type and domain, or TPBE_FILE_IO_FAIL.
pub data Detected : Type 0 where
  detected : ℕ → ℕ → Detected
  io_fail : Detected

-- The checks on the eight bytes read.
pub detect_magic : Bytes → Detected
unfolding match_magic_prefix
detect_magic magic =
    let hi = bit_and (get_or magic 4 0) 0xf0 in
    let lo = bit_and (get_or magic 4 0) 0x0f in
    if not (match_magic_prefix magic)
    then io_fail
    else if not (get_or magic 6 0 == 0x31) || not (get_or magic 7 0 == 0xe0)
    then io_fail
    else if not (get_or magic 5 0 == pos_start)
    then io_fail
    else if not (hi == ftype_entry) && not (hi == ftype_record)
    then io_fail
    else if not (lo == dom_tbatch)
        && (not (lo == dom_kernel) && (not (lo == dom_task) && not (lo == dom_rtenv)))
    then io_fail
    else detected hi lo

-- `none` is a file that `fopen` cannot open.
pub detect_file : Option Bytes → Detected
detect_file none = io_fail
detect_file (some bytes) =
    if leb magic_len (length bytes) then detect_magic (take magic_len bytes) else io_fail
