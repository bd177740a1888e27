-- ===== src/Raf/Rtenv/Entry.antt =====
-- The table of the runtime environments (src/corelib/rafdb/rafdb-l2-runtime-environment.c).
pub mod Rows
pub mod Names
pub mod Laws
use tpbench.Prelude.{
  ℕ, ◌+◌, ◌*◌, ◌%◌, ◌^◌, Bool, true, false, ◌||◌, not, List, [], ◌∷◌, ◌++◌, Option, none, some, ltb,
  map, if◌then◌else◌, Bytes, bytes_eq, take, drop, replicate, le_bytes, of_le, length,
}
use tpbench.Raf.Magic.{dom_rtenv}
use tpbench.Raf.Record.{c_string}
use tpbench.Raf.Entry.{Status, file_io_fail, Env, entry_append, listed, error, entry_list}
use tpbench.Raf.Entry.Rows.{rows_in}

-- `tpb_raf_rtenv_entry_t`
pub record RtenvEntry : Type 0 where
  pub id : ℕ
  pub name : Bytes
  pub hostname : Bytes
  pub utc_bits : ℕ
  pub inherit_from : ℕ
  pub derive_to : ℕ
  pub ntask : ℕ
  pub ntbatch : ℕ
  pub note : Bytes
  pub napp : ℕ
  pub nenv : ℕ
  pub reserve : Bytes

abbrev pub entry_size : ℕ
entry_size = 1828

-- `_sf_entry_to_disk`, as the bytes of the packed row
pub entry_to_disk : RtenvEntry → Bytes
entry_to_disk ent =
    le_bytes 4 ent.id
    ++ (ent.name
        ++ (ent.hostname
            ++ (le_bytes 8 ent.utc_bits
                ++ (le_bytes 4 ent.inherit_from
                    ++ (le_bytes 4 ent.derive_to
                        ++ (le_bytes 4 ent.ntask
                            ++ (le_bytes 4 ent.ntbatch
                                ++ (ent.note
                                    ++ (le_bytes 4 ent.napp
                                        ++ (le_bytes 4 ent.nenv ++ ent.reserve))))))))))

-- `_sf_disk_to_entry`: each field where it stands in the row
pub disk_to_entry : Bytes → RtenvEntry
disk_to_entry disk = record {
  id = of_le (take 4 disk);
  name = take 256 (drop 4 disk);
  hostname = take 256 (drop 260 disk);
  utc_bits = of_le (take 8 (drop 516 disk));
  inherit_from = of_le (take 4 (drop 524 disk));
  derive_to = of_le (take 4 (drop 528 disk));
  ntask = of_le (take 4 (drop 532 disk));
  ntbatch = of_le (take 4 (drop 536 disk));
  note = take 256 (drop 540 disk);
  napp = of_le (take 4 (drop 796 disk));
  nenv = of_le (take 4 (drop 800 disk));
  reserve = take 1024 (drop 804 disk);
}

pub data Entries : Type 0 where
  entries : List RtenvEntry → Entries
  list_error : Status → Entries

-- `tpb_raf_entry_list_rtenv`, where `calloc` succeeds
pub entry_list_rtenv : Bool → Option Bytes → Entries
unfolding disk_to_entry
entry_list_rtenv fopen_ok disk = elim (entry_list fopen_ok dom_rtenv entry_size disk) [
  | listed rows n ↦ entries (map disk_to_entry (rows_in n entry_size rows))
  | error s ↦ list_error s
]

-- `strcmp` on two names, which have a NUL
abbrev pub same_name : Bytes → Bytes → Bool
same_name a b = bytes_eq (c_string a) (c_string b)

abbrev pub any_named : List RtenvEntry → Bytes → Bool
any_named [] name = false
any_named (e ∷ es) name = same_name e.name name || any_named es name

-- `_sf_name_exists`: no, where the table cannot be listed
pub name_exists : Bool → Option Bytes → Bytes → Bool
unfolding entry_list_rtenv
name_exists fopen_ok disk name = elim (entry_list_rtenv fopen_ok disk) [
  | entries es ↦ any_named es name
  | list_error s ↦ false
]

pub data Added : Type 0 where
  added : Status → Added
  list_dup : Added

-- `tpb_raf_entry_append_rtenv`
pub entry_append_rtenv : Bool → Env → Option Bytes → RtenvEntry → Added × Option Bytes
unfolding name_exists entry_to_disk
entry_append_rtenv fopen_ok env disk entry =
    if name_exists fopen_ok disk entry.name
    then (list_dup, disk)
    else (let (s, new) = entry_append env dom_rtenv disk (entry_to_disk entry) in (added s, new))

-- Comparison of `int32_t` in two's complement.
abbrev pub signed_ltb : ℕ → ℕ → Bool
signed_ltb a b = ltb ((a + 2 ^ 31) % 2 ^ 32) ((b + 2 ^ 31) % 2 ^ 32)

abbrev pub max_id : ℕ → List RtenvEntry → ℕ
max_id m [] = m
max_id m (e ∷ es) = max_id (if signed_ltb m e.id then e.id else m) es

-- The next identifier; `overflow` where the sum does not fit, which C leaves undefined.
pub data NextId : Type 0 where
  next_id : ℕ → NextId
  next_error : Status → NextId
  overflow : NextId

abbrev pub next_after : ℕ → NextId
next_after m = if ltb (m + 1) (2 ^ 31) then next_id (m + 1) else overflow

-- `tpb_raf_rtenv_alloc_next_id`: whether the table can be locked, once it is there, and opened. The
-- lock is given back before the table is read.
pub rtenv_alloc_next_id : Bool → Bool → Option Bytes → NextId
rtenv_alloc_next_id flock_ok fopen_ok disk =
    if not flock_ok then next_error file_io_fail else elim (entry_list_rtenv fopen_ok disk) [
      | entries es ↦ next_after (max_id 0 es)
      | list_error s ↦ next_error s
    ]
