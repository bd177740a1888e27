-- ===== src/Raf/Kernel/Entry.antt =====
-- The table of the kernels (src/corelib/rafdb/rafdb-l2-kernel.c), and its patches in place
-- (src/corelib/rafdb/rafdb-l3-kernel-patch.c).
pub mod Rows
pub mod Patch
pub mod Behind
pub mod Laws
use tpbench.Prelude.{
  ℕ, zero, suc, ◌+◌, ◌*◌, Bool, true, false, not, ◌&&◌, List, [], ◌∷◌, ◌++◌, Option, none, some,
  ltb, map, if◌then◌else◌, Bytes, bytes_eq, take, drop, le_bytes, of_le, length,
}
use tpbench.Raf.File.{
  Outcome, ok, fail, fault, M, ◌>>◌, contents, opened, fseek, fwrite, write_u64, write_u32,
}
use tpbench.Raf.Magic.{magic_len, dom_kernel}
use tpbench.Raf.Record.{c_string}
use tpbench.Raf.Entry.{Status, listed, error, entry_list}
use tpbench.Raf.Entry.Rows.{rows_in}

-- `kernel_entry_t`
pub record KernelEntry : Type 0 where
  pub kernel_id : Bytes
  pub inherit_from : Bytes
  pub kernel_name : Bytes
  pub kctrl : ℕ
  pub narg : ℕ
  pub nmetric : ℕ
  pub active : ℕ
  pub utc_bits : ℕ
  pub reserve : Bytes

abbrev pub entry_size : ℕ
entry_size = 264

-- The bytes of an entry, and the entry of the bytes: a cast in the source.
pub row_of : KernelEntry → Bytes
row_of e =
    e.kernel_id
    ++ (e.inherit_from
        ++ (e.kernel_name
            ++ (le_bytes 4 e.kctrl
                ++ (le_bytes 4 e.narg
                    ++ (le_bytes 4 e.nmetric
                        ++ (le_bytes 4 e.active ++ (le_bytes 8 e.utc_bits ++ e.reserve)))))))

pub entry_of : Bytes → KernelEntry
entry_of row = record {
  kernel_id = take 20 row;
  inherit_from = take 20 (drop 20 row);
  kernel_name = take 64 (drop 40 row);
  kctrl = of_le (take 4 (drop 104 row));
  narg = of_le (take 4 (drop 108 row));
  nmetric = of_le (take 4 (drop 112 row));
  active = of_le (take 4 (drop 116 row));
  utc_bits = of_le (take 8 (drop 120 row));
  reserve = take 136 (drop 128 row);
}

pub data Entries : Type 0 where
  entries : List KernelEntry → Entries
  list_error : Status → Entries

-- `tpb_raf_entry_list_kernel`
pub entry_list_kernel : Bool → Option Bytes → Entries
unfolding entry_of
entry_list_kernel fopen_ok disk = elim (entry_list fopen_ok dom_kernel entry_size disk) [
  | listed rows n ↦ entries (map entry_of (rows_in n entry_size rows))
  | error s ↦ list_error s
]

-- The loop over the entries: the index of the first one with the identifier.
abbrev pub next_index : Option ℕ → Option ℕ
next_index none = none
next_index (some i) = some (suc i)

abbrev pub index_of : Bytes → List KernelEntry → Option ℕ
index_of kernel_id [] = none
index_of kernel_id (e ∷ es) =
    let rest = next_index (index_of kernel_id es) in
    if bytes_eq e.kernel_id kernel_id then some 0 else rest

pub data Patched : Type 0 where
  success file_io_fail list_not_found : Patched

-- What the calls on the table report, and the bytes that the device takes.
pub record Env : Type 0 where
  pub fopen_ok : Bool
  pub open_ok : Bool
  pub flock_ok : Bool
  pub fdopen_ok : Bool
  pub fstat_ok : Bool
  pub room : ℕ

-- What `fclose` returns is not looked at.
abbrev pub close_patch : Option Bytes → Outcome (Unit {0}) → Patched × Option Bytes
close_patch disk (ok _ f) = (success, some (contents f))
close_patch disk (fail f) = (file_io_fail, some (contents f))
close_patch disk fault = (file_io_fail, disk)

-- From `open` to `fclose`.
abbrev pub patch_at : Env → Option Bytes → M (Unit {0}) → Patched × Option Bytes
patch_at env none body = (file_io_fail, none)
patch_at env (some bytes) body =
    if not (env.open_ok && (env.flock_ok && (env.fdopen_ok && env.fstat_ok)))
    then (file_io_fail, some bytes)
    else if ltb (length bytes) (2 * magic_len)
    then (file_io_fail, some bytes)
    else close_patch (some bytes) (body (opened bytes env.room))

-- The entry with the identifier is looked up, and patched at `off`.
pub entry_patch : Env → Option Bytes → Bytes → ℕ → Bytes → Patched × Option Bytes
unfolding entry_list_kernel
entry_patch env disk kernel_id off value = elim (entry_list_kernel env.fopen_ok disk) [
  | entries es ↦ (elim (index_of kernel_id es) [
    | none ↦ (list_not_found, disk)
    | some i ↦ patch_at env disk (do fseek (magic_len + i * entry_size + off); fwrite value)
  ])
  | list_error s ↦ (file_io_fail, disk)
]

-- `tpb_raf_entry_patch_kernel_active`, `tpb_raf_entry_patch_kernel_utc`
pub entry_patch_kernel_active : Env → Option Bytes → Bytes → ℕ → Patched × Option Bytes
unfolding entry_patch
entry_patch_kernel_active env disk kernel_id active =
    entry_patch env disk kernel_id 116 (le_bytes 4 active)

pub entry_patch_kernel_utc : Env → Option Bytes → Bytes → ℕ → Patched × Option Bytes
unfolding entry_patch
entry_patch_kernel_utc env disk kernel_id utc_bits =
    entry_patch env disk kernel_id 120 (le_bytes 8 utc_bits)

-- `tpb_raf_record_patch_kernel_active` on the record file: whether it can be opened, and the room.
abbrev pub active_off : ℕ
active_off = 8 + 8 + 8 + 60 + 256 + 64 + 2048 + 4 + 4 + 4 + 4

unfoldable pub record_patch_kernel_active : Bool → ℕ → Option Bytes → ℕ → Patched × Option Bytes
record_patch_kernel_active opens room none active = (file_io_fail, none)
record_patch_kernel_active opens room (some bytes) active =
    if opens
    then close_patch (some bytes)
        ((fseek active_off >> fwrite (le_bytes 4 active)) (opened bytes room))
    else (file_io_fail, some bytes)

-- The table and the record files of the kernels, by their identifiers.
pub record Store : Type 0 where
  pub table : Option Bytes
  pub records : Bytes → Option Bytes

-- What the calls report for one kernel: on the table, and on its record file.
pub record Envs : Type 0 where
  pub on_table : Env
  pub record_opens : Bool
  pub record_room : ℕ

-- What is done for one entry; what the two patches report is not looked at.
abbrev pub deactivate : Envs → Store → Bytes → Store
deactivate env st kernel_id =
    let record_file =
      (record_patch_kernel_active env.record_opens env.record_room (st.records kernel_id) 0).1 in
    record {
      table = (entry_patch_kernel_active env.on_table st.table kernel_id 0).1;
      records = λ other. if bytes_eq other kernel_id then record_file else st.records other;
    }

-- A NULL `skip_id` is `none`.
abbrev pub is_skipped : Option Bytes → KernelEntry → Bool
is_skipped none e = false
is_skipped (some skip_id) e = bytes_eq e.kernel_id skip_id

abbrev pub is_meant : Bytes → Option Bytes → KernelEntry → Bool
is_meant name skip e = bytes_eq (c_string e.kernel_name) (c_string name) && not (is_skipped skip e)

pub deactivate_loop : (ℕ → Envs) → ℕ → Store → List KernelEntry → Bytes → Option Bytes → Store
unfolding entry_patch_kernel_active record_patch_kernel_active
deactivate_loop envs i st [] name skip = st
deactivate_loop envs i st (e ∷ es) name skip =
    deactivate_loop envs (i + 1)
      (if is_meant name skip e then deactivate (envs i) st e.kernel_id else st) es name skip

-- `tpb_raf_kernel_deactivate_same_name`: the error of the listing, or the table and the records.
pub kernel_deactivate_same_name :
    Bool → (ℕ → Envs) → Store → Bytes → Option Bytes → Option Status × Store
unfolding deactivate_loop
kernel_deactivate_same_name fopen_ok envs st name skip =
    elim (entry_list_kernel fopen_ok st.table) [
      | entries es ↦ (none, deactivate_loop envs 0 st es name skip)
      | list_error s ↦ (some s, st)
    ]
