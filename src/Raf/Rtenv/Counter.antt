-- ===== src/Raf/Rtenv/Counter.antt =====
-- The counters of a runtime environment, in its record and in its row of the table
-- (src/corelib/rafdb/rafdb-l3-runtime-environment-counter.c).
pub mod Ends
pub mod Row
pub mod Laws
use tpbench.Prelude.{
  ℕ, zero, suc, ◌+◌, ◌%◌, ◌^◌, Bool, ◌&&◌, ◌==◌, if◌then◌else◌, Bytes, length, take,
}
use tpbench.Raf.File.{M, ◌>>=◌, ◌>>◌, require, contents, fread, fseek, write_u32, read_u32}
use tpbench.Raf.Magic.{magic_len, pos_start, ftype_entry, ftype_record, dom_rtenv, validate_magic}
use tpbench.Raf.Record.{undefined}
use tpbench.Raf.Record.Patch.{Patched, success, file_io_fail, patch_file}
use tpbench.Raf.Rtenv.Entry.{RtenvEntry, entry_size, disk_to_entry}

-- From the row at `pos` on. The loop ends when no whole row can be read; `fuel` bounds its rounds.
pub patch_rows : ℕ → ℕ → ℕ → ℕ → ℕ → M (Unit {0})
patch_rows zero pos id add_ntask add_ntbatch = undefined
patch_rows (suc fuel) pos id add_ntask add_ntbatch =
    let rest = patch_rows fuel (pos + entry_size) id add_ntask add_ntbatch in
    (do
      fseek pos
      row ← fread entry_size
      (let disk = disk_to_entry row in
          if disk.id == id
          then (do
            fseek (pos + 532)
            write_u32 ((disk.ntask + add_ntask) % 2 ^ 32)
            write_u32 ((disk.ntbatch + add_ntbatch) % 2 ^ 32))
          else rest))

-- A file of n bytes has not more than n rows.
pub patch_tpbe_body : ℕ → ℕ → ℕ → M (Unit {0})
unfolding patch_rows
patch_tpbe_body id add_ntask add_ntbatch = do
  start_magic ← fread magic_len
  require (validate_magic start_magic ftype_entry dom_rtenv pos_start)
  (λ f. patch_rows (length (contents f)) magic_len id add_ntask add_ntbatch f)

pub patch_record_body : ℕ → ℕ → M (Unit {0})
patch_record_body add_ntask add_ntbatch = do
  magic ← fread magic_len
  require (validate_magic magic ftype_record dom_rtenv pos_start)
  fseek 556
  ntask ← read_u32
  ntbatch ← read_u32
  fseek 556
  write_u32 ((ntask + add_ntask) % 2 ^ 32)
  write_u32 ((ntbatch + add_ntbatch) % 2 ^ 32)

-- What the calls on a file report, and the bytes that the device takes.
pub record Env : Type 0 where
  pub opens : Bool
  pub locks : Bool
  pub flushed : Bool
  pub room : ℕ

-- `_sf_patch_tpbe_counters`
pub patch_tpbe_counters : Env → Bytes → ℕ → ℕ → ℕ → Patched × Bytes
unfolding patch_tpbe_body
patch_tpbe_counters env table id add_ntask add_ntbatch =
    patch_file env.opens env.locks env.flushed env.room (patch_tpbe_body id add_ntask add_ntbatch)
      table

-- `tpb_raf_record_patch_rtenv_counters` on the record and the table: the record is patched first.
pub record_patch_rtenv_counters : Env → Env → Bytes → Bytes → ℕ → ℕ → ℕ → Patched × Bytes × Bytes
unfolding patch_record_body patch_tpbe_counters
record_patch_rtenv_counters env env' disk table id add_ntask add_ntbatch =
    if (add_ntask == 0) && (add_ntbatch == 0)
    then (success, disk, table)
    else (let (s, disk') =
          patch_file env.opens env.locks env.flushed env.room
            (patch_record_body add_ntask add_ntbatch) disk in
        elim s [
          | success ↦
              (let (s', table') = patch_tpbe_counters env' table id add_ntask add_ntbatch in
                (s', disk', table'))
          | file_io_fail ↦ (file_io_fail, disk', table)
        ])
