-- ===== src/Raf/Tbatch/Counters.antt =====
-- The counters of a batch, patched in its record file (src/corelib/rafdb/rafdb-l2-tbatch.c).
pub mod Laws
use tpbench.Prelude.{ℕ, Bool, Bytes}
use tpbench.Raf.File.{M, ◌>>=◌, ◌>>◌, require, fread, fseek, write_u32, write_u64}
use tpbench.Raf.Magic.{magic_len, pos_start, ftype_record, dom_tbatch, validate_magic}
use tpbench.Raf.Record.Patch.{Patched, patch_file}

pub patch_counters_body : ℕ → ℕ → ℕ → M (Unit {0})
patch_counters_body duration nkernel ntask = do
  magic ← fread magic_len
  require (validate_magic magic ftype_record dom_tbatch pos_start)
  fseek 100
  write_u64 duration
  fseek 240
  write_u32 nkernel
  write_u32 ntask

-- `tpb_raf_record_patch_tbatch_counters`
pub record_patch_tbatch_counters : Bool → Bool → Bool → ℕ → Bytes → ℕ → ℕ → ℕ → Patched × Bytes
unfolding patch_file
record_patch_tbatch_counters opens locks flushed room bytes duration nkernel ntask =
    patch_file opens locks flushed room (patch_counters_body duration nkernel ntask) bytes
