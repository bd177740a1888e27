-- ===== src/Raf/Kernel/EntryTests.antt =====
-- Runs on a table of kernels.
use tpbench.Prelude.{
  ℕ, ◌≡◌, true, List, [], ◌∷◌, ◌++◌, none, some, refl, arith, Bytes, codes, replicate, length,
}
use tpbench.Raf.Kernel.Entry.{
  KernelEntry, Env, Envs, Store, success, entry_patch_kernel_active, entry_patch_kernel_utc,
  kernel_deactivate_same_name,
}
use tpbench.Raf.Kernel.Entry.Rows.{IsStorable, AllStorable}
use tpbench.Raf.Kernel.Entry.Patch.{kernel_table, IsGood}
use tpbench.Raf.Kernel.Entry.Behind.{with_active}
use tpbench.Raf.Kernel.Entry.Laws.{
  with_utc, entry_patch_kernel_lem, kernel_deactivate_same_name_lem,
}

abbrev entry : ℕ → Bytes → KernelEntry
entry n name = record {
  kernel_id = replicate 20 n;
  inherit_from = replicate 20 0;
  kernel_name = name;
  kctrl = 1;
  narg = 2;
  nmetric = 3;
  active = 1;
  utc_bits = 5;
  reserve = replicate 136 0;
}

entry-IsStorable : (n : ℕ) (name : Bytes) → length name ≡ 64 → IsStorable (entry n name)
entry-IsStorable n name e = record {
  kernel_id_size = refl;
  inherit_from_size = refl;
  kernel_name_size = e;
  kctrl_fits = omega arith;
  narg_fits = omega arith;
  nmetric_fits = omega arith;
  active_fits = omega arith;
  utc_bits_fits = omega arith;
  reserve_size = refl;
}

abbrev triad : Bytes
triad = codes "triad" ++ replicate 59 0

abbrev stream : Bytes
stream = codes "stream" ++ replicate 58 0

abbrev three : List KernelEntry
three = entry 1 triad ∷ entry 2 stream ∷ entry 3 triad ∷ []

three-AllStorable : AllStorable three
three-AllStorable = (
  entry-IsStorable 1 triad refl,
  (entry-IsStorable 2 stream refl, (entry-IsStorable 3 triad refl, tt)),
)

abbrev env : Env
env = record {
  fopen_ok = true;
  open_ok = true;
  flock_ok = true;
  fdopen_ok = true;
  fstat_ok = true;
  room = 8;
}

env-IsGood : IsGood env
env-IsGood = record {
  lists = refl;
  opens = refl;
  locks = refl;
  streams = refl;
  stats = refl;
  room = omega arith;
}

entry_patch_kernel_lem_example :
    (entry_patch_kernel_active env (some (kernel_table three)) (replicate 20 2) 0 ≡ (
      success,
      some (kernel_table (entry 1 triad ∷ with_active 0 (entry 2 stream) ∷ entry 3 triad ∷ [])),
    ))
    × (entry_patch_kernel_utc env (some (kernel_table three)) (replicate 20 2) 0 ≡ (
      success,
      some (kernel_table (entry 1 triad ∷ with_utc 0 (entry 2 stream) ∷ entry 3 triad ∷ [])),
    ))
entry_patch_kernel_lem_example =
    entry_patch_kernel_lem env three (replicate 20 2) 0 three-AllStorable (omega arith) env-IsGood

abbrev envs : ℕ → Envs
envs k = record { on_table = env; record_opens = true; record_room = 4 }

abbrev store : Store
store = record { table = some (kernel_table three); records = λ id. none }

kernel_deactivate_same_name_lem_example :
    (kernel_deactivate_same_name true envs store triad (some (replicate 20 3))).1.table
    ≡ some (kernel_table (with_active 0 (entry 1 triad) ∷ entry 2 stream ∷ entry 3 triad ∷ []))
kernel_deactivate_same_name_lem_example =
    kernel_deactivate_same_name_lem envs store three triad (some (replicate 20 3)) (λ k. env-IsGood)
      refl three-AllStorable (omega arith) ((refl, (refl, tt)), ((refl, tt), (tt, tt)))
