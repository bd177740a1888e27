-- ===== src/Raf/Id/Tests.antt =====
-- Identifiers of a run.
use tpbench.Prelude.{ℕ, ◌<◌, ◌^◌, [], ◌∷◌, ◌++◌, ◌≡◌, Bytes, codes, replicate}
use tpbench.Sha1.Digest.{sha1, joined}
use tpbench.Raf.Id.{decimal, gen_task_id, gen_taskcapsule_id}
use tpbench.Raf.Id.Digest.{value_of, task_parts, gen_task_id_lem}

abbrev batch : Bytes
batch = replicate 20 1

abbrev kernel : Bytes
kernel = replicate 20 2

gen_task_id_lem_example :
    (gen_task_id 70 80 (codes "host") (codes "user") batch kernel 0 100 101
      ≡ sha1 (
          joined
            (codes "task" ∷ task_parts 70 80 (codes "host") (codes "user") batch kernel 0 100 101)))
    × (gen_taskcapsule_id 70 80 (codes "host") (codes "user") batch kernel 0 100 101
        ≡ sha1 (
            joined (
              (codes "taskcapsule" ++ (0 ∷ []))
              ∷ task_parts 70 80 (codes "host") (codes "user") batch kernel 0 100 101)))
    × ((v : ℕ) → v < 2 ^ 64 → value_of 0 (decimal v) ≡ v)
gen_task_id_lem_example = gen_task_id_lem 70 80 (codes "host") (codes "user") batch kernel 0 100 101
