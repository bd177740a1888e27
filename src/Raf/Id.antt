-- ===== src/Raf/Id.antt =====
-- The identifiers of tasks, capsules and batches (src/corelib/rafdb/rafdb-l2-task.c,
-- rafdb-l2-tbatch.c): the digest of what they are made of.
pub mod Digest
mod Tests
use tpbench.Prelude.{
  ℕ, zero, suc, ◌+◌, ◌*◌, ◌/◌, ◌%◌, List, [], ◌∷◌, ◌++◌, ltb, if◌then◌else◌, Bytes, codes,
}
use tpbench.Sha1.{Ctx, init, update, final}

-- `%lu` and `%u` of the C library; no number of 64 bits has more than twenty digits.
pub digits : ℕ → ℕ → Bytes
digits zero v = []
digits (suc fuel) v =
    let rest = digits fuel (v / 10) in (if ltb v 10 then [] else rest) ++ ((48 + v % 10) ∷ [])

abbrev pub decimal : ℕ → Bytes
decimal v = digits 20 v

-- What the first updates of both identifiers of a task have in common, behind the literal.
pub update_task : Ctx → ℕ → ℕ → Bytes → Bytes → Bytes → Bytes → ℕ → ℕ → ℕ → Ctx
update_task x0 utc_bits btime hostname username tbatch_id kernel_id hdl_id pid tid =
    let x1 = update x0 (decimal utc_bits) in
    let x2 = update x1 (decimal btime) in
    let x3 = update x2 hostname in
    let x4 = update x3 username in
    let x5 = update x4 tbatch_id in
    let x6 = update x5 kernel_id in
    let x7 = update x6 (decimal hdl_id) in
    let x8 = update x7 (decimal pid) in update x8 (decimal tid)

-- `tpb_raf_gen_task_id`
pub gen_task_id : ℕ → ℕ → Bytes → Bytes → Bytes → Bytes → ℕ → ℕ → ℕ → Bytes
unfolding update_task
gen_task_id utc_bits btime hostname username tbatch_id kernel_id hdl_id pid tid = final (
    update_task (update init (codes "task")) utc_bits btime hostname username tbatch_id kernel_id
      hdl_id pid tid)

-- `tpb_raf_gen_taskcapsule_id`, which takes twelve bytes of a literal of eleven characters.
pub gen_taskcapsule_id : ℕ → ℕ → Bytes → Bytes → Bytes → Bytes → ℕ → ℕ → ℕ → Bytes
unfolding update_task
gen_taskcapsule_id utc_bits btime hostname username tbatch_id kernel_id hdl_id pid tid = final (
    update_task (update init (codes "taskcapsule" ++ (0 ∷ []))) utc_bits btime hostname username
      tbatch_id kernel_id hdl_id pid tid)

-- `tpb_raf_gen_tbatch_id`
pub gen_tbatch_id : ℕ → ℕ → Bytes → Bytes → ℕ → Bytes
gen_tbatch_id utc_bits btime hostname username front_pid =
    let x0 = update init (codes "tbatch") in
    let x1 = update x0 (decimal utc_bits) in
    let x2 = update x1 (decimal btime) in
    let x3 = update x2 hostname in
    let x4 = update x3 username in final (update x4 (decimal front_pid))
