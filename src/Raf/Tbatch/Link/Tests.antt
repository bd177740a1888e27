-- ===== src/Raf/Tbatch/Link/Tests.antt =====
-- A task that is linked to a batch with one task and one kernel.
use tpbench.Prelude.{true, [], ◌∷◌, ◌++◌, ◌≡◌, refl, arith, Bytes, codes, length, replicate}
use tpbench.Raf.Record.{MetaHeader}
use tpbench.Raf.Record.Header
use tpbench.Raf.Record.Patch.{success}
use tpbench.Raf.Tbatch.{TbatchAttr}
use tpbench.Raf.Tbatch.RoundTrip
use tpbench.Raf.Tbatch.RoundTrip.{tbatch_text}
use tpbench.Raf.Tbatch.Link.{record_append_tbatch}
use tpbench.Raf.Tbatch.Link.Checks.{IsLinked}
use tpbench.Raf.Tbatch.Link.Laws.{linked_batch, record_append_tbatch_lem}

abbrev named : Bytes → MetaHeader
named name = record {
  block_size = 3096;
  ndim = 1;
  data_size = 20;
  type_bits = 3;
  reserve = 0;
  uattr_bits = 5;
  name = name;
  tag = replicate 256 0;
  note = replicate 2048 0;
  dimsizes = replicate 7 1;
  dimnames = replicate 7 (replicate 64 0);
}

named-IsStorable : (name : Bytes) → length name ≡ 256 → Header.IsStorable (named name)
named-IsStorable name e = record {
  dims = omega arith;
  data_size_fits = omega arith;
  type_bits_fits = omega arith;
  reserve_fits = omega arith;
  uattr_bits_fits = omega arith;
  name_size = e;
  tag_size = refl;
  note_size = refl;
  sizes_count = refl;
  sizes_fit = (
    omega arith,
    (omega arith, (omega arith, (omega arith, (omega arith, (omega arith, (omega arith, tt)))))),
  );
  names_count = refl;
  names_size = (refl, (refl, (refl, (refl, (refl, (refl, (refl, tt)))))));
}

abbrev task_header : MetaHeader
task_header = named (codes "TaskID" ++ replicate 250 0)

abbrev kernel_header : MetaHeader
kernel_header = named (codes "KernelID" ++ replicate 248 0)

abbrev batch : TbatchAttr
batch = record {
  tbatch_id = replicate 20 1;
  derive_to = replicate 20 0;
  inherit_from = replicate 20 0;
  utc_bits = 4004;
  btime = 5005;
  duration = 6006;
  hostname = replicate 64 7;
  username = replicate 64 8;
  front_pid = 9009;
  nkernel = 1;
  ntask = 1;
  nscore = 0;
  batch_type = 0;
  nheader = 2;
  headers = task_header ∷ kernel_header ∷ [];
}

batch-IsStorable : RoundTrip.IsStorable batch
batch-IsStorable = record {
  tbatch_id_size = refl;
  derive_to_size = refl;
  inherit_from_size = refl;
  utc_bits_fits = omega arith;
  btime_fits = omega arith;
  duration_fits = omega arith;
  hostname_size = refl;
  username_size = refl;
  front_pid_fits = omega arith;
  nkernel_fits = omega arith;
  ntask_fits = omega arith;
  nscore_fits = omega arith;
  batch_type_fits = omega arith;
  nheader_fits = omega arith;
  header_count = refl;
  headers_storable =
      (named-IsStorable task_header.name refl, (named-IsStorable kernel_header.name refl, tt));
}

batch-IsLinked : IsLinked batch task_header kernel_header
batch-IsLinked = record {
  storable = batch-IsStorable;
  first_storable = named-IsStorable task_header.name refl;
  second_storable = named-IsStorable kernel_header.name refl;
  two_headers = refl;
  task_named = refl;
  kernel_named = refl;
}

abbrev task_ids : Bytes
task_ids = replicate 20 11

abbrev kernel_ids : Bytes
kernel_ids = replicate 20 12

abbrev new_id : Bytes
new_id = replicate 20 13

record_append_tbatch_lem_example :
    record_append_tbatch true true true 72 (tbatch_text batch (task_ids ++ kernel_ids)) new_id ≡ (
      success,
      tbatch_text
          (linked_batch batch (length (task_ids ++ new_id)) task_header kernel_header)
          ((task_ids ++ new_id) ++ kernel_ids),
    )
record_append_tbatch_lem_example =
    record_append_tbatch_lem batch task_header kernel_header task_ids kernel_ids new_id 72
      batch-IsLinked refl refl refl (omega arith) (omega arith) (omega arith)
