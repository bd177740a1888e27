-- ===== src/Raf/Capsule/Tests.antt =====
-- A run on a capsule of one task.
use tpbench.Prelude.{◌/◌, true, ◌++◌, ◌≡◌, refl, arith, Bytes, codes, length, replicate}
use tpbench.Raf.Capsule.{success, record_append_task_capsule}
use tpbench.Raf.Capsule.Text.{Rest, IsRest, end_magic, capsule_text}
use tpbench.Raf.Capsule.Append.{record_append_task_capsule_lem}

abbrev rest : Rest
rest = record {
  metasize = 3380;
  attributes = replicate 148 1;
  reserve = replicate 132 0;
  block_size = replicate 4 2;
  scalars = replicate 16 3;
  name = codes "TaskID" ++ replicate 250 0;
  tag_note = replicate 2304 4;
  dimname_split = replicate 72 5;
}

rest-IsRest : IsRest rest
rest-IsRest = record {
  metasize_fits = omega arith;
  attributes_size = refl;
  reserve_size = refl;
  block_size_size = refl;
  scalars_size = refl;
  name_size = refl;
  tag_note_size = refl;
  dimname_split_size = refl;
  named = refl;
}

abbrev first_task : Bytes
first_task = replicate 20 6

abbrev second_task : Bytes
second_task = replicate 20 7

record_append_task_capsule_lem_example :
    record_append_task_capsule true true true 60
      (capsule_text rest (length first_task) 20 1 (first_task ++ end_magic))
      second_task
    ≡ (success, capsule_text rest 40 40 (40 / 20) ((first_task ++ second_task) ++ end_magic))
record_append_task_capsule_lem_example =
    record_append_task_capsule_lem rest first_task second_task 20 1 60 rest-IsRest refl
      (omega arith) (omega arith) (omega arith)
