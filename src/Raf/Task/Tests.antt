-- ===== src/Raf/Task/Tests.antt =====
-- A run on a task with one header.
use tpbench.Prelude.{true, [], ◌∷◌, none, some, Bytes, ◌≡◌, refl, arith, length, replicate}
use tpbench.Raf.Magic.{build_magic}
use tpbench.Raf.Record.Tests.{header, header-IsStorable}
use tpbench.Raf.Record.Payload.{success, loaded}
use tpbench.Raf.Record.Payload.Laws.{data_read}
use tpbench.Raf.Task.{TaskAttr, record_write_task, record_read_task, metasize_of}
use tpbench.Raf.Task.RoundTrip.{
  IsStorable, task_text, stored_task, record_read_task-record_write_task,
}

abbrev task : TaskAttr
task = record {
  task_record_id = replicate 20 1;
  derive_to = replicate 20 0;
  inherit_from = replicate 20 0;
  tbatch_id = replicate 20 2;
  kernel_id = replicate 20 3;
  utc_bits = 1000;
  btime = 2000;
  duration = 3000;
  exit_code = 0;
  handle_index = 1;
  pid = 4000;
  tid = 4001;
  ninput = 0;
  noutput = 1;
  nheader = 1;
  reserve = 0;
  headers = header ∷ [];
}

task-IsStorable : IsStorable task
task-IsStorable = record {
  task_record_id_size = refl;
  derive_to_size = refl;
  inherit_from_size = refl;
  tbatch_id_size = refl;
  kernel_id_size = refl;
  utc_bits_fits = omega arith;
  btime_fits = omega arith;
  duration_fits = omega arith;
  exit_code_fits = omega arith;
  handle_index_fits = omega arith;
  pid_fits = omega arith;
  tid_fits = omega arith;
  ninput_fits = omega arith;
  noutput_fits = omega arith;
  nheader_fits = omega arith;
  reserve_fits = omega arith;
  header_count = refl;
  headers_storable = (header-IsStorable, tt);
}

abbrev data_bytes : Bytes
data_bytes = replicate 40 9

task_size : length (task_text task data_bytes) ≡ 3028
unfolding metasize_of build_magic
task_size = refl

record_read_task-record_write_task_example :
    (record_write_task true 4000 none task (some data_bytes) (length data_bytes)
      ≡ some (success, some (task_text task data_bytes)))
    × (record_read_task true (some (task_text task data_bytes))
        ≡ loaded (stored_task task) (some (length data_bytes)) (data_read data_bytes))
record_read_task-record_write_task_example =
    record_read_task-record_write_task task data_bytes 4000 none task-IsStorable (omega arith)
      (omega (arith, task_size))
