-- ===== src/Raf/Task/RoundTrip.antt =====
-- A task record that is written is read back.
use tpbench.Prelude.{
  ℕ, ◌^◌, ◌≤◌, ◌<◌, Bool, true, ◌++◌, Option, some, ◌≡◌, refl, arith, Bytes, length, replicate,
  le_bytes,
}
use tpbench.Raf.File.Laws.{
  Writes, Writes-fwrite, ◌then_writes◌, Writes-write_u32, Writes-write_u64, Reads, Reads-fread,
  Reads-require, Reads-then, Reads-map, Reads-read_u32, Reads-read_u64,
}
use tpbench.Raf.Magic.{pos_start, ftype_record, dom_task, build_magic}
use tpbench.Raf.Magic.Detect.{validate-build_magic, length-build_magic}
use tpbench.Raf.Record.Header.{headers_text, AllStorable, all_stored}
use tpbench.Raf.Record.Payload.{success, read_payload, told, loaded}
use tpbench.Raf.Record.Payload.Laws.{
  payload_text, Writes-write_headers_of, Reads-read_headers_of, Writes-payload, data_read,
  data_asked, Reads-payload, written-Saved, read-Loaded,
}
use tpbench.Raf.Task.{
  TaskAttr, reserve_size, metasize_of, write_task_body, record_write_task, read_task_body,
  record_read_task,
}

-- What a task must be to be stored: identifiers of twenty bytes, numbers that fit their fields, and
-- as many headers as it counts.
pub record IsStorable (a : TaskAttr) : Type 0 where
  pub task_record_id_size : length a.task_record_id ≡ 20
  pub derive_to_size : length a.derive_to ≡ 20
  pub inherit_from_size : length a.inherit_from ≡ 20
  pub tbatch_id_size : length a.tbatch_id ≡ 20
  pub kernel_id_size : length a.kernel_id ≡ 20
  pub utc_bits_fits : a.utc_bits < 2 ^ 64
  pub btime_fits : a.btime < 2 ^ 64
  pub duration_fits : a.duration < 2 ^ 64
  pub exit_code_fits : a.exit_code < 2 ^ 32
  pub handle_index_fits : a.handle_index < 2 ^ 32
  pub pid_fits : a.pid < 2 ^ 32
  pub tid_fits : a.tid < 2 ^ 32
  pub ninput_fits : a.ninput < 2 ^ 32
  pub noutput_fits : a.noutput < 2 ^ 32
  pub nheader_fits : a.nheader < 2 ^ 32
  pub reserve_fits : a.reserve < 2 ^ 32
  pub header_count : a.nheader ≡ length a.headers
  pub headers_storable : AllStorable a.headers

-- The file of a task.
abbrev pub counts_text : TaskAttr → Bytes → Bytes
counts_text a rest =
    le_bytes 4 a.exit_code
    ++ (le_bytes 4 a.handle_index
        ++ (le_bytes 4 a.pid
            ++ (le_bytes 4 a.tid
                ++ (le_bytes 4 a.ninput
                    ++ (le_bytes 4 a.noutput
                        ++ (le_bytes 4 a.nheader
                            ++ (le_bytes 4 a.reserve ++ (replicate reserve_size 0 ++ rest))))))))

abbrev pub ids_text : TaskAttr → Bytes → Bytes
ids_text a rest =
    a.task_record_id
    ++ (a.derive_to
        ++ (a.inherit_from
            ++ (a.tbatch_id
                ++ (a.kernel_id
                    ++ (le_bytes 8 a.utc_bits
                        ++ (le_bytes 8 a.btime ++ (le_bytes 8 a.duration ++ rest)))))))

abbrev pub task_text : TaskAttr → Bytes → Bytes
task_text a bytes =
    build_magic ftype_record dom_task pos_start
    ++ (le_bytes 8 (metasize_of a.nheader)
        ++ (le_bytes 8 (length bytes)
            ++ ids_text a (counts_text a (headers_text a.headers ++ payload_text dom_task bytes))))

-- A task as it comes back: each header as it is stored.
abbrev pub stored_task : TaskAttr → TaskAttr
stored_task a = record a { headers = all_stored a.headers }

pub metasize_of-fits : (n : ℕ) → metasize_of n < 2 ^ 64
unfolding metasize_of
metasize_of-fits n = omega arith

Writes-write_task_body :
    (a : TaskAttr) (bytes : Bytes)
    → IsStorable a
    → Writes (write_task_body a (some bytes) (length bytes)) (task_text a bytes)
unfolding write_task_body
Writes-write_task_body a bytes s =
    Writes-fwrite (build_magic ftype_record dom_task pos_start)
    then_writes Writes-write_u64 (metasize_of a.nheader)
    then_writes Writes-write_u64 (length bytes)
    then_writes Writes-fwrite a.task_record_id
    then_writes Writes-fwrite a.derive_to
    then_writes Writes-fwrite a.inherit_from
    then_writes Writes-fwrite a.tbatch_id
    then_writes Writes-fwrite a.kernel_id
    then_writes Writes-write_u64 a.utc_bits
    then_writes Writes-write_u64 a.btime
    then_writes Writes-write_u64 a.duration
    then_writes Writes-write_u32 a.exit_code
    then_writes Writes-write_u32 a.handle_index
    then_writes Writes-write_u32 a.pid
    then_writes Writes-write_u32 a.tid
    then_writes Writes-write_u32 a.ninput
    then_writes Writes-write_u32 a.noutput
    then_writes Writes-write_u32 a.nheader
    then_writes Writes-write_u32 a.reserve
    then_writes Writes-fwrite (replicate reserve_size 0)
    then_writes Writes-write_headers_of a.nheader a.headers s.header_count s.headers_storable
    then_writes Writes-payload dom_task bytes

Reads-read_task_body :
    (a : TaskAttr) (bytes : Bytes) (want : Bool)
    → IsStorable a
    → length bytes < 2 ^ 64
    → Reads
        (read_task_body want)
        (task_text a bytes)
        (stored_task a, told want (length bytes), data_asked want bytes)
unfolding read_task_body
Reads-read_task_body a bytes want s small =
    Reads-then _ (Reads-fread 8 _ (length-build_magic ftype_record dom_task pos_start)) (
      Reads-require _ _ _ (validate-build_magic ftype_record dom_task pos_start) (
        Reads-then _ (Reads-read_u64 (metasize_of a.nheader) (metasize_of-fits a.nheader)) (
          Reads-then _ (Reads-read_u64 (length bytes) small) (
            Reads-then _ (Reads-fread 20 a.task_record_id s.task_record_id_size) (
              Reads-then _ (Reads-fread 20 a.derive_to s.derive_to_size) (
                Reads-then _ (Reads-fread 20 a.inherit_from s.inherit_from_size) (
                  Reads-then _ (Reads-fread 20 a.tbatch_id s.tbatch_id_size) (
                    Reads-then _ (Reads-fread 20 a.kernel_id s.kernel_id_size) (
                      Reads-then _ (Reads-read_u64 a.utc_bits s.utc_bits_fits) (
                        Reads-then _ (Reads-read_u64 a.btime s.btime_fits) (
                          Reads-then _ (Reads-read_u64 a.duration s.duration_fits) (
                            Reads-then _ (Reads-read_u32 a.exit_code s.exit_code_fits) (
                              Reads-then _ (Reads-read_u32 a.handle_index s.handle_index_fits) (
                                Reads-then _ (Reads-read_u32 a.pid s.pid_fits) (
                                  Reads-then _ (Reads-read_u32 a.tid s.tid_fits) (
                                    Reads-then _ (Reads-read_u32 a.ninput s.ninput_fits) (
                                      Reads-then _ (Reads-read_u32 a.noutput s.noutput_fits) (
                                        Reads-then _ (Reads-read_u32 a.nheader s.nheader_fits) (
                                          Reads-then _ (Reads-read_u32 a.reserve s.reserve_fits) (
                                            Reads-then _ (Reads-fread 128 (replicate 128 0) refl) (
                                              Reads-then _
                                                (Reads-read_headers_of a.nheader a.headers
                                                  s.header_count s.headers_storable)
                                                (Reads-map
                                                  (read_payload dom_task want (length bytes))
                                                  (λ b.
                                                    (stored_task a, told want (length bytes), b))
                                                  _
                                                  (Reads-payload dom_task want
                                                    bytes)))))))))))))))))))))))

-- A task whose values fit their fields is written to a device with room for it, and reading the
-- file gives the task back, its headers as they are stored, with the size of its data and the data.
pub record_read_task-record_write_task :
    (a : TaskAttr) (bytes : Bytes) (room : ℕ) (disk : Option Bytes)
    → IsStorable a
    → length bytes < 2 ^ 64
    → length (task_text a bytes) ≤ room
    → (record_write_task true room disk a (some bytes) (length bytes)
        ≡ some (success, some (task_text a bytes)))
      × (record_read_task true (some (task_text a bytes))
          ≡ loaded (stored_task a) (some (length bytes)) (data_read bytes))
unfolding record_write_task record_read_task
record_read_task-record_write_task a bytes room disk s small fits = (
  written-Saved _ _ room (Writes-write_task_body a bytes s) fits,
  read-Loaded _ _ (Reads-read_task_body a bytes true s small),
)
