-- ===== src/Raf/Tbatch/RoundTrip.antt =====
-- A tbatch record that is written is read back.
use tpbench.Prelude.{
  ℕ, ◌^◌, ◌≤◌, ◌<◌, Bool, true, ◌++◌, Option, some, ◌≡◌, refl, ap, ◌∙◌, arith, Bytes, length,
  replicate, le_bytes,
}
use tpbench.Raf.File.Laws.{
  Writes, Writes-fwrite, ◌then_writes◌, Writes-write_u32, Writes-write_u64, Reads, Reads-fread,
  Reads-require, Reads-then, Reads-map, Reads-read_u32, Reads-read_u64,
}
use tpbench.Raf.Magic.{pos_start, ftype_record, dom_tbatch, build_magic}
use tpbench.Raf.Magic.Detect.{validate-build_magic, length-build_magic}
use tpbench.Raf.Record.Header.{headers_text, AllStorable, all_stored}
use tpbench.Raf.Record.Payload.{success, read_payload, told, loaded}
use tpbench.Raf.Record.Payload.Laws.{
  payload_text, Writes-write_headers_of, Reads-read_headers_of, Writes-payload, data_asked,
  size_asked, told-length, Reads-payload, written-Saved, read-Loaded,
}
use tpbench.Raf.Tbatch.{
  TbatchAttr, metasize_of, write_tbatch_body, record_write_tbatch, read_tbatch_body,
  record_read_tbatch,
}

-- What a tbatch must be to be stored: blocks of their sizes, numbers that fit their fields, and as
-- many headers as it counts.
pub record IsStorable (a : TbatchAttr) : Type 0 where
  pub tbatch_id_size : length a.tbatch_id ≡ 20
  pub derive_to_size : length a.derive_to ≡ 20
  pub inherit_from_size : length a.inherit_from ≡ 20
  pub utc_bits_fits : a.utc_bits < 2 ^ 64
  pub btime_fits : a.btime < 2 ^ 64
  pub duration_fits : a.duration < 2 ^ 64
  pub hostname_size : length a.hostname ≡ 64
  pub username_size : length a.username ≡ 64
  pub front_pid_fits : a.front_pid < 2 ^ 32
  pub nkernel_fits : a.nkernel < 2 ^ 32
  pub ntask_fits : a.ntask < 2 ^ 32
  pub nscore_fits : a.nscore < 2 ^ 32
  pub batch_type_fits : a.batch_type < 2 ^ 32
  pub nheader_fits : a.nheader < 2 ^ 32
  pub header_count : a.nheader ≡ length a.headers
  pub headers_storable : AllStorable a.headers

-- The file of a tbatch.
abbrev pub second_text : TbatchAttr → Bytes → Bytes
second_text a rest =
    a.username
    ++ (le_bytes 4 a.front_pid
        ++ (le_bytes 4 a.nkernel
            ++ (le_bytes 4 a.ntask
                ++ (le_bytes 4 a.nscore
                    ++ (le_bytes 4 a.batch_type
                        ++ (le_bytes 4 a.nheader ++ (replicate 128 0 ++ (rest))))))))

abbrev pub first_text : TbatchAttr → Bytes → Bytes
first_text a rest =
    a.tbatch_id
    ++ (a.derive_to
        ++ (a.inherit_from
            ++ (le_bytes 8 a.utc_bits
                ++ (le_bytes 8 a.btime ++ (le_bytes 8 a.duration ++ (a.hostname ++ (rest)))))))

abbrev pub tbatch_text : TbatchAttr → Bytes → Bytes
tbatch_text a bytes =
    build_magic ftype_record dom_tbatch pos_start
    ++ (le_bytes 8 (metasize_of a.nheader)
        ++ (le_bytes 8 (length bytes)
            ++ first_text a
                (second_text a (headers_text a.headers ++ payload_text dom_tbatch bytes))))

-- A tbatch as it comes back: each header as it is stored.
abbrev pub stored_tbatch : TbatchAttr → TbatchAttr
stored_tbatch a = record a { headers = all_stored a.headers }

pub metasize_of-fits : (n : ℕ) → metasize_of n < 2 ^ 64
unfolding metasize_of
metasize_of-fits n = omega arith

Writes-write_tbatch_body :
    (a : TbatchAttr) (bytes : Bytes)
    → IsStorable a
    → Writes (write_tbatch_body a (some bytes) (length bytes)) (tbatch_text a bytes)
unfolding write_tbatch_body
Writes-write_tbatch_body a bytes s =
    Writes-fwrite (build_magic ftype_record dom_tbatch pos_start)
    then_writes Writes-write_u64 (metasize_of a.nheader)
    then_writes Writes-write_u64 (length bytes)
    then_writes Writes-fwrite a.tbatch_id
    then_writes Writes-fwrite a.derive_to
    then_writes Writes-fwrite a.inherit_from
    then_writes Writes-write_u64 a.utc_bits
    then_writes Writes-write_u64 a.btime
    then_writes Writes-write_u64 a.duration
    then_writes Writes-fwrite a.hostname
    then_writes Writes-fwrite a.username
    then_writes Writes-write_u32 a.front_pid
    then_writes Writes-write_u32 a.nkernel
    then_writes Writes-write_u32 a.ntask
    then_writes Writes-write_u32 a.nscore
    then_writes Writes-write_u32 a.batch_type
    then_writes Writes-write_u32 a.nheader
    then_writes Writes-fwrite (replicate 128 0)
    then_writes Writes-write_headers_of a.nheader a.headers s.header_count s.headers_storable
    then_writes Writes-payload dom_tbatch bytes

Reads-read_tbatch_body :
    (a : TbatchAttr) (bytes : Bytes) (want : Bool)
    → IsStorable a
    → length bytes < 2 ^ 64
    → Reads
        (read_tbatch_body want)
        (tbatch_text a bytes)
        (stored_tbatch a, told want (length bytes), data_asked want bytes)
unfolding read_tbatch_body
Reads-read_tbatch_body a bytes want s small =
    Reads-then _ (Reads-fread 8 _ (length-build_magic ftype_record dom_tbatch pos_start)) (
      Reads-require _ _ _ (validate-build_magic ftype_record dom_tbatch pos_start) (
        Reads-then _ (Reads-read_u64 (metasize_of a.nheader) (metasize_of-fits a.nheader)) (
          Reads-then _ (Reads-read_u64 (length bytes) small) (
            Reads-then _ (Reads-fread 20 a.tbatch_id s.tbatch_id_size) (
              Reads-then _ (Reads-fread 20 a.derive_to s.derive_to_size) (
                Reads-then _ (Reads-fread 20 a.inherit_from s.inherit_from_size) (
                  Reads-then _ (Reads-read_u64 a.utc_bits s.utc_bits_fits) (
                    Reads-then _ (Reads-read_u64 a.btime s.btime_fits) (
                      Reads-then _ (Reads-read_u64 a.duration s.duration_fits) (
                        Reads-then _ (Reads-fread 64 a.hostname s.hostname_size) (
                          Reads-then _ (Reads-fread 64 a.username s.username_size) (
                            Reads-then _ (Reads-read_u32 a.front_pid s.front_pid_fits) (
                              Reads-then _ (Reads-read_u32 a.nkernel s.nkernel_fits) (
                                Reads-then _ (Reads-read_u32 a.ntask s.ntask_fits) (
                                  Reads-then _ (Reads-read_u32 a.nscore s.nscore_fits) (
                                    Reads-then _ (Reads-read_u32 a.batch_type s.batch_type_fits) (
                                      Reads-then _ (Reads-read_u32 a.nheader s.nheader_fits) (
                                        Reads-then _ (Reads-fread 128 (replicate 128 0) refl) (
                                          Reads-then _
                                            (Reads-read_headers_of a.nheader a.headers
                                              s.header_count s.headers_storable)
                                            (Reads-map (read_payload dom_tbatch want (length bytes))
                                              (λ b. (stored_tbatch a, told want (length bytes), b))
                                              _
                                              (Reads-payload dom_tbatch want
                                                bytes)))))))))))))))))))))

-- A tbatch whose values fit their fields is written to a device with room for it, and reading the
-- file gives the tbatch back, its headers as they are stored, and the size of its data and the data if
-- they are asked for; a caller that does not ask for them gets neither.
pub record_read_tbatch-record_write_tbatch :
    (a : TbatchAttr) (bytes : Bytes) (want : Bool) (room : ℕ) (disk : Option Bytes)
    → IsStorable a
    → length bytes < 2 ^ 64
    → length (tbatch_text a bytes) ≤ room
    → (record_write_tbatch true room disk a (some bytes) (length bytes)
        ≡ some (success, some (tbatch_text a bytes)))
      × (record_read_tbatch want (some (tbatch_text a bytes))
          ≡ loaded (stored_tbatch a) (size_asked want bytes) (data_asked want bytes))
unfolding record_write_tbatch record_read_tbatch
record_read_tbatch-record_write_tbatch a bytes want room disk s small fits = (
  written-Saved _ _ room (Writes-write_tbatch_body a bytes s) fits,
  read-Loaded _ _ (Reads-read_tbatch_body a bytes want s small)
      ∙ ap (λ n. loaded (stored_tbatch a) n (data_asked want bytes)) (told-length want bytes),
)
