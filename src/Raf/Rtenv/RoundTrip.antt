-- ===== src/Raf/Rtenv/RoundTrip.antt =====
-- A runtime environment's record that is written is read back.
use tpbench.Prelude.{
  ℕ, ◌^◌, ◌≤◌, ◌<◌, List, true, ◌++◌, Option, some, ◌≡◌, ap, arith, Bytes, length, le_bytes,
}
use tpbench.Raf.File.Laws.{
  Writes, Writes-fwrite, ◌then_writes◌, Writes-write_u32, Writes-write_u64, Reads, Reads-fread,
  Reads-require, Reads-last, Reads-return, Reads-then, Reads-map, Reads-read_u32, Reads-read_u64,
}
use tpbench.Raf.Magic.{pos_start, ftype_record, dom_rtenv, build_magic}
use tpbench.Raf.Magic.Detect.{validate-build_magic, length-build_magic}
use tpbench.Raf.Record.{MetaHeader}
use tpbench.Raf.Record.Header.{headers_text, AllStorable, all_stored}
use tpbench.Raf.Record.Payload.{success, read_payload, loaded}
use tpbench.Raf.Record.Payload.Laws.{
  payload_text, data_read, Writes-write_headers_of, Reads-read_headers_of, Writes-payload,
  Reads-payload, written-Saved, read-Loaded,
}
use tpbench.Raf.Rtenv.{
  RtenvAttr, metasize_of, write_attr_meta, read_attr_meta, close_checked, write_rtenv_body,
  record_write_rtenv, read_rtenv_body, record_read_rtenv,
}

-- What a runtime environment must be to be stored: blocks of their sizes, and numbers that fit their fields.
pub record IsStorable (a : RtenvAttr) : Type 0 where
  pub id_fits : a.id < 2 ^ 32
  pub name_size : length a.name ≡ 256
  pub hostname_size : length a.hostname ≡ 256
  pub utc_bits_fits : a.utc_bits < 2 ^ 64
  pub inherit_from_fits : a.inherit_from < 2 ^ 32
  pub derive_to_fits : a.derive_to < 2 ^ 32
  pub ntask_fits : a.ntask < 2 ^ 32
  pub ntbatch_fits : a.ntbatch < 2 ^ 32
  pub note_size : length a.note ≡ 256
  pub napp_fits : a.napp < 2 ^ 32
  pub nenv_fits : a.nenv < 2 ^ 32
  pub nheader_fits : a.nheader < 2 ^ 32
  pub reserve_size : length a.reserve ≡ 1024

-- The attributes as bytes, and the file.
abbrev pub attr_text : RtenvAttr → Bytes
attr_text a =
    le_bytes 4 a.id
    ++ (a.name
        ++ (a.hostname
            ++ (le_bytes 8 a.utc_bits
                ++ (le_bytes 4 a.inherit_from
                    ++ (le_bytes 4 a.derive_to
                        ++ (le_bytes 4 a.ntask
                            ++ (le_bytes 4 a.ntbatch
                                ++ (a.note
                                    ++ (le_bytes 4 a.napp
                                        ++ (le_bytes 4 a.nenv
                                            ++ (le_bytes 4 a.nheader ++ (a.reserve))))))))))))

abbrev pub rtenv_text : RtenvAttr → List MetaHeader → Bytes → Bytes
rtenv_text a headers bytes =
    build_magic ftype_record dom_rtenv pos_start
    ++ (le_bytes 8 (metasize_of a.nheader)
        ++ (le_bytes 8 (length bytes)
            ++ (attr_text a ++ (headers_text headers ++ payload_text dom_rtenv bytes))))

metasize_of-fits : (n : ℕ) → n < 2 ^ 32 → metasize_of n < 2 ^ 64
unfolding metasize_of
metasize_of-fits n h = omega arith

Writes-write_attr_meta : (a : RtenvAttr) → Writes (write_attr_meta a) (attr_text a)
unfolding write_attr_meta
Writes-write_attr_meta a =
    Writes-write_u32 a.id
    then_writes Writes-fwrite a.name
    then_writes Writes-fwrite a.hostname
    then_writes Writes-write_u64 a.utc_bits
    then_writes Writes-write_u32 a.inherit_from
    then_writes Writes-write_u32 a.derive_to
    then_writes Writes-write_u32 a.ntask
    then_writes Writes-write_u32 a.ntbatch
    then_writes Writes-fwrite a.note
    then_writes Writes-write_u32 a.napp
    then_writes Writes-write_u32 a.nenv
    then_writes Writes-write_u32 a.nheader
    then_writes Writes-fwrite a.reserve

Writes-write_rtenv_body :
    (a : RtenvAttr) (headers : List MetaHeader) (bytes : Bytes)
    → a.nheader ≡ length headers
    → AllStorable headers
    → Writes (write_rtenv_body a headers (some bytes) (length bytes)) (rtenv_text a headers bytes)
unfolding write_rtenv_body
Writes-write_rtenv_body a headers bytes c s =
    Writes-fwrite (build_magic ftype_record dom_rtenv pos_start)
    then_writes Writes-write_u64 (metasize_of a.nheader)
    then_writes Writes-write_u64 (length bytes)
    then_writes Writes-write_attr_meta a
    then_writes Writes-write_headers_of a.nheader headers c s
    then_writes Writes-payload dom_rtenv bytes

Reads-read_attr_meta : (a : RtenvAttr) → IsStorable a → Reads read_attr_meta (attr_text a) a
unfolding read_attr_meta
Reads-read_attr_meta a s = Reads-then _ (Reads-read_u32 a.id s.id_fits) (
    Reads-then _ (Reads-fread 256 a.name s.name_size) (
      Reads-then _ (Reads-fread 256 a.hostname s.hostname_size) (
        Reads-then _ (Reads-read_u64 a.utc_bits s.utc_bits_fits) (
          Reads-then _ (Reads-read_u32 a.inherit_from s.inherit_from_fits) (
            Reads-then _ (Reads-read_u32 a.derive_to s.derive_to_fits) (
              Reads-then _ (Reads-read_u32 a.ntask s.ntask_fits) (
                Reads-then _ (Reads-read_u32 a.ntbatch s.ntbatch_fits) (
                  Reads-then _ (Reads-fread 256 a.note s.note_size) (
                    Reads-then _ (Reads-read_u32 a.napp s.napp_fits) (
                      Reads-then _ (Reads-read_u32 a.nenv s.nenv_fits) (
                        Reads-then _ (Reads-read_u32 a.nheader s.nheader_fits) (
                          Reads-last _ _ _ (Reads-fread 1024 a.reserve s.reserve_size)
                            (Reads-return a)))))))))))))

Reads-read_rtenv_body :
    (a : RtenvAttr) (headers : List MetaHeader) (bytes : Bytes)
    → IsStorable a
    → a.nheader ≡ length headers
    → AllStorable headers
    → length bytes < 2 ^ 64
    → Reads read_rtenv_body
        (rtenv_text a headers bytes)
        ((a, all_stored headers), some (length bytes), data_read bytes)
unfolding read_rtenv_body
Reads-read_rtenv_body a headers bytes s c hs small =
    Reads-then _ (Reads-fread 8 _ (length-build_magic ftype_record dom_rtenv pos_start)) (
      Reads-require _ _ _ (validate-build_magic ftype_record dom_rtenv pos_start) (
        Reads-then _
          (Reads-read_u64 (metasize_of a.nheader) (metasize_of-fits a.nheader s.nheader_fits))
          (Reads-then _ (Reads-read_u64 (length bytes) small) (
            Reads-then _ (Reads-read_attr_meta a s) (
              Reads-then _ (Reads-read_headers_of a.nheader headers c hs) (
                Reads-map (read_payload dom_rtenv true (length bytes))
                  (λ b. ((a, all_stored headers), some (length bytes), b)) _
                  (Reads-payload dom_rtenv true bytes)))))))

-- A runtime environment whose values fit their fields is written to a device with room for it, and
-- the file is closed without an error: reading the file gives the attributes back, the headers as
-- they are stored, the size of the data, and the data.
pub record_read_rtenv-record_write_rtenv :
    (a : RtenvAttr) (headers : List MetaHeader) (bytes : Bytes) (room : ℕ) (disk : Option Bytes)
    → IsStorable a
    → a.nheader ≡ length headers
    → AllStorable headers
    → length bytes < 2 ^ 64
    → length (rtenv_text a headers bytes) ≤ room
    → (record_write_rtenv true true room disk a headers (some bytes) (length bytes)
        ≡ some (success, some (rtenv_text a headers bytes)))
      × (record_read_rtenv (some (rtenv_text a headers bytes))
          ≡ loaded (a, all_stored headers) (some (length bytes)) (data_read bytes))
unfolding record_write_rtenv record_read_rtenv
record_read_rtenv-record_write_rtenv a headers bytes room disk s c hs small fits = (
  ap (close_checked true)
      (written-Saved _ _ room (Writes-write_rtenv_body a headers bytes c hs) fits),
  read-Loaded _ _ (Reads-read_rtenv_body a headers bytes s c hs small),
)
