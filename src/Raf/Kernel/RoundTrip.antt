-- ===== src/Raf/Kernel/RoundTrip.antt =====
-- A kernel record that is written is read back.
use tpbench.Prelude.{
  ℕ, ◌^◌, ◌≤◌, ◌<◌, Bool, true, ◌++◌, Option, some, ◌≡◌, refl, ap, ◌∙◌, arith, Bytes, length,
  replicate, le_bytes,
}
use tpbench.Raf.File.Laws.{
  Writes, Writes-fwrite, ◌then_writes◌, Writes-write_u32, Writes-write_u64, Reads, Reads-fread,
  Reads-require, Reads-then, Reads-map, Reads-read_u32, Reads-read_u64,
}
use tpbench.Raf.Magic.{pos_start, ftype_record, dom_kernel, build_magic}
use tpbench.Raf.Magic.Detect.{validate-build_magic, length-build_magic}
use tpbench.Raf.Record.Header.{headers_text, AllStorable, all_stored}
use tpbench.Raf.Record.Payload.{success, read_payload, told, loaded}
use tpbench.Raf.Record.Payload.Laws.{
  payload_text, Writes-write_headers_of, Reads-read_headers_of, Writes-payload, data_asked,
  size_asked, told-length, Reads-payload, written-Saved, read-Loaded,
}
use tpbench.Raf.Kernel.{
  KernelAttr, metasize_of, write_kernel_body, record_write_kernel, read_kernel_body,
  record_read_kernel,
}

-- What a kernel must be to be stored: blocks of their sizes, numbers that fit their fields, and as
-- many headers as it counts.
pub record IsStorable (a : KernelAttr) : Type 0 where
  pub kernel_id_size : length a.kernel_id ≡ 20
  pub derive_to_size : length a.derive_to ≡ 20
  pub inherit_from_size : length a.inherit_from ≡ 20
  pub kernel_name_size : length a.kernel_name ≡ 256
  pub version_size : length a.version ≡ 64
  pub description_size : length a.description ≡ 2048
  pub narg_fits : a.narg < 2 ^ 32
  pub nmetric_fits : a.nmetric < 2 ^ 32
  pub kctrl_fits : a.kctrl < 2 ^ 32
  pub nheader_fits : a.nheader < 2 ^ 32
  pub active_fits : a.active < 2 ^ 32
  pub utc_bits_fits : a.utc_bits < 2 ^ 64
  pub header_count : a.nheader ≡ length a.headers
  pub headers_storable : AllStorable a.headers

-- The file of a kernel.
abbrev pub second_text : KernelAttr → Bytes → Bytes
second_text a rest =
    le_bytes 4 a.narg
    ++ (le_bytes 4 a.nmetric
        ++ (le_bytes 4 a.kctrl
            ++ (le_bytes 4 a.nheader
                ++ (le_bytes 4 a.active
                    ++ (le_bytes 8 a.utc_bits ++ (replicate 180 0 ++ (rest)))))))

abbrev pub first_text : KernelAttr → Bytes → Bytes
first_text a rest =
    a.kernel_id
    ++ (a.derive_to
        ++ (a.inherit_from ++ (a.kernel_name ++ (a.version ++ (a.description ++ (rest))))))

abbrev pub kernel_text : KernelAttr → Bytes → Bytes
kernel_text a bytes =
    build_magic ftype_record dom_kernel pos_start
    ++ (le_bytes 8 (metasize_of a.nheader)
        ++ (le_bytes 8 (length bytes)
            ++ first_text a
                (second_text a (headers_text a.headers ++ payload_text dom_kernel bytes))))

-- A kernel as it comes back: each header as it is stored.
abbrev pub stored_kernel : KernelAttr → KernelAttr
stored_kernel a = record a { headers = all_stored a.headers }

metasize_of-fits : (n : ℕ) → metasize_of n < 2 ^ 64
unfolding metasize_of
metasize_of-fits n = omega arith

Writes-write_kernel_body :
    (a : KernelAttr) (bytes : Bytes)
    → IsStorable a
    → Writes (write_kernel_body a (some bytes) (length bytes)) (kernel_text a bytes)
unfolding write_kernel_body
Writes-write_kernel_body a bytes s =
    Writes-fwrite (build_magic ftype_record dom_kernel pos_start)
    then_writes Writes-write_u64 (metasize_of a.nheader)
    then_writes Writes-write_u64 (length bytes)
    then_writes Writes-fwrite a.kernel_id
    then_writes Writes-fwrite a.derive_to
    then_writes Writes-fwrite a.inherit_from
    then_writes Writes-fwrite a.kernel_name
    then_writes Writes-fwrite a.version
    then_writes Writes-fwrite a.description
    then_writes Writes-write_u32 a.narg
    then_writes Writes-write_u32 a.nmetric
    then_writes Writes-write_u32 a.kctrl
    then_writes Writes-write_u32 a.nheader
    then_writes Writes-write_u32 a.active
    then_writes Writes-write_u64 a.utc_bits
    then_writes Writes-fwrite (replicate 180 0)
    then_writes Writes-write_headers_of a.nheader a.headers s.header_count s.headers_storable
    then_writes Writes-payload dom_kernel bytes

Reads-read_kernel_body :
    (a : KernelAttr) (bytes : Bytes) (want : Bool)
    → IsStorable a
    → length bytes < 2 ^ 64
    → Reads
        (read_kernel_body want)
        (kernel_text a bytes)
        (stored_kernel a, told want (length bytes), data_asked want bytes)
unfolding read_kernel_body
Reads-read_kernel_body a bytes want s small =
    Reads-then _ (Reads-fread 8 _ (length-build_magic ftype_record dom_kernel pos_start)) (
      Reads-require _ _ _ (validate-build_magic ftype_record dom_kernel pos_start) (
        Reads-then _ (Reads-read_u64 (metasize_of a.nheader) (metasize_of-fits a.nheader)) (
          Reads-then _ (Reads-read_u64 (length bytes) small) (
            Reads-then _ (Reads-fread 20 a.kernel_id s.kernel_id_size) (
              Reads-then _ (Reads-fread 20 a.derive_to s.derive_to_size) (
                Reads-then _ (Reads-fread 20 a.inherit_from s.inherit_from_size) (
                  Reads-then _ (Reads-fread 256 a.kernel_name s.kernel_name_size) (
                    Reads-then _ (Reads-fread 64 a.version s.version_size) (
                      Reads-then _ (Reads-fread 2048 a.description s.description_size) (
                        Reads-then _ (Reads-read_u32 a.narg s.narg_fits) (
                          Reads-then _ (Reads-read_u32 a.nmetric s.nmetric_fits) (
                            Reads-then _ (Reads-read_u32 a.kctrl s.kctrl_fits) (
                              Reads-then _ (Reads-read_u32 a.nheader s.nheader_fits) (
                                Reads-then _ (Reads-read_u32 a.active s.active_fits) (
                                  Reads-then _ (Reads-read_u64 a.utc_bits s.utc_bits_fits) (
                                    Reads-then _ (Reads-fread 180 (replicate 180 0) refl) (
                                      Reads-then _
                                        (Reads-read_headers_of a.nheader a.headers s.header_count
                                          s.headers_storable)
                                        (Reads-map (read_payload dom_kernel want (length bytes))
                                          (λ b. (stored_kernel a, told want (length bytes), b)) _
                                          (Reads-payload dom_kernel want bytes)))))))))))))))))))

-- A kernel whose values fit their fields is written to a device with room for it, and reading the
-- file gives the kernel back, its headers as they are stored, and the size of its data and the data if
-- they are asked for; a caller that does not ask for them gets neither.
pub record_read_kernel-record_write_kernel :
    (a : KernelAttr) (bytes : Bytes) (want : Bool) (room : ℕ) (disk : Option Bytes)
    → IsStorable a
    → length bytes < 2 ^ 64
    → length (kernel_text a bytes) ≤ room
    → (record_write_kernel true room disk a (some bytes) (length bytes)
        ≡ some (success, some (kernel_text a bytes)))
      × (record_read_kernel want (some (kernel_text a bytes))
          ≡ loaded (stored_kernel a) (size_asked want bytes) (data_asked want bytes))
unfolding record_write_kernel record_read_kernel
record_read_kernel-record_write_kernel a bytes want room disk s small fits = (
  written-Saved _ _ room (Writes-write_kernel_body a bytes s) fits,
  read-Loaded _ _ (Reads-read_kernel_body a bytes want s small)
      ∙ ap (λ n. loaded (stored_kernel a) n (data_asked want bytes)) (told-length want bytes),
)
