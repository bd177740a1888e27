-- ===== src/Raf/Rtenv/Tests.antt =====
-- A run on a runtime environment with one header.
use tpbench.Prelude.{true, [], ◌∷◌, none, some, Bytes, ◌≡◌, refl, arith, length, replicate}
use tpbench.Raf.Magic.{build_magic}
use tpbench.Raf.Record.Tests.{header, header-IsStorable}
use tpbench.Raf.Record.Payload.{success, loaded}
use tpbench.Raf.Record.Payload.Laws.{data_read}
use tpbench.Raf.Record.Header.{all_stored}
use tpbench.Raf.Rtenv.{RtenvAttr, record_write_rtenv, record_read_rtenv, metasize_of}
use tpbench.Raf.Rtenv.RoundTrip.{IsStorable, rtenv_text, record_read_rtenv-record_write_rtenv}

abbrev pub rtenv : RtenvAttr
rtenv = record {
  id = 1001;
  name = replicate 256 2;
  hostname = replicate 256 3;
  utc_bits = 4004;
  inherit_from = 5005;
  derive_to = 6006;
  ntask = 7007;
  ntbatch = 8008;
  note = replicate 256 9;
  napp = 10010;
  nenv = 11011;
  nheader = 1;
  reserve = replicate 1024 13;
}

pub rtenv-IsStorable : IsStorable rtenv
rtenv-IsStorable = record {
  id_fits = omega arith;
  name_size = refl;
  hostname_size = refl;
  utc_bits_fits = omega arith;
  inherit_from_fits = omega arith;
  derive_to_fits = omega arith;
  ntask_fits = omega arith;
  ntbatch_fits = omega arith;
  note_size = refl;
  napp_fits = omega arith;
  nenv_fits = omega arith;
  nheader_fits = omega arith;
  reserve_size = refl;
}

abbrev pub data_bytes : Bytes
data_bytes = replicate 40 9

rtenv_size : length (rtenv_text rtenv (header ∷ []) data_bytes) ≡ 4576
unfolding metasize_of build_magic
rtenv_size = refl

record_read_rtenv-record_write_rtenv_example :
    (record_write_rtenv true true 9000 none rtenv
        (header ∷ [])
        (some data_bytes)
        (length data_bytes)
      ≡ some (success, some (rtenv_text rtenv (header ∷ []) data_bytes)))
    × (record_read_rtenv (some (rtenv_text rtenv (header ∷ []) data_bytes))
        ≡ loaded
            (rtenv, all_stored (header ∷ []))
            (some (length data_bytes))
            (data_read data_bytes))
record_read_rtenv-record_write_rtenv_example =
    record_read_rtenv-record_write_rtenv rtenv (header ∷ []) data_bytes 9000 none rtenv-IsStorable
      refl (header-IsStorable, tt) (omega arith) (omega (arith, rtenv_size))
