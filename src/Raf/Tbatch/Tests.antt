-- ===== src/Raf/Tbatch/Tests.antt =====
-- A run on a tbatch with one header.
use tpbench.Prelude.{true, [], ◌∷◌, none, some, Bytes, ◌≡◌, refl, arith, length, replicate}
use tpbench.Raf.Magic.{build_magic}
use tpbench.Raf.Record.Tests.{header, header-IsStorable}
use tpbench.Raf.Record.Payload.{success, loaded}
use tpbench.Raf.Record.Payload.Laws.{data_asked, size_asked}
use tpbench.Raf.Tbatch.{TbatchAttr, record_write_tbatch, record_read_tbatch, metasize_of}
use tpbench.Raf.Tbatch.RoundTrip.{
  IsStorable, tbatch_text, stored_tbatch, record_read_tbatch-record_write_tbatch,
}

abbrev tbatch : TbatchAttr
tbatch = record {
  tbatch_id = replicate 20 1;
  derive_to = replicate 20 2;
  inherit_from = replicate 20 3;
  utc_bits = 4004;
  btime = 5005;
  duration = 6006;
  hostname = replicate 64 7;
  username = replicate 64 8;
  front_pid = 9009;
  nkernel = 10010;
  ntask = 11011;
  nscore = 12012;
  batch_type = 13013;
  nheader = 1;
  headers = header ∷ [];
}

tbatch-IsStorable : IsStorable tbatch
tbatch-IsStorable = record {
  tbatch_id_size = refl;
  derive_to_size = refl;
  inherit_from_size = refl;
  utc_bits_fits = omega arith;
  btime_fits = omega arith;
  duration_fits = omega arith;
  hostname_size = refl;
  username_size = refl;
  front_pid_fits = omega arith;
  nkernel_fits = omega arith;
  ntask_fits = omega arith;
  nscore_fits = omega arith;
  batch_type_fits = omega arith;
  nheader_fits = omega arith;
  header_count = refl;
  headers_storable = (header-IsStorable, tt);
}

abbrev data_bytes : Bytes
data_bytes = replicate 40 9

tbatch_size : length (tbatch_text tbatch data_bytes) ≡ 3108
unfolding metasize_of build_magic
tbatch_size = refl

record_read_tbatch-record_write_tbatch_example :
    (record_write_tbatch true 9000 none tbatch (some data_bytes) (length data_bytes)
      ≡ some (success, some (tbatch_text tbatch data_bytes)))
    × (record_read_tbatch true (some (tbatch_text tbatch data_bytes))
        ≡ loaded (stored_tbatch tbatch) (size_asked true data_bytes) (data_asked true data_bytes))
record_read_tbatch-record_write_tbatch_example =
    record_read_tbatch-record_write_tbatch tbatch data_bytes true 9000 none tbatch-IsStorable
      (omega arith) (omega (arith, tbatch_size))
