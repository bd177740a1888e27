-- ===== src/Raf/Kernel/Tests.antt =====
-- A run on a kernel with one header.
use tpbench.Prelude.{true, [], ◌∷◌, none, some, Bytes, ◌≡◌, refl, arith, length, replicate}
use tpbench.Raf.Magic.{build_magic}
use tpbench.Raf.Record.Tests.{header, header-IsStorable}
use tpbench.Raf.Record.Payload.{success, loaded}
use tpbench.Raf.Record.Payload.Laws.{data_asked, size_asked}
use tpbench.Raf.Kernel.{KernelAttr, record_write_kernel, record_read_kernel, metasize_of}
use tpbench.Raf.Kernel.RoundTrip.{
  IsStorable, kernel_text, stored_kernel, record_read_kernel-record_write_kernel,
}

abbrev pub kernel : KernelAttr
kernel = record {
  kernel_id = replicate 20 1;
  derive_to = replicate 20 2;
  inherit_from = replicate 20 3;
  kernel_name = replicate 256 4;
  version = replicate 64 5;
  description = replicate 2048 6;
  narg = 7007;
  nmetric = 8008;
  kctrl = 9009;
  nheader = 1;
  active = 11011;
  utc_bits = 12012;
  headers = header ∷ [];
}

pub kernel-IsStorable : IsStorable kernel
kernel-IsStorable = record {
  kernel_id_size = refl;
  derive_to_size = refl;
  inherit_from_size = refl;
  kernel_name_size = refl;
  version_size = refl;
  description_size = refl;
  narg_fits = omega arith;
  nmetric_fits = omega arith;
  kctrl_fits = omega arith;
  nheader_fits = omega arith;
  active_fits = omega arith;
  utc_bits_fits = omega arith;
  header_count = refl;
  headers_storable = (header-IsStorable, tt);
}

abbrev pub data_bytes : Bytes
data_bytes = replicate 40 9

kernel_size : length (kernel_text kernel data_bytes) ≡ 5380
unfolding metasize_of build_magic
kernel_size = refl

record_read_kernel-record_write_kernel_example :
    (record_write_kernel true 9000 none kernel (some data_bytes) (length data_bytes)
      ≡ some (success, some (kernel_text kernel data_bytes)))
    × (record_read_kernel true (some (kernel_text kernel data_bytes))
        ≡ loaded (stored_kernel kernel) (size_asked true data_bytes) (data_asked true data_bytes))
record_read_kernel-record_write_kernel_example =
    record_read_kernel-record_write_kernel kernel data_bytes true 9000 none kernel-IsStorable
      (omega arith) (omega (arith, kernel_size))
