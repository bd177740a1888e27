-- ===== src/Raf/Kernel/Active.antt =====
-- The active flag in the record file of a kernel (src/corelib/rafdb/rafdb-l3-kernel-patch.c).
use tpbench.Prelude.{
  ℕ, ◌-◌, ◌≤◌, true, List, [], ◌∷◌, ◌++◌, some, ◌≡◌, refl, sym, ap, ◌∙◌, arith, append-nil, Bytes,
  length, le_bytes, replicate,
}
use tpbench.Raf.File.{◌>>◌, fseek, fwrite, opened}
use tpbench.Raf.File.Seek.{Runs}
use tpbench.Raf.File.Segments.{joined, begin_at, write_last_seg}
use tpbench.Raf.Magic.{pos_start, ftype_record, dom_kernel, build_magic}
use tpbench.Raf.Magic.Detect.{length-build_magic}
use tpbench.Raf.Record.Header.{headers_text}
use tpbench.Raf.Record.Payload.Laws.{payload_text}
use tpbench.Raf.Kernel.{KernelAttr, metasize_of}
use tpbench.Raf.Kernel.RoundTrip.{IsStorable, kernel_text}
use tpbench.Raf.Kernel.Entry.{active_off, record_patch_kernel_active, success, close_patch}

module _ (a : KernelAttr) (bytes : Bytes) where
  abbrev behind : Bytes
  behind =
      le_bytes 8 a.utc_bits
      ++ (replicate 180 0 ++ (headers_text a.headers ++ payload_text dom_kernel bytes))

  abbrev segments : ℕ → List Bytes
  segments active =
      build_magic ftype_record dom_kernel pos_start
      ∷ le_bytes 8 (metasize_of a.nheader)
      ∷ le_bytes 8 (length bytes)
      ∷ a.kernel_id
      ∷ a.derive_to
      ∷ a.inherit_from
      ∷ a.kernel_name
      ∷ a.version
      ∷ a.description
      ∷ le_bytes 4 a.narg
      ∷ le_bytes 4 a.nmetric
      ∷ le_bytes 4 a.kctrl
      ∷ le_bytes 4 a.nheader
      ∷ le_bytes 4 active
      ∷ behind
      ∷ []

  segments_eq : joined (segments a.active) ≡ kernel_text a bytes
  segments_eq = rw (append-nil behind) refl

  patch-Runs :
      (active room : ℕ)
      → IsStorable a
      → 4 ≤ room
      → Runs
          (fseek active_off >> fwrite (le_bytes 4 active))
          (joined (segments a.active))
          room
          tt
          (joined (segments active))
          (room - 4)
  patch-Runs active room s fits =
      begin_at _ 2468 13 (segments a.active)
        (omega (
          arith,
          length-build_magic ftype_record dom_kernel pos_start,
          s.kernel_id_size,
          s.derive_to_size,
          s.inherit_from_size,
          s.kernel_name_size,
          s.version_size,
          s.description_size,
        ))
        (write_last_seg (le_bytes 4 active) refl (omega arith))

-- The active flag of a stored kernel is patched when nothing fails and the device takes 4 bytes:
-- the file is the one of the kernel with the new flag.
pub record_patch_kernel_active_lem :
    (a : KernelAttr) (bytes : Bytes) (active room : ℕ)
    → IsStorable a
    → 4 ≤ room
    → record_patch_kernel_active true room (some (kernel_text a bytes)) active
      ≡ (success, some (kernel_text (record a { active = active }) bytes))
unfolding record_patch_kernel_active
record_patch_kernel_active_lem a bytes active room s fits =
    let body = fseek active_off >> fwrite (le_bytes 4 active) in
    let old = joined (segments a bytes a.active) in
    let (f, e, h) =
      (patch-Runs a bytes active room s fits).run (opened old room)
        (record { bytes = refl; no_gap = refl; room_left = refl }) in
    (λ j.
      close_patch (some (sym (segments_eq a bytes) j))
        (body (opened (sym (segments_eq a bytes) j) room)))
    ∙ ap (close_patch (some old)) e
    ∙ ap (λ l. (success, some l)) (h.bytes ∙ segments_eq (record a { active = active }) bytes)
