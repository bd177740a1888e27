-- ===== src/Raf/Magic/Tests.antt =====
-- Runs on signatures.
use tpbench.Prelude.{[], ◌∷◌, true, ◌≡◌, ◌↔◌, refl, arith}
use tpbench.Raf.Magic.{
  pos_start, pos_end, ftype_entry, build_magic, validate_magic, detected, detect_magic,
}
use tpbench.Raf.Magic.Detect.{IsFtype, IsDomain, detect_magic_iff}

detect_magic_iff_example :
    (detect_magic (0xe1 ∷ 0x54 ∷ 0x50 ∷ 0x42 ∷ 0xe2 ∷ 0x53 ∷ 0x31 ∷ 0xe0 ∷ []) ≡ detected 0xe0 2)
    ↔ ((0xe1 ∷ 0x54 ∷ 0x50 ∷ 0x42 ∷ 0xe2 ∷ 0x53 ∷ 0x31 ∷ 0xe0 ∷ [] ≡ build_magic 0xe0 2 pos_start)
        × IsFtype 0xe0
        × IsDomain 2)
detect_magic_iff_example =
    detect_magic_iff 0xe1 0x54 0x50 0x42 0xe2 0x53 0x31 0xe0 0xe0 2 (omega arith)

same_signature : validate_magic (build_magic ftype_entry 1 pos_end) ftype_entry 1 pos_end ≡ true
unfolding validate_magic build_magic
same_signature = refl
