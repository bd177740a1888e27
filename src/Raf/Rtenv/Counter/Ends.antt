-- ===== src/Raf/Rtenv/Counter/Ends.antt =====
-- The search for the row of a runtime environment ends.
use tpbench.Prelude.{
  ℕ, zero, suc, ◌+◌, ◌-◌, ◌*◌, ◌%◌, ◌^◌, ◌≤◌, ◌<◌, Bool, true, false, [], ◌++◌, ◌⊎◌, inl, inr, ◌≡◌,
  refl, ap, ◌∙◌, arith, Bool-cases, if◌then◌else◌, ◌==◌, leb, Bytes, length, length-drop,
  take-append-drop, append_assoc, take, drop,
}
use tpbench.Raf.File.{
  File, Outcome, ok, fail, fault, M, ◌>>◌, then_do, opened, require, contents, fread, fseek, fwrite,
  write_u32,
}
use tpbench.Raf.Magic.{pos_start, ftype_entry, dom_rtenv, validate_magic}
use tpbench.Raf.Rtenv.Entry.{entry_size, disk_to_entry}
use tpbench.Raf.Rtenv.Counter.{patch_rows, patch_tpbe_body}

-- The call returns, with a result or to its `fail` label.
abbrev pub returns : {A : Type 0} → Outcome A → Bool
returns (ok a f) = true
returns (fail f) = true
returns fault = false

-- What a read gives: whole bytes with the file as it was, or a failure.
fread_cases :
    (n : ℕ) (f : File)
    → ((bs : Bytes) × (f' : File) × (fread n f ≡ ok bs f')
        × (length (contents f') ≡ length (contents f))
        × (n ≤ length f.ahead))
      ⊎ ((f' : File) × (fread n f ≡ fail f'))
unfolding fread
fread_cases n f = elim (Bool-cases (leb n (length f.ahead))) [
  | inl e ↦ inl (
    take n f.ahead,
    record f { past = f.past ++ take n f.ahead; ahead = drop n f.ahead },
    rw e refl,
    ap length (
        append_assoc f.past (take n f.ahead) (drop n f.ahead)
        ∙ ap (λ l. f.past ++ l) (take-append-drop n f.ahead)),
    ground arith,
  )
  | inr e ↦ inr (record f { past = f.past ++ f.ahead; ahead = [] }, rw e refl)
]

write_two-returns :
    (p a b : ℕ) (f : File) → returns ((fseek p >> write_u32 a >> write_u32 b) f) ≡ true
unfolding fseek write_u32 fwrite
write_two-returns p a b f = ground arith

module _ (id add_ntask add_ntbatch : ℕ) where
  -- What is done with a row that was read.
  abbrev with_row : ℕ → ℕ → Bytes → M (Unit {0})
  with_row fuel pos row =
      let rest = patch_rows fuel (pos + entry_size) id add_ntask add_ntbatch in
      (let disk = disk_to_entry row in
        if disk.id == id
        then (do
          fseek (pos + 532)
          write_u32 ((disk.ntask + add_ntask) % 2 ^ 32)
          write_u32 ((disk.ntbatch + add_ntbatch) % 2 ^ 32))
        else rest)

  patch_rows-returns :
      (fuel pos : ℕ) (f : File)
      → pos ≤ length (contents f)
      → length (contents f) < pos + fuel * entry_size
      → returns (patch_rows fuel pos id add_ntask add_ntbatch f) ≡ true
  unfolding patch_rows fseek
  patch_rows-returns zero pos f h enough = absurd (omega arith)
  patch_rows-returns (suc fuel) pos f h enough =
      let whole = f.past ++ f.ahead in
      let f1 = record f {
        past = take pos whole;
        ahead = drop pos whole;
        gap = pos - length whole;
      } in
      let kept : length (contents f1) ≡ length (contents f) =
        ap length (take-append-drop pos whole) in
      elim (fread_cases entry_size f1) [
        | inl (row, f', e, same, there) ↦
            (ap (λ o. returns (then_do o (with_row fuel pos))) e
              ∙ elim (Bool-cases ((disk_to_entry row).id == id)) [
                | inl found ↦ rw found (write_two-returns _ _ _ f')
                | inr other ↦ rw other (
                    patch_rows-returns fuel (pos + entry_size) f'
                      (omega (arith, same, kept, there, length-drop pos whole))
                      (omega (arith, same, kept)))
              ])
        | inr (f', e) ↦ ap (λ o. returns (then_do o (with_row fuel pos))) e
      ]

  abbrev with_magic : Bytes → M (Unit {0})
  with_magic magic =
      require (validate_magic magic ftype_entry dom_rtenv pos_start)
      >> (λ f. patch_rows (length (contents f)) 8 id add_ntask add_ntbatch f)

  -- On any bytes of a table, and however many the device takes, the search for the row ends: with
  -- the row patched, or at the `fail` label.
  pub patch_tpbe_body-returns :
      (table : Bytes) (room : ℕ)
      → returns (patch_tpbe_body id add_ntask add_ntbatch (opened table room)) ≡ true
  unfolding patch_tpbe_body
  patch_tpbe_body-returns table room = elim (fread_cases 8 (opened table room)) [
    | inl (magic, f, e, same, there) ↦
        (ap (λ o. returns (then_do o with_magic)) e
          ∙ elim (Bool-cases (validate_magic magic ftype_entry dom_rtenv pos_start)) [
            | inl valid ↦ rw valid (
                patch_rows-returns (length (contents f)) 8 f (omega (arith, same, there))
                  (omega arith))
            | inr other ↦ rw other refl
          ])
    | inr (f, e) ↦ ap (λ o. returns (then_do o with_magic)) e
  ]
