-- ===== src/Csv/Tests.antt =====
-- Runs of the writer.
use tpbench.Prelude.{
  List, ◌++◌, ◌-◌, ◌≤◌, ◌+◌, arith, length, ◌∷◌, map, Bytes, false, [], some, ◌≡◌, refl, codes,
}
use tpbench.Csv.Escape.{escaped, has_double, has_triple}
use tpbench.Csv.Writes.{Writes}
use tpbench.Csv.Rows.{write_escaped_text_lem, row_text, write_row, split, split-write_row}
use tpbench.Csv.{
  Stream, Writer, success, ◌>>◌, cell, cell_byte, row_end, row_begin, write_raw, write_escaped_text,
  escape_byte, ends_in_comma, byte_text, putc,
}

abbrev fresh : Writer
fresh = record { fp = some (record { out = []; room = 100 }); in_row = false; ncells = 0 }

-- The examples of the design document, and a row of bytes.
row_run :
    (cell (codes "some,,content")
        >> cell (codes "some,")
        >> cell_byte b','
        >> cell_byte 7
        >> row_end)
      fresh
    ≡ (
      success,
      record {
        fp = some (record { out = codes "some, ,content,,some, ,,\u{1c},,0x07\n"; room = 68 });
        in_row = false;
        ncells = 0;
      },
    )
unfolding cell cell_byte row_end row_begin write_raw write_escaped_text escape_byte ends_in_comma
    byte_text putc
row_run = refl

abbrev cells : List Bytes
cells = codes "a,,b" ∷ codes "c," ∷ []

write_escaped_text_lem_example :
    Writes (write_escaped_text (codes "a,,b,")) (escaped (codes "a,,b,"))
    × (ends_in_comma (escaped (codes "a,,b,")) ≡ false)
    × (has_double (escaped (codes "a,,b,")) ≡ has_triple (codes "a,,b,"))
write_escaped_text_lem_example = write_escaped_text_lem (codes "a,,b,")

abbrev stream : Stream
stream = record { out = []; room = 100 }

fits : length (row_text 0 cells) + 1 ≤ 100
unfolding escape_byte ends_in_comma
fits = omega arith

split-write_row_example :
    (row : Bytes) × (write_row cells fresh ≡ (
      success,
      record {
        fp = some (record { out = row ++ b'\n' ∷ []; room = 100 - (length row + 1) });
        in_row = false;
        ncells = 0;
      },
    ))
    × (split row ≡ map escaped cells)
split-write_row_example =
    split-write_row (codes "a,,b") (codes "c," ∷ []) fresh stream refl refl fits (refl, (refl, tt))
