-- ===== src/Csv.antt =====
-- The `,,`-delimited writer of `task export` (src/tpbcli/task/tpbcli-task-csv.c). The stream is the
-- bytes written so far and the number of bytes that it still takes: `fputc` fails at no room.
-- Pointers to the writer are not NULL; a NULL text is the empty text, which the code treats alike.
pub mod Escape
pub mod Writes
pub mod Rows
mod Tests
use tpbench.Prelude.{
  ℕ, zero, suc, ◌+◌, ◌-◌, ◌/◌, ◌%◌, Bool, true, false, ◌&&◌, List, [], ◌∷◌, ◌++◌, Option, none,
  some, ltb, leb, ◌==◌, if◌then◌else◌, Bytes,
}

pub data Status : Type 0 where
  success nullptr_arg file_io_fail : Status

pub record Stream : Type 0 where
  pub out : Bytes
  pub room : ℕ

-- `tpbcli_task_csv_writer_t`
pub record Writer : Type 0 where
  pub fp : Option Stream
  pub in_row : Bool
  pub ncells : ℕ

-- A function on the writer, and TPB_PROPAGATE: an error leaves at once.
abbrev pub Op : Type 0
Op = Writer → Status × Writer

abbrev continue_with : Status × Writer → Op → Status × Writer
continue_with (success, w) k = k w
continue_with (nullptr_arg, w) k = (nullptr_arg, w)
continue_with (file_io_fail, w) k = (file_io_fail, w)

infixr 5 ◌>>◌
abbrev pub ◌>>◌ : Op → Op → Op
◌>>◌ m k w = continue_with (m w) k

abbrev pub done : Op
done w = (success, w)

-- `fputc(c, w->fp)`
putc_to : Option Stream → ℕ → Op
putc_to none c w = (nullptr_arg, w)
putc_to (some s) c w =
    if s.room == 0
    then (file_io_fail, w)
    else (success, record w { fp = some (record { out = s.out ++ (c ∷ []); room = s.room - 1 }) })

pub putc : ℕ → Op
unfolding putc_to
putc c w = putc_to w.fp c w

-- The guard `w->fp == NULL` of every function.
abbrev pub checked : Op → Op
checked m w = elim w.fp [ none ↦ (nullptr_arg, w) | some _ ↦ m w ]

put_all : Bytes → Op
put_all [] = done
put_all (c ∷ cs) = putc c >> put_all cs

pub write_raw : Bytes → Op
unfolding put_all
write_raw s = checked (put_all s)

-- What one byte of a text becomes, if it is no comma before a comma.
pub escape_byte : ℕ → Bytes
escape_byte c =
    if c == b'\\'
    then b'\\' ∷ b'\\' ∷ []
    else if c == b'\r'
    then b'\\' ∷ b'r' ∷ []
    else if c == b'\n'
    then b'\\' ∷ b'n' ∷ []
    else c ∷ []

-- The loop over the text; a comma followed by a comma takes both.
escape_loop : Bytes → Op
escape_loop [] = done
escape_loop (c ∷ []) = write_raw (escape_byte c)
escape_loop (c ∷ d ∷ rest) =
    let pair = write_raw (b',' ∷ b' ' ∷ b',' ∷ []) >> escape_loop rest in
    let single = write_raw (escape_byte c) >> escape_loop (d ∷ rest) in
    if (c == b',') && (d == b',') then pair else single

-- `text[strlen(text) - 1] == ','`
pub ends_in_comma : Bytes → Bool
ends_in_comma [] = false
ends_in_comma (c ∷ []) = c == b','
ends_in_comma (c ∷ d ∷ rest) = ends_in_comma (d ∷ rest)

pub write_escaped_text : Bytes → Op
unfolding escape_loop
write_escaped_text text =
    escape_loop text >> (if ends_in_comma text then write_raw (b' ' ∷ []) else done)

pub writer_init : Option Stream → Writer
writer_init fp = record { fp = fp; in_row = false; ncells = 0 }

pub row_end : Op
row_end = checked λ w.
    let finish = putc b'\n' >> (λ v. (success, record v { in_row = false; ncells = 0 })) in
    if w.in_row then finish w else (success, w)

pub row_begin : Op
row_begin = checked λ w.
    ((if w.in_row then row_end else done)
        >> (λ v. (success, record v { in_row = true; ncells = 0 })))
      w

-- The two steps before a cell's text: open a row, and separate from the cell before.
abbrev pub open_row : Op
open_row w = (if w.in_row then done else row_begin) w

abbrev pub separate : Op
separate w = (if ltb 0 w.ncells then write_raw (b',' ∷ b',' ∷ []) else done) w

abbrev pub count_cell : Op
count_cell w = (success, record w { ncells = w.ncells + 1 })

pub cell : Bytes → Op
cell text = checked (open_row >> separate >> write_escaped_text text >> count_cell)

-- A hexadecimal digit of `%02X`.
hex_digit : ℕ → ℕ
hex_digit d = if ltb d 10 then b'0' + d else b'A' + (d - 10)

-- What one raw byte becomes. `isprint` in the C locale.
pub byte_text : ℕ → Bytes
unfolding hex_digit
byte_text b =
    if b == b','
    then 0x1c ∷ []
    else if leb 0x20 b && leb b 0x7e
    then b ∷ []
    else b'0' ∷ b'x' ∷ hex_digit (b / 16) ∷ hex_digit (b % 16) ∷ []

pub cell_byte : ℕ → Op
cell_byte b = checked (open_row >> separate >> write_raw (byte_text b) >> count_cell)
