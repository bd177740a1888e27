-- ===== src/Csv/Rows.antt =====
-- Whole rows: what the writer's calls put into the stream, and what a reader that splits at `,,`
-- from left to right gets back.
use tpbench.Prelude.{
  ℕ, ◌+◌, ◌-◌, ◌≤◌, true, false, ◌&&◌, List, [], ◌∷◌, ◌++◌, map, some, ◌≡◌, refl, ◌∙◌, ap, inl, inr,
  arith, append-nil, append_assoc, ltb, ◌==◌, if◌then◌else◌, Bool-cases, Bytes, length,
  length-append,
}
use tpbench.Csv.{
  Stream, Writer, Status, success, nullptr_arg, file_io_fail, Op, continue_with, ◌>>◌, done, putc,
  write_raw, ends_in_comma, write_escaped_text, row_begin, row_end, count_cell, cell,
}
use tpbench.Csv.Escape.{escaped, has_double, has_triple, has_double-escaped, ends_in_comma-escaped}
use tpbench.Csv.Writes.{Writes, Writes-done, Writes->>, Writes-write_raw, Writes-write_escaped_text}

-- A reader of rows: `,,` is the delimiter, from left to right.
abbrev pub cons_head : ℕ → List Bytes → List Bytes
cons_head c [] = (c ∷ []) ∷ []
cons_head c (x ∷ xs) = (c ∷ x) ∷ xs

abbrev pub split : Bytes → List Bytes
split [] = [] ∷ []
split (c ∷ []) = (c ∷ []) ∷ []
split (c ∷ d ∷ rest) =
    let cut = [] ∷ split rest in
    let keep = cons_head c (split (d ∷ rest)) in if (c == b',') && (d == b',') then cut else keep

-- The text of the cells behind `n` cells of the same row.
abbrev pub row_text : ℕ → List Bytes → Bytes
row_text n [] = []
row_text n (t ∷ ts) =
    (if ltb 0 n then b',' ∷ b',' ∷ [] else []) ++ (escaped t ++ row_text (n + 1) ts)

split_last : (x : Bytes) → has_double x ≡ false → split x ≡ x ∷ []
split_last [] h = refl
split_last (c ∷ []) h = refl
split_last (c ∷ d ∷ rest) h = ground (arith, split_last (d ∷ rest))

split_cell :
    (x rest : Bytes)
    → has_double x ≡ false
    → ends_in_comma x ≡ false
    → split (x ++ b',' ∷ b',' ∷ rest) ≡ x ∷ split rest
unfolding ends_in_comma
split_cell [] rest h e = refl
split_cell (c ∷ []) rest h e = ground arith
split_cell (c ∷ d ∷ x) rest h e = ground (arith, split_cell (d ∷ x) rest)

-- No text of the list has three commas in a row.
abbrev pub NoTriple : List Bytes → Type 0
NoTriple [] = Unit
NoTriple (t ∷ ts) = (has_triple t ≡ false) × NoTriple ts

split-row_text :
    (t : Bytes) (ts : List Bytes) (n : ℕ)
    → NoTriple (t ∷ ts)
    → split (escaped t ++ row_text (n + 1) ts) ≡ map escaped (t ∷ ts)
split-row_text t [] n h = rw append-nil (split_last (escaped t) (has_double-escaped t ∙ h.0))
split-row_text t (u ∷ us) n h =
    let more : ltb 0 (n + 1) ≡ true = ground arith in
    rw more (
      split_cell (escaped t) _ (has_double-escaped t ∙ h.0) (ends_in_comma-escaped t)
      ∙ ap (◌∷◌ (escaped t)) (split-row_text u us (n + 1) h.1))

-- A call of `tpbcli_task_csv_cell` for each text.
pub cells : List Bytes → Op
cells [] = done
cells (t ∷ ts) = cell t >> cells ts

-- A row: begun, filled and ended.
pub write_row : List Bytes → Op
unfolding cells
write_row ts = row_begin >> cells ts >> row_end

-- Within a row that has `n` cells, and with room for `bs`: what a call that writes `bs` and adds
-- `k` cells leaves.
abbrev Leaves : Op → Bytes → ℕ → ℕ → Type 0
Leaves m bs n k =
    (s : Stream)
    → length bs ≤ s.room
    → m (record { fp = some s; in_row = true; ncells = n }) ≡ (
      success,
      record {
        fp = some (record { out = s.out ++ bs; room = s.room - length bs });
        in_row = true;
        ncells = n + k;
      },
    )

abbrev cell_text : ℕ → Bytes → Bytes
cell_text n t = (if ltb 0 n then b',' ∷ b',' ∷ [] else []) ++ escaped t

Writes-separator :
    (n : ℕ)
    → Writes
        (if ltb 0 n then write_raw (b',' ∷ b',' ∷ []) else done)
        (if ltb 0 n then b',' ∷ b',' ∷ [] else [])
Writes-separator n = elim (Bool-cases (ltb 0 n)) [
  | inl e ↦ rw e (Writes-write_raw (b',' ∷ b',' ∷ []))
  | inr e ↦ rw e Writes-done
]

continue_assoc :
    (r : Status × Writer) (k l : Op)
    → continue_with r (k >> l) ≡ continue_with (continue_with r k) l
continue_assoc (success, w) k l = refl
continue_assoc (nullptr_arg, w) k l = refl
continue_assoc (file_io_fail, w) k l = refl

cell-Leaves : (n : ℕ) (t : Bytes) → Leaves (cell t) (cell_text n t) n 1
unfolding cell
cell-Leaves n t s h =
    continue_assoc (sep w) (write_escaped_text t) count_cell
    ∙ ap (λ r. continue_with r count_cell) written
  where
    w : Writer
    w = record { fp = some s; in_row = true; ncells = n }

    sep : Op
    sep = if ltb 0 n then write_raw (b',' ∷ b',' ∷ []) else done

    written : (sep >> write_escaped_text t) w ≡ (
      success,
      record w {
        fp = some (record { out = s.out ++ cell_text n t; room = s.room - length (cell_text n t) });
      },
    )
    written = ground (
      arith,
      Writes->> sep (write_escaped_text t) _ _ (Writes-separator n) (Writes-write_escaped_text t) w
          s refl,
    )

cells-Leaves : (n : ℕ) (ts : List Bytes) → Leaves (cells ts) (row_text n ts) n (length ts)
unfolding cells
cells-Leaves n [] s h = ground (arith, append-nil s.out)
cells-Leaves n (t ∷ ts) s h = ground (
  arith,
  append_assoc (if ltb 0 n then b',' ∷ b',' ∷ [] else []) (escaped t) (row_text (n + 1) ts),
  length-append (cell_text n t) (row_text (n + 1) ts),
  append_assoc s.out (cell_text n t) (row_text (n + 1) ts),
  cell-Leaves n t s,
  cells-Leaves (n + 1) ts
      (record { out = s.out ++ cell_text n t; room = s.room - length (cell_text n t) }),
)

-- Writing a text to a stream with room for it puts its escaped form into the stream. This never
-- ends in a comma, and it holds the delimiter `,,` exactly when the text has three commas in a row.
pub write_escaped_text_lem :
    (t : Bytes)
    → Writes (write_escaped_text t) (escaped t)
      × (ends_in_comma (escaped t) ≡ false)
      × (has_double (escaped t) ≡ has_triple t)
write_escaped_text_lem t =
    (Writes-write_escaped_text t, ends_in_comma-escaped t, has_double-escaped t)

-- With room for it, a row of cells appends the cells' texts, delimited and ended by a newline, and
-- leaves the writer outside a row with no cells counted.
pub write_row_lem :
    (ts : List Bytes) (w : Writer) (s : Stream)
    → w.fp ≡ some s
    → w.in_row ≡ false
    → length (row_text 0 ts) + 1 ≤ s.room
    → write_row ts w ≡ (
      success,
      record {
        fp = some (record {
          out = s.out ++ (row_text 0 ts ++ b'\n' ∷ []);
          room = s.room - (length (row_text 0 ts) + 1);
        });
        in_row = false;
        ncells = 0;
      },
    )
unfolding write_row row_begin row_end putc
write_row_lem ts w s e f h =
    ground (arith, cells-Leaves 0 ts s, append_assoc s.out (row_text 0 ts) (b'\n' ∷ []))

-- A row of cells that is written with room for it: it stands behind what the stream held, ended by
-- a newline, and if no cell has three commas in a row a reader that splits it at `,,` gets the cells
-- back, each as it was escaped. The writer is outside a row then, with no cells counted.
pub split-write_row :
    (t : Bytes) (ts : List Bytes) (w : Writer) (s : Stream)
    → w.fp ≡ some s
    → w.in_row ≡ false
    → length (row_text 0 (t ∷ ts)) + 1 ≤ s.room
    → NoTriple (t ∷ ts)
    → (row : Bytes) × (write_row (t ∷ ts) w ≡ (
      success,
      record {
        fp = some (record { out = s.out ++ (row ++ b'\n' ∷ []); room = s.room - (length row + 1) });
        in_row = false;
        ncells = 0;
      },
    ))
      × (split row ≡ map escaped (t ∷ ts))
split-write_row t ts w s e f h n =
    (row_text 0 (t ∷ ts), write_row_lem (t ∷ ts) w s e f h, split-row_text t ts 0 n)
