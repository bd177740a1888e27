-- ===== src/Raf/Entry/Rows.antt =====
-- The rows of a listing, cut to their size.
use tpbench.Prelude.{
  ℕ, zero, suc, ◌*◌, List, [], ◌∷◌, ◌≡◌, refl, sym, ap, ◌∙◌, arith, length-append, Bytes, length,
  take, drop, take-append, drop-append,
}
use tpbench.Raf.File.Segments.{joined}

-- `buf[i]` for `i < n`, where an element takes `size` bytes.
pub rows_in : ℕ → ℕ → Bytes → List Bytes
rows_in zero size buf = []
rows_in (suc n) size buf = take size buf ∷ rows_in n size (drop size buf)

abbrev pub AllSize : ℕ → List Bytes → Type 0
AllSize size [] = Unit
AllSize size (row ∷ rows) = (length row ≡ size) × AllSize size rows

pub rows_in-joined :
    (size : ℕ) (rows : List Bytes)
    → AllSize size rows
    → rows_in (length rows) size (joined rows) ≡ rows
unfolding rows_in
rows_in-joined size [] s = refl
rows_in-joined size (row ∷ rows) s =
    let first = take-append size row (joined rows) (sym s.0) in
    let rest = drop-append size row (joined rows) (sym s.0) in
    (λ j. first j ∷ rows_in (length rows) size (rest j))
    ∙ ap (λ l. row ∷ l) (rows_in-joined size rows s.1)

pub length-rows :
    (size : ℕ) (rows : List Bytes) → AllSize size rows → length (joined rows) ≡ length rows * size
length-rows size [] s = omega arith
length-rows size (row ∷ rows) s =
    omega (arith, length-append row (joined rows), length-rows size rows s.1)
