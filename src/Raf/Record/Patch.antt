-- ===== src/Raf/Record/Patch.antt =====
-- How the functions that change a record or a table in place open, lock, flush and close the file
-- (src/corelib/rafdb/rafdb-l2-tbatch.c, rafdb-l3-*.c).
use tpbench.Prelude.{ℕ, Bool, not, if◌then◌else◌, ◌≡◌, ap, ◌∙◌, true, List, [], Bytes}
use tpbench.Raf.File.{Outcome, ok, fail, fault, M, contents, opened}
use tpbench.Raf.File.Segments.{joined, RunsAt}

pub data Patched : Type 0 where
  success file_io_fail : Patched

abbrev pub close_patch : Bool → Bytes → Outcome (Unit {0}) → Patched × Bytes
close_patch flushed bytes (ok _ f) = (if flushed then success else file_io_fail, contents f)
close_patch flushed bytes (fail f) = (file_io_fail, contents f)
close_patch flushed bytes fault = (file_io_fail, bytes)

-- On the bytes of the file: whether it can be opened, locked and flushed, and the bytes that the
-- device takes. The file is not buffered.
unfoldable pub patch_file : Bool → Bool → Bool → ℕ → M (Unit {0}) → Bytes → Patched × Bytes
patch_file opens locks flushed room body bytes =
    if not opens
    then (file_io_fail, bytes)
    else if not locks
    then (file_io_fail, bytes)
    else close_patch flushed bytes (body (opened bytes room))

pub patch_file-RunsAt :
    {body : M (Unit {0})} {ys : List Bytes} {new : Bytes} {room left : ℕ}
    → RunsAt body [] ys room tt new left
    → patch_file true true true room body (joined ys) ≡ (success, new)
unfolding patch_file
patch_file-RunsAt {body} {ys} {new} {room} {left} r =
    let (f, e, h) = r.run in ap (close_patch true (joined ys)) e ∙ ap (λ l. (success, l)) h.bytes
