-- ===== src/Raf/Rtenv/Entry/Names.antt =====
-- The table of runtime environments keeps its names apart.
use tpbench.Prelude.{
  ◌+◌, ◌^◌, ◌≤◌, ◌<◌, true, false, List, [], ◌∷◌, ◌++◌, Option, none, some, ◌≡◌, refl, sym, ap, ◌∙◌,
  arith, append-nil, Bool-cases, inl, inr, if◌then◌else◌, Bytes, length, map, append_assoc,
}
use tpbench.Raf.File.Segments.{joined}
use tpbench.Raf.Magic.{dom_rtenv}
use tpbench.Raf.Entry.{Env, success, entry_append, listed, error}
use tpbench.Raf.Entry.Table.{table, list-table, list_none}
use tpbench.Raf.Entry.Append.{IsGood, append-table, append_first}
use tpbench.Raf.Entry.Rows.{rows_in, rows_in-joined, length-rows}
use tpbench.Raf.Rtenv.Entry.{
  RtenvEntry, entry_size, entry_to_disk, disk_to_entry, entries, list_error, entry_list_rtenv,
  any_named, name_exists, added, list_dup, entry_append_rtenv,
}
use tpbench.Raf.Rtenv.Entry.Rows.{
  IsStorable, AllStorable, map-disk_to_entry, AllSize-entries, length-entry_to_disk,
}

-- The file of a table with these entries, and of a domain that has none yet.
abbrev pub rtenv_table : List RtenvEntry → Option Bytes
rtenv_table [] = none
rtenv_table (e ∷ es) = some (table dom_rtenv (joined (map entry_to_disk (e ∷ es))))

length-map : (es : List RtenvEntry) → length (map entry_to_disk es) ≡ length es
length-map [] = refl
length-map (e ∷ es) = omega (arith, length-map es)

map-snoc :
    (es : List RtenvEntry) (e : RtenvEntry)
    → joined (map entry_to_disk (es ++ (e ∷ []))) ≡ joined (map entry_to_disk es) ++ entry_to_disk e
map-snoc [] e = append-nil (entry_to_disk e)
map-snoc (x ∷ es) e =
    ap (λ l. entry_to_disk x ++ l) (map-snoc es e)
    ∙ sym (append_assoc (entry_to_disk x) (joined (map entry_to_disk es)) (entry_to_disk e))

pub list_lem :
    (es : List RtenvEntry)
    → AllStorable es
    → length es < 2 ^ 31
    → entry_list_rtenv true (rtenv_table es) ≡ entries es
unfolding entry_list_rtenv
list_lem [] s few =
    ap
      (λ l. elim l [
        | listed bytes k ↦ entries (map disk_to_entry (rows_in k entry_size bytes))
        | error t ↦ list_error t
      ])
      (list_none dom_rtenv entry_size)
    ∙ ap (λ l. entries (map disk_to_entry l)) (rows_in-joined entry_size [] tt)
list_lem (e ∷ es) s few =
    let rows = map entry_to_disk (e ∷ es) in
    let sizes = AllSize-entries (e ∷ es) s in
    let n : length rows ≡ length (e ∷ es) = length-map (e ∷ es) in
    let all =
      list-table dom_rtenv entry_size (length rows) (joined rows)
        (length-rows entry_size rows sizes) (omega arith) (omega arith) in
    ap
      (λ l. elim l [
        | listed bytes k ↦ entries (map disk_to_entry (rows_in k entry_size bytes))
        | error t ↦ list_error t
      ])
      all
    ∙ ap (λ l. entries (map disk_to_entry l)) (rows_in-joined entry_size rows sizes)
    ∙ ap entries (map-disk_to_entry (e ∷ es) s)

name_exists_lem :
    (es : List RtenvEntry) (name : Bytes)
    → AllStorable es
    → length es < 2 ^ 31
    → name_exists true (rtenv_table es) name ≡ any_named es name
unfolding name_exists
name_exists_lem es name s few =
    ap (λ l. elim l [ entries xs ↦ any_named xs name | list_error t ↦ false ]) (list_lem es s few)

-- What an append does to the entries: nothing, if the name is there.
abbrev pub add_named : List RtenvEntry → RtenvEntry → List RtenvEntry
add_named es e = if any_named es e.name then es else es ++ (e ∷ [])

append_row :
    (env : Env) (es : List RtenvEntry) (e : RtenvEntry)
    → IsGood env
    → length (entry_to_disk e) + 16 ≤ env.room
    → entry_append env dom_rtenv (rtenv_table es) (entry_to_disk e)
      ≡ (success, rtenv_table (es ++ (e ∷ [])))
append_row env [] e g fits =
    append_first env dom_rtenv (entry_to_disk e) g fits
    ∙ ap (λ l. (success, some (table dom_rtenv l))) (sym (append-nil (entry_to_disk e)))
append_row env (x ∷ es) e g fits =
    append-table env dom_rtenv (joined (map entry_to_disk (x ∷ es))) (entry_to_disk e) g
      (omega arith)
    ∙ ap (λ l. (success, some (table dom_rtenv l))) (sym (map-snoc (x ∷ es) e))

-- An entry is appended to a table that can be listed, when nothing fails and there is room for it:
-- a name that is there is refused and the file is as it was, another is put behind the entries.
pub entry_append_rtenv_lem :
    (env : Env) (es : List RtenvEntry) (e : RtenvEntry)
    → AllStorable es
    → length es < 2 ^ 31
    → IsStorable e
    → IsGood env
    → entry_size + 16 ≤ env.room
    → entry_append_rtenv true env (rtenv_table es) e
      ≡ ((if any_named es e.name then list_dup else added success), rtenv_table (add_named es e))
unfolding entry_append_rtenv
entry_append_rtenv_lem env es e s few se g fits =
    let exists = name_exists_lem es e.name s few in
    let row = append_row env es e g (omega (arith, length-entry_to_disk e se)) in
    elim (Bool-cases (any_named es e.name)) [
      | inl found ↦ rw (exists, found) refl
      | inr absent ↦ rw (exists, absent) (ap (λ r. (added r.0, r.1)) row)
    ]
