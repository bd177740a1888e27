-- ===== src/Raf/Rtenv/Entry/Laws.antt =====
-- What the table of runtime environments promises: names that differ, and fresh identifiers.
use tpbench.Prelude.{
  ℕ, ◌+◌, ◌-◌, ◌^◌, ◌≤◌, ◌<◌, ◌≢◌, Bool, true, false, List, [], ◌∷◌, ◌++◌, Option, none, ◌≡◌, refl,
  ap, ◌∙◌, arith, Bool-cases, inl, inr, if◌then◌else◌, Bytes, length, ◌||◌, length-append,
  bytes_eq_iff, ltb,
}
use tpbench.Raf.Record.{c_string}
use tpbench.Raf.Entry.{Env}
use tpbench.Raf.Entry.Append.{IsGood}
use tpbench.Raf.Rtenv.Entry.{
  RtenvEntry, entry_size, entries, entry_list_rtenv, any_named, same_name, entry_append_rtenv,
  signed_ltb, max_id, next_id, next_error, overflow, next_after, list_error, rtenv_alloc_next_id,
}
use tpbench.Raf.Rtenv.Entry.Rows.{IsStorable, AllStorable}
use tpbench.Raf.Rtenv.Entry.Names.{rtenv_table, list_lem, add_named, entry_append_rtenv_lem}

-- Calls in a row, from a domain without a table.
pub append_all_rtenv : Option Bytes → List (Env × RtenvEntry) → Option Bytes
append_all_rtenv disk [] = disk
append_all_rtenv disk ((env, e) ∷ rest) =
    append_all_rtenv (entry_append_rtenv true env disk e).1 rest

-- The specification: the first entry of each name, in the order of the calls.
abbrev pub kept : List RtenvEntry → List (Env × RtenvEntry) → List RtenvEntry
kept es [] = es
kept es ((env, e) ∷ rest) = kept (add_named es e) rest

abbrev pub AllGood : List (Env × RtenvEntry) → Type 0
AllGood [] = Unit
AllGood ((env, e) ∷ rest) = IsStorable e × IsGood env × (entry_size + 16 ≤ env.room) × AllGood rest

-- No two entries have the same name.
abbrev pub NamesDiffer : List RtenvEntry → Type 0
NamesDiffer [] = Unit
NamesDiffer (e ∷ es) = (any_named es e.name ≡ false) × NamesDiffer es

AllStorable-snoc :
    (es : List RtenvEntry) (e : RtenvEntry)
    → AllStorable es
    → IsStorable e
    → AllStorable (es ++ (e ∷ []))
AllStorable-snoc [] e s h = (h, tt)
AllStorable-snoc (x ∷ es) e s h = (s.0, AllStorable-snoc es e s.1 h)

AllStorable-add :
    (es : List RtenvEntry) (e : RtenvEntry)
    → AllStorable es
    → IsStorable e
    → AllStorable (add_named es e)
AllStorable-add es e s h = elim (Bool-cases (any_named es e.name)) [
  | inl found ↦ rw found s
  | inr absent ↦ rw absent (AllStorable-snoc es e s h)
]

length-add : (es : List RtenvEntry) (e : RtenvEntry) → length (add_named es e) ≤ length es + 1
length-add es e = elim (Bool-cases (any_named es e.name)) [
  | inl found ↦ rw found (omega arith)
  | inr absent ↦ rw absent (omega (arith, length-append es (e ∷ [])))
]

append_all_rtenv-table :
    (es : List RtenvEntry) (calls : List (Env × RtenvEntry))
    → AllStorable es
    → AllGood calls
    → length es + length calls < 2 ^ 31
    → append_all_rtenv (rtenv_table es) calls ≡ rtenv_table (kept es calls)
unfolding append_all_rtenv
append_all_rtenv-table es [] s g few = refl
append_all_rtenv-table es ((env, e) ∷ rest) s (h, good, room, g) few =
    ap (λ r. append_all_rtenv r.1 rest)
      (entry_append_rtenv_lem env es e s (omega arith) h good room)
    ∙ append_all_rtenv-table (add_named es e) rest (AllStorable-add es e s h) g
        (omega (arith, length-add es e))

kept-AllStorable :
    (es : List RtenvEntry) (calls : List (Env × RtenvEntry))
    → AllStorable es
    → AllGood calls
    → AllStorable (kept es calls)
kept-AllStorable es [] s g = s
kept-AllStorable es ((env, e) ∷ rest) s g =
    kept-AllStorable (add_named es e) rest (AllStorable-add es e s g.0) g.3

length-kept :
    (es : List RtenvEntry) (calls : List (Env × RtenvEntry))
    → length (kept es calls) ≤ length es + length calls
length-kept es [] = omega arith
length-kept es ((env, e) ∷ rest) = omega (arith, length-kept (add_named es e) rest, length-add es e)

-- Behind others, a name is found where it is found in these or is the last.
any_named-snoc :
    (es : List RtenvEntry) (e : RtenvEntry) (name : Bytes)
    → any_named (es ++ (e ∷ [])) name ≡ (any_named es name || same_name e.name name)
any_named-snoc [] e name = ground arith
any_named-snoc (x ∷ es) e name = ground (arith, any_named-snoc es e name)

same_name-sym : (a b : Bytes) → same_name a b ≡ false → same_name b a ≡ false
same_name-sym a b h = elim (Bool-cases (same_name b a)) [
  | inl e ↦ absurd (
      grind (
        arith,
        h,
        bytes_eq_iff (c_string a) (c_string b),
        bytes_eq_iff (c_string b) (c_string a),
        e,
      ))
  | inr e ↦ e
]

or-false : (a b : Bool) → (a || b) ≡ false → (a ≡ false) × (b ≡ false)
or-false true b h = (h, absurd (ground (arith, h)))
or-false false b h = (refl, h)

NamesDiffer-snoc :
    (es : List RtenvEntry) (e : RtenvEntry)
    → NamesDiffer es
    → any_named es e.name ≡ false
    → NamesDiffer (es ++ (e ∷ []))
NamesDiffer-snoc [] e d h = (refl, tt)
NamesDiffer-snoc (x ∷ es) e d h =
    let (first, rest) = or-false (same_name x.name e.name) (any_named es e.name) h in
    (
      any_named-snoc es e x.name ∙ (λ j. d.0 j || same_name-sym x.name e.name first j),
      NamesDiffer-snoc es e d.1 rest,
    )

kept-NamesDiffer :
    (es : List RtenvEntry) (calls : List (Env × RtenvEntry))
    → NamesDiffer es
    → NamesDiffer (kept es calls)
kept-NamesDiffer es [] d = d
kept-NamesDiffer es ((env, e) ∷ rest) d = elim (Bool-cases (any_named es e.name)) [
  | inl found ↦ rw found (kept-NamesDiffer es rest d)
  | inr absent ↦ rw absent (kept-NamesDiffer (es ++ (e ∷ [])) rest (NamesDiffer-snoc es e d absent))
]

-- After any appends in which nothing fails, fewer than 2 ^ 31, the listing is the first entry of
-- each name in the order of the calls, and no two of the listed entries have the same name.
pub entry_list_rtenv-append_all :
    (calls : List (Env × RtenvEntry))
    → AllGood calls
    → length calls < 2 ^ 31
    → (entry_list_rtenv true (append_all_rtenv none calls) ≡ entries (kept [] calls))
      × NamesDiffer (kept [] calls)
entry_list_rtenv-append_all calls g few = (
  ap (entry_list_rtenv true) (append_all_rtenv-table [] calls tt g (omega arith))
      ∙ list_lem (kept [] calls) (kept-AllStorable [] calls tt g)
          (omega (arith, length-kept [] calls)),
  kept-NamesDiffer [] calls tt,
)

-- Identifiers that are negative or below 2 ^ 31 - 1.
abbrev pub RoomForIds : List RtenvEntry → Type 0
RoomForIds [] = Unit
RoomForIds (e ∷ es) = (signed_ltb e.id (2 ^ 31 - 1) ≡ true) × RoomForIds es

abbrev pub NotUsed : ℕ → List RtenvEntry → Type 0
NotUsed k [] = Unit
NotUsed k (e ∷ es) = (e.id ≢ k) × NotUsed k es

max_id-bounds :
    (m : ℕ) (es : List RtenvEntry)
    → m < 2 ^ 31 - 1
    → AllStorable es
    → RoomForIds es
    → (m ≤ max_id m es) × (max_id m es < 2 ^ 31 - 1)
max_id-bounds m [] h s r = (omega arith, h)
max_id-bounds m (e ∷ es) h s r =
    let below : (if signed_ltb m e.id then e.id else m) < 2 ^ 31 - 1 =
      ground (arith, r.0, s.0.id_fits) in
    let above : m ≤ (if signed_ltb m e.id then e.id else m) = ground (arith, r.0, s.0.id_fits) in
    let rest = max_id-bounds (if signed_ltb m e.id then e.id else m) es below s.1 r.1 in
    (omega (arith, rest.0, above), rest.1)

above-NotUsed :
    (k m : ℕ) (es : List RtenvEntry)
    → m < 2 ^ 31 - 1
    → AllStorable es
    → RoomForIds es
    → max_id m es < k
    → k < 2 ^ 31
    → NotUsed k es
above-NotUsed k m [] h s r a b = tt
above-NotUsed k m (e ∷ es) h s r a b =
    let next = if signed_ltb m e.id then e.id else m in
    let below : next < 2 ^ 31 - 1 = ground (arith, r.0, s.0.id_fits) in
    let bounds = max_id-bounds next es below s.1 r.1 in
    (
      λ same. ground (arith, r.0, s.0.id_fits, bounds.0, same),
      above-NotUsed k next es below s.1 r.1 a b,
    )

-- The next identifier of a table that can be listed, where none is the greatest that there is, is
-- positive and not that of an entry.
pub rtenv_alloc_next_id_lem :
    (es : List RtenvEntry)
    → AllStorable es
    → length es < 2 ^ 31
    → RoomForIds es
    → (k : ℕ) × (rtenv_alloc_next_id true true (rtenv_table es) ≡ next_id k)
      × (0 < k)
      × (k < 2 ^ 31)
      × NotUsed k es
unfolding rtenv_alloc_next_id
rtenv_alloc_next_id_lem es s few r =
    let k = max_id 0 es + 1 in
    let bounds = max_id-bounds 0 es (omega arith) s r in
    let fits : ltb k (2 ^ 31) ≡ true = ground (arith, bounds.1) in
    (
      k,
      ap (λ l. elim l [ entries xs ↦ next_after (max_id 0 xs) | list_error t ↦ next_error t ])
            (list_lem es s few)
          ∙ ap (λ b. if b then next_id k else overflow) fits,
      omega arith,
      omega (arith, bounds.1),
      above-NotUsed k 0 es (omega arith) s r (omega arith) (omega (arith, bounds.1)),
    )
