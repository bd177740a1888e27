-- ===== src/Csv/Writes.antt =====
-- What the operations of the writer put into its stream, room or not.
use tpbench.Prelude.{
  ℕ, ◌-◌, ◌&&◌, [], ◌∷◌, ◌++◌, some, ◌≡◌, refl, inl, inr, arith, append-nil, append_assoc, leb,
  ◌==◌, if◌then◌else◌, Bool-cases, Bytes, length, length-append, take, take-append_le,
  take-append_ge,
}
use tpbench.Csv.{
  Stream, Writer, Status, success, file_io_fail, Op, ◌>>◌, done, putc, checked, put_all, write_raw,
  escape_byte, ends_in_comma, escape_loop, write_escaped_text,
}
use tpbench.Csv.Escape.{escaped_core, shown_byte, escaped}

-- The stream takes `bs`, or as much of it as it has room for.
abbrev pub after : Bytes → Writer → Stream → Status × Writer
after bs w s =
    if leb (length bs) s.room
    then (success, record w { fp = some (record { out = s.out ++ bs; room = s.room - length bs }) })
    else (file_io_fail, record w { fp = some (record { out = s.out ++ take s.room bs; room = 0 }) })

-- `m` writes `bs` and does nothing else.
abbrev pub Writes : Op → Bytes → Type 0
Writes m bs = (w : Writer) (s : Stream) → w.fp ≡ some s → m w ≡ after bs w s

pub Writes-done : Writes done []
Writes-done w s e = ground (arith, append-nil s.out)

pub Writes->> : (m k : Op) (bs cs : Bytes) → Writes m bs → Writes k cs → Writes (m >> k) (bs ++ cs)
Writes->> m k bs cs hm hk w s e =
    let s' : Stream = record { out = s.out ++ bs; room = s.room - length bs } in
    ground (
      arith,
      hm w s e,
      hk (record w { fp = some s' }) s' refl,
      length-append bs cs,
      append_assoc s.out bs cs,
      take-append_le s.room bs cs,
      take-append_ge s.room bs cs,
      append_assoc s.out bs (take (s.room - length bs) cs),
    )

Writes-putc : (c : ℕ) → Writes (putc c) (c ∷ [])
unfolding putc
Writes-putc c w s e = ground (arith, append-nil s.out)

Writes-put_all : (bs : Bytes) → Writes (put_all bs) bs
unfolding put_all
Writes-put_all [] = Writes-done
Writes-put_all (c ∷ cs) =
    Writes->> (putc c) (put_all cs) (c ∷ []) cs (Writes-putc c) (Writes-put_all cs)

Writes-checked : (m : Op) (bs : Bytes) → Writes m bs → Writes (checked m) bs
Writes-checked m bs h w s e = ground (arith, h w s e)

pub Writes-write_raw : (bs : Bytes) → Writes (write_raw bs) bs
unfolding write_raw
Writes-write_raw bs = Writes-checked (put_all bs) bs (Writes-put_all bs)

Writes-escape_byte : (c : ℕ) → Writes (write_raw (escape_byte c)) (shown_byte c)
unfolding escape_byte
Writes-escape_byte c = Writes-write_raw (shown_byte c)

Writes-escape_loop : (t : Bytes) → Writes (escape_loop t) (escaped_core t)
unfolding escape_loop
Writes-escape_loop [] = Writes-done
Writes-escape_loop (c ∷ []) = Writes-escape_byte c
Writes-escape_loop (c ∷ d ∷ rest) = elim (Bool-cases ((c == b',') && (d == b','))) [
  | inl e ↦
      rw e
        (Writes->> _ _ (b',' ∷ b' ' ∷ b',' ∷ []) _ (Writes-write_raw _) (Writes-escape_loop rest))
  | inr e ↦
      rw e (Writes->> _ _ (shown_byte c) _ (Writes-escape_byte c) (Writes-escape_loop (d ∷ rest)))
]

-- The escaping writes exactly the escaped text, and fails only for want of room.
pub Writes-write_escaped_text : (t : Bytes) → Writes (write_escaped_text t) (escaped t)
unfolding write_escaped_text
Writes-write_escaped_text t = Writes->> _ _ (escaped_core t) _ (Writes-escape_loop t) pad
  where
    pad :
        Writes
          (if ends_in_comma t then write_raw (b' ' ∷ []) else done)
          (if ends_in_comma t then b' ' ∷ [] else [])
    pad = elim (Bool-cases (ends_in_comma t)) [
      | inl e ↦ rw e (Writes-write_raw (b' ' ∷ []))
      | inr e ↦ rw e Writes-done
    ]
