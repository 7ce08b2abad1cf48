-- ===== src/Audit/History.antt =====
-- The rows that a log of audit.rs writes over its life.
use egress_apikey.Prelude.{
  ◌≡◌, refl, sym, ap, ◌∙◌, String, Option, some, List, [], ◌∷◌, ◌++◌, Bool-cases, inl, inr, leb,
}
use mathlib.Core.Path.{subst}
use egress_apikey.Prelude.Texts.{Bytes}
use egress_apikey.Prelude.Results.{Result, ok, err}
use egress_apikey.Audit.{
  AuditEvent, Disk, AuditLog, Io, newline, linked, append, append_line, after_rotate, after_write,
  write_row, rotate, rotated_log, rotate_if_over, audit_log_maxsize,
}
use egress_apikey.Audit.Chain.{IsCodec, append-Appended}

module _ (digest : Bytes → String) (encode : AuditEvent → Result Bytes)
    (decode : Bytes → Option AuditEvent) where
  abbrev pub and_row : Result Unit → Result Bytes → List Bytes → List Bytes
  and_row (ok u) (ok line) lines = line ∷ lines
  and_row answer row lines = lines

  -- The rows of the appends that succeed, among appends that may fail.
  unfoldable pub history : List (Io × AuditEvent) → Disk → AuditLog → List Bytes
  unfolding append
  history [] disk log = []
  history ((io, event) ∷ events) disk log =
      let (answer, s) = append digest encode decode io event disk log in
      let rest = history events s.0 s.1 in
      and_row answer (encode (linked digest encode decode log event)) rest

  -- Each row names the hash of the one before.
  abbrev pub Linked : Option String → List Bytes → Type 0
  Linked tail [] = Unit
  Linked tail (line ∷ lines) =
      ((event : AuditEvent) × (decode line ≡ some event) × (event.prev_hash ≡ tail))
      × Linked (some (digest (line ++ newline ∷ []))) lines

  rotated_tail :
      (io : Io) (line : Bytes) (r : Result Unit × (Disk × AuditLog)) (tail : Option String)
      {e : String} {s : Disk × AuditLog}
      → r.1.1.last_hash ≡ tail
      → after_rotate digest encode decode io line r ≡ (err e, s)
      → s.1.last_hash ≡ tail
  rotated_tail io line (err e, (d, l)) tail same h =
      sym (ap (λ (r : Result Unit × (Disk × AuditLog)). r.1.1.last_hash) h) ∙ same
  rotated_tail io line (ok u, (d, l)) tail same h = wrote (write_row io (line ++ newline ∷ []) d) h
    where
      wrote :
          (w : Result Unit × Disk) {e : String} {s : Disk × AuditLog}
          → after_write digest encode decode io line l w ≡ (err e, s)
          → s.1.last_hash ≡ tail
      wrote (err e, d') k =
          sym (ap (λ (r : Result Unit × (Disk × AuditLog)). r.1.1.last_hash) k) ∙ same
      wrote (ok u, d') k = cc

  size_tail :
      (io : Io) (disk : Disk) (log : AuditLog)
      → (rotate_if_over io disk log).1.1.last_hash ≡ log.last_hash
  unfolding rotate_if_over
  size_tail io disk log = elim (Bool-cases (leb log.written_bytes audit_log_maxsize)) [
    | inl small ↦ rw small refl
    | inr over ↦ rw over (answered (rotate io disk).0)
  ]
    where
      answered : (r : Result Unit) → (rotated_log r log).last_hash ≡ log.last_hash
      answered (ok u) = refl
      answered (err e) = refl

  -- A failed append leaves the tail.
  append-err :
      (io : Io) (event : AuditEvent) (disk : Disk) (log : AuditLog) {e : String}
      {s : Disk × AuditLog}
      → append digest encode decode io event disk log ≡ (err e, s)
      → s.1.last_hash ≡ log.last_hash
  unfolding append
  append-err io event disk log {e} {s} h =
      encoded (encode (linked digest encode decode log event)) h
    where
      encoded :
          (r : Result Bytes)
          → append_line digest encode decode io disk log r ≡ (err e, s)
          → s.1.last_hash ≡ log.last_hash
      encoded (ok line) k =
          rotated_tail io line (rotate_if_over io disk log) log.last_hash (size_tail io disk log) k
      encoded (err m) k = sym (ap (λ (r : Result Unit × (Disk × AuditLog)). r.1.1.last_hash) k)

  -- Whatever appends are made, and whichever of them fail and how, the rows of those that succeed
  -- form one chain from the tail that the log starts with: each row reads as an event whose
  -- `prev_hash` is the hash of the row before, over every rotation in between.
  pub history-Linked :
      IsCodec digest encode decode
      → (events : List (Io × AuditEvent)) (disk : Disk) (log : AuditLog)
      → Linked log.last_hash (history events disk log)
  unfolding history
  history-Linked codec [] disk log = tt
  history-Linked codec ((io, event) ∷ events) disk log =
      one (append digest encode decode io event disk log) refl (history-Linked codec events)
    where
      one :
          (r : Result Unit × (Disk × AuditLog))
          → append digest encode decode io event disk log ≡ r
          → ((d : Disk) (l : AuditLog) → Linked l.last_hash (history events d l))
          → Linked log.last_hash (
              and_row r.0
                (encode (linked digest encode decode log event))
                (history events r.1.0 r.1.1))
      one (err e, (d, l)) h later =
          subst (λ tail. Linked tail (history events d l)) (append-err io event disk log h)
            (later d l)
      one (ok tt, (d, l)) h later =
          let a = append-Appended digest encode decode io event disk log h in
          let e = linked digest encode decode log event in
          rw a.encoded (
            codec.reads e a.encoded,
            subst (λ tail. Linked tail (history events d l)) a.tail (later d l),
          )
