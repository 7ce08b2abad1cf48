-- ===== src/Audit/Restart.antt =====
-- The chain of audit.rs over a restart: what a fresh `AuditLog` makes of the file.
use egress_apikey.Prelude.{
  ◌≤◌, ◌≡◌, sym, ap, ◌∙◌, Bool, true, not, ◌||◌, inl, inr, String, Option, none, some, is_some,
  List, [], ◌∷◌, ◌++◌, arith, append_assoc, le→leb,
}
use mathlib.Core.Bool.{false≢true}
use egress_apikey.Prelude.Texts.{Bytes}
use egress_apikey.Prelude.Results.{Result, ok}
use egress_apikey.Audit.{
  audit_log_maxsize, AuditEvent, Disk, AuditLog, Io, newline, is_blank, file_of, last_line_hash,
  new, linked, append,
}
use egress_apikey.Audit.Lines.{
  has_no_newline, unlines, AreLines, unlines-append, AreLines-append, last_line_hash-row,
  last_line_hash-skipped,
}
use egress_apikey.Audit.Chain.{IsCodec, Appended, append-Appended}

-- The live file is missing or has whole lines.
abbrev pub IsWhole : Disk → List Bytes → Type 0
IsWhole disk lines = (file_of disk.live ≡ unlines lines) × AreLines lines

glued :
    (lines : List Bytes) (torn line : Bytes)
    → (unlines lines ++ torn) ++ (line ++ newline ∷ []) ≡ unlines (lines ++ (torn ++ line) ∷ [])
glued lines torn line =
    append_assoc (unlines lines) torn (line ++ newline ∷ [])
    ∙ ap (λ f. unlines lines ++ f) (sym (append_assoc torn line (newline ∷ [])))
    ∙ sym (unlines-append lines (torn ++ line))

all-append :
    (xs ys : Bytes)
    → has_no_newline xs ≡ true
    → has_no_newline ys ≡ true
    → has_no_newline (xs ++ ys) ≡ true
all-append [] ys h k = k
all-append (x ∷ xs) ys h k = ground (arith, all-append xs ys)

no_event : (blank : Bool) (o : Option AuditEvent) → o ≡ none → (blank || not (is_some o)) ≡ true
no_event blank none h = ground arith
no_event blank (some e) h = cc

one_more :
    (file : Bytes) (lines : List Bytes) (line : Bytes)
    → file ≡ unlines lines
    → file ++ (line ++ newline ∷ []) ≡ unlines (lines ++ line ∷ [])
one_more file lines line h =
    ap (λ f. f ++ (line ++ newline ∷ [])) h ∙ sym (unlines-append lines line)

module _ (digest : Bytes → String) (encode : AuditEvent → Result Bytes)
    (decode : Bytes → Option AuditEvent) (codec : IsCodec digest encode decode) where
  abbrev Tail : (event : AuditEvent) (log : AuditLog) (disk' : Disk) (log' : AuditLog) → Type 0
  Tail event log disk' log' =
      (line : Bytes) × (encode (record event { prev_hash = log.last_hash }) ≡ ok line)
      × (log'.last_hash ≡ some (digest (line ++ newline ∷ [])))
      × ((new digest encode decode disk').last_hash ≡ log'.last_hash)
      × ((after : List Bytes) × IsWhole disk' after)

  continued :
      (io : Io) (event : AuditEvent) (disk : Disk) (log : AuditLog) (disk' : Disk) (log' : AuditLog)
      (a : Appended digest encode decode io event disk log disk' log') (before : List Bytes)
      → file_of a.between.live ≡ unlines before
      → AreLines before
      → Tail event log disk' log'
  unfolding new
  continued io event disk log disk' log' a before same are =
      let e = linked digest encode decode log event in
      let alone = codec.one_line e a.encoded in
      let (back, reads, _) = codec.reads e a.encoded in
      let stored = a.stored ∙ ap some (one_more (file_of a.between.live) before a.line same) in
      (
        a.line,
        a.encoded,
        a.tail,
        ap (last_line_hash digest encode decode) stored
            ∙ last_line_hash-row digest encode decode before a.line are alone
                (codec.filled e a.encoded, ap is_some reads)
            ∙ sym a.tail,
        (before ++ a.line ∷ [], (ap file_of stored, AreLines-append before a.line are alone)),
      )

  -- Where the live file is missing or has whole lines, an append that succeeds writes the event with
  -- the tail of the chain as its `prev_hash`, the hash of its row is the new tail, the file has whole
  -- lines again, and a log that is opened afterwards, by a new process, has the same tail.
  pub append-new :
      (io : Io) (event : AuditEvent) (disk : Disk) (log : AuditLog) (lines : List Bytes)
      {disk' : Disk} {log' : AuditLog}
      → IsWhole disk lines
      → append digest encode decode io event disk log ≡ (ok tt, (disk', log'))
      → (line : Bytes) × (encode (record event { prev_hash = log.last_hash }) ≡ ok line)
        × (log'.last_hash ≡ some (digest (line ++ newline ∷ [])))
        × ((new digest encode decode disk').last_hash ≡ log'.last_hash)
        × ((after : List Bytes) × IsWhole disk' after)
  unfolding unlines
  append-new io event disk log lines {disk'} {log'} (whole, are) h =
      let a = append-Appended digest encode decode io event disk log h in
      elim a.rotated [
        | inl (small, same) ↦
            continued io event disk log disk' log' a lines
              (ap (λ (d : Disk). file_of d.live) same ∙ whole) are
        | inr (over, gone) ↦ continued io event disk log disk' log' a [] (ap file_of gone) tt
      ]

  -- But where a crash left a torn line at the end of the live file, and no rotation is due, an append
  -- that succeeds continues that line: if the two together do not read as an event, a log that is
  -- opened afterwards still has the tail that the whole lines before have, and the row is lost to it.
  pub append-torn :
      (io : Io) (event : AuditEvent) (disk : Disk) (log : AuditLog) (lines : List Bytes)
      (torn : Bytes) {disk' : Disk} {log' : AuditLog}
      → AreLines lines
      → has_no_newline torn ≡ true
      → disk.live ≡ some (unlines lines ++ torn)
      → log.written_bytes ≤ audit_log_maxsize
      → ((line : Bytes)
          → encode (record event { prev_hash = log.last_hash }) ≡ ok line
          → decode (torn ++ line) ≡ none)
      → append digest encode decode io event disk log ≡ (ok tt, (disk', log'))
      → ((new digest encode decode disk').last_hash
          ≡ last_line_hash digest encode decode (some (unlines lines)))
        × ((line : Bytes) × (log'.last_hash ≡ some (digest (line ++ newline ∷ []))))
  unfolding new
  append-torn io event disk log lines torn {disk'} {log'} are alone live small garbled h =
      let a = append-Appended digest encode decode io event disk log h in
      let e = linked digest encode decode log event in
      let same : a.between ≡ disk = elim a.rotated [
        | inl (_, kept) ↦ kept
        | inr (over, _) ↦
            absurd (false≢true (sym over ∙ le→leb log.written_bytes audit_log_maxsize small))
      ] in
      let stored =
        a.stored
        ∙ ap (λ (d : Disk). some (file_of d.live ++ (a.line ++ newline ∷ []))) same
        ∙ ap (λ o. some (file_of o ++ (a.line ++ newline ∷ []))) live
        ∙ ap some (glued lines torn a.line) in
      (
        ap (last_line_hash digest encode decode) stored
            ∙ last_line_hash-skipped digest encode decode lines (torn ++ a.line) are
                (all-append torn a.line alone (codec.one_line e a.encoded))
                (no_event (is_blank (torn ++ a.line)) (decode (torn ++ a.line))
                  (garbled a.line a.encoded)),
        (a.line, a.tail),
      )
