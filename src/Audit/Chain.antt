-- ===== src/Audit/Chain.antt =====
-- The hash chain of audit.rs: what an append links to, and what a fresh start links to after it.
use egress_apikey.Prelude.{
  ℕ, ◌≡◌, refl, Bool, true, false, ◌⊎◌, inl, inr, String, Option, none, some, [], ◌∷◌, ◌++◌, leb,
  if◌then◌else◌,
}
use egress_apikey.Prelude.Texts.{Bytes}
use egress_apikey.Prelude.Results.{Result, ok, err}
use egress_apikey.Audit.{
  audit_log_maxsize, AuditEvent, Disk, AuditLog, Io, newline, is_blank, file_of, rotate,
  rotate_if_over, rotated_log, named_error, archive_live, shift, drop_oldest, write_opened,
  write_row, written, row_own_hash, after_write, after_rotate, append_line, linked, append,
}
use egress_apikey.Audit.Lines.{has_no_newline}

-- The file that a rotation leaves is empty.
archive_live-ok :
    (archived : Result Unit) (live : Option Bytes) (r : Result Unit × (ℕ → Option Bytes))
    {disk : Disk}
    → archive_live archived live r ≡ (ok tt, disk)
    → disk.live ≡ none
archive_live-ok archived live (err e, slots) h = cc
archive_live-ok archived none (ok u, slots) h = cc
archive_live-ok (ok u) (some file) (ok v, slots) h = cc
archive_live-ok (err e) (some file) (ok v, slots) h = cc

named_error-ok : (what : String) (r : Result Unit) → named_error what r ≡ ok tt → r ≡ ok tt
named_error-ok what (ok u) h = refl
named_error-ok what (err e) h = cc

rotate-ok :
    (io : Io) (disk : Disk) {disk' : Disk} → rotate io disk ≡ (ok tt, disk') → disk'.live ≡ none
unfolding rotate
rotate-ok io disk h =
    archive_live-ok io.archived disk.live (shift io.shifted 9 (drop_oldest io.removed disk.archive))
      h

checked_size :
    (small : Bool) (disk : Disk) (log : AuditLog) (r : Result Unit × Disk) {disk' : Disk}
    {log' : AuditLog}
    → ◌≡◌ {A = Result Unit × (Disk × AuditLog)}
        (if small
          then (ok tt, (disk, log))
          else (named_error "rotate audit log: " r.0, (r.1, rotated_log r.0 log)))
        (ok tt, (disk', log'))
    → ((small ≡ true) × (disk' ≡ disk)) ⊎ ((small ≡ false) × (r ≡ (ok tt, disk')))
checked_size true disk log r h = inl (refl, cc)
checked_size false disk log (ok u, d) h = inr (refl, cc)
checked_size false disk log (err e, d) h = cc

rotate_if_over-ok :
    (io : Io) (disk : Disk) (log : AuditLog) {disk' : Disk} {log' : AuditLog}
    → rotate_if_over io disk log ≡ (ok tt, (disk', log'))
    → ((leb log.written_bytes audit_log_maxsize ≡ true) × (disk' ≡ disk))
      ⊎ ((leb log.written_bytes audit_log_maxsize ≡ false) × (disk'.live ≡ none))
unfolding rotate_if_over
rotate_if_over-ok io disk log {disk'} h =
    elim (checked_size (leb log.written_bytes audit_log_maxsize) disk log (rotate io disk) h) [
      | inl kept ↦ inl kept
      | inr (over, rotated) ↦ inr (over, rotate-ok io disk rotated)
    ]

write_row-ok :
    (io : Io) (line : Bytes) (disk : Disk) {disk' : Disk}
    → write_row io line disk ≡ (ok tt, disk')
    → disk'.live ≡ some (file_of disk.live ++ line)
unfolding write_row
write_row-ok io line disk h = opened io.opened h
  where
    answered :
        (r : Result Unit) {d : Disk}
        → ◌≡◌ {A = Result Unit × Disk}
            (
              named_error "append audit log: " r,
              record disk { live = some (file_of disk.live ++ written r io.landed line) },
            )
            (ok tt, d)
        → d.live ≡ some (file_of disk.live ++ line)
    answered (ok u) k = cc
    answered (err e) k = cc

    opened :
        (r : Result Unit) {d : Disk}
        → write_opened io line disk r ≡ (ok tt, d)
        → d.live ≡ some (file_of disk.live ++ line)
    opened (ok u) k = answered io.wrote k
    opened (err e) k = cc

module _ (digest : Bytes → String) (encode : AuditEvent → Result Bytes)
    (decode : Bytes → Option AuditEvent) where
  -- What JSON of one line promises: the row has no newline, and reads back as an event with
  -- the same `prev_hash`.
  pub record IsCodec : Type 0 where
    pub one_line : (e : AuditEvent) {line : Bytes} → encode e ≡ ok line → has_no_newline line ≡ true
    pub filled : (e : AuditEvent) {line : Bytes} → encode e ≡ ok line → is_blank line ≡ false
    pub reads :
        (e : AuditEvent) {line : Bytes}
        → encode e ≡ ok line
        → (back : AuditEvent) × (decode line ≡ some back) × (back.prev_hash ≡ e.prev_hash)

  -- An append that succeeds: the row, the disk that the rotation leaves, and what is written to it.
  pub record Appended (io : Io) (event : AuditEvent) (disk : Disk) (log : AuditLog) (disk' : Disk)
      (log' : AuditLog) : Type 0 where
    pub line : Bytes
    pub between : Disk
    pub encoded : encode (linked digest encode decode log event) ≡ ok line
    pub rotated :
        ((leb log.written_bytes audit_log_maxsize ≡ true) × (between ≡ disk))
        ⊎ ((leb log.written_bytes audit_log_maxsize ≡ false) × (between.live ≡ none))
    pub stored : disk'.live ≡ some (file_of between.live ++ (line ++ newline ∷ []))
    pub tail : log'.last_hash ≡ some (row_own_hash digest encode decode line)

  after_write-ok :
      (io : Io) (line : Bytes) (log : AuditLog) (r : Result Unit × Disk) {disk' : Disk}
      {log' : AuditLog}
      → after_write digest encode decode io line log r ≡ (ok tt, (disk', log'))
      → (r ≡ (ok tt, disk')) × (log'.last_hash ≡ some (row_own_hash digest encode decode line))
  after_write-ok io line log (ok u, d) h = (cc, cc)
  after_write-ok io line log (err e, d) h = cc

  pub append-Appended :
      (io : Io) (event : AuditEvent) (disk : Disk) (log : AuditLog) {disk' : Disk} {log' : AuditLog}
      → append digest encode decode io event disk log ≡ (ok tt, (disk', log'))
      → Appended io event disk log disk' log'
  unfolding append
  append-Appended io event disk log {disk'} {log'} h =
      encoded (encode (linked digest encode decode log event)) refl h
    where
      rotated :
          (line : Bytes) (r : Result Unit × (Disk × AuditLog))
          → encode (linked digest encode decode log event) ≡ ok line
          → rotate_if_over io disk log ≡ r
          → after_rotate digest encode decode io line r ≡ (ok tt, (disk', log'))
          → Appended io event disk log disk' log'
      rotated line (err e, s) is_line is_r k = cc
      rotated line (ok tt, (d, l)) is_line is_r k =
          let (wrote, tail) = after_write-ok io line l (write_row io (line ++ newline ∷ []) d) k in
          record {
            line = line;
            between = d;
            encoded = is_line;
            rotated = rotate_if_over-ok io disk log is_r;
            stored = write_row-ok io (line ++ newline ∷ []) d wrote;
            tail = tail;
          }

      encoded :
          (r : Result Bytes)
          → encode (linked digest encode decode log event) ≡ r
          → append_line digest encode decode io disk log r ≡ (ok tt, (disk', log'))
          → Appended io event disk log disk' log'
      encoded (ok line) is_line k = rotated line (rotate_if_over io disk log) is_line refl k
      encoded (err e) is_line k = cc
