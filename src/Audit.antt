-- ===== src/Audit.antt =====
-- crates/resin-core/src/audit.rs: the append-only log, its hash chain and its rotation. The digest,
-- and the writing and reading of a row as JSON, are parameters. A disk is the live file and the
-- archives by their number, in a directory that is there; what the file system answers during one
-- append is an `Io`.
pub mod Lines
pub mod Chain
pub mod Restart
pub mod History
pub mod Rotation
mod Tests
use egress_apikey.Prelude.{
  ℕ, suc, zero, ◌+◌, ◌*◌, Bool, true, false, not, ◌||◌, String, Option, none, some, is_some,
  unwrap_or, List, [], ◌∷◌, ◌++◌, all, take, length, leb, ◌==◌, if◌then◌else◌,
}
use mathlib.Core.List.{reverse}
use egress_apikey.Prelude.Texts.{Bytes, concat, decimal_text}
use egress_apikey.Prelude.Results.{Result, ok, err}

abbrev pub audit_log_maxsize : ℕ
audit_log_maxsize = 100 * 1024 * 1024

abbrev pub audit_log_maxbackup : ℕ
audit_log_maxbackup = 10

pub record AuditEvent : Type 0 where
  pub schema : String
  pub ts : String
  pub audit_id : String
  pub target : String
  pub op : String
  pub actor : String
  pub before_hash : String
  pub after_hash : String
  pub outcome : String
  pub reason : Option String
  pub diff_summary : Option (List String)
  pub source_backup : Option String
  pub prev_hash : Option String
  pub app_version : Option String
  pub bytes_before : Option ℕ
  pub bytes_after : Option ℕ

pub record Disk : Type 0 where
  pub live : Option Bytes
  pub archive : ℕ → Option Bytes

pub record AuditLog : Type 0 where
  pub last_hash : Option String
  pub written_bytes : ℕ  -- u64

-- A failed write leaves the first `landed` bytes of the row.
pub record Io : Type 0 where
  pub removed : Bool
  pub shifted : ℕ → Result Unit
  pub archived : Result Unit
  pub opened : Result Unit
  pub wrote : Result Unit
  pub landed : ℕ
  pub stat : Bool

abbrev pub newline : ℕ
newline = 10

-- `bytes.split(|&b| b == b'\n')`
abbrev pub start_line : ℕ → List Bytes → List Bytes
start_line b [] = (b ∷ []) ∷ []
start_line b (line ∷ lines) = (b ∷ line) ∷ lines

unfoldable pub lines_of : Bytes → List Bytes
lines_of [] = [] ∷ []
lines_of (b ∷ bs) = let rest = lines_of bs in if b == newline then [] ∷ rest else start_line b rest

abbrev pub is_ascii_whitespace : ℕ → Bool
is_ascii_whitespace b = (b == 32) || ((b == 9) || ((b == 10) || ((b == 12) || (b == 13))))

abbrev pub is_blank : Bytes → Bool
is_blank line = all is_ascii_whitespace line

abbrev pub set_slot : ℕ → Option Bytes → (ℕ → Option Bytes) → ℕ → Option Bytes
set_slot i file slots j = if j == i then file else slots j

abbrev pub move_slot : ℕ → (ℕ → Option Bytes) → ℕ → Option Bytes
move_slot i slots = set_slot i none (set_slot (suc i) (slots i) slots)

abbrev pub shift_error : ℕ → String → String
shift_error i e = concat ("shift audit archive " ∷ decimal_text i ∷ ": " ∷ e ∷ [])

-- A rename that fails ends the shift.
abbrev pub shift_one :
    ℕ
    → Bool
    → Result Unit
    → Result Unit × (ℕ → Option Bytes)
    → Result Unit × (ℕ → Option Bytes)
    → (ℕ → Option Bytes)
    → Result Unit × (ℕ → Option Bytes)
shift_one i false answer moved kept slots = kept
shift_one i true (ok _) moved kept slots = moved
shift_one i true (err e) moved kept slots = (err (shift_error i e), slots)

-- The slots from the one below `i` down to 1: an archive that is there moves up by one.
unfoldable pub shift : (ℕ → Result Unit) → ℕ → (ℕ → Option Bytes) → Result Unit × (ℕ → Option Bytes)
unfolding concat decimal_text
shift shifted zero slots = (ok tt, slots)
shift shifted (suc i) slots =
    let moved = shift shifted i (move_slot (suc i) slots) in
    let kept = shift shifted i slots in
    shift_one (suc i) (is_some (slots (suc i))) (shifted (suc i)) moved kept slots

-- The oldest archive goes, if it can be removed.
abbrev pub drop_oldest : Bool → (ℕ → Option Bytes) → ℕ → Option Bytes
drop_oldest removed slots = if removed then set_slot audit_log_maxbackup none slots else slots

abbrev pub archive_live :
    Result Unit → Option Bytes → Result Unit × (ℕ → Option Bytes) → Result Unit × Disk
archive_live archived live (err e, slots) = (err e, record { live = live; archive = slots })
archive_live archived none (ok _, slots) = (ok tt, record { live = none; archive = slots })
archive_live (ok _) (some file) (ok _, slots) =
    (ok tt, record { live = none; archive = set_slot 1 (some file) slots })
archive_live (err e) (some file) (ok _, slots) =
    (err (concat ("archive audit log: " ∷ e ∷ [])), record { live = some file; archive = slots })

unfoldable pub rotate : Io → Disk → Result Unit × Disk
unfolding shift concat
rotate io disk =
    archive_live io.archived disk.live (shift io.shifted 9 (drop_oldest io.removed disk.archive))

abbrev pub rotated_log : Result Unit → AuditLog → AuditLog
rotated_log (ok _) log = record log { written_bytes = 0 }
rotated_log (err e) log = log

abbrev pub named_error : String → Result Unit → Result Unit
named_error what (ok _) = ok tt
named_error what (err e) = err (concat (what ∷ e ∷ []))

unfoldable pub rotate_if_over : Io → Disk → AuditLog → Result Unit × (Disk × AuditLog)
unfolding rotate concat
rotate_if_over io disk log =
    let (answer, after) = rotate io disk in
    if leb log.written_bytes audit_log_maxsize
    then (ok tt, (disk, log))
    else (named_error "rotate audit log: " answer, (after, rotated_log answer log))

-- What the live file has after a write.
abbrev pub written : Result Unit → ℕ → Bytes → Bytes
written (ok _) landed line = line
written (err e) landed line = take landed line

abbrev pub file_of : Option Bytes → Bytes
file_of live = unwrap_or live []

abbrev pub write_opened : Io → Bytes → Disk → Result Unit → Result Unit × Disk
write_opened io line disk (err e) = (err (concat ("open audit log: " ∷ e ∷ [])), disk)
write_opened io line disk (ok _) = (
  named_error "append audit log: " io.wrote,
  record disk { live = some (file_of disk.live ++ written io.wrote io.landed line) },
)

unfoldable pub write_row : Io → Bytes → Disk → Result Unit × Disk
unfolding concat
write_row io line disk = write_opened io line disk io.opened

module _ (digest : Bytes → String) (encode : AuditEvent → Result Bytes)
    (decode : Bytes → Option AuditEvent) where
  abbrev pub row_own_hash : Bytes → String
  row_own_hash line = digest (line ++ newline ∷ [])

  -- Of lines, the last one first: the first that is a whole event.
  unfoldable pub tail_of : List Bytes → Option String
  tail_of [] = none
  tail_of (line ∷ lines) =
      let rest = tail_of lines in
      if is_blank line
      then rest
      else if is_some (decode line)
      then some (row_own_hash line)
      else rest

  unfoldable pub last_line_hash : Option Bytes → Option String
  unfolding tail_of lines_of
  last_line_hash none = none
  last_line_hash (some file) = tail_of (reverse (lines_of file))

  -- `AuditLog::new`
  unfoldable pub new : Disk → AuditLog
  unfolding last_line_hash
  new disk = record {
    last_hash = last_line_hash disk.live;
    written_bytes = length (file_of disk.live);
  }

  abbrev pub committed : Io → Bytes → Disk → AuditLog → AuditLog
  committed io line disk log = record {
    last_hash = some (row_own_hash line);
    written_bytes = if io.stat then length (file_of disk.live) else log.written_bytes;
  }

  abbrev pub after_write :
      Io → Bytes → AuditLog → Result Unit × Disk → Result Unit × (Disk × AuditLog)
  after_write io line log (err e, disk) = (err e, (disk, log))
  after_write io line log (ok _, disk) = (ok tt, (disk, committed io line disk log))

  abbrev pub after_rotate :
      Io → Bytes → Result Unit × (Disk × AuditLog) → Result Unit × (Disk × AuditLog)
  after_rotate io line (err e, (disk, log)) = (err e, (disk, log))
  after_rotate io line (ok _, (disk, log)) =
      after_write io line log (write_row io (line ++ newline ∷ []) disk)

  abbrev pub append_line : Io → Disk → AuditLog → Result Bytes → Result Unit × (Disk × AuditLog)
  append_line io disk log (err e) = (err e, (disk, log))
  append_line io disk log (ok line) = after_rotate io line (rotate_if_over io disk log)

  abbrev pub linked : AuditLog → AuditEvent → AuditEvent
  linked log event = record event { prev_hash = log.last_hash }

  unfoldable pub append : Io → AuditEvent → Disk → AuditLog → Result Unit × (Disk × AuditLog)
  unfolding rotate_if_over write_row
  append io event disk log = append_line io disk log (encode (linked log event))
