-- ===== src/Audit/Tests.antt =====
-- Rows of one byte that tells the previous hash, and a digest that reads that byte.
use egress_apikey.Prelude.{
  ℕ, suc, ◌≤◌, ◌≡◌, refl, Bool, true, false, String, Option, none, some, List, [], ◌∷◌, ◌++◌,
  str_eq, eq_iff, if◌then◌else◌, arith, ◌==◌, sym, ap,
}
use mathlib.Core.Path.{subst}
use egress_apikey.Prelude.Texts.{Bytes}
use egress_apikey.Prelude.Results.{Result, ok, err}
use egress_apikey.Audit.{
  AuditEvent, Disk, AuditLog, Io, is_blank, newline, append, new, rotate, last_line_hash,
}
use egress_apikey.Audit.Lines.{unlines, has_no_newline}
use egress_apikey.Audit.Chain.{IsCodec}
use egress_apikey.Audit.Restart.{IsWhole, append-new, append-torn}
use egress_apikey.Audit.History.{history, Linked, history-Linked}
use egress_apikey.Audit.Rotation.{rotate-shifts}

abbrev event : Option String → AuditEvent
event prev = record {
  schema = "audit/v1";
  ts = "2026-01-01T00:00:00Z";
  audit_id = "1";
  target = "L2:strategy";
  op = "put";
  actor = "gui:strategy_config_put";
  before_hash = "";
  after_hash = "";
  outcome = "ok";
  reason = none;
  diff_summary = none;
  source_backup = none;
  prev_hash = prev;
  app_version = none;
  bytes_before = none;
  bytes_after = none;
}

abbrev digest : Bytes → String
digest [] = "empty"
digest (b ∷ bs) = if b == 65 then "a" else "b"

abbrev encode_prev : Option String → Result Bytes
encode_prev none = ok (65 ∷ [])
encode_prev (some h) =
    if str_eq h "a" then ok (66 ∷ []) else if str_eq h "b" then ok (67 ∷ []) else err "unknown"

abbrev encode : AuditEvent → Result Bytes
encode e = encode_prev e.prev_hash

abbrev decode : Bytes → Option AuditEvent
decode (b ∷ []) =
    if b == 65
    then some (event none)
    else if b == 66
    then some (event (some "a"))
    else if b == 67
    then some (event (some "b"))
    else none
decode _ = none

abbrev Fits : Option String → Bytes → Type 0
Fits prev line =
    (has_no_newline line ≡ true)
    × (is_blank line ≡ false)
    × ((back : AuditEvent) × (decode line ≡ some back) × (back.prev_hash ≡ prev))

Fits-named :
    (h : String) (at_a at_b : Bool) {line : Bytes}
    → str_eq h "a" ≡ at_a
    → str_eq h "b" ≡ at_b
    → ◌≡◌ {A = Result Bytes}
        (if at_a then ok (66 ∷ []) else if at_b then ok (67 ∷ []) else err "unknown")
        (ok line)
    → Fits (some h) line
Fits-named h true at_b {line} is_a is_b k =
    let same : 66 ∷ [] ≡ line = cc in
    subst (Fits (some h)) same
      (refl, refl, (event (some "a"), refl, ap some (sym ((eq_iff h "a").0 is_a))))
Fits-named h false true {line} is_a is_b k =
    let same : 67 ∷ [] ≡ line = cc in
    subst (Fits (some h)) same
      (refl, refl, (event (some "b"), refl, ap some (sym ((eq_iff h "b").0 is_b))))
Fits-named h false false is_a is_b k = cc

encode_prev-Fits :
    (prev : Option String) {line : Bytes} → encode_prev prev ≡ ok line → Fits prev line
encode_prev-Fits none {line} k =
    let same : 65 ∷ [] ≡ line = cc in subst (Fits none) same (refl, refl, (event none, refl, refl))
encode_prev-Fits (some h) k = Fits-named h (str_eq h "a") (str_eq h "b") refl refl k

codec : IsCodec digest encode decode
codec = record {
  one_line = λ e h. (encode_prev-Fits e.prev_hash h).0;
  filled = λ e h. (encode_prev-Fits e.prev_hash h).1;
  reads = λ e h. (encode_prev-Fits e.prev_hash h).2;
}

abbrev fine : Io
fine = record {
  removed = true;
  shifted = λ i. ok tt;
  archived = ok tt;
  opened = ok tt;
  wrote = ok tt;
  landed = 0;
  stat = true;
}

abbrev full : Io
full = record fine { wrote = err "disk full" }

abbrev empty : Disk
empty = record { live = none; archive = λ i. none }

abbrev boot : AuditLog
boot = record { last_hash = none; written_bytes = 0 }

abbrev one_row : Disk
one_row = record { live = some (65 ∷ 10 ∷ []); archive = λ i. none }

abbrev two_rows : Disk
two_rows = record { live = some (65 ∷ 10 ∷ 66 ∷ 10 ∷ []); archive = λ i. none }

new_test :
    (new digest encode decode one_row ≡ record { last_hash = some "a"; written_bytes = 2 })
    × (new digest encode decode empty ≡ boot)
unfolding new
new_test = (refl, refl)

append-new_example :
    (line : Bytes) × (encode (record (event none) { prev_hash = some "a" }) ≡ ok line)
    × (some "b" ≡ some (digest (line ++ newline ∷ [])))
    × ((new digest encode decode two_rows).last_hash ≡ some "b")
    × ((after : List Bytes) × IsWhole two_rows after)
unfolding append unlines
append-new_example =
    append-new digest encode decode codec fine (event none) one_row
      (record { last_hash = some "a"; written_bytes = 2 }) ((65 ∷ []) ∷ []) {disk' = two_rows}
      {log' = record { last_hash = some "b"; written_bytes = 4 }} (refl, (refl, tt)) refl

abbrev torn_row : Disk
torn_row = record { live = some (65 ∷ 10 ∷ 1 ∷ []); archive = λ i. none }

abbrev glued_row : Disk
glued_row = record { live = some (65 ∷ 10 ∷ 1 ∷ 66 ∷ 10 ∷ []); archive = λ i. none }

not_read :
    (line : Bytes) → ◌≡◌ {A = Result Bytes} (ok (66 ∷ [])) (ok line) → decode (1 ∷ line) ≡ none
not_read line h = let same : 66 ∷ [] ≡ line = cc in subst (λ l. decode (1 ∷ l) ≡ none) same refl

append-torn_example :
    ((new digest encode decode glued_row).last_hash
      ≡ last_line_hash digest encode decode (some (unlines ((65 ∷ []) ∷ []))))
    × ((line : Bytes) × (some "b" ≡ some (digest (line ++ newline ∷ []))))
unfolding append unlines
append-torn_example =
    append-torn digest encode decode codec fine (event none) torn_row
      (record { last_hash = some "a"; written_bytes = 3 }) ((65 ∷ []) ∷ []) (1 ∷ [])
      {disk' = glued_row} {log' = record { last_hash = some "b"; written_bytes = 5 }} (refl, tt)
      refl refl (omega arith) (λ line h. not_read line h) refl

history-Linked_example : Linked digest encode decode none (
    history digest encode decode
      ((fine, event none) ∷ (full, event none) ∷ (fine, event none) ∷ [])
      empty
      boot)
history-Linked_example =
    history-Linked digest encode decode codec
      ((fine, event none) ∷ (full, event none) ∷ (fine, event none) ∷ []) empty boot

abbrev archived_row : Disk
archived_row = record {
  live = some (66 ∷ 10 ∷ []);
  archive = λ i. if i == 3 then some (65 ∷ 10 ∷ []) else none;
}

rotate-shifts_example :
    ((rotate fine archived_row).1.live ≡ none)
    × ((rotate fine archived_row).1.archive 1 ≡ archived_row.live)
    × ((j : ℕ)
        → 1 ≤ j
        → j ≤ 9
        → (rotate fine archived_row).1.archive (suc j) ≡ archived_row.archive j)
    × ((j : ℕ) → 11 ≤ j → (rotate fine archived_row).1.archive j ≡ archived_row.archive j)
unfolding rotate
rotate-shifts_example = rotate-shifts fine archived_row refl refl
