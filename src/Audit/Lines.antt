-- ===== src/Audit/Lines.antt =====
-- The lines of an audit file, and the row that a fresh start of audit.rs takes for the last.
use egress_apikey.Prelude.{
  ◌≡◌, refl, sym, ap, ◌∙◌, Bool, true, false, not, ◌&&◌, Option, some, is_some, List, [], ◌∷◌, ◌++◌,
  all, ◌==◌, arith, append_assoc, append-nil, ◌||◌, String,
}
use mathlib.Core.List.{reverse, reverse-append}
use egress_apikey.Prelude.Texts.{Bytes}
use egress_apikey.Prelude.Results.{Result}
use egress_apikey.Audit.{
  AuditEvent, newline, start_line, lines_of, is_blank, row_own_hash, tail_of, last_line_hash,
}

abbrev pub has_no_newline : Bytes → Bool
has_no_newline line = all (λ b. not (b == newline)) line

-- The bytes of whole lines.
unfoldable pub unlines : List Bytes → Bytes
unlines [] = []
unlines (line ∷ lines) = line ++ newline ∷ unlines lines

abbrev pub AreLines : List Bytes → Type 0
AreLines [] = Unit
AreLines (line ∷ lines) = (has_no_newline line ≡ true) × AreLines lines

others : (a b : Bool) → (not a && b) ≡ true → (a ≡ false) × (b ≡ true)
others a b h = ground arith

lines_of-line :
    (line rest : Bytes)
    → has_no_newline line ≡ true
    → lines_of (line ++ newline ∷ rest) ≡ line ∷ lines_of rest
unfolding lines_of
lines_of-line [] rest h = refl
lines_of-line (b ∷ line) rest h =
    let (other, later) = others (b == newline) (has_no_newline line) h in
    rw other (ap (start_line b) (lines_of-line line rest later))

lines_of-alone : (torn : Bytes) → has_no_newline torn ≡ true → lines_of torn ≡ torn ∷ []
unfolding lines_of
lines_of-alone [] h = refl
lines_of-alone (b ∷ torn) h =
    let (other, later) = others (b == newline) (has_no_newline torn) h in
    rw other (ap (start_line b) (lines_of-alone torn later))

-- Whole lines, and what follows the last newline.
pub lines_of-unlines :
    (lines : List Bytes) (torn : Bytes)
    → AreLines lines
    → has_no_newline torn ≡ true
    → lines_of (unlines lines ++ torn) ≡ lines ++ torn ∷ []
unfolding unlines
lines_of-unlines [] torn h k = lines_of-alone torn k
lines_of-unlines (line ∷ lines) torn (here, later) k =
    ap lines_of (append_assoc line (newline ∷ unlines lines) torn)
    ∙ lines_of-line line (unlines lines ++ torn) here
    ∙ ap (λ l. line ∷ l) (lines_of-unlines lines torn later k)

pub unlines-append :
    (lines : List Bytes) (line : Bytes)
    → unlines (lines ++ line ∷ []) ≡ unlines lines ++ (line ++ newline ∷ [])
unfolding unlines
unlines-append [] line = refl
unlines-append (l ∷ lines) line =
    ap (λ r. l ++ newline ∷ r) (unlines-append lines line)
    ∙ sym (append_assoc l (newline ∷ unlines lines) (line ++ newline ∷ []))

pub AreLines-append :
    (lines : List Bytes) (line : Bytes)
    → AreLines lines
    → has_no_newline line ≡ true
    → AreLines (lines ++ line ∷ [])
AreLines-append [] line h k = (k, tt)
AreLines-append (l ∷ lines) line (here, later) k = (here, AreLines-append lines line later k)

module _ (digest : Bytes → String) (encode : AuditEvent → Result Bytes)
    (decode : Bytes → Option AuditEvent) where
  -- A line that a fresh start passes over.
  abbrev pub IsSkipped : Bytes → Type 0
  IsSkipped line = (is_blank line || not (is_some (decode line))) ≡ true

  -- A line that it takes.
  abbrev pub IsRow : Bytes → Type 0
  IsRow line = (is_blank line ≡ false) × (is_some (decode line) ≡ true)

  tail_of-skipped :
      (line : Bytes) (lines : List Bytes)
      → IsSkipped line
      → tail_of digest encode decode (line ∷ lines) ≡ tail_of digest encode decode lines
  unfolding tail_of
  tail_of-skipped line lines h = ground arith

  last_of :
      (lines : List Bytes) (torn : Bytes)
      → AreLines lines
      → has_no_newline torn ≡ true
      → IsSkipped torn
      → last_line_hash digest encode decode (some (unlines lines ++ torn))
        ≡ tail_of digest encode decode (reverse lines)
  unfolding last_line_hash
  last_of lines torn h k skipped =
      ap (λ l. tail_of digest encode decode (reverse l)) (lines_of-unlines lines torn h k)
      ∙ ap (tail_of digest encode decode) (reverse-append lines (torn ∷ []))
      ∙ tail_of-skipped torn (reverse lines) skipped

  -- After whole lines of which the last is an event, it takes that one.
  pub last_line_hash-row :
      (lines : List Bytes) (line : Bytes)
      → AreLines lines
      → has_no_newline line ≡ true
      → IsRow line
      → last_line_hash digest encode decode (some (unlines (lines ++ line ∷ [])))
        ≡ some (row_own_hash digest encode decode line)
  unfolding tail_of
  last_line_hash-row lines line h k (filled, whole) =
      ap (λ f. last_line_hash digest encode decode (some f))
        (sym (append-nil (unlines (lines ++ line ∷ []))))
      ∙ last_of (lines ++ line ∷ []) [] (AreLines-append lines line h k) refl refl
      ∙ ap (tail_of digest encode decode) (reverse-append lines (line ∷ []))
      ∙ rw filled (rw whole refl)

  -- What follows the last newline is no event: then whatever comes before counts alone.
  pub last_line_hash-torn :
      (lines : List Bytes) (torn : Bytes)
      → AreLines lines
      → has_no_newline torn ≡ true
      → IsSkipped torn
      → last_line_hash digest encode decode (some (unlines lines ++ torn))
        ≡ last_line_hash digest encode decode (some (unlines lines))
  last_line_hash-torn lines torn h k skipped =
      last_of lines torn h k skipped
      ∙ sym (
          ap (λ f. last_line_hash digest encode decode (some f)) (sym (append-nil (unlines lines)))
          ∙ last_of lines [] h refl refl)

  -- A whole line that is no event is passed over.
  pub last_line_hash-skipped :
      (lines : List Bytes) (line : Bytes)
      → AreLines lines
      → has_no_newline line ≡ true
      → IsSkipped line
      → last_line_hash digest encode decode (some (unlines (lines ++ line ∷ [])))
        ≡ last_line_hash digest encode decode (some (unlines lines))
  last_line_hash-skipped lines line h k skipped =
      ap (λ f. last_line_hash digest encode decode (some f))
        (sym (append-nil (unlines (lines ++ line ∷ []))))
      ∙ last_of (lines ++ line ∷ []) [] (AreLines-append lines line h k) refl refl
      ∙ ap (tail_of digest encode decode) (reverse-append lines (line ∷ []))
      ∙ tail_of-skipped line (reverse lines) skipped
      ∙ sym (last_of lines [] h refl refl)
      ∙ ap (λ f. last_line_hash digest encode decode (some f)) (append-nil (unlines lines))
