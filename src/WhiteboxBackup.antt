-- ===== src/WhiteboxBackup.antt =====
-- crates/resin-core/src/whitebox_backup.rs: the versioned copies of a whitebox file. A directory is
-- its files in the order that `read_dir` gives; a name is a text of code points. What the file system
-- answers to a copy and to a removal are parameters; the directory is there and can be read, and
-- the sizes that a listing shows are left out.
pub mod Names
pub mod Cuts
pub mod Listings
pub mod Ring
mod Tests
use egress_apikey.Prelude.{
  ℕ, zero, suc, ◌+◌, ◌-◌, ◌*◌, Bool, true, false, not, ◌&&◌, ◌||◌, String, Option, none, some, List,
  [], ◌∷◌, ◌++◌, map, any, all, filter, filter_map, take, drop, length, ltb, leb, ◌==◌,
  if◌then◌else◌, u64_max,
}
use mathlib.Core.List.{reverse}
use egress_apikey.Prelude.Texts.{Text, codes, decimal, text_eq}
use egress_apikey.Prelude.Results.{Result, ok, err}
use egress_apikey.Prelude.SortBy.{sort_by}
use egress_apikey.Prelude.Sorting.{lex_ltb}

abbrev pub whitebox_backup_keep : ℕ
whitebox_backup_keep = 10

abbrev pub collision_attempts : ℕ
collision_attempts = 1000

abbrev pub dot : ℕ
dot = b'.'

abbrev pub dash : ℕ
dash = b'-'

abbrev pub is_digit : ℕ → Bool
is_digit c = leb b'0' c && leb c b'9'

-- `!s.is_empty() && s.bytes().all(|b| b.is_ascii_digit())`
abbrev pub is_numeral : Text → Bool
is_numeral [] = false
is_numeral (c ∷ s) = all is_digit (c ∷ s)

-- Names are read from their end, as `strip_suffix` and `rsplit` do: what follows takes them reversed.
abbrev pub strip : Text → Text → Option Text
strip [] s = some s
strip (c ∷ cs) [] = none
strip (c ∷ cs) (d ∷ s) = if c == d then strip cs s else none

-- Up to the first separator, and what follows it.
unfoldable pub segment : ℕ → Text → Text
segment sep [] = []
segment sep (c ∷ s) = let rest = segment sep s in if c == sep then [] else c ∷ rest

unfoldable pub beyond : ℕ → Text → Option Text
beyond sep [] = none
beyond sep (c ∷ s) = let rest = beyond sep s in if c == sep then some s else rest

-- `parse::<u64>` of a numeral, its last digit first.
unfoldable pub value : Text → ℕ
value [] = 0
value (c ∷ s) = (c - b'0') + 10 * value s

-- A collision suffix `-N` goes, where a numeral stands before it.
abbrev pub without_suffix : Text → Option Text → Text
without_suffix stem none = stem
without_suffix stem (some left) =
    if is_numeral (segment dash stem) && is_numeral (segment dot left) then left else stem

abbrev pub to_u64 : ℕ → Option ℕ
to_u64 n = if leb n u64_max then some n else none

abbrev pub timestamp : Text → Option ℕ
timestamp ts = if is_numeral ts then to_u64 (value ts) else none

abbrev pub of_stem : Option Text → Option ℕ
of_stem none = none
of_stem (some stem) = timestamp (segment dot (without_suffix stem (beyond dash stem)))

unfoldable pub parse_backup_name : Text → Option ℕ
unfolding segment beyond value
parse_backup_name name = of_stem (strip (reverse (codes ".bak")) (reverse name))

-- `{original}.{now}.bak` and `{original}.{now}-{suffix}.bak`
abbrev pub plain_name : Text → ℕ → Text
plain_name original now = original ++ (dot ∷ (decimal now ++ codes ".bak"))

abbrev pub suffixed_name : Text → ℕ → ℕ → Text
suffixed_name original now suffix =
    original ++ (dot ∷ (decimal now ++ (dash ∷ (decimal suffix ++ codes ".bak"))))

unfoldable pub backup_name : Text → ℕ → ℕ → Text
unfolding decimal
backup_name original now zero = plain_name original now
backup_name original now (suc k) = suffixed_name original now (suc k)

pub record WhiteboxBackupEntry : Type 0 where
  pub file_name : Text
  pub unix_ts : ℕ

-- Newest first; of one second the greater name first.
unfoldable pub newer : WhiteboxBackupEntry → WhiteboxBackupEntry → Bool
unfolding lex_ltb
newer a b = ltb b.unix_ts a.unix_ts || ((a.unix_ts == b.unix_ts) && lex_ltb b.file_name a.file_name)

-- The files of the directory, with their content.
abbrev pub Dir : Type 0 → Type 0
Dir Content = List (Text × Content)

abbrev pub has_file : {Content : Type 0} → Text → Dir Content → Bool
has_file name dir = any (λ f. text_eq f.0 name) dir

abbrev pub starts_with : Text → Text → Bool
starts_with [] s = true
starts_with (c ∷ cs) [] = false
starts_with (c ∷ cs) (d ∷ s) = (c == d) && starts_with cs s

abbrev pub entry_at : Text → Option ℕ → Option WhiteboxBackupEntry
entry_at name none = none
entry_at name (some ts) = some (record { file_name = name; unix_ts = ts })

-- What the listing of one whitebox file makes of a name.
unfoldable pub listed : Text → Text → Option WhiteboxBackupEntry
unfolding parse_backup_name
listed original name =
    if starts_with (original ++ dot ∷ []) name then entry_at name (parse_backup_name name) else none

unfoldable pub backup_list : {Content : Type 0} → Text → Dir Content → List WhiteboxBackupEntry
unfolding listed newer sort_by
backup_list original dir = sort_by newer (filter_map (λ f. listed original f.0) dir)

abbrev pub named : Text → WhiteboxBackupEntry → Bool
named name e = text_eq e.file_name name

-- The files that the rotation removes.
abbrev pub evicted : {Content : Type 0} → Text → Dir Content → List WhiteboxBackupEntry
evicted original dir = drop whitebox_backup_keep (backup_list original dir)

abbrev pub without : {Content : Type 0} → List WhiteboxBackupEntry → Dir Content → Dir Content
without entries dir = filter (λ f. not (any (named f.0) entries)) dir

-- The first suffix whose name is free, of `tries` from `suffix` on.
unfoldable pub free_name : {Content : Type 0} → Text → ℕ → Dir Content → ℕ → ℕ → Option Text
unfolding backup_name
free_name original now dir zero suffix = none
free_name original now dir (suc tries) suffix =
    let rest = free_name original now dir tries (suc suffix) in
    if has_file (backup_name original now suffix) dir
    then rest
    else some (backup_name original now suffix)

-- `?` on a result without a value.
abbrev pub and_then : {A : Type 0} → Result Unit → Result A → Result A
and_then (err message) r = err message
and_then (ok _) r = r

-- What the file system answers to a copy and to the removal of a file.
module _ {Content : Type 0} (copied : Text → Result Unit) (removed : Text → Result Unit) where
  -- The files are removed one by one, until one removal fails.
  abbrev pub remove_all : List WhiteboxBackupEntry → Dir Content → Result (Dir Content)
  remove_all [] dir = ok dir
  remove_all (e ∷ entries) dir =
      let rest = remove_all entries (without (e ∷ []) dir) in and_then (removed e.file_name) rest

  abbrev pub rotate_backups : Text → Dir Content → Result (Dir Content)
  rotate_backups original dir =
      if leb (length (backup_list original dir)) whitebox_backup_keep
      then ok dir
      else remove_all (evicted original dir) dir

  abbrev pub named_result : Text → Result (Dir Content) → Result (Option Text × Dir Content)
  named_result name (err message) = err message
  named_result name (ok dir) = ok (some name, dir)

  abbrev pub copy_to :
      Text → Dir Content → Content → Option Text → Result (Option Text × Dir Content)
  copy_to original dir content none = err "no free backup name after 1000 same-second attempts"
  copy_to original dir content (some name) =
      and_then (copied name)
        (named_result name (rotate_backups original (dir ++ (name, content) ∷ [])))

  -- The current content of the file, if it is there. After an error the directory is unknown.
  unfoldable pub backup_before_write :
      Text → Option Content → ℕ → Dir Content → Result (Option Text × Dir Content)
  unfolding backup_list free_name
  backup_before_write original none now dir = ok (none, dir)
  backup_before_write original (some content) now dir =
      copy_to original dir content (free_name original now dir collision_attempts 0)
