-- ===== src/WhiteboxBackup/Tests.antt =====
-- A directory with one copy of the same second and one foreign file.
use egress_apikey.Prelude.{ℕ, ◌≡◌, ◌||◌, refl, false, none, some, [], ◌∷◌, ◌++◌, any, take, arith}
use egress_apikey.Prelude.Texts.{Text, codes, text_eq, text_eq_iff}
use egress_apikey.Prelude.Results.{Result, ok}
use egress_apikey.WhiteboxBackup.{
  Dir, has_file, listed, backup_list, named, backup_name, parse_backup_name, backup_before_write,
}
use egress_apikey.WhiteboxBackup.Names.{parse_backup_name-backup_name}
use egress_apikey.WhiteboxBackup.Ring.{backup_before_write-keeps}

abbrev original : Text
original = codes "s.json"

abbrev dir : Dir ℕ
dir = (codes "s.json.7.bak", 0) ∷ (codes "x", 1) ∷ []

abbrev fine : Text → Result Unit
fine name = ok tt

abbrev after : Dir ℕ
after = dir ++ (codes "s.json.7-1.bak", 2) ∷ []

parse_backup_name_test :
    (parse_backup_name (codes "s.json.12-3.bak") ≡ some 12)
    × (parse_backup_name (codes "s.json.x.bak") ≡ none)
    × (parse_backup_name (codes "s.json") ≡ none)
unfolding parse_backup_name
parse_backup_name_test = (refl, refl, refl)

parse_backup_name-backup_name_example : parse_backup_name (backup_name original 1234 5) ≡ some 1234
parse_backup_name-backup_name_example = parse_backup_name-backup_name original 1234 5 (omega arith)

backup_before_write-keeps_example :
    (name : Text) × (some (codes "s.json.7-1.bak") ≡ some name)
    × (has_file name dir ≡ false)
    × ((k : ℕ) × (name ≡ backup_name original 7 k))
    × ((n : Text)
        → (any (named n) (backup_list original after)
            ≡ any (named n) (take 10 (backup_list original (dir ++ (name, 2) ∷ []))))
          × (listed original n ≡ none → has_file n after ≡ (has_file n dir || text_eq name n)))
unfolding backup_before_write text_eq
backup_before_write-keeps_example =
    backup_before_write-keeps fine fine original 2 7 dir
      (λ n. ground (arith, text_eq_iff (codes "s.json.7.bak") n, text_eq_iff (codes "x") n)) refl
