-- ===== src/WhiteboxBackup/Listings.antt =====
-- What the listing of whitebox_backup.rs shows of a directory.
use egress_apikey.Prelude.{
  ℕ, ◌+◌, ◌≤◌, ◌≡◌, refl, sym, ap, ◌∙◌, false, not, ◌&&◌, ◌||◌, Option, none, some, is_some, [],
  ◌∷◌, ◌++◌, any, count, filter_map, if◌then◌else◌, arith, Bool-cases, Option-cases, inl, inr,
}
use egress_apikey.Prelude.Texts.{Text, text_eq, text_eq_iff}
use egress_apikey.Prelude.SortBy.{any-sort_by, count-sort_by}
use egress_apikey.WhiteboxBackup.{
  WhiteboxBackupEntry, newer, Dir, has_file, entry_at, listed, backup_list, named, without,
  parse_backup_name, starts_with, dot,
}

-- A listed file is listed under its own name.
listed-named :
    (original name : Text) {e : WhiteboxBackupEntry}
    → listed original name ≡ some e
    → e.file_name ≡ name
unfolding listed
listed-named original name {e} h = elim (Bool-cases (starts_with (original ++ dot ∷ []) name)) [
  | inl fits ↦
      of_entry (parse_backup_name name)
        (sym (ap (λ b. if b then entry_at name (parse_backup_name name) else none) fits) ∙ h)
  | inr other ↦
      cc (sym (ap (λ b. if b then entry_at name (parse_backup_name name) else none) other) ∙ h)
]
  where
    of_entry : (o : Option ℕ) → entry_at name o ≡ some e → e.file_name ≡ name
    of_entry none k = cc
    of_entry (some ts) k = cc

module _ {Content : Type 0} (original : Text) where
  -- Which names a listing has.
  any-listed :
      (n : Text) (dir : Dir Content)
      → any (named n) (filter_map (λ (f : Text × Content). listed original f.0) dir)
        ≡ (has_file n dir && is_some (listed original n))
  any-listed n [] = refl
  any-listed n (f ∷ dir) = elim (Option-cases (listed original f.0)) [
    | inl unlisted ↦ rw unlisted (
        ground (
          arith,
          any-listed n dir,
          text_eq_iff f.0 n,
          unlisted,
          λ (p : f.0 ≡ n). ap (listed original) p,
        ))
    | inr (e, is_listed) ↦ rw is_listed (
        ground (
          arith,
          any-listed n dir,
          text_eq_iff f.0 n,
          is_listed,
          ap (λ m. text_eq m n) (listed-named original f.0 is_listed),
          λ (p : f.0 ≡ n). ap (listed original) p,
        ))
  ]

  count-listed :
      (n : Text) (dir : Dir Content)
      → count (named n) (filter_map (λ (f : Text × Content). listed original f.0) dir)
        ≤ count (λ (f : Text × Content). text_eq f.0 n) dir
  count-listed n [] = omega arith
  count-listed n (f ∷ dir) = elim (Option-cases (listed original f.0)) [
    | inl unlisted ↦ rw unlisted (ground (arith, count-listed n dir))
    | inr (e, is_listed) ↦ rw is_listed (
        ground
          (arith, count-listed n dir, ap (λ m. text_eq m n) (listed-named original f.0 is_listed)))
  ]

  pub any-backup_list :
      (n : Text) (dir : Dir Content)
      → any (named n) (backup_list original dir) ≡ (has_file n dir && is_some (listed original n))
  unfolding backup_list
  any-backup_list n dir = any-sort_by (named n) newer _ ∙ any-listed n dir

-- No file comes twice.
abbrev pub IsDir : {Content : Type 0} → Dir Content → Type 0
IsDir {Content} dir = (n : Text) → count (λ (f : Text × Content). text_eq f.0 n) dir ≤ 1

module _ {Content : Type 0} where
  pub has_file-without :
      (n : Text) (e : WhiteboxBackupEntry) (dir : Dir Content)
      → has_file n (without (e ∷ []) dir) ≡ (has_file n dir && not (named n e))
  has_file-without n e [] = refl
  has_file-without n e (f ∷ dir) = ground (
    arith,
    has_file-without n e dir,
    text_eq_iff f.0 n,
    λ (p : f.0 ≡ n). ap (text_eq e.file_name) p,
  )

  pub has_file-append :
      (n : Text) (dir : Dir Content) (name : Text) (content : Content)
      → has_file n (dir ++ (name, content) ∷ []) ≡ (has_file n dir || text_eq name n)
  has_file-append n [] name content = ground arith
  has_file-append n (f ∷ dir) name content = ground (arith, has_file-append n dir name content)

  count-append_file :
      (n : Text) (dir : Dir Content) (name : Text) (content : Content)
      → count (λ (f : Text × Content). text_eq f.0 n) (dir ++ (name, content) ∷ [])
        ≡ count (λ (f : Text × Content). text_eq f.0 n) dir + (if text_eq name n then 1 else 0)
  count-append_file n [] name content = ground arith
  count-append_file n (f ∷ dir) name content = ground (arith, count-append_file n dir name content)

  absent_count :
      (n : Text) (dir : Dir Content)
      → has_file n dir ≡ false
      → count (λ (f : Text × Content). text_eq f.0 n) dir ≡ 0
  absent_count n [] h = refl
  absent_count n (f ∷ dir) h = ground (arith, absent_count n dir)

  -- A copy under a free name keeps the names apart.
  pub append-IsDir :
      (dir : Dir Content) (name : Text) (content : Content)
      → IsDir dir
      → has_file name dir ≡ false
      → IsDir (dir ++ (name, content) ∷ [])
  append-IsDir dir name content h free n = ground (
    arith,
    h n,
    count-append_file n dir name content,
    absent_count n dir,
    text_eq_iff name n,
    λ (p : name ≡ n). ap (λ m. has_file m dir) p,
  )

  pub listing_once :
      (original : Text) (n : Text) (dir : Dir Content)
      → count (λ (f : Text × Content). text_eq f.0 n) dir ≤ 1
      → count (named n) (backup_list original dir) ≤ 1
  unfolding backup_list
  listing_once original n dir h = omega (
    arith,
    count-listed original n dir,
    count-sort_by (named n) newer (filter_map (λ (f : Text × Content). listed original f.0) dir),
  )
