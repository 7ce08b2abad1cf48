-- ===== src/WhiteboxBackup/Ring.antt =====
-- The ring of copies in whitebox_backup.rs: which files a write leaves.
use egress_apikey.Prelude.{
  ℕ, zero, suc, ◌≡◌, refl, sym, ap, ◌∙◌, Bool, true, false, not, ◌&&◌, ◌||◌, Option, none, some,
  is_some, List, [], ◌∷◌, ◌++◌, any, take, length, leb, if◌then◌else◌, arith, Bool-cases, inl, inr,
}
use egress_apikey.Prelude.Texts.{Text, text_eq}
use egress_apikey.Prelude.Results.{Result, ok, err}
use egress_apikey.WhiteboxBackup.Cuts.{none_beyond, any-drop, any-take-drop}
use egress_apikey.WhiteboxBackup.Listings.{
  any-backup_list, listing_once, has_file-without, has_file-append, append-IsDir, IsDir,
}
use egress_apikey.WhiteboxBackup.{
  WhiteboxBackupEntry, Dir, has_file, listed, backup_list, named, evicted, without, free_name,
  backup_name, and_then, remove_all, rotate_backups, copy_to, named_result, backup_before_write,
  collision_attempts,
}

and_then-ok :
    {A : Type 0} (r : Result Unit) (rest : Result A) {a : A} → and_then r rest ≡ ok a → rest ≡ ok a
and_then-ok (ok u) rest h = h
and_then-ok (err e) rest h = cc

swapped : (a d s : Bool) → ((a && not d) && s) ≡ ((a && s) && not d)
swapped a d s = ground arith

never : (a : Bool) → (a && false) ≡ false
never a = ground arith

always : (a : Bool) → (a && true) ≡ a
always a = ground arith

module _ {Content : Type 0} where
  module _ (copied : Text → Result Unit) (removed : Text → Result Unit) (original : Text) where
    remove_all-ok :
        (entries : List WhiteboxBackupEntry) (dir : Dir Content) (n : Text) {after : Dir Content}
        → remove_all copied removed entries dir ≡ ok after
        → has_file n after ≡ (has_file n dir && not (any (named n) entries))
    remove_all-ok [] dir n {after} h =
        let same : dir ≡ after = cc in ground (arith, ap (has_file n) same)
    remove_all-ok (e ∷ entries) dir n {after} h =
        let rest =
          remove_all-ok entries (without (e ∷ []) dir) n {after = after}
            (and_then-ok (removed e.file_name) _ h) in
        ground (arith, rest, has_file-without n e dir)

    rotate_backups-ok :
        (dir : Dir Content) (n : Text) {after : Dir Content}
        → rotate_backups copied removed original dir ≡ ok after
        → has_file n after ≡ (has_file n dir && not (any (named n) (evicted original dir)))
    rotate_backups-ok dir n {after} h =
        elim (Bool-cases (leb (length (backup_list original dir)) 10)) [
          | inl few ↦
              let same : ok dir ≡ ok after =
                sym (
                  ap
                    (λ b.
                      if b then ok dir else remove_all copied removed (evicted original dir) dir)
                    few)
                ∙ h in
              let same' : dir ≡ after = cc in
              ground
                (arith, ap (has_file n) same', none_beyond (named n) 10 (backup_list original dir))
          | inr many ↦ remove_all-ok (evicted original dir) dir n (
              sym (
                ap (λ b. if b then ok dir else remove_all copied removed (evicted original dir) dir)
                  many)
              ∙ h)
        ]

    free_name-free :
        (now : ℕ) (dir : Dir Content) (tries suffix : ℕ) {name : Text}
        → free_name original now dir tries suffix ≡ some name
        → (has_file name dir ≡ false) × (k : ℕ) × (name ≡ backup_name original now k)
    unfolding free_name
    free_name-free now dir zero suffix h = cc
    free_name-free now dir (suc tries) suffix {name} h =
        elim (Bool-cases (has_file (backup_name original now suffix) dir)) [
          | inl taken ↦ free_name-free now dir tries (suc suffix) (
              sym (
                ap
                  (λ b.
                    if b
                    then free_name original now dir tries (suc suffix)
                    else some (backup_name original now suffix))
                  taken)
              ∙ h)
          | inr free ↦
              let same : some (backup_name original now suffix) ≡ some name =
                sym (
                  ap
                    (λ b.
                      if b
                      then free_name original now dir tries (suc suffix)
                      else some (backup_name original now suffix))
                    free)
                ∙ h in
              let same' : backup_name original now suffix ≡ name = cc in
              (ap (λ m. has_file m dir) (sym same') ∙ free, suffix, sym same')
        ]

    named_result-ok :
        (name : Text) (r : Result (Dir Content)) {copy : Option Text} {after : Dir Content}
        → named_result copied removed name r ≡ ok (copy, after)
        → (copy ≡ some name) × (r ≡ ok after)
    named_result-ok name (ok dir) h = (cc, cc)
    named_result-ok name (err e) h = cc

    copy_to-ok :
        (dir : Dir Content) (content : Content) (o : Option Text) {copy : Option Text}
        {after : Dir Content}
        → copy_to copied removed original dir content o ≡ ok (copy, after)
        → (name : Text) × (o ≡ some name)
          × (copy ≡ some name)
          × (rotate_backups copied removed original (dir ++ (name, content) ∷ []) ≡ ok after)
    copy_to-ok dir content none h = cc
    copy_to-ok dir content (some name) h =
        let done = and_then-ok (copied name) _ h in
        let (same, rotated) =
          named_result-ok name
            (rotate_backups copied removed original (dir ++ (name, content) ∷ [])) done in
        (name, refl, same, rotated)

    -- A copy that a write makes has a free name of the file and its second. What the listing of the
    -- file shows afterwards is what it showed with the copy added, cut to the first ten; and a file
    -- that the listing leaves out stays as it was.
    pub backup_before_write-keeps :
        (content : Content) (now : ℕ) (dir : Dir Content) {copy : Option Text} {after : Dir Content}
        → IsDir dir
        → backup_before_write copied removed original (some content) now dir ≡ ok (copy, after)
        → (name : Text) × (copy ≡ some name)
          × (has_file name dir ≡ false)
          × ((k : ℕ) × (name ≡ backup_name original now k))
          × ((n : Text)
              → (any (named n) (backup_list original after)
                  ≡ any (named n) (take 10 (backup_list original (dir ++ (name, content) ∷ []))))
                × (listed original n ≡ none
                    → has_file n after ≡ (has_file n dir || text_eq name n)))
    unfolding backup_before_write
    backup_before_write-keeps content now dir {copy} {after} apart h =
        let (name, found, copied_to, rotated) =
          copy_to-ok dir content (free_name original now dir collision_attempts 0) h in
        let (free, k, is_name) = free_name-free now dir collision_attempts 0 found in
        let grown = dir ++ (name, content) ∷ [] in
        (
          name,
          copied_to,
          free,
          (k, is_name),
          λ n.
              let kept = rotate_backups-ok grown n rotated in
              let one =
                listing_once original n grown (append-IsDir dir name content apart free n) in
              let beyond = any (named n) (evicted original grown) in
              let here = is_some (listed original n) in
              (
                any-backup_list original n after
                    ∙ ap (λ b. b && here) kept
                    ∙ swapped (has_file n grown) beyond here
                    ∙ ap (λ b. b && not beyond) (sym (any-backup_list original n grown))
                    ∙ sym (any-take-drop (named n) 10 (backup_list original grown) one),
                λ unlisted.
                    let not_shown =
                      any-backup_list original n grown
                      ∙ ap (λ o. has_file n grown && is_some o) unlisted
                      ∙ never (has_file n grown) in
                    kept
                    ∙ ap (λ b. has_file n grown && not b)
                        (any-drop (named n) 10 (backup_list original grown) not_shown)
                    ∙ always (has_file n grown)
                    ∙ has_file-append n dir name content,
              ),
        )
