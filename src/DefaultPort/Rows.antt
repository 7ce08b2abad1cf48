-- ===== src/DefaultPort/Rows.antt =====
-- The rows of the whitebox that go with a platform, in the reverse tail of
-- crates/resin-core/src/subscription_pipeline.rs.
use egress_apikey.Prelude.{
  ℕ, ◌≡◌, refl, sym, ap, ◌∙◌, if◌then◌else◌, str_eq, eq_iff, Bool-cases, Bool, true, false, not,
  inl, inr, String, List, [], ◌∷◌, map, filter,
}
use mathlib.Core.Bool.{false≢true}
use egress_apikey.Snapshot.{PortMapping}
use egress_apikey.DefaultPort.{bound_to}

abbrev pub bound_ports : String → List PortMapping → List ℕ
bound_ports platform_name rows =
    map (λ (row : PortMapping). row.port) (filter (bound_to platform_name) rows)

abbrev pub without_bound : String → List PortMapping → List PortMapping
without_bound platform_name rows = filter (λ row. not (bound_to platform_name row)) rows

-- A document that has no row of the platform and the rows of every other platform.
abbrev pub IsWithout : String → List PortMapping → List PortMapping → Type 0
IsWithout platform_name rows stored =
    (n : String)
    → filter (bound_to n) stored ≡ (if str_eq n platform_name then [] else filter (bound_to n) rows)

pub without_bound-IsWithout :
    (platform_name : String) (rows : List PortMapping) (n : String)
    → filter (bound_to n) (without_bound platform_name rows)
      ≡ (if str_eq n platform_name then [] else filter (bound_to n) rows)
without_bound-IsWithout platform_name [] n = if_same (str_eq n platform_name)
  where
    if_same : (b : Bool) → ◌≡◌ {A = List PortMapping} [] (if b then [] else [])
    if_same true = refl
    if_same false = refl
without_bound-IsWithout platform_name (row ∷ rows) n =
    let rest = without_bound-IsWithout platform_name rows n in
    elim (Bool-cases (bound_to platform_name row)) [
      | inl own ↦ rw own (rest ∙ dropped (str_eq n platform_name) (bound_to n row) (same own))
      | inr other ↦
          rw other (keeps_row (str_eq n platform_name) (bound_to n row) (differs other) rest)
    ]
  where
    same : bound_to platform_name row ≡ true → bound_to n row ≡ true → str_eq n platform_name ≡ true
    same own b =
        (eq_iff n platform_name).1
          (sym ((eq_iff row.platform_name n).0 b) ∙ (eq_iff row.platform_name platform_name).0 own)

    differs :
        bound_to platform_name row ≡ false → bound_to n row ≡ true → str_eq n platform_name ≡ false
    differs other b =
        ap (λ m. str_eq m platform_name) (sym ((eq_iff row.platform_name n).0 b)) ∙ other

    dropped :
        (c b : Bool)
        → (b ≡ true → c ≡ true)
        → (if c then [] else filter (bound_to n) rows) ≡ (
            if c
            then []
            else (if b then row ∷ filter (bound_to n) rows else filter (bound_to n) rows))
    dropped true b h = refl
    dropped false true h = absurd (false≢true (h refl))
    dropped false false h = refl

    keeps_row :
        (c b : Bool) {kept : List PortMapping}
        → (b ≡ true → c ≡ false)
        → kept ≡ (if c then [] else filter (bound_to n) rows)
        → (if b then row ∷ kept else kept) ≡ (
            if c
            then []
            else (if b then row ∷ filter (bound_to n) rows else filter (bound_to n) rows))
    keeps_row true true h e = absurd (false≢true (sym (h refl)))
    keeps_row true false h e = e
    keeps_row false true h e = ap (λ l. row ∷ l) e
    keeps_row false false h e = e
