-- ===== src/StrategyService/Bounds.antt =====
-- What a document that the validator of strategy_service.rs accepts looks like: the bounds and the
-- shapes, written without the validator.
use egress_apikey.Prelude.{
  ℕ, suc, ◌+◌, ◌≤◌, ◌≡◌, ◌↔◌, refl, ap, Bool, false, String, Option, none, some, is_some, List, [],
  ◌∷◌, any, count, length, All, str_eq, if◌then◌else◌, arith, eq_iff, eq_refl,
}
use egress_apikey.Prelude.Upserts.{Distinct}
use egress_apikey.StrategyEngine.{
  PlatformStrategy, CascadeError, SubscriptionStatus, StrategyConfig,
}
use egress_apikey.StrategyService.{len, has_control, has_nul, or_refuse, also}
use egress_apikey.StrategyService.Validation.{
  bad_len, check_each, check_all, itself, needs_stage, is_failed, validate_orchestration,
}
use egress_apikey.Orchestration.Floats.{Float}
use egress_apikey.Orchestration.Evaluate.{OrchestrationSection}

-- A text of one to `limit` bytes.
abbrev pub Sized : ℕ → String → Type 0
Sized limit s = (1 ≤ len s) × (len s ≤ limit)

pub record PlatformIsBounded (ps : PlatformStrategy) : Type 0 where
  pub name : Sized 128 ps.platform_name
  pub regions : length ps.regions ≤ 64
  pub region_codes : All (Sized 32) ps.regions
  pub subscriptions : length ps.subscriptions ≤ 64
  pub top_n : ps.top_n ≤ 1000
  pub manual_nodes : length ps.manual_nodes ≤ 256

abbrev pub CascadeIsBounded : Option CascadeError → Type 0
CascadeIsBounded none = Unit
CascadeIsBounded (some ce) =
    Sized 1024 ce.reason
    × (has_nul ce.reason ≡ false)
    × (length ce.rollback_actions ≤ 8)
    × All (λ a. Sized 256 a × (has_nul a ≡ false)) ce.rollback_actions

abbrev pub ErrorIsBounded : Option String → Type 0
ErrorIsBounded none = Unit
ErrorIsBounded (some e) = Sized 1024 e × (has_nul e ≡ false)

-- A stage in Establishing and Failed and only there; an error in Failed and only there.
pub record StatusIsLocked (row : SubscriptionStatus) : Type 0 where
  pub name : Sized 128 row.name
  pub printable : has_control row.name ≡ false
  pub stage : is_some row.stage ≡ needs_stage row.phase
  pub error : is_some row.phase_error ≡ is_failed row.phase
  pub error_text : ErrorIsBounded row.phase_error
  pub cascade : CascadeIsBounded row.last_cascade_error

abbrev pub Printable : String → Type 0
Printable m = Sized 128 m × (has_control m ≡ false)

pub or_refuse_iff :
    (bad : Bool) (message : String) (next : Option String)
    → (or_refuse bad message next ≡ none) ↔ ((bad ≡ false) × (next ≡ none))
or_refuse_iff bad message next = ground arith

pub also_iff : (a b : Option String) → (also a b ≡ none) ↔ ((a ≡ none) × (b ≡ none))
also_iff none b = (λ h. (refl, h), λ h. h.1)
also_iff (some m) b = (λ h. cc, λ h. cc)

-- The loop accepts a list exactly when it accepts each entry, and no name comes twice.
module _ {A : Type 0} (name : A → String) (refusal : Bool → ℕ → A → Option String) (P : A → Type 0)
    (row : (seen : Bool) (i : ℕ) (x : A) → (refusal seen i x ≡ none) ↔ ((seen ≡ false) × P x)) where
  abbrev in_list : List String → String → ℕ
  in_list seen n = if any (str_eq n) seen then 1 else 0

  abbrev Fresh : List String → List A → Type 0
  Fresh seen xs = (n : String) → in_list seen n + count (λ x. str_eq (name x) n) xs ≤ 1

  step-Fresh :
      (seen : List String) (x : A) (xs : List A)
      → ((any (str_eq (name x)) seen ≡ false) × Fresh (name x ∷ seen) xs) ↔ Fresh seen (x ∷ xs)
  step-Fresh seen x xs = (
    λ (new, h) n. ground (
      arith,
      h n,
      new,
      eq_iff (name x) n,
      eq_iff n (name x),
      λ (p : name x ≡ n). ap (λ m. any (str_eq m) seen) p,
    ),
    λ h. (
      ground (arith, h (name x), eq_refl (name x)),
      λ n. ground (arith, h n, eq_iff (name x) n, eq_iff n (name x)),
    ),
  )

  check_each_iff :
      (seen : List String) (i : ℕ) (xs : List A)
      → (check_each name refusal seen i xs ≡ none) ↔ (All P xs × Fresh seen xs)
  unfolding check_each
  check_each_iff seen i [] = (λ h. (tt, λ n. ground arith), λ h. refl)
  check_each_iff seen i (x ∷ xs) =
      let here = row (any (str_eq (name x)) seen) i x in
      let later = check_each_iff (name x ∷ seen) (suc i) xs in
      let fresh = step-Fresh seen x xs in
      let both =
        also_iff (refusal (any (str_eq (name x)) seen) i x)
          (check_each name refusal (name x ∷ seen) (suc i) xs) in
      (
        λ h.
            let (a, b) = both.0 h in
            let (new, p) = here.0 a in let (ps, rest) = later.0 b in ((p, ps), fresh.0 (new, rest)),
        λ (ps, h). let (new, rest) = fresh.1 h in both.1 (here.1 (new, ps.0), later.1 (ps.1, rest)),
      )

  -- The whole loop.
  pub check_list_iff :
      (xs : List A) → (check_each name refusal [] 0 xs ≡ none) ↔ (All P xs × Distinct name xs)
  check_list_iff xs =
      let each = check_each_iff [] 0 xs in
      (
        λ h. let (ps, fresh) = each.0 h in (ps, λ n. omega (arith, fresh n)),
        λ (ps, names). each.1 (ps, λ n. omega (arith, names n)),
      )

pub check_all_iff :
    (refusal : String → Option String) (P : String → Type 0)
    → ((s : String) → (refusal s ≡ none) ↔ P s)
    → (xs : List String) → (check_all refusal xs ≡ none) ↔ All P xs
unfolding check_all
check_all_iff refusal P each [] = (λ h. tt, λ h. refl)
check_all_iff refusal P each (x ∷ xs) =
    let rest = check_all_iff refusal P each xs in
    let both = also_iff (refusal x) (check_all refusal xs) in
    (
      λ h. let (a, b) = both.0 h in ((each x).0 a, rest.0 b),
      λ (p, ps). both.1 ((each x).1 p, rest.1 ps),
    )

pub Sized-iff : (limit : ℕ) (s : String) → (bad_len limit s ≡ false) ↔ Sized limit s
Sized-iff limit s = ground arith

-- A document within all bounds; the orchestration section is judged by its own validator.
pub record IsValid (F : Float) (config : StrategyConfig (OrchestrationSection F.Num)) : Type 0 where
  pub version : config.version ≡ 1
  pub platform_count : length config.platforms ≤ 256
  pub platforms : All PlatformIsBounded config.platforms
  pub platform_names : Distinct (λ (ps : PlatformStrategy). ps.platform_name) config.platforms
  pub acknowledged_count : length config.acknowledged ≤ 64
  pub acknowledged : All Printable config.acknowledged
  pub acknowledged_names : Distinct itself config.acknowledged
  pub status_count : length config.subscriptions ≤ 512
  pub statuses : All StatusIsLocked config.subscriptions
  pub status_names : Distinct (λ (row : SubscriptionStatus). row.name) config.subscriptions
  pub section : validate_orchestration F config.orchestration ≡ none

-- The counters, the times and the error of the last pass play no part.
pub metadata-IsValid :
    (F : Float) (config : StrategyConfig (OrchestrationSection F.Num))
    (generation applied_generation : ℕ) (last_apply_at updated_at : Option ℕ)
    (last_apply_error : Option String)
    → IsValid F config
    → IsValid F (record config {
      generation = generation;
      applied_generation = applied_generation;
      last_apply_at = last_apply_at;
      last_apply_error = last_apply_error;
      updated_at = updated_at;
    })
metadata-IsValid F config generation applied_generation last_apply_at updated_at last_apply_error
      v =
    record {
      version = v.version;
      platform_count = v.platform_count;
      platforms = v.platforms;
      platform_names = v.platform_names;
      acknowledged_count = v.acknowledged_count;
      acknowledged = v.acknowledged;
      acknowledged_names = v.acknowledged_names;
      status_count = v.status_count;
      statuses = v.statuses;
      status_names = v.status_names;
      section = v.section;
    }
