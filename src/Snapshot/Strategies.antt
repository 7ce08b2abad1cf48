-- ===== src/Snapshot/Strategies.antt =====
-- Which platforms the merge of the strategy document shows, and as what.
use egress_apikey.Prelude.{
  ◌≡◌, refl, sym, ap, ◌∙◌, Bool, true, false, ◌&&◌, ◌||◌, not, String, Option, none, some,
  unwrap_or, List, [], ◌∷◌, ◌++◌, map, any, filter, str_eq, if_elim, arith, Bool-cases, inl, inr,
  eq_iff,
}
use mathlib.Core.Bool.{false≢true}
use mathlib.Core.Path.{ap₂}
use egress_apikey.Prelude.Maps.{Map, get}
use egress_apikey.Strategy
use egress_apikey.StrategyEngine.{PlatformStrategy, StrategyConfig}
use egress_apikey.Snapshot.{StrategySnapshot, consistent, platform_name}
use egress_apikey.Snapshot.Merges.{
  ResinPlatformRuntime, same_region_set, same_allocation_policy, resin_by_name, merge_entry,
  runtime_only, is_seen, merge_strategies,
}

pub any-append {ℓ} :
    {A : Type ℓ} (p : A → Bool) (xs ys : List A) → any p (xs ++ ys) ≡ (any p xs || any p ys)
any-append p [] ys = refl
any-append p (x ∷ xs) ys = ground (arith, any-append p xs ys)

abbrev pub shows : String → StrategySnapshot → Bool
shows n s = str_eq (platform_name s) n

abbrev pub is_consistent : StrategySnapshot → Bool
is_consistent (consistent _ _ _) = true
is_consistent _ = false

abbrev pub named_in : String → List PlatformStrategy → Bool
named_in n platforms = any (λ (ps : PlatformStrategy). str_eq ps.platform_name n) platforms

absorbed : (a t r : Bool) → (t ≡ true → a ≡ true) → (a || r) ≡ (a || (t || r))
absorbed true t r h = refl
absorbed false false r h = refl
absorbed false true r h = absurd (false≢true (h refl))

beside : (a t f r : Bool) → (a || f) ≡ (a || r) → (a || (t || f)) ≡ (a || (t || r))
beside a t f r h = ground arith

-- The names of the two sides together, with or without the filter.
union :
    (n : String) (platforms : List PlatformStrategy) (resin : List ResinPlatformRuntime)
    → (named_in n platforms
        || any
            (λ (rp : ResinPlatformRuntime). str_eq rp.name n)
            (filter (λ (rp : ResinPlatformRuntime). not (is_seen platforms rp)) resin))
      ≡ (named_in n platforms || any (λ (rp : ResinPlatformRuntime). str_eq rp.name n) resin)
union n platforms [] = refl
union n platforms (rp ∷ resin) = elim (Bool-cases (is_seen platforms rp)) [
  | inl seen ↦
      let ours = λ (e : str_eq rp.name n ≡ true).
        ap (λ m. named_in m platforms) (sym ((eq_iff rp.name n).0 e)) ∙ seen in
      rw seen (union n platforms resin ∙ absorbed (named_in n platforms) (str_eq rp.name n) _ ours)
  | inr unseen ↦
      rw unseen (beside (named_in n platforms) (str_eq rp.name n) _ _ (union n platforms resin))
]

module _ (to_lowercase : String → String) where
  merge_entry-name :
      (ps : PlatformStrategy) (computed : List String) (o : Option ResinPlatformRuntime)
      → platform_name (merge_entry to_lowercase ps computed o) ≡ ps.platform_name
  merge_entry-name ps computed none = refl
  merge_entry-name ps computed (some rp) =
      if_elim (λ s. platform_name s ≡ ps.platform_name)
        (same_region_set to_lowercase computed rp.region_filters
          && same_allocation_policy (Strategy.as_str ps.b_class) rp.allocation_policy)
        (λ _. refl) (λ _. refl)

  any-entries :
      (n : String) (f : PlatformStrategy → List String)
      (g : PlatformStrategy → Option ResinPlatformRuntime) (platforms : List PlatformStrategy)
      → any
          (shows n)
          (map (λ (ps : PlatformStrategy). merge_entry to_lowercase ps (f ps) (g ps)) platforms)
        ≡ named_in n platforms
  any-entries n f g [] = refl
  any-entries n f g (ps ∷ platforms) =
      ap₂ (λ a b. a || b) (ap (λ m. str_eq m n) (merge_entry-name ps (f ps) (g ps)))
        (any-entries n f g platforms)

  any-runtime_only :
      (n : String) (exists : Bool) (resin : List ResinPlatformRuntime)
      → any (shows n) (map (runtime_only exists) resin)
        ≡ any (λ (rp : ResinPlatformRuntime). str_eq rp.name n) resin
  any-runtime_only n exists [] = refl
  any-runtime_only n exists (rp ∷ resin) =
      ap (λ b. str_eq rp.name n || b) (any-runtime_only n exists resin)

  -- The snapshot shows a platform name exactly when the whitebox or Resin has it: no platform of
  -- either side is dropped, and none is made up.
  pub merge_strategies_complete :
      {Section : Type 0} (config : StrategyConfig Section) (resin : List ResinPlatformRuntime)
      (computed_regions : Map (List String)) (whitebox_exists : Bool) (n : String)
      → any (shows n) (merge_strategies to_lowercase config resin computed_regions whitebox_exists)
        ≡ (named_in n config.platforms
            || any (λ (rp : ResinPlatformRuntime). str_eq rp.name n) resin)
  unfolding merge_strategies
  merge_strategies_complete config resin computed_regions whitebox_exists n =
      any-append (shows n)
        (map
          (λ (ps : PlatformStrategy).
            merge_entry to_lowercase ps
              (unwrap_or (get ps.platform_name computed_regions) ps.regions)
              (get ps.platform_name (resin_by_name resin)))
          config.platforms)
        _
      ∙ ap₂ (λ a b. a || b)
          (any-entries n (λ ps. unwrap_or (get ps.platform_name computed_regions) ps.regions)
            (λ ps. get ps.platform_name (resin_by_name resin)) config.platforms)
          (any-runtime_only n whitebox_exists
            (filter (λ (rp : ResinPlatformRuntime). not (is_seen config.platforms rp)) resin))
      ∙ union n config.platforms resin
