-- ===== src/StrategyEngine/Plans.antt =====
-- What the plan of a document offers to each platform.
use egress_apikey.Prelude.{
  ◌≡◌, refl, sym, ap, ◌∙◌, Bool, true, false, ◌&&◌, ◌||◌, String, Option, none, some, List, [], ◌∷◌,
  any, str_eq, if◌then◌else◌, Bool-cases, inl, inr,
}
use mathlib.Core.Option.{some-injective}
use egress_apikey.Prelude.Maps.{Map, get, insert, get-insert}
use egress_apikey.StrategyEngine.{PlatformStrategy, NodeSummary, StrategyConfig}
use egress_apikey.StrategyEngine.Regions.{
  is_live, liveness_filter, a_class_regions, plan_platforms, compute_plan,
}
use egress_apikey.StrategyEngine.Membership.{in_region, a_class_regions_sound}

abbrev pub or_else : Option PlatformStrategy → Option PlatformStrategy → Option PlatformStrategy
or_else (some later) earlier = some later
or_else none earlier = earlier

-- The last entry of that name.
abbrev pub last_named : String → List PlatformStrategy → Option PlatformStrategy
last_named p [] = none
last_named p (ps ∷ rest) =
    or_else (last_named p rest) (if str_eq ps.platform_name p then some ps else none)

module _ {Num : Type 0} (less : Num → Num → Bool) (num_max : Num) where
  abbrev offer :
      List (NodeSummary Num) → Option PlatformStrategy → Option (List String) → Option (List String)
  offer healthy none before = before
  offer healthy (some ps) before = some (a_class_regions less num_max ps healthy)

  offer-later :
      (healthy : List (NodeSummary Num)) (ps : PlatformStrategy) (p : String)
      (later : Option PlatformStrategy) (plan : Map (List String))
      → offer healthy later
          (get p (insert ps.platform_name (a_class_regions less num_max ps healthy) plan))
        ≡ offer healthy
            (or_else later (if str_eq ps.platform_name p then some ps else none))
            (get p plan)
  offer-later healthy ps p (some later) plan = refl
  offer-later healthy ps p none plan =
      get-insert ps.platform_name p (a_class_regions less num_max ps healthy) plan
      ∙ offer-if (str_eq ps.platform_name p)
    where
      offer-if :
          (b : Bool)
          → (if b then some (a_class_regions less num_max ps healthy) else get p plan)
            ≡ offer healthy (if b then some ps else none) (get p plan)
      offer-if true = refl
      offer-if false = refl

  get-plan_platforms :
      (p : String) (platforms : List PlatformStrategy) (healthy : List (NodeSummary Num))
      (plan : Map (List String))
      → get p (plan_platforms less num_max platforms healthy plan)
        ≡ offer healthy (last_named p platforms) (get p plan)
  unfolding plan_platforms
  get-plan_platforms p [] healthy plan = refl
  get-plan_platforms p (ps ∷ platforms) healthy plan =
      get-plan_platforms p platforms healthy
        (insert ps.platform_name (a_class_regions less num_max ps healthy) plan)
      ∙ offer-later healthy ps p (last_named p platforms) plan

  filter-in_region :
      (r : String) (nodes : List (NodeSummary Num))
      → in_region r (liveness_filter nodes)
        ≡ any (λ (n : NodeSummary Num). is_live n && str_eq r n.region) nodes
  unfolding liveness_filter
  filter-in_region r [] = refl
  filter-in_region r (n ∷ nodes) = elim (Bool-cases (is_live n)) [
    | inl e ↦ rw e (ap (λ b. str_eq r n.region || b) (filter-in_region r nodes))
    | inr e ↦ rw e (filter-in_region r nodes)
  ]

  -- A platform is planned exactly the selection of its last entry, over the live nodes.
  pub get-compute_plan :
      {Section : Type 0} (p : String) (config : StrategyConfig Section)
      (nodes : List (NodeSummary Num))
      → get p (compute_plan less num_max config nodes)
        ≡ offer (liveness_filter nodes) (last_named p config.platforms) none
  unfolding compute_plan get
  get-compute_plan p config nodes = get-plan_platforms p config.platforms (liveness_filter nodes) []

  offer_sound :
      (o : Option PlatformStrategy) (nodes : List (NodeSummary Num)) {regions : List String}
      (r : String)
      → offer (liveness_filter nodes) o none ≡ some regions
      → any (str_eq r) regions ≡ true
      → any (λ (n : NodeSummary Num). is_live n && str_eq r n.region) nodes ≡ true
  offer_sound none nodes r h k = cc
  offer_sound (some ps) nodes r h k =
      sym (filter-in_region r nodes)
      ∙ a_class_regions_sound less num_max ps (liveness_filter nodes) r
          (ap (any (str_eq r)) (some-injective _ _ h) ∙ k)

  -- A region that a plan offers to some platform is that of a node with an outbound and no failure.
  pub compute_plan-live :
      {Section : Type 0} (p : String) (config : StrategyConfig Section)
      (nodes : List (NodeSummary Num)) {regions : List String} (r : String)
      → get p (compute_plan less num_max config nodes) ≡ some regions
      → any (str_eq r) regions ≡ true
      → any (λ (n : NodeSummary Num). is_live n && str_eq r n.region) nodes ≡ true
  compute_plan-live p config nodes r h k =
      offer_sound (last_named p config.platforms) nodes r
        (sym (get-compute_plan p config nodes) ∙ h) k
