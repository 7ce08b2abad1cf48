-- ===== src/StrategyEngine/Membership.antt =====
-- What an A-class selection contains.
use egress_apikey.Prelude.{
  ℕ, zero, suc, ◌≡◌, ◌≢◌, refl, sym, ap, ◌∙◌, Bool, true, false, ◌&&◌, ◌||◌, String, none, some,
  unwrap_or, List, [], ◌∷◌, map, any, take, filter_map, str_eq, if◌then◌else◌, arith, Bool-cases,
  inl, inr,
}
use egress_apikey.Prelude.Sorting.{any-normalized, IsAscending, normalized-IsAscending}
use egress_apikey.StrategyEngine.{
  PlatformStrategy, AClassStrategy, manual, region, quality, subscription, NodeSummary,
}
use egress_apikey.StrategyEngine.Regions.{
  insert_by_latency, sort_by_latency, a_class_regions, a_class_regions_by, contains, is_empty,
}

module _ {Num : Type 0} where
  -- The node that an arm other than `quality` lets in.
  abbrev pub admits : AClassStrategy → PlatformStrategy → NodeSummary Num → Bool
  admits manual s n = contains s.manual_nodes n.node_hash
  admits region s n = is_empty s.regions || contains s.regions n.region
  admits quality s n = false
  admits subscription s n =
      is_empty s.subscriptions || contains s.subscriptions (unwrap_or n.subscription_name "")

  -- Some node is in region `r`.
  abbrev pub in_region : String → List (NodeSummary Num) → Bool
  in_region r nodes = any (λ (n : NodeSummary Num). str_eq r n.region) nodes

  any-select :
      (p : NodeSummary Num → Bool) (r : String) (nodes : List (NodeSummary Num))
      → any
          (str_eq r)
          (filter_map (λ (n : NodeSummary Num). if p n then some n.region else none) nodes)
        ≡ any (λ (n : NodeSummary Num). p n && str_eq r n.region) nodes
  any-select p r [] = refl
  any-select p r (n ∷ nodes) = elim (Bool-cases (p n)) [
    | inl e ↦ rw e (ap (λ b. str_eq r n.region || b) (any-select p r nodes))
    | inr e ↦ rw e (any-select p r nodes)
  ]

  any-and :
      (p q : NodeSummary Num → Bool) (nodes : List (NodeSummary Num))
      → any (λ n. p n && q n) nodes ≡ true
      → any q nodes ≡ true
  any-and p q [] h = h
  any-and p q (n ∷ nodes) h = ground (arith, any-and p q nodes)

  any-regions :
      (r : String) (nodes : List (NodeSummary Num))
      → any (str_eq r) (map (λ (n : NodeSummary Num). n.region) nodes) ≡ in_region r nodes
  any-regions r [] = refl
  any-regions r (n ∷ nodes) = ap (λ b. str_eq r n.region || b) (any-regions r nodes)

  any-take :
      (q : NodeSummary Num → Bool) (k : ℕ) (nodes : List (NodeSummary Num))
      → any q (take k nodes) ≡ true
      → any q nodes ≡ true
  any-take q zero nodes h = cc
  any-take q (suc k) [] h = h
  any-take q (suc k) (n ∷ nodes) h = ground (arith, any-take q k nodes)

  module _ (less : Num → Num → Bool) (num_max : Num) where
    any-insert_by_latency :
        (q : NodeSummary Num → Bool) (n : NodeSummary Num) (nodes : List (NodeSummary Num))
        → any q (insert_by_latency less num_max n nodes) ≡ (q n || any q nodes)
    unfolding insert_by_latency
    any-insert_by_latency q n [] = refl
    any-insert_by_latency q n (m ∷ ms) = ground (arith, any-insert_by_latency q n ms)

    any-sort_by_latency :
        (q : NodeSummary Num → Bool) (nodes : List (NodeSummary Num))
        → any q (sort_by_latency less num_max nodes) ≡ any q nodes
    unfolding sort_by_latency
    any-sort_by_latency q [] = refl
    any-sort_by_latency q (n ∷ ns) =
        any-insert_by_latency q n (sort_by_latency less num_max ns)
        ∙ ap (λ b. q n || b) (any-sort_by_latency q ns)

    by_exact :
        (a : AClassStrategy) (s : PlatformStrategy) (healthy : List (NodeSummary Num)) (r : String)
        → a ≢ quality
        → any (str_eq r) (a_class_regions_by less num_max a s healthy)
          ≡ any (λ (n : NodeSummary Num). admits a s n && str_eq r n.region) healthy
    unfolding a_class_regions_by
    by_exact manual s healthy r h =
        any-normalized (str_eq r) _ ∙ any-select (admits manual s) r healthy
    by_exact region s healthy r h =
        any-normalized (str_eq r) _ ∙ any-select (admits region s) r healthy
    by_exact quality s healthy r h = absurd (h refl)
    by_exact subscription s healthy r h =
        any-normalized (str_eq r) _ ∙ any-select (admits subscription s) r healthy

    -- Outside `quality`, the selection contains region `r` exactly when an admitted healthy node is
    -- in it.
    pub a_class_regions_exact :
        (s : PlatformStrategy) (healthy : List (NodeSummary Num)) (r : String)
        → s.a_class ≢ quality
        → any (str_eq r) (a_class_regions less num_max s healthy)
          ≡ any (λ (n : NodeSummary Num). admits s.a_class s n && str_eq r n.region) healthy
    unfolding a_class_regions
    a_class_regions_exact s healthy r h = by_exact s.a_class s healthy r h

    quality_sound :
        (s : PlatformStrategy) (healthy : List (NodeSummary Num)) (r : String)
        → any (str_eq r) (a_class_regions_by less num_max quality s healthy) ≡ true
        → in_region r healthy ≡ true
    unfolding a_class_regions_by
    quality_sound s healthy r h =
        let sorted = sort_by_latency less num_max healthy in
        sym (any-sort_by_latency (λ (n : NodeSummary Num). str_eq r n.region) healthy)
        ∙ any-take (λ (n : NodeSummary Num). str_eq r n.region) s.top_n sorted
            (sym (any-normalized (str_eq r) _ ∙ any-regions r (take s.top_n sorted)) ∙ h)

    by-IsAscending :
        (a : AClassStrategy) (s : PlatformStrategy) (healthy : List (NodeSummary Num))
        → IsAscending (a_class_regions_by less num_max a s healthy)
    unfolding a_class_regions_by
    by-IsAscending manual s healthy = normalized-IsAscending _
    by-IsAscending region s healthy = normalized-IsAscending _
    by-IsAscending quality s healthy = normalized-IsAscending _
    by-IsAscending subscription s healthy = normalized-IsAscending _

    by_sound :
        (a : AClassStrategy) (s : PlatformStrategy) (healthy : List (NodeSummary Num)) (r : String)
        → any (str_eq r) (a_class_regions_by less num_max a s healthy) ≡ true
        → in_region r healthy ≡ true
    by_sound manual s healthy r h =
        any-and (admits manual s) _ healthy (sym (by_exact manual s healthy r (cc)) ∙ h)
    by_sound region s healthy r h =
        any-and (admits region s) _ healthy (sym (by_exact region s healthy r (cc)) ∙ h)
    by_sound quality s healthy r h = quality_sound s healthy r h
    by_sound subscription s healthy r h =
        any-and (admits subscription s) _ healthy (sym (by_exact subscription s healthy r (cc)) ∙ h)

    -- Whatever the arm, the selection is strictly ascending: sorted, with no duplicate.
    pub a_class_regions-IsAscending :
        (s : PlatformStrategy) (healthy : List (NodeSummary Num))
        → IsAscending (a_class_regions less num_max s healthy)
    unfolding a_class_regions
    a_class_regions-IsAscending s healthy = by-IsAscending s.a_class s healthy

    -- Whatever the arm, a region in the selection is that of a healthy node.
    pub a_class_regions_sound :
        (s : PlatformStrategy) (healthy : List (NodeSummary Num)) (r : String)
        → any (str_eq r) (a_class_regions less num_max s healthy) ≡ true
        → in_region r healthy ≡ true
    unfolding a_class_regions
    a_class_regions_sound s healthy r h = by_sound s.a_class s healthy r h
