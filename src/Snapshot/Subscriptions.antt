-- ===== src/Snapshot/Subscriptions.antt =====
-- crates/resin-core/src/snapshot.rs: which subscriptions are shown, and who consumes them.
use egress_apikey.Prelude.{
  ℕ, ◌≡◌, refl, ap, ◌∙◌, Bool, true, false, not, ◌&&◌, ◌||◌, String, unwrap_or, List, [], ◌∷◌, ◌++◌,
  map, any, str_eq, if◌then◌else◌, arith, eq_iff,
}
use mathlib.Core.Path.{ap₂}
use egress_apikey.Prelude.Maps.{Map, get, insert, remove}
use egress_apikey.Prelude.Sorting.{sort, str_ltb}
use egress_apikey.Prelude.SortBy.{sort_by, any-sort_by}
use egress_apikey.Snapshot.Strategies.{any-append}
use egress_apikey.StrategyEngine.Regions.{contains}

pub record SubscriptionSnapshot : Type 0 where
  pub name : String
  pub node_count : ℕ
  pub healthy_node_count : ℕ
  pub consumed_by : List String
  pub resolvable : Bool

-- What Resin lists of a subscription.
pub record LiveSubscription : Type 0 where
  pub live_name : String
  pub nodes : ℕ
  pub healthy : ℕ

abbrev pub with_consumer : String → List String → List String
with_consumer p platforms = if contains platforms p then platforms else platforms ++ p ∷ []

-- A platform that refers to the subscription `name`.
unfoldable pub add_consumers : String → List String → Map (List String) → Map (List String)
unfolding insert get
add_consumers name [] m = m
add_consumers name (p ∷ ps) m =
    add_consumers name ps (insert name (with_consumer p (unwrap_or (get name m) [])) m)

unfoldable pub consumers : List (String × List String) → Map (List String) → Map (List String)
unfolding add_consumers
consumers [] m = m
consumers ((name, platforms) ∷ refs) m = consumers refs (add_consumers name platforms m)

abbrev pub sorted_values : Map (List String) → Map (List String)
sorted_values m = map (λ (e : String × List String). (e.0, sort e.1)) m

abbrev pub live_row : LiveSubscription → Map (List String) → SubscriptionSnapshot
live_row s m = record {
  name = s.live_name;
  node_count = s.nodes;
  healthy_node_count = s.healthy;
  consumed_by = unwrap_or (get s.live_name m) [];
  resolvable = true;
}

-- The rows of the live subscriptions, each taking its consumers out of the map.
unfoldable pub live_rows :
    List LiveSubscription → Map (List String) → List SubscriptionSnapshot × Map (List String)
unfolding get remove
live_rows [] m = ([], m)
live_rows (s ∷ live) m =
    let (rows, rest) = live_rows live (remove s.live_name m) in (live_row s m ∷ rows, rest)

abbrev pub dangling_row : String × List String → SubscriptionSnapshot
dangling_row (name, platforms) = record {
  name = name;
  node_count = 0;
  healthy_node_count = 0;
  consumed_by = platforms;
  resolvable = false;
}

abbrev pub by_name : SubscriptionSnapshot → SubscriptionSnapshot → Bool
by_name a b = str_ltb a.name b.name

-- The keys of the map are apart, so that its order does not show after the sorting.
unfoldable pub merge_subscriptions :
    List LiveSubscription → List (String × List String) → List SubscriptionSnapshot
unfolding consumers live_rows sort_by sort
merge_subscriptions live refs =
    let (rows, rest) = live_rows live (sorted_values (consumers refs [])) in
    sort_by by_name (rows ++ map dangling_row rest)

abbrev has_key : String → Map (List String) → Bool
has_key n m = any (λ (e : String × List String). str_eq e.0 n) m

has_key-insert :
    (n k : String) (v : List String) (m : Map (List String))
    → has_key n (insert k v m) ≡ (str_eq k n || has_key n m)
unfolding insert
has_key-insert n k v [] = refl
has_key-insert n k v ((j, w) ∷ m) =
    ground (arith, eq_iff j k, eq_iff j n, eq_iff k n, has_key-insert n k v m)

has_key-remove :
    (n k : String) (m : Map (List String))
    → has_key n (remove k m) ≡ (not (str_eq k n) && has_key n m)
unfolding remove
has_key-remove n k [] = ground arith
has_key-remove n k ((j, w) ∷ m) =
    ground (arith, eq_iff j k, eq_iff j n, eq_iff k n, has_key-remove n k m)

abbrev no_platforms : List String → Bool
no_platforms [] = true
no_platforms (p ∷ ps) = false

-- Some platform refers to `n`.
abbrev pub is_referenced : String → String × List String → Bool
is_referenced n (name, []) = false
is_referenced n (name, p ∷ ps) = str_eq name n

has_key-add_consumers :
    (n name : String) (ps : List String) (m : Map (List String))
    → has_key n (add_consumers name ps m) ≡ (is_referenced n (name, ps) || has_key n m)
unfolding add_consumers
has_key-add_consumers n name [] m = refl
has_key-add_consumers n name (p ∷ ps) m =
    let added = insert name (with_consumer p (unwrap_or (get name m) [])) m in
    has_key-add_consumers n name ps added
    ∙ ap (λ b. is_referenced n (name, ps) || b)
        (has_key-insert n name (with_consumer p (unwrap_or (get name m) [])) m)
    ∙ again n name ps (has_key n m)
  where
    again :
        (n name : String) (ps : List String) (known : Bool)
        → (is_referenced n (name, ps) || (str_eq name n || known)) ≡ (str_eq name n || known)
    again n name [] known = refl
    again n name (q ∷ qs) known = ground arith

has_key-consumers :
    (n : String) (refs : List (String × List String)) (m : Map (List String))
    → has_key n (consumers refs m) ≡ (any (is_referenced n) refs || has_key n m)
unfolding consumers
has_key-consumers n [] m = refl
has_key-consumers n ((name, platforms) ∷ refs) m =
    has_key-consumers n refs (add_consumers name platforms m)
    ∙ ap (λ b. any (is_referenced n) refs || b) (has_key-add_consumers n name platforms m)
    ∙ swapped (any (is_referenced n) refs) (is_referenced n (name, platforms)) (has_key n m)
  where
    swapped : (a b c : Bool) → (a || (b || c)) ≡ ((b || a) || c)
    swapped a b c = ground arith

has_key-sorted_values :
    (n : String) (m : Map (List String)) → has_key n (sorted_values m) ≡ has_key n m
has_key-sorted_values n [] = refl
has_key-sorted_values n ((k, v) ∷ m) = ap (λ b. str_eq k n || b) (has_key-sorted_values n m)

-- A row of `n`, of a live subscription or of a dangling reference.
abbrev pub shows_as : Bool → String → SubscriptionSnapshot → Bool
shows_as true n row = row.resolvable && str_eq row.name n
shows_as false n row = not row.resolvable && str_eq row.name n

abbrev pub is_live : String → LiveSubscription → Bool
is_live n s = str_eq s.live_name n

live_rows-shown :
    (n : String) (live : List LiveSubscription) (m : Map (List String))
    → (any (shows_as true n) (live_rows live m).0 ≡ any (is_live n) live)
      × (any (shows_as false n) (live_rows live m).0 ≡ false)
      × (has_key n (live_rows live m).1 ≡ (not (any (is_live n) live) && has_key n m))
unfolding live_rows
live_rows-shown n [] m = (refl, refl, refl)
live_rows-shown n (s ∷ live) m =
    let (shown, dangling, left) = live_rows-shown n live (remove s.live_name m) in
    (
      ap (λ b. str_eq s.live_name n || b) shown,
      dangling,
      left
          ∙ ap (λ b. not (any (is_live n) live) && b) (has_key-remove n s.live_name m)
          ∙ taken (any (is_live n) live) (str_eq s.live_name n) (has_key n m),
    )
  where
    taken : (a b c : Bool) → (not a && (not b && c)) ≡ (not (b || a) && c)
    taken a b c = ground arith

any-dangling :
    (n : String) (m : Map (List String))
    → (any (shows_as true n) (map dangling_row m) ≡ false)
      × (any (shows_as false n) (map dangling_row m) ≡ has_key n m)
any-dangling n [] = (refl, refl)
any-dangling n ((k, v) ∷ m) =
    let (none_live, rest) = any-dangling n m in (none_live, ap (λ b. str_eq k n || b) rest)

-- A subscription has a resolvable row exactly if Resin lists it, and a dangling row exactly if Resin
-- does not list it and some platform refers to it.
pub merge_subscriptions-shows :
    (n : String) (live : List LiveSubscription) (refs : List (String × List String))
    → (any (shows_as true n) (merge_subscriptions live refs) ≡ any (is_live n) live)
      × (any (shows_as false n) (merge_subscriptions live refs)
          ≡ (not (any (is_live n) live) && any (is_referenced n) refs))
unfolding merge_subscriptions
merge_subscriptions-shows n live refs =
    let m = sorted_values (consumers refs []) in
    let (shown, no_dangling, left) = live_rows-shown n live m in
    let (none_live, dangling) = any-dangling n (live_rows live m).1 in
    let keys = has_key-sorted_values n (consumers refs []) ∙ has_key-consumers n refs [] in
    (
      parts (shows_as true n) live m
          ∙ ap₂ (λ a b. a || b) shown none_live
          ∙ or_false (any (is_live n) live),
      parts (shows_as false n) live m
          ∙ ap₂ (λ a b. a || b) no_dangling (dangling ∙ left)
          ∙ ap (λ b. not (any (is_live n) live) && b)
              (keys ∙ or_false (any (is_referenced n) refs)),
    )
  where
    or_false : (a : Bool) → (a || false) ≡ a
    or_false a = ground arith

    parts :
        (p : SubscriptionSnapshot → Bool) (live : List LiveSubscription) (m : Map (List String))
        → any p (sort_by by_name ((live_rows live m).0 ++ map dangling_row (live_rows live m).1))
          ≡ (any p (live_rows live m).0 || any p (map dangling_row (live_rows live m).1))
    parts p live m = any-sort_by p by_name _ ∙ any-append p (live_rows live m).0 _
