-- ===== src/DefaultPort.antt =====
-- crates/resin-core/src/subscription_pipeline.rs: the optional tail of a pass, which gives a new
-- platform an entry port, and the release of that port. The whitebox of ports, the Resin client,
-- the port table and the socket probes are an environment that answers by the calls made so far.
pub mod Suggestion
pub mod Undo
pub mod Rows
pub mod Targets
pub mod Release
mod Tests
use egress_apikey.Prelude.{
  ℕ, zero, suc, ◌+◌, ◌/◌, ◌%◌, Bool, true, false, not, ◌&&◌, ◌||◌, String, Option, none, some, List,
  [], ◌∷◌, ◌++◌, map, any, filter, filter_map, find, str_eq, ltb, leb, ◌==◌, if◌then◌else◌,
}
use Prim.Native.String
use egress_apikey.Prelude.Texts.{Text, codes, concat, decimal_text}
use egress_apikey.Prelude.Results.{Result, ok, err}
use egress_apikey.Prelude.SortBy.{sort_by}
use egress_apikey.Prelude.Json
use egress_apikey.Prelude.Json.{Json, bool, uint, str, obj, end, field, get, as_str, as_u64}
use egress_apikey.Snapshot.{PortMapping}
use egress_apikey.SubscriptionPipeline.{StepStatus, written, already_present, failed}
use egress_apikey.SubscriptionPipeline.Steps.{items_arr, is_text}

abbrev pub min_user_port : ℕ
min_user_port = 1024

abbrev pub default_entry_port_protocol : String
default_entry_port_protocol = "mixed"

unfoldable pub starts_with : Text → Text → Bool
starts_with [] s = true
starts_with (c ∷ cs) [] = false
starts_with (c ∷ cs) (d ∷ s) = (c == d) && starts_with cs s

-- `msg.contains(needle)`
unfoldable pub contains_text : Text → Text → Bool
unfolding starts_with
contains_text needle [] = starts_with needle []
contains_text needle (c ∷ s) = starts_with needle (c ∷ s) || contains_text needle s

abbrev pub is_taken : String → Bool
is_taken msg =
    contains_text (codes "409") (codes msg)
    || contains_text (codes "CONFLICT") (codes msg)
    || contains_text (codes "Only one usage") (codes msg)

-- The first candidate of a range that is not in use and can be bound.
unfoldable pub first_free : List ℕ → (ℕ → Bool) → ℕ → ℕ → Option ℕ
first_free used binds zero candidate = none
first_free used binds (suc left) candidate =
    elim (any (λ p. p == candidate) used || not (binds candidate)) [
      | true ↦ first_free used binds left (candidate + 1)
      | false ↦ some candidate
    ]

abbrev pub or_ephemeral : Option ℕ → Result ℕ → Result ℕ
or_ephemeral (some p) ephemeral = ok p
or_ephemeral none ephemeral = ephemeral

-- The candidates are 17990 to 65535; the system assigns a port when all are blocked.
unfoldable pub suggest_free_entry_port : Result (List ℕ) → (ℕ → Bool) → Result ℕ → Result ℕ
unfolding first_free
suggest_free_entry_port (err e) binds ephemeral = err e
suggest_free_entry_port (ok used) binds ephemeral =
    or_ephemeral (first_free used binds 47546 17990) ephemeral

abbrev pub to_u16 : ℕ → Option ℕ
to_u16 p = if leb p 65535 then some p else none

abbrev pub has_number : ℕ → Option ℕ → Bool
has_number port (some p) = p == port
has_number port none = false

module _ {Num : Type 0} where
  abbrev pub is_custom : Json Num → Bool
  is_custom ep = not (is_text "default" (Json.◌>>=◌ (get "id" ep) as_str))

  unfoldable pub custom_endpoint_ports : Json Num → List ℕ
  unfolding items_arr
  custom_endpoint_ports v =
      filter_map (λ ep. Json.◌>>=◌ (Json.◌>>=◌ (get "port" ep) as_u64) to_u16)
        (filter is_custom (items_arr v))

  -- The endpoint that the compensation may delete.
  abbrev pub is_target : ℕ → Json Num → Bool
  is_target port ep = is_custom ep && has_number port (Json.◌>>=◌ (get "port" ep) as_u64)

  abbrev pub id_of : Option (Json Num) → Option String
  id_of row = Json.◌>>=◌ (Json.◌>>=◌ row (get "id")) as_str

  -- The body of the created endpoint, in the order of its keys.
  abbrev pub endpoint_body : ℕ → Json Num
  endpoint_body port = obj (
      field "allow_http_forward" (bool true) (
        field "allow_http_reverse" (bool false) (
          field "allow_management" (bool false) (
            field "allow_proxy" (bool true) (
              field "allow_socks5" (bool true)
                (field "port" (uint port) (field "require_proxy_auth_info" (bool true) end)))))))

abbrev pub default_mapping : String → ℕ → PortMapping
default_mapping platform_name port = record {
  port = port;
  protocol = default_entry_port_protocol;
  platform_name = platform_name;
  account = concat ("port-" ∷ decimal_text port ∷ []);
  label = "";
  enabled = true;
  auth_required = true;
}

abbrev pub holds : List PortMapping → ℕ → Bool
holds rows port = any (λ (row : PortMapping). row.port == port) rows

abbrev pub bound_to : String → PortMapping → Bool
bound_to platform_name row = str_eq row.platform_name platform_name

abbrev pub with_default : String → ℕ → List PortMapping → List PortMapping
with_default platform_name port rows =
    sort_by (λ (a b : PortMapping). ltb a.port b.port)
      (rows ++ default_mapping platform_name port ∷ [])

pub data Call (Num : Type 0) : Type 0 where
  snapshot probe_ports list_endpoints : Call Num
  create_endpoint : ℕ → Json Num → Call Num
  delete_endpoint : String → Call Num
  apply_whitebox : List PortMapping → Call Num

abbrev pub Trace : Type 0 → Type 0
Trace Num = List (Call Num)

-- The answers to the call that heads the trace; whether the shell owns the listeners is fixed.
pub record Api (Num : Type 0) : Type 0 where
  pub entry_ports : Trace Num → List PortMapping
  pub used : Trace Num → Result (List ℕ)
  pub binds : Trace Num → ℕ → Bool
  pub ephemeral : Trace Num → Result ℕ
  pub endpoints : Trace Num → Result (Json Num)
  pub endpoint_created : Trace Num → Result Unit
  pub endpoint_deleted : Trace Num → Result Unit
  pub applied : Trace Num → Result Unit
  pub is_shell : Bool

abbrev pub Run : Type 0 → Type 0 → Type 0
Run Num A = Trace Num → A × Trace Num

module _ {Num : Type 0} where
  abbrev pub pure : {A : Type 0} → A → Run Num A
  pure a t = (a, t)

  abbrev pub ask : {A : Type 0} → Call Num → (Trace Num → A) → Run Num A
  ask c answer t = (answer (c ∷ t), c ∷ t)

infixl 5 ◌>>=◌ ◌>>◌
abbrev pub ◌>>=◌ : {Num A B : Type 0} → Run Num A → (A → Run Num B) → Run Num B
(m >>= f) t = f (m t).0 (m t).1

abbrev pub ◌>>◌ : {Num A B : Type 0} → Run Num A → Run Num B → Run Num B
(m >> n) t = n (m t).1

pub data Choice : Type 0 where
  skip : Choice
  port : ℕ → Choice
  refused : String → Choice

abbrev pub chosen : Result ℕ → Choice
chosen (ok p) = port p
chosen (err e) = refused e

module _ {Num : Type 0} (api : Api Num) where
  -- (g) What undoes the endpoint of this pass.
  abbrev pub delete_found : Option String → Run Num Unit
  delete_found none = pure tt
  delete_found (some id) = do ask (delete_endpoint id) api.endpoint_deleted; pure tt

  abbrev pub undo : ℕ → Result (Json Num) → Run Num Unit
  undo p (err e) = pure tt
  undo p (ok live) = delete_found (id_of (find (is_target p) (items_arr live)))

  abbrev pub undo_created : ℕ → Bool → Run Num Unit
  undo_created p false = pure tt
  undo_created p true = do live ← ask list_endpoints api.endpoints; undo p live

  abbrev pub settle : ℕ → Bool → Result Unit → Run Num StepStatus
  settle p created (ok _) = pure written
  settle p created (err e) = do
    undo_created p created
    pure (failed (concat ("whitebox store: " ∷ e ∷ [])))

  -- (f) The row, unless one landed meanwhile.
  abbrev pub land : String → ℕ → Bool → Run Num StepStatus
  land platform_name p created = do
    rows ← ask snapshot api.entry_ports
    if holds rows p then pure already_present else do
      stored ← ask (apply_whitebox (with_default platform_name p rows)) api.applied
      settle p created stored

  -- (e) The listener, where the engine owns it.
  abbrev pub after_create : String → ℕ → Result Unit → Run Num StepStatus
  after_create platform_name p (ok _) = land platform_name p true
  after_create platform_name p (err msg) =
      pure
        (if is_taken msg then already_present else failed (concat ("create endpoint: " ∷ msg ∷ [])))

  abbrev pub create : String → ℕ → Bool → Run Num StepStatus
  create platform_name p true = land platform_name p false
  create platform_name p false = do
    created ← ask (create_endpoint p (endpoint_body p)) api.endpoint_created
    after_create platform_name p created

  -- (d) A listener that Resin has is left alone.
  abbrev pub after_endpoints : String → ℕ → Result (Json Num) → Run Num StepStatus
  after_endpoints platform_name p (err e) = pure (failed (concat ("list endpoints: " ∷ e ∷ [])))
  after_endpoints platform_name p (ok live) =
      if any (λ q. q == p) (custom_endpoint_ports live)
      then pure already_present
      else create platform_name p api.is_shell

  -- (c) A port of another platform is left alone.
  abbrev pub after_choice : String → List PortMapping → Choice → Run Num StepStatus
  after_choice platform_name rows skip = pure already_present
  after_choice platform_name rows (refused e) =
      pure (failed (concat ("suggest default port: " ∷ e ∷ [])))
  after_choice platform_name rows (port p) =
      if holds rows p
      then pure already_present
      else do live ← ask list_endpoints api.endpoints; after_endpoints platform_name p live

  -- (b) The candidate: the user's, or a suggested one.
  abbrev pub choose : Option ℕ → Run Num Choice
  choose (some p) = pure (if ltb p min_user_port then skip else port p)
  choose none =
      ask probe_ports
        (λ t. chosen (suggest_free_entry_port (api.used t) (api.binds t) (api.ephemeral t)))

  -- (a) A platform that has a port keeps it.
  unfoldable pub ensure_default_port : String → Option ℕ → Run Num StepStatus
  unfolding contains_text suggest_free_entry_port decimal_text custom_endpoint_ports sort_by concat
  ensure_default_port platform_name user_port = do
    rows ← ask snapshot api.entry_ports
    if any (bound_to platform_name) rows
        then pure already_present
        else do choice ← choose user_port; after_choice platform_name rows choice
