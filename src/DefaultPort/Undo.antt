-- ===== src/DefaultPort/Undo.antt =====
-- What the default-port step creates and deletes on Resin.
use egress_apikey.Prelude.{
  ℕ, ◌≡◌, refl, ap, ◌∙◌, Bool, true, false, ◌⊎◌, inl, inr, String, Option, none, some, List, [],
  ◌∷◌, any, find, ◌==◌, if_elim, if◌then◌else◌, ltb,
}
use mathlib.Core.Bool.{false≢true}
use egress_apikey.Prelude.Results.{Result, ok, err}
use egress_apikey.Prelude.Json.{Json}
use egress_apikey.Snapshot.{PortMapping}
use egress_apikey.SubscriptionPipeline.{StepStatus, failed}
use egress_apikey.SubscriptionPipeline.Steps.{items_arr}
use egress_apikey.DefaultPort.{
  Trace, Api, Run, Choice, skip, port, refused, create_endpoint, delete_endpoint, snapshot,
  list_endpoints, apply_whitebox, probe_ports, custom_endpoint_ports, is_target, id_of, holds,
  bound_to, with_default, delete_found, undo, settle, land, after_create, create, after_endpoints,
  after_choice, choose, ensure_default_port, endpoint_body, min_user_port,
}

-- A create call counts if it was answered with success.
abbrev pub counted : Result Unit → ℕ → List ℕ → List ℕ
counted (ok _) p ps = p ∷ ps
counted (err e) p ps = ps

module _ {Num : Type 0} where
  -- The ports of the endpoints created, by the create calls that were answered with success, and the
  -- ids of the endpoints deleted, the last one first.
  abbrev pub created : (Trace Num → Result Unit) → Trace Num → List ℕ
  created answer [] = []
  created answer (create_endpoint p body ∷ t) =
      counted (answer (create_endpoint p body ∷ t)) p (created answer t)
  created answer (_ ∷ t) = created answer t

  abbrev pub deleted : Trace Num → List String
  deleted [] = []
  deleted (delete_endpoint id ∷ t) = id ∷ deleted t
  deleted (_ ∷ t) = deleted t

  module _ (api : Api Num) where
    -- The last two calls are a list of endpoints and the one deletion, of the id that this list has
    -- for the first custom endpoint on port `p`.
    abbrev pub Undone : ℕ → Trace Num → Trace Num → Type 0
    Undone p after t =
        (id : String) × (u : Trace Num) × (live : Json Num) × (row : Json Num) × (after
          ≡ delete_endpoint id ∷ list_endpoints ∷ u)
        × (deleted u ≡ deleted t)
        × (api.endpoints (list_endpoints ∷ u) ≡ ok live)
        × (find (is_target p) (items_arr live) ≡ some row)
        × (id_of (some row) ≡ some id)

    abbrev made_by : Trace Num → List ℕ
    made_by t = created api.endpoint_created t

    abbrev Keeps : ℕ → Trace Num → Trace Num → Type 0
    Keeps p after t = (made_by after ≡ made_by t) × ((deleted after ≡ deleted t) ⊎ Undone p after t)

    undo_row :
        (p : ℕ) (live row : Json Num) (o : Option String) (u : Trace Num)
        → api.endpoints (list_endpoints ∷ u) ≡ ok live
        → find (is_target p) (items_arr live) ≡ some row
        → id_of (some row) ≡ o
        → Keeps p (delete_found api o (list_endpoints ∷ u)).1 u
    undo_row p live row none u e f g = (refl, inl refl)
    undo_row p live row (some id) u e f g = (refl, inr (id, u, live, row, refl, refl, e, f, g))

    undo_found :
        (p : ℕ) (live : Json Num) (o : Option (Json Num)) (u : Trace Num)
        → api.endpoints (list_endpoints ∷ u) ≡ ok live
        → find (is_target p) (items_arr live) ≡ o
        → Keeps p (delete_found api (id_of o) (list_endpoints ∷ u)).1 u
    undo_found p live none u e f = (refl, inl refl)
    undo_found p live (some row) u e f = undo_row p live row (id_of (some row)) u e f refl

    undo-Keeps :
        (p : ℕ) (r : Result (Json Num)) (u : Trace Num)
        → api.endpoints (list_endpoints ∷ u) ≡ r
        → Keeps p (undo api p r (list_endpoints ∷ u)).1 u
    undo-Keeps p (err e) u h = (refl, inl refl)
    undo-Keeps p (ok live) u h = undo_found p live (find (is_target p) (items_arr live)) u h refl

    -- Nothing is deleted, or a failed store is followed by undoing the endpoint of this pass.
    abbrev Settles : ℕ → Bool → StepStatus × Trace Num → Trace Num → Type 0
    Settles p made result t =
        (made_by result.1 ≡ made_by t)
        × ((deleted result.1 ≡ deleted t)
            ⊎ ((made ≡ true)
                × (reason : String) × (result.0 ≡ failed reason)
                × Undone p result.1 t))

    failing :
        (p : ℕ) (reason : String) (after t : Trace Num)
        → Keeps p after t
        → Settles p true (failed reason, after) t
    failing p reason after t (c, inl k) = (c, inl k)
    failing p reason after t (c, inr k) = (c, inr (refl, reason, refl, k))

    settle-Settles :
        (p : ℕ) (made : Bool) (stored : Result Unit) (t : Trace Num)
        → Settles p made (settle api p made stored t) t
    settle-Settles p made (ok _) t = (refl, inl refl)
    settle-Settles p false (err e) t = (refl, inl refl)
    settle-Settles p true (err e) t =
        let u = list_endpoints ∷ t in
        failing p _ (undo api p (api.endpoints u) u).1 t (undo-Keeps p (api.endpoints u) t refl)

    land-Settles :
        (platform_name : String) (p : ℕ) (made : Bool) (t : Trace Num)
        → Settles p made (land api platform_name p made t) t
    land-Settles platform_name p made t =
        let rows = api.entry_ports (snapshot ∷ t) in
        let u = apply_whitebox (with_default platform_name p rows) ∷ snapshot ∷ t in
        if_elim (λ (m : Run Num StepStatus). Settles p made (m (snapshot ∷ t)) t) (holds rows p)
          (λ _. (refl, inl refl)) (λ _. settle-Settles p made (api.applied u) u)

    -- Nothing is deleted, or exactly the endpoint that this pass created is, after the store failed.
    abbrev pub UndoesOwn : StepStatus × Trace Num → Trace Num → Type 0
    UndoesOwn result t =
        (deleted result.1 ≡ deleted t)
        ⊎ ((p : ℕ) × (reason : String) × (created api.endpoint_created result.1
              ≡ p ∷ created api.endpoint_created t)
            × (result.0 ≡ failed reason)
            × Undone p result.1 t)

    without_engine :
        (p : ℕ) (result : StepStatus × Trace Num) (t : Trace Num)
        → Settles p false result t
        → UndoesOwn result t
    without_engine p result t (c, inl k) = inl k
    without_engine p result t (c, inr (made, reason, f, k)) = absurd (false≢true made)

    with_engine :
        (p : ℕ) (result : StepStatus × Trace Num) (t : Trace Num)
        → api.endpoint_created (create_endpoint p (endpoint_body p) ∷ t) ≡ ok tt
        → Settles p true result (create_endpoint p (endpoint_body p) ∷ t)
        → UndoesOwn result t
    with_engine p result t h (c, inl k) = inl k
    with_engine p result t h (c, inr (made, reason, f, k)) =
        inr (p, reason, c ∙ ap (λ r. counted r p (made_by t)) h, f, k)

    after_create-own :
        (platform_name : String) (p : ℕ) (r : Result Unit) (t : Trace Num)
        → api.endpoint_created (create_endpoint p (endpoint_body p) ∷ t) ≡ r
        → UndoesOwn (after_create api platform_name p r (create_endpoint p (endpoint_body p) ∷ t)) t
    after_create-own platform_name p (ok tt) t h =
        let u = create_endpoint p (endpoint_body p) ∷ t in
        with_engine p (land api platform_name p true u) t h (land-Settles platform_name p true u)
    after_create-own platform_name p (err e) t h = inl refl

    create-own :
        (platform_name : String) (p : ℕ) (shell : Bool) (t : Trace Num)
        → UndoesOwn (create api platform_name p shell t) t
    create-own platform_name p true t =
        without_engine p (land api platform_name p false t) t (land-Settles platform_name p false t)
    create-own platform_name p false t =
        after_create-own platform_name p
          (api.endpoint_created (create_endpoint p (endpoint_body p) ∷ t)) t refl

    after_endpoints-own :
        (platform_name : String) (p : ℕ) (r : Result (Json Num)) (t : Trace Num)
        → UndoesOwn (after_endpoints api platform_name p r t) t
    after_endpoints-own platform_name p (err e) t = inl refl
    after_endpoints-own platform_name p (ok live) t =
        if_elim (λ (m : Run Num StepStatus). UndoesOwn (m t) t)
          (any (λ q. q == p) (custom_endpoint_ports live)) (λ _. inl refl)
          (λ _. create-own platform_name p api.is_shell t)

    after_choice-own :
        (platform_name : String) (rows : List PortMapping) (choice : Choice) (t : Trace Num)
        → UndoesOwn (after_choice api platform_name rows choice t) t
    after_choice-own platform_name rows skip t = inl refl
    after_choice-own platform_name rows (refused e) t = inl refl
    after_choice-own platform_name rows (port p) t =
        if_elim (λ (m : Run Num StepStatus). UndoesOwn (m t) t) (holds rows p) (λ _. inl refl)
          (λ _.
            after_endpoints-own platform_name p (api.endpoints (list_endpoints ∷ t))
              (list_endpoints ∷ t))

    chosen-own :
        (platform_name : String) (rows : List PortMapping) (user_port : Option ℕ) (t : Trace Num)
        → UndoesOwn
            (after_choice api platform_name rows
              (choose api user_port t).0
              (choose api user_port t).1)
            t
    chosen-own platform_name rows (some p) t =
        after_choice-own platform_name rows (if ltb p min_user_port then skip else port p) t
    chosen-own platform_name rows none t =
        after_choice-own platform_name rows (choose api none t).0 (probe_ports ∷ t)

    -- The step deletes no endpoint, or exactly one. Then exactly one create call of this step was
    -- answered with success, the step failed, its last two calls are a list of endpoints and the
    -- deletion, and the id deleted is the one that this list gives to the first endpoint on the port
    -- created other than the default one.
    pub ensure_default_port-UndoesOwn :
        (platform_name : String) (user_port : Option ℕ) (t : Trace Num)
        → UndoesOwn (ensure_default_port api platform_name user_port t) t
    unfolding ensure_default_port
    ensure_default_port-UndoesOwn platform_name user_port t =
        let rows = api.entry_ports (snapshot ∷ t) in
        if_elim (λ (m : Run Num StepStatus). UndoesOwn (m (snapshot ∷ t)) t)
          (any (bound_to platform_name) rows) (λ _. inl refl)
          (λ _. chosen-own platform_name rows user_port (snapshot ∷ t))
