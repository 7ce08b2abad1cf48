-- ===== src/DefaultPort/Release.antt =====
-- crates/resin-core/src/subscription_pipeline.rs: the reverse tail, which releases the ports of a
-- removed subscription's platform: the document first, the engine's endpoints after.
use egress_apikey.Prelude.{
  ℕ, ◌≡◌, refl, sym, ◌∙◌, Bool, true, false, ◌⊎◌, inl, inr, String, List, [], ◌∷◌, ◌++◌, map,
}
use mathlib.Core.List.{reverse, reverse-cons, append_assoc}
use egress_apikey.Prelude.Results.{Result, ok, err}
use egress_apikey.Prelude.Json.{Json}
use egress_apikey.Snapshot.{PortMapping}
use egress_apikey.DefaultPort.{
  Trace, Api, Run, pure, ask, ◌>>=◌, ◌>>◌, snapshot, list_endpoints, delete_endpoint,
  apply_whitebox,
}
use egress_apikey.DefaultPort.Rows.{bound_ports, without_bound, IsWithout, without_bound-IsWithout}
use egress_apikey.DefaultPort.Targets.{targets, Hits, targets-Hits}

module _ {Num : Type 0} (api : Api Num) where
  -- A failed deletion is only logged.
  unfoldable pub delete_all : List (String × ℕ) → Run Num Unit
  delete_all [] = pure tt
  delete_all ((id, p) ∷ rest) = do ask (delete_endpoint id) api.endpoint_deleted; delete_all rest

  abbrev pub delete_listed : List ℕ → Result (Json Num) → Run Num Bool
  delete_listed bound (err e) = pure true
  delete_listed bound (ok live) = do delete_all (targets bound live); pure true

  abbrev pub engine_release : List ℕ → Bool → Run Num Bool
  engine_release bound true = pure true
  engine_release bound false = do live ← ask list_endpoints api.endpoints; delete_listed bound live

  abbrev pub after_release : List ℕ → Result Unit → Run Num Bool
  after_release bound (err e) = pure false
  after_release bound (ok _) = engine_release bound api.is_shell

  abbrev pub release_bound : String → List PortMapping → List ℕ → Run Num Bool
  release_bound platform_name rows [] = pure true
  release_bound platform_name rows (p ∷ ports) = do
    stored ← ask (apply_whitebox (without_bound platform_name rows)) api.applied
    after_release (p ∷ ports) stored

  unfoldable pub remove_default_port_if_orphaned : String → Run Num Bool
  unfolding delete_all targets
  remove_default_port_if_orphaned platform_name = do
    rows ← ask snapshot api.entry_ports
    release_bound platform_name rows (bound_ports platform_name rows)

  -- The deletions of a list of endpoints, the last one first.
  abbrev pub deletions : List (String × ℕ) → Trace Num
  deletions l = reverse (map (λ (e : String × ℕ). delete_endpoint e.0) l)

  delete_all-deletions :
      (l : List (String × ℕ)) (t : Trace Num) → (delete_all l t).1 ≡ deletions l ++ t
  unfolding delete_all
  delete_all-deletions [] t = refl
  delete_all-deletions ((id, p) ∷ rest) t =
      delete_all-deletions rest (delete_endpoint id ∷ t)
      ∙ sym (rw reverse-cons (append_assoc (deletions rest) (delete_endpoint id ∷ []) t))

  -- How a release goes on once `stored` was given to the store.
  abbrev pub GoesOn : List ℕ → List PortMapping → Trace Num → Trace Num → Type 0
  GoesOn bound stored after t =
      let v = apply_whitebox stored ∷ t in
      let u = list_endpoints ∷ v in
      ((e : String) × (api.applied v ≡ err e) × (after ≡ v))
      ⊎ ((api.applied v ≡ ok tt) × (api.is_shell ≡ true) × (after ≡ v))
      ⊎ ((api.applied v ≡ ok tt)
          × (api.is_shell ≡ false)
          × ((e : String) × (api.endpoints u ≡ err e))
          × (after ≡ u))
      ⊎ ((api.applied v ≡ ok tt)
          × (api.is_shell ≡ false)
          × ((live : Json Num) × (l : List (String × ℕ)) × (api.endpoints u ≡ ok live)
              × Hits bound live l
              × (after ≡ deletions l ++ u)))

  delete_listed-GoesOn :
      (bound : List ℕ) (stored : List PortMapping) (r : Result (Json Num)) (t : Trace Num)
      → (let v = apply_whitebox stored ∷ t in
          (api.applied v ≡ ok tt)
          → api.is_shell ≡ false
          → api.endpoints (list_endpoints ∷ v) ≡ r
          → GoesOn bound stored (delete_listed bound r (list_endpoints ∷ v)).1 t)
  delete_listed-GoesOn bound stored (err e) t s k h = inr (inr (inl (s, k, (e, h), refl)))
  delete_listed-GoesOn bound stored (ok live) t s k h =
      let l = targets bound live in
      let called = delete_all-deletions l (list_endpoints ∷ apply_whitebox stored ∷ t) in
      inr (inr (inr (s, k, (live, l, h, targets-Hits bound live, called))))

  engine_release-GoesOn :
      (bound : List ℕ) (stored : List PortMapping) (shell : Bool) (t : Trace Num)
      → (let v = apply_whitebox stored ∷ t in
          (api.applied v ≡ ok tt)
          → api.is_shell ≡ shell
          → GoesOn bound stored (engine_release bound shell v).1 t)
  engine_release-GoesOn bound stored true t s k = inr (inl (s, k, refl))
  engine_release-GoesOn bound stored false t s k =
      delete_listed-GoesOn bound stored (api.endpoints (list_endpoints ∷ apply_whitebox stored ∷ t))
        t s k refl

  after_release-GoesOn :
      (bound : List ℕ) (stored : List PortMapping) (r : Result Unit) (t : Trace Num)
      → (let v = apply_whitebox stored ∷ t in
          (api.applied v ≡ r) → GoesOn bound stored (after_release bound r v).1 t)
  after_release-GoesOn bound stored (err e) t s = inl (e, s, refl)
  after_release-GoesOn bound stored (ok tt) t s =
      engine_release-GoesOn bound stored api.is_shell t s refl

  -- Nothing to release, or the way through the store and the engine.
  abbrev pub Released : String → List PortMapping → List ℕ → Trace Num → Trace Num → Type 0
  Released platform_name rows bound after t =
      ((bound ≡ []) × (after ≡ t))
      ⊎ ((stored : List PortMapping) × IsWithout platform_name rows stored
          × GoesOn bound stored after t)

  release_bound-Released :
      (platform_name : String) (rows : List PortMapping) (bound : List ℕ) (t : Trace Num)
      → Released platform_name rows bound (release_bound platform_name rows bound t).1 t
  release_bound-Released platform_name rows [] t = inl (refl, refl)
  release_bound-Released platform_name rows (p ∷ ports) t =
      let stored = without_bound platform_name rows in
      let on =
        after_release-GoesOn (p ∷ ports) stored (api.applied (apply_whitebox stored ∷ t)) t refl in
      inr (stored, without_bound-IsWithout platform_name rows, on)

  -- The calls of a release, after the snapshot of the rows. Where the platform has no port there is no
  -- other. Else a document is given to the store that has no row of this platform and, for every
  -- other platform, all its rows in their order. If the store refuses it, or if the shell owns the
  -- listeners, or if the endpoints cannot be listed, nothing is deleted. Else there is one deletion
  -- call after the other, and they hit exactly the ids that the list just read has for endpoints
  -- other than the default one on a port that the platform had.
  pub remove_default_port_if_orphaned-releases :
      (platform_name : String) (t : Trace Num)
      → (let rows = api.entry_ports (snapshot ∷ t) in
          Released platform_name rows
            (bound_ports platform_name rows)
            (remove_default_port_if_orphaned platform_name t).1
            (snapshot ∷ t))
  unfolding remove_default_port_if_orphaned
  remove_default_port_if_orphaned-releases platform_name t =
      let rows = api.entry_ports (snapshot ∷ t) in
      release_bound-Released platform_name rows (bound_ports platform_name rows) (snapshot ∷ t)
