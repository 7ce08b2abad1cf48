-- ===== src/DefaultPort/Tests.antt =====
-- A store that refuses the row, so that the created endpoint is undone, and a port table.
use egress_apikey.Prelude.{
  ℕ, ◌≡◌, ◌≤◌, refl, ◌⊎◌, true, false, String, none, some, List, [], ◌∷◌, any, ◌==◌,
}
use egress_apikey.Prelude.Texts.{decimal_text}
use egress_apikey.Prelude.Results.{Result, ok, err}
use egress_apikey.Prelude.Json.{Json, str, uint, arr, obj, nil, cons, end, field}
use egress_apikey.SubscriptionPipeline.{written}
use egress_apikey.DefaultPort.{
  Api, ensure_default_port, suggest_free_entry_port, is_taken, contains_text, default_mapping,
  delete_endpoint, list_endpoints, apply_whitebox, snapshot,
}
use egress_apikey.DefaultPort.Undo.{deleted, created, UndoesOwn, ensure_default_port-UndoesOwn}
use egress_apikey.DefaultPort.Release.{
  Released, remove_default_port_if_orphaned, remove_default_port_if_orphaned-releases,
}
use egress_apikey.DefaultPort.Suggestion.{suggest_free_entry_port_sound}

abbrev endpoint : String → ℕ → Json ℕ
endpoint id port = obj (field "id" (str id) (field "port" (uint port) end))

abbrev listed : List ℕ → Json ℕ
listed [] = arr (cons (endpoint "default" 2260) nil)
listed (p ∷ ps) = arr (cons (endpoint "default" 2260) (cons (endpoint "9" p) nil))

abbrev api : Result Unit → Api ℕ
api applied = record {
  entry_ports = λ _. [];
  used = λ _. ok (17990 ∷ []);
  binds = λ _ _. true;
  ephemeral = λ _. err "none";
  endpoints = λ t. ok (listed (created (λ _. ok tt) t));
  endpoint_created = λ _. ok tt;
  endpoint_deleted = λ _. ok tt;
  applied = λ _. applied;
  is_shell = false;
}

undone_test : deleted (ensure_default_port (api (err "disk full")) "p" none []).1 ≡ "9" ∷ []
unfolding ensure_default_port
undone_test = refl

written_test : (ensure_default_port (api (ok tt)) "p" (some 18000) []).0 ≡ written
unfolding ensure_default_port
written_test = refl

numeral_test : decimal_text 17991 ≡ "17991"
unfolding decimal_text
numeral_test = refl

taken_test : is_taken "HTTP 409: conflict" ≡ true
unfolding contains_text
taken_test = refl

ensure_default_port-UndoesOwn_example :
    UndoesOwn (api (err "disk full")) (ensure_default_port (api (err "disk full")) "p" none []) []
ensure_default_port-UndoesOwn_example =
    ensure_default_port-UndoesOwn (api (err "disk full")) "p" none []

abbrev no_port : Result ℕ
no_port = err "none"

suggest_free_entry_port_sound_example :
    ((17990 ≤ 17991)
      × (17991 ≤ 65535)
      × (any (λ q. q == 17991) (17990 ∷ []) ≡ false)
      × (true ≡ true))
    ⊎ (no_port ≡ ok 17991)
unfolding suggest_free_entry_port
suggest_free_entry_port_sound_example =
    suggest_free_entry_port_sound (17990 ∷ []) (λ _. true) no_port refl

-- The platform `p` on 17990, which the engine lists as "9".
abbrev bound_api : Api ℕ
bound_api = record (api (ok tt)) {
  entry_ports = λ _. default_mapping "p" 17990 ∷ [];
  endpoints = λ _. ok (listed (17990 ∷ []));
}

released_test :
    (remove_default_port_if_orphaned bound_api "p" []).1
    ≡ delete_endpoint "9" ∷ list_endpoints ∷ apply_whitebox [] ∷ snapshot ∷ []
unfolding remove_default_port_if_orphaned
released_test = refl

remove_default_port_if_orphaned-releases_example :
    Released bound_api "p"
      (default_mapping "p" 17990 ∷ [])
      (17990 ∷ [])
      (remove_default_port_if_orphaned bound_api "p" []).1
      (snapshot ∷ [])
remove_default_port_if_orphaned-releases_example =
    remove_default_port_if_orphaned-releases bound_api "p" []
