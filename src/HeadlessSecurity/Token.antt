-- ===== src/HeadlessSecurity/Token.antt =====
-- The token of the process in headless_security.rs, and how a client keeps it.
use egress_apikey.Prelude.{
  ◌≡◌, refl, sym, ap, ◌∙◌, Bool, true, false, Option, none, some, ◌∷◌, ◌++◌, all, List, All,
  if◌then◌else◌,
}
use mathlib.Core.Bool.{false≢true}
use egress_apikey.Prelude.Texts.{Text, trim, is_whitespace}
use egress_apikey.Prelude.Results.{Result, ok, err}
use egress_apikey.HeadlessSecurity.{
  is_empty, IpAddr, ResolvedToken, provided, generated, Resolution, resolved, blank_token,
  exposed_bind, bind, filled, tagged, or_else, query_param, token_query, extract_token,
  token_cookie_name, resolve_token, is_loopback_bind, generate,
}
use egress_apikey.HeadlessSecurity.Cookies.{
  is_token_char, pair_of, ended, IsOther, glued, cookie_value-token, cookie_value-glued,
}

module _ (parse_ip : Text → Option IpAddr) (entropy : Result Text) where
  -- What a process that starts has: the trimmed token of the operator, or else the entropy.
  abbrev pub Starts : Option Text → ResolvedToken → Type 0
  Starts none r = (entropy ≡ ok r.token) × (r.source ≡ generated)
  Starts (some cli) r = (r.token ≡ trim cli) × (is_empty r.token ≡ false) × (r.source ≡ provided)

  from_entropy :
      (local : Bool) (bind : Text) {r : ResolvedToken}
      → ◌≡◌ {A = Resolution}
          (if local then generate parse_ip entropy entropy else exposed_bind bind)
          (resolved r)
      → (local ≡ true) × Starts none r
  from_entropy true bind h = answered entropy h
    where
      answered :
          (e : Result Text) {r : ResolvedToken}
          → generate parse_ip entropy e ≡ resolved r
          → (true ≡ true) × ((e ≡ ok r.token) × (r.source ≡ generated))
      answered (ok token) k = (refl, (cc, cc))
      answered (err e) k = cc
  from_entropy false bind h = cc

  from_operator :
      (blank : Bool) (cli : Text) {r : ResolvedToken}
      → is_empty (trim cli) ≡ blank
      → ◌≡◌ {A = Resolution}
          (if blank then blank_token else resolved (record { token = trim cli; source = provided }))
          (resolved r)
      → Starts (some cli) r
  from_operator true cli e h = cc
  from_operator false cli {r} e h =
      let same : trim cli ≡ r.token = cc in
      let from : provided ≡ r.source = cc in (sym same, ap is_empty (sym same) ∙ e, sym from)

  -- Where the process starts, its token is the operator's, trimmed and not empty, or, without one, the
  -- entropy of the system; and without one it is bound to a loopback address.
  pub resolve_token-Starts :
      (cli : Option Text) (bind : Text) {r : ResolvedToken}
      → resolve_token parse_ip entropy cli bind ≡ resolved r
      → Starts cli r × (is_loopback_bind parse_ip bind ≡ false → r.source ≡ provided)
  unfolding resolve_token
  resolve_token-Starts (some cli) bind h =
      let starts = from_operator (is_empty (trim cli)) cli refl h in (starts, λ _. starts.2)
  resolve_token-Starts none bind h =
      let (local, starts) = from_entropy (is_loopback_bind parse_ip bind) bind h in
      (starts, λ other. absurd (false≢true (sym other ∙ local)))

-- A token that is not empty, without white space and semicolons, is the one that the next request is
-- judged by where the session cookie carries it as the `Set-Cookie` value has it and there is no
-- `Authorization`. Other cookies may stand before it, parts without a semicolon that have no value
-- under the session's name, and white space; the header ends after it, or a semicolon and anything
-- follow; and the query may hold anything.
pub extract_token-cookie :
    (before : List Text) (gap token : Text) (tail query : Option Text)
    → All IsOther before
    → all is_whitespace gap ≡ true
    → all is_token_char token ≡ true
    → is_empty token ≡ false
    → extract_token none
        (some (glued before ((gap ++ (token_cookie_name ++ (b'=' ∷ token))) ++ ended tail)))
        query
      ≡ some (token, false)
unfolding extract_token pair_of
extract_token-cookie before gap token tail query others blank h not_empty =
    let later = tagged true (bind (bind query (λ q. query_param q token_query)) filled) in
    ap (λ o. or_else (tagged false (bind o filled)) later)
      (cookie_value-glued before ((gap ++ pair_of token) ++ ended tail) others
        ∙ cookie_value-token gap token tail blank h)
    ∙ rw not_empty refl
