-- ===== src/HeadlessSecurity/Guard.antt =====
-- What the guard of the headless server lets through.
use egress_apikey.Prelude.{
  ◌≡◌, refl, sym, ap, ◌∙◌, Bool, true, false, not, ◌&&◌, ◌||◌, ◌⊎◌, inl, inr, Option, none, some,
  List, [], ◌∷◌, ◌++◌, any, if◌then◌else◌, arith, Bool-cases,
}
use mathlib.Core.Path.{subst, ap₂}
use egress_apikey.Prelude.Texts.{Text, codes, trim, text_eq, text_eq_iff}
use egress_apikey.HeadlessSecurity.{
  is_empty, lower, has, hostname_of, Rejection, missing_host, unexpected_host, origin_rejection,
  host_name, host_allowed, extract_token, HeadlessGuard, token_matches, constant_time_eq, Request,
  unauthorized, served, is_gated, trusted_forwarded_https, is_https, last_segment, serve, on_token,
  on_host, security_guard, IpAddr, push_unique, push_all, with_ip, allowed_hosts, unbracketed,
}
use egress_apikey.HeadlessSecurity.Compare.{constant_time_eq_iff}

-- An absent or blank `Origin` says nothing; another one names an allowed host.
abbrev pub OriginFits : List Text → Option Text → Type 0
OriginFits allowed none = Unit
OriginFits allowed (some origin) =
    (is_empty (trim origin) ≡ true) ⊎ (has (hostname_of origin) allowed ≡ true)

-- Where the path is gated, the token that the request carries first is that of the process, and the
-- cookie is set if it came in the query; elsewhere no cookie is set.
abbrev pub TokenFits : HeadlessGuard → Request → Bool → Bool → Type 0
TokenFits guard req true plant =
    extract_token req.authorization req.cookie req.query ≡ some (guard.token, plant)
TokenFits guard req false plant = plant ≡ false

cases_of :
    (blank known : Bool) (r : Rejection)
    → ◌≡◌ {A = Option Rejection} (if blank then none else if known then none else some r) none
    → (blank ≡ true) ⊎ (known ≡ true)
cases_of true known r h = inl refl
cases_of false true r h = inr refl
cases_of false false r h = cc

origin_rejection-OriginFits :
    (allowed : List Text) (origin : Option Text)
    → origin_rejection allowed origin ≡ none
    → OriginFits allowed origin
origin_rejection-OriginFits allowed none h = tt
origin_rejection-OriginFits allowed (some origin) h =
    cases_of (is_empty (trim origin)) (has (hostname_of origin) allowed) _ h

named :
    (blank known : Bool) (r r' : Rejection) (later : Option Rejection)
    → (if blank then some r else if known then later else some r') ≡ none
    → (blank ≡ false) × (known ≡ true) × (later ≡ none)
named true known r r' later h = cc
named false true r r' later h = (refl, refl, h)
named false false r r' later h = cc

on_token-served :
    (guard : HeadlessGuard) (relayed : Bool) (req : Request) (o : Option (Text × Bool))
    {plant secure : Bool}
    → on_token guard relayed req o ≡ served plant secure
    → (o ≡ some (guard.token, plant)) × (serve relayed req plant ≡ served plant secure)
unfolding token_matches
on_token-served guard relayed req none h = cc
on_token-served guard relayed req (some (candidate, from_query)) {plant} {secure} h =
    matched (constant_time_eq guard.token candidate) refl h
  where
    matched :
        (b : Bool)
        → constant_time_eq guard.token candidate ≡ b
        → (if b then serve relayed req from_query else unauthorized) ≡ served plant secure
        → (◌≡◌ {A = Option (Text × Bool)}
            (some (candidate, from_query))
            (some (guard.token, plant)))
          × (serve relayed req plant ≡ served plant secure)
    matched true e k =
        let same = (constant_time_eq_iff guard.token candidate).0 e in
        let same_plant : from_query ≡ plant = cc in
        (
          ap₂ (λ c b. some (c, b)) (sym same) same_plant,
          subst (λ b. serve relayed req b ≡ served plant secure) same_plant k,
        )
    matched false e k = cc

secured :
    (plant relayed https : Bool)
    → (plant && (if relayed then https else false)) ≡ true
    → (plant ≡ true) × (relayed ≡ true)
secured plant relayed https h = ground arith

serve-secure :
    (relayed : Bool) (req : Request) (plant : Bool) {plant' secure : Bool}
    → serve relayed req plant ≡ served plant' secure
    → (plant ≡ plant') × (secure ≡ true → (plant' ≡ true) × (relayed ≡ true))
unfolding trusted_forwarded_https
serve-secure relayed req plant {plant'} {secure} h =
    let same : plant ≡ plant' = cc in
    let flag : (plant && trusted_forwarded_https relayed req.forwarded_proto) ≡ secure = cc in
    (
      same,
      λ e.
          let (planted, relay) =
            secured plant relayed (is_https (last_segment req.forwarded_proto)) (flag ∙ e) in
          (sym same ∙ planted, relay),
    )

-- A request that reaches the inner service has a `Host` whose name is allowed, and an `Origin` that
-- is absent, blank or allowed. If its path is gated, the first token that it carries is the token of
-- the process, and the cookie is set exactly if that token came in the query; on other paths no
-- cookie is set. A cookie is `Secure` only if a trusted proxy relayed the request.
pub security_guard-served :
    (guard : HeadlessGuard) (relayed : Bool) (req : Request) {plant secure : Bool}
    → security_guard guard relayed req ≡ served plant secure
    → (is_empty (host_name req.host) ≡ false)
      × (has (host_name req.host) guard.allowed ≡ true)
      × OriginFits guard.allowed req.origin
      × TokenFits guard req (is_gated req.path) plant
      × (secure ≡ true → (plant ≡ true) × (relayed ≡ true))
unfolding security_guard host_allowed
security_guard-served guard relayed req {plant} {secure} h =
    on_hosts (host_allowed req.host req.origin guard.allowed) refl h
  where
    on_path :
        (gated : Bool)
        → (if gated
            then on_token guard relayed req (extract_token req.authorization req.cookie req.query)
            else serve relayed req false)
          ≡ served plant secure
        → TokenFits guard req gated plant × (secure ≡ true → (plant ≡ true) × (relayed ≡ true))
    on_path true k =
        let (token, answer) =
          on_token-served guard relayed req (extract_token req.authorization req.cookie req.query)
            k in
        (token, (serve-secure relayed req plant answer).1)
    on_path false k = let (same, cookie) = serve-secure relayed req false k in (sym same, cookie)

    on_hosts :
        (o : Option Rejection)
        → host_allowed req.host req.origin guard.allowed ≡ o
        → on_host guard relayed req o ≡ served plant secure
        → (is_empty (host_name req.host) ≡ false)
          × (has (host_name req.host) guard.allowed ≡ true)
          × OriginFits guard.allowed req.origin
          × TokenFits guard req (is_gated req.path) plant
          × (secure ≡ true → (plant ≡ true) × (relayed ≡ true))
    on_hosts (some reason) e k = cc
    on_hosts none e k =
        let (filled, known, rest) =
          named (is_empty (host_name req.host)) (has (host_name req.host) guard.allowed)
            missing_host (unexpected_host (host_name req.host))
            (origin_rejection guard.allowed req.origin) e in
        let (token, cookie) = on_path (is_gated req.path) k in
        (filled, known, origin_rejection-OriginFits guard.allowed req.origin rest, token, cookie)

has-append :
    (h : Text) (hosts : List Text) (x : Text)
    → has h (hosts ++ x ∷ []) ≡ (has h hosts || text_eq x h)
has-append h [] x = ground arith
has-append h (y ∷ hosts) x = ground (arith, has-append h hosts x)

pushed :
    (blank known there same : Bool)
    → (same ≡ true → known ≡ there)
    → (if blank then there else if known then there else (there || same))
      ≡ (there || (not blank && same))
pushed true known there same h = ground arith
pushed false known there same h = ground (arith, h)

has-push_unique :
    (h : Text) (hosts : List Text) (x : Text)
    → has h (push_unique hosts x) ≡ (has h hosts || (not (is_empty x) && text_eq x h))
has-push_unique h hosts x =
    if_map (has h) (is_empty x) hosts _
    ∙ ap (λ r. if is_empty x then has h hosts else r)
        (if_map (has h) (has x hosts) hosts _
          ∙ ap (λ r. if has x hosts then has h hosts else r) (has-append h hosts x))
    ∙ pushed (is_empty x) (has x hosts) (has h hosts) (text_eq x h)
        (λ e. ap (λ s. has s hosts) ((text_eq_iff x h).0 e))
  where
    if_map :
        (f : List Text → Bool) (b : Bool) (x y : List Text)
        → f (if b then x else y) ≡ (if b then f x else f y)
    if_map f true x y = refl
    if_map f false x y = refl

-- A declared host, as the allowlist has it.
abbrev pub is_declared : Text → Text → Bool
is_declared h declared = not (is_empty (lower (trim declared))) && text_eq (lower (trim declared)) h

has-push_all :
    (h : Text) (hosts declared : List Text)
    → has h (push_all hosts declared) ≡ (has h hosts || any (is_declared h) declared)
has-push_all h hosts [] = ground arith
has-push_all h hosts (d ∷ declared) =
    has-push_all h (push_unique hosts (lower (trim d))) declared
    ∙ ap (λ b. b || any (is_declared h) declared) (has-push_unique h hosts (lower (trim d)))
    ∙ or_assoc (has h hosts) (is_declared h d) (any (is_declared h) declared)
  where
    or_assoc : (a b c : Bool) → ((a || b) || c) ≡ (a || (b || c))
    or_assoc a b c = ground arith

module _ (parse_ip : Text → Option IpAddr) where
  -- The address of the bind, unless it is the unspecified one.
  abbrev pub is_bind_ip : Text → Option IpAddr → Bool
  is_bind_ip h none = false
  is_bind_ip h (some ip) =
      not ip.is_unspecified && (not (is_empty ip.display) && text_eq ip.display h)

  has-with_ip :
      (h : Text) (hosts : List Text) (ip : Option IpAddr)
      → has h (with_ip parse_ip hosts ip) ≡ (has h hosts || is_bind_ip h ip)
  has-with_ip h hosts none = ground arith
  has-with_ip h hosts (some ip) = elim (Bool-cases ip.is_unspecified) [
    | inl vague ↦ rw vague (ground arith)
    | inr concrete ↦ rw concrete (has-push_unique h hosts ip.display)
  ]

  -- The allowlist has the three loopback names, the address of the bind if it is a concrete one, and
  -- the declared hosts in lower case, and nothing else.
  pub has-allowed_hosts :
      (h bind : Text) (declared : List Text)
      → has h (allowed_hosts parse_ip bind declared) ≡ (
          (has h (codes "127.0.0.1" ∷ codes "localhost" ∷ codes "::1" ∷ [])
            || is_bind_ip h (parse_ip (unbracketed (trim bind))))
          || any (is_declared h) declared)
  unfolding allowed_hosts
  has-allowed_hosts h bind declared =
      has-push_all h
        (with_ip parse_ip (codes "127.0.0.1" ∷ codes "localhost" ∷ codes "::1" ∷ [])
          (parse_ip (unbracketed (trim bind))))
        declared
      ∙ ap (λ b. b || any (is_declared h) declared)
          (has-with_ip h (codes "127.0.0.1" ∷ codes "localhost" ∷ codes "::1" ∷ [])
            (parse_ip (unbracketed (trim bind))))
