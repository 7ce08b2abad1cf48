-- ===== src/HeadlessSecurity.antt =====
-- src-tauri/src/headless_security.rs and `security_guard` of src-tauri/src/headless_main.rs: who may
-- call the headless server. A header that is there is visible ASCII (`to_str`), so its code points
-- are its bytes; the token is its bytes. Parsing an address and drawing entropy are parameters.
pub mod Compare
pub mod Guard
pub mod Cookies
pub mod Token
mod Tests
use egress_apikey.Prelude.{
  ℕ, suc, zero, ◌+◌, ◌*◌, ◌/◌, ◌%◌, Bool, true, false, not, ◌&&◌, ◌||◌, max, String, Option, none,
  some, unwrap_or, List, [], ◌∷◌, ◌++◌, map, any, length, ◌==◌, if◌then◌else◌,
}
use mathlib.Core.List.{reverse}
use egress_apikey.Prelude.Texts.{Text, Bytes, codes, trim, text_eq, to_ascii_lowercase}
use egress_apikey.Prelude.Results.{Result, ok, err}

abbrev pub token_cookie_name : Text
token_cookie_name = codes "egressapikey_token"

abbrev pub token_query : Text
token_query = codes "auth_token"

abbrev pub is_empty : Text → Bool
is_empty [] = true
is_empty (c ∷ s) = false

abbrev pub lower : Text → Text
lower s = map to_ascii_lowercase s

abbrev pub has : Text → List Text → Bool
has s hosts = any (λ h. text_eq h s) hosts

-- `starts_with`, and what follows the prefix.
abbrev pub strip_prefix : Text → Text → Option Text
strip_prefix [] s = some s
strip_prefix (c ∷ cs) [] = none
strip_prefix (c ∷ cs) (d ∷ s) = if c == d then strip_prefix cs s else none

-- What follows the first occurrence of a text.
abbrev pub or_later : Option Text → Option Text → Option Text
or_later (some s) later = some s
or_later none later = later

unfoldable pub after : Text → Text → Option Text
after sep [] = strip_prefix sep []
after sep (c ∷ s) = or_later (strip_prefix sep (c ∷ s)) (after sep s)

-- `split_once` of a character.
abbrev pub before_first : ℕ → Option (Text × Text) → Option (Text × Text)
before_first c none = none
before_first c (some (a, b)) = some (c ∷ a, b)

unfoldable pub split_once : ℕ → Text → Option (Text × Text)
split_once sep [] = none
split_once sep (c ∷ s) =
    let rest = split_once sep s in if c == sep then some ([], s) else before_first c rest

-- At the last occurrence, as `rfind` has it.
unfoldable pub split_last : ℕ → Text → Option (Text × Text)
split_last sep [] = none
split_last sep (c ∷ s) = at_last c sep s (split_last sep s)
  where
    at_last : ℕ → ℕ → Text → Option (Text × Text) → Option (Text × Text)
    at_last c sep s (some (a, b)) = some (c ∷ a, b)
    at_last c sep s none = if c == sep then some ([], s) else none

-- `split` of a character.
abbrev pub onto_first : ℕ → List Text → List Text
onto_first c [] = (c ∷ []) ∷ []
onto_first c (s ∷ ss) = (c ∷ s) ∷ ss

unfoldable pub split : ℕ → Text → List Text
split sep [] = [] ∷ []
split sep (c ∷ s) = let rest = split sep s in if c == sep then [] ∷ rest else onto_first c rest

-- Up to the first character of a test.
unfoldable pub until : (ℕ → Bool) → Text → Text
until stop [] = []
until stop (c ∷ s) = let rest = until stop s in if stop c then [] else c ∷ rest

unfoldable pub skip_dots : Text → Text
skip_dots [] = []
skip_dots (c ∷ s) = let rest = skip_dots s in if c == b'.' then rest else c ∷ s

abbrev pub has_char : ℕ → Text → Bool
has_char c s = any (λ d. d == c) s

abbrev pub ends_path : ℕ → Bool
ends_path c = (c == b'/') || ((c == b'?') || (c == b'#'))

abbrev pub right_of : Text → Option (Text × Text) → Text
right_of s none = s
right_of s (some (a, b)) = b

abbrev pub without_port : Text → Option (Text × Text) → Text
without_port v none = v
without_port v (some (a, b)) = if has_char b':' a then v else a

abbrev pub bare_host : Text → Text
bare_host v = lower (reverse (skip_dots (reverse (without_port v (split_last b':' v)))))

abbrev pub bracketed : Text → Option (Text × Text) → Text
bracketed v none = bare_host v
bracketed v (some (a, b)) = lower a

abbrev pub host_of : Text → Option Text → Text
host_of v none = bare_host v
host_of v (some rest) = bracketed v (split_once b']' rest)

abbrev pub authority : Text → Text
authority value =
    let v = trim value in
    let v1 = until ends_path (unwrap_or (after (codes "://") v) v) in
    trim (right_of v1 (split_last b'@' v1))

unfoldable pub hostname_of : Text → Text
unfolding trim after until split_last split_once skip_dots
hostname_of value = host_of (authority value) (strip_prefix (b'[' ∷ []) (authority value))

-- The reason of a refusal.
pub data Rejection : Type 0 where
  missing_host : Rejection
  unexpected_host unexpected_origin : Text → Rejection

abbrev pub origin_rejection : List Text → Option Text → Option Rejection
origin_rejection allowed none = none
origin_rejection allowed (some origin) =
    if is_empty (trim origin)
    then none
    else if has (hostname_of origin) allowed
    then none
    else some (unexpected_origin (hostname_of origin))

abbrev pub host_name : Option Text → Text
host_name none = []
host_name (some h) = hostname_of h

-- `none` for `Ok`.
unfoldable pub host_allowed : Option Text → Option Text → List Text → Option Rejection
unfolding hostname_of trim
host_allowed host origin allowed =
    if is_empty (host_name host)
    then some missing_host
    else if has (host_name host) allowed
    then origin_rejection allowed origin
    else some (unexpected_host (host_name host))

-- `x ^ y` and `x | y`, bit by bit; a number has fewer bits than its value plus one.
unfoldable pub xor_bits : ℕ → ℕ → ℕ → ℕ
xor_bits zero x y = 0
xor_bits (suc n) x y = (x % 2 + y % 2) % 2 + 2 * xor_bits n (x / 2) (y / 2)

unfoldable pub or_bits : ℕ → ℕ → ℕ → ℕ
or_bits zero x y = 0
or_bits (suc n) x y = max (x % 2) (y % 2) + 2 * or_bits n (x / 2) (y / 2)

abbrev pub xor : ℕ → ℕ → ℕ
xor x y = xor_bits (x + y) x y

abbrev pub or : ℕ → ℕ → ℕ
or x y = or_bits (x + y) x y

-- The loop over both texts.
unfoldable pub difference : ℕ → Bytes → Bytes → ℕ
unfolding xor_bits or_bits
difference diff (x ∷ a) (y ∷ b) = difference (or diff (xor x y)) a b
difference diff _ _ = diff

unfoldable pub constant_time_eq : Bytes → Bytes → Bool
unfolding difference
constant_time_eq a b = if length a == length b then difference 0 a b == 0 else false

abbrev pub filled : Text → Option Text
filled s = if is_empty s then none else some s

abbrev pub of_scheme : Option (Text × Text) → Option Text
of_scheme none = none
of_scheme (some (scheme, rest)) =
    if text_eq (lower scheme) (codes "bearer") then filled (trim rest) else none

unfoldable pub bearer_token : Text → Option Text
unfolding trim split_once text_eq
bearer_token value = of_scheme (split_once b' ' (trim value))

abbrev pub pair_value : (Text → Text) → Text → Option (Text × Text) → Option Text → Option Text
pair_value tidy name none later = later
pair_value tidy name (some (key, value)) later =
    if text_eq (tidy key) name then some (tidy value) else later

unfoldable pub first_value : (Text → Text) → Text → List Text → Option Text
unfolding split_once text_eq
first_value tidy name [] = none
first_value tidy name (part ∷ parts) =
    pair_value tidy name (split_once b'=' (tidy part)) (first_value tidy name parts)

abbrev pub cookie_value : Text → Text → Option Text
cookie_value header name = first_value trim name (split b';' header)

abbrev pub query_param : Text → Text → Option Text
query_param query name = first_value (λ s. s) name (split b'&' query)

abbrev pub or_else : {A : Type 0} → Option A → Option A → Option A
or_else none later = later
or_else (some a) later = some a

abbrev pub tagged : Bool → Option Text → Option (Text × Bool)
tagged from_query none = none
tagged from_query (some token) = some (token, from_query)

abbrev pub bind : {A B : Type 0} → Option A → (A → Option B) → Option B
bind none f = none
bind (some a) f = f a

-- The carriers of a token, the most trusted first.
unfoldable pub extract_token : Option Text → Option Text → Option Text → Option (Text × Bool)
unfolding bearer_token first_value split trim
extract_token authorization cookie query =
    or_else (tagged false (bind authorization bearer_token)) (
      or_else (tagged false (bind (bind cookie (λ h. cookie_value h token_cookie_name)) filled))
        (tagged true (bind (bind query (λ q. query_param q token_query)) filled)))

pub record HeadlessGuard : Type 0 where
  pub allowed : List Text
  pub token : Bytes

unfoldable pub token_matches : HeadlessGuard → Text → Bool
unfolding constant_time_eq
token_matches guard candidate = constant_time_eq guard.token candidate

-- The parts of a request that the guard reads.
pub record Request : Type 0 where
  pub host : Option Text
  pub origin : Option Text
  pub path : Text
  pub authorization : Option Text
  pub cookie : Option Text
  pub query : Option Text
  pub forwarded_proto : List Text

-- 403 with its reason, 401, or the inner service; then whether the cookie is set, and as `Secure`.
pub data Decision : Type 0 where
  forbidden : Rejection → Decision
  unauthorized : Decision
  served : (plant_cookie secure : Bool) → Decision

abbrev pub starts_with : Text → Text → Bool
starts_with [] s = true
starts_with (c ∷ cs) [] = false
starts_with (c ∷ cs) (d ∷ s) = (c == d) && starts_with cs s

unfoldable pub is_gated : Text → Bool
unfolding text_eq
is_gated path =
    starts_with (codes "/api/v1/") path
    || (text_eq path (codes "/api/v1") || starts_with (codes "/metrics") path)

abbrev pub last_of : Text → List Text → Text
last_of s [] = s
last_of s (t ∷ ts) = last_of t ts

-- The last segment over all instances of the header.
abbrev pub last_segment : List Text → Option Text
last_segment [] = none
last_segment (v ∷ []) = some (last_of [] (split b',' v))
last_segment (v ∷ w ∷ vs) = last_segment (w ∷ vs)

abbrev pub is_https : Option Text → Bool
is_https none = false
is_https (some s) = text_eq (lower (trim s)) (codes "https")

-- `relayed`: whether the peer of the socket is a trusted proxy.
unfoldable pub trusted_forwarded_https : Bool → List Text → Bool
unfolding split text_eq trim
trusted_forwarded_https relayed protos = if relayed then is_https (last_segment protos) else false

abbrev pub serve : Bool → Request → Bool → Decision
serve relayed req plant =
    served plant (plant && trusted_forwarded_https relayed req.forwarded_proto)

abbrev pub on_token : HeadlessGuard → Bool → Request → Option (Text × Bool) → Decision
on_token guard relayed req none = unauthorized
on_token guard relayed req (some (candidate, from_query)) =
    if token_matches guard candidate then serve relayed req from_query else unauthorized

abbrev pub on_host : HeadlessGuard → Bool → Request → Option Rejection → Decision
on_host guard relayed req (some reason) = forbidden reason
on_host guard relayed req none =
    if is_gated req.path
    then on_token guard relayed req (extract_token req.authorization req.cookie req.query)
    else serve relayed req false

unfoldable pub security_guard : HeadlessGuard → Bool → Request → Decision
unfolding host_allowed extract_token token_matches is_gated trusted_forwarded_https
security_guard guard relayed req =
    on_host guard relayed req (host_allowed req.host req.origin guard.allowed)

-- What the program uses of a parsed address.
pub record IpAddr : Type 0 where
  pub is_loopback : Bool
  pub is_unspecified : Bool
  pub display : Text

pub data TokenSource : Type 0 where
  provided generated : TokenSource

pub record ResolvedToken : Type 0 where
  pub token : Text
  pub source : TokenSource

-- A token, or the reason why the process does not start.
pub data Resolution : Type 0 where
  resolved : ResolvedToken → Resolution
  blank_token : Resolution
  exposed_bind : Text → Resolution
  no_entropy : String → Resolution

abbrev pub ends_in : ℕ → Text → Option Text
ends_in c s = last_is c (reverse s)
  where
    last_is : ℕ → Text → Option Text
    last_is c [] = none
    last_is c (d ∷ s) = if d == c then some (reverse s) else none

abbrev pub unbracketed : Text → Text
unbracketed b = unwrap_or (bind (strip_prefix (b'[' ∷ []) b) (ends_in b']')) b

abbrev pub push_unique : List Text → Text → List Text
push_unique hosts host =
    if is_empty host then hosts else if has host hosts then hosts else hosts ++ host ∷ []

abbrev pub push_all : List Text → List Text → List Text
push_all hosts [] = hosts
push_all hosts (h ∷ declared) = push_all (push_unique hosts (lower (trim h))) declared

module _ (parse_ip : Text → Option IpAddr) where
  abbrev pub loopback_ip : Option IpAddr → Bool
  loopback_ip none = false
  loopback_ip (some ip) = ip.is_loopback

  unfoldable pub is_loopback_bind : Text → Bool
  unfolding trim text_eq
  is_loopback_bind bind =
      text_eq (lower (trim bind)) (codes "localhost")
      || loopback_ip (parse_ip (unbracketed (trim bind)))

  abbrev pub with_ip : List Text → Option IpAddr → List Text
  with_ip hosts none = hosts
  with_ip hosts (some ip) = if ip.is_unspecified then hosts else push_unique hosts ip.display

  unfoldable pub allowed_hosts : Text → List Text → List Text
  unfolding trim text_eq
  allowed_hosts bind declared =
      push_all
        (with_ip (codes "127.0.0.1" ∷ codes "localhost" ∷ codes "::1" ∷ [])
          (parse_ip (unbracketed (trim bind))))
        declared

  -- `entropy` is what `generate_token` answers.
  module _ (entropy : Result Text) where
    abbrev pub generate : Result Text → Resolution
    generate (ok token) = resolved (record { token = token; source = generated })
    generate (err e) = no_entropy e

    unfoldable pub resolve_token : Option Text → Text → Resolution
    unfolding trim is_loopback_bind
    resolve_token (some cli) bind =
        if is_empty (trim cli)
        then blank_token
        else resolved (record { token = trim cli; source = provided })
    resolve_token none bind = if is_loopback_bind bind then generate entropy else exposed_bind bind
