-- ===== src/HeadlessSecurity/Tests.antt =====
-- Requests to a server on a loopback address.
use egress_apikey.Prelude.{
  ◌≡◌, ◌↔◌, ◌||◌, refl, true, false, Option, none, some, [], ◌∷◌, ◌++◌, any,
}
use egress_apikey.Prelude.Texts.{Text, codes, trim, is_whitespace}
use egress_apikey.HeadlessSecurity.{
  has, is_empty, hostname_of, host_name, HeadlessGuard, Request, forbidden, unexpected_host,
  unauthorized, is_gated, security_guard, constant_time_eq, extract_token, token_cookie_name,
  IpAddr, allowed_hosts, unbracketed, first_value, split,
}
use egress_apikey.HeadlessSecurity.Compare.{constant_time_eq_iff}
use egress_apikey.HeadlessSecurity.Guard.{
  OriginFits, TokenFits, security_guard-served, is_declared, is_bind_ip, has-allowed_hosts,
}
use egress_apikey.HeadlessSecurity.Token.{extract_token-cookie}
use egress_apikey.HeadlessSecurity.Cookies.{ended, glued}

abbrev guard : HeadlessGuard
guard = record { allowed = codes "localhost" ∷ []; token = codes "5ec" }

abbrev request : Text → Option Text → Request
request host query = record {
  host = some host;
  origin = some (codes "http://LOCALHOST:8080");
  path = codes "/api/v1/ports";
  authorization = none;
  cookie = none;
  query = query;
  forwarded_proto = codes "http, https" ∷ [];
}

hostname_test :
    (hostname_of (codes "http://me@Evil.Test.:80/x") ≡ codes "evil.test")
    × (hostname_of (codes "[::1]:80") ≡ codes "::1")
unfolding hostname_of
hostname_test = (refl, refl)

rebinding_test :
    security_guard guard false (request (codes "evil.test:80") none)
    ≡ forbidden (unexpected_host (codes "evil.test"))
unfolding security_guard
rebinding_test = refl

no_token_test : security_guard guard false (request (codes "localhost:80") none) ≡ unauthorized
unfolding security_guard
no_token_test = refl

abbrev good : Request
good = request (codes "localhost:80") (some (codes "a=1&auth_token=5ec"))

security_guard-served_example :
    (is_empty (host_name good.host) ≡ false)
    × (has (host_name good.host) guard.allowed ≡ true)
    × OriginFits guard.allowed good.origin
    × TokenFits guard good (is_gated good.path) true
    × (true ≡ true → (true ≡ true) × (true ≡ true))
unfolding security_guard
security_guard-served_example =
    security_guard-served guard true good {plant = true} {secure = true} refl

constant_time_eq_iff_example :
    (constant_time_eq (codes "5ec") (codes "5ed") ≡ true) ↔ (codes "5ec" ≡ codes "5ed")
constant_time_eq_iff_example = constant_time_eq_iff (codes "5ec") (codes "5ed")

abbrev parse_ip : Text → Option IpAddr
parse_ip s = some (record { is_loopback = false; is_unspecified = false; display = s })

has-allowed_hosts_example :
    has (codes "lan") (allowed_hosts parse_ip (codes "10.0.0.1") (codes " LAN " ∷ [])) ≡ (
      (has (codes "lan") (codes "127.0.0.1" ∷ codes "localhost" ∷ codes "::1" ∷ [])
        || is_bind_ip parse_ip (codes "lan") (parse_ip (unbracketed (trim (codes "10.0.0.1")))))
      || any (is_declared (codes "lan")) (codes " LAN " ∷ []))
has-allowed_hosts_example =
    has-allowed_hosts parse_ip (codes "lan") (codes "10.0.0.1") (codes " LAN " ∷ [])

-- The session cookie after another one, as browsers send it, and alone.
extract_token-cookie_example :
    extract_token none
      (some (
        glued
          (codes "theme=dark" ∷ [])
          ((codes " " ++ (token_cookie_name ++ (b'=' ∷ codes "5ec"))) ++ ended none)))
      none
    ≡ some (codes "5ec", false)
unfolding is_whitespace first_value split trim
extract_token-cookie_example =
    extract_token-cookie (codes "theme=dark" ∷ []) (codes " ") (codes "5ec") none none
      ((refl, refl), tt) refl refl refl

lone_cookie_test :
    extract_token none (some (token_cookie_name ++ (b'=' ∷ codes "5ec"))) none
    ≡ some (codes "5ec", false)
unfolding extract_token
lone_cookie_test = refl
