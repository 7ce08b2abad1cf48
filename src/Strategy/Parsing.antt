-- ===== src/Strategy/Parsing.antt =====
-- Reading back what is written, and legacy tokens.
use egress_apikey.Prelude.{
  ℕ, ◌≡◌, refl, ap, true, false, inl, inr, String, some, is_some, List, [], ◌∷◌, map, arith, any,
  sym, ◌∙◌, All, Bool-cases,
}
use egress_apikey.Prelude.Texts.{
  Text, codes, trim, text_eq, text_eq→eq, to_ascii_lowercase, to_ascii_uppercase,
}
use egress_apikey.Strategy.{
  StrategyId, balanced, prefer_low_latency, prefer_idle_ip, legacy_b_class_tokens, as_str, converge,
  parse, is_legacy_token,
}

-- The canonical spelling of an id reads back as the id, and is no legacy token.
pub parse-as_str :
    (id : StrategyId) → (parse (as_str id) ≡ some id) × (is_legacy_token (as_str id) ≡ false)
unfolding parse is_legacy_token
parse-as_str balanced = (refl, refl)
parse-as_str prefer_low_latency = (refl, refl)
parse-as_str prefer_idle_ip = (refl, refl)

upper-lower : (c : ℕ) → to_ascii_uppercase (to_ascii_lowercase c) ≡ to_ascii_uppercase c
upper-lower c = ground arith

map-upper-lower :
    (t : Text) → map to_ascii_uppercase (map to_ascii_lowercase t) ≡ map to_ascii_uppercase t
map-upper-lower [] = refl
map-upper-lower (c ∷ t) = cc (upper-lower c, map-upper-lower t)

-- A text that spells `token` in whatever case converges as `token` does.
spelled_converges :
    (token : String) (t : Text)
    → text_eq (codes token) (map to_ascii_lowercase t) ≡ true
    → converge (map to_ascii_uppercase t) ≡ converge (map to_ascii_uppercase (codes token))
spelled_converges token t h =
    ap (λ u. converge u)
      (sym (map-upper-lower t)
        ∙ ap (map to_ascii_uppercase) (sym (text_eq→eq (codes token) (map to_ascii_lowercase t) h)))

understood :
    All
      (λ token. is_some (converge (map to_ascii_uppercase (codes token))) ≡ true)
      legacy_b_class_tokens
unfolding converge
understood = (refl, (refl, (refl, (refl, (refl, (refl, tt))))))

-- A legacy token, in any case and with any white space around, is always understood.
pub legacy-parse : (raw : String) → is_legacy_token raw ≡ true → is_some (parse raw) ≡ true
unfolding parse is_legacy_token
legacy-parse raw h = go legacy_b_class_tokens (trim (codes raw)) understood h
  where
    go :
        (tokens : List String) (t : Text)
        → All (λ token. is_some (converge (map to_ascii_uppercase (codes token))) ≡ true) tokens
        → any (λ token. text_eq (codes token) (map to_ascii_lowercase t)) tokens ≡ true
        → is_some (converge (map to_ascii_uppercase t)) ≡ true
    go [] t all k = cc
    go (token ∷ tokens) t all k =
        elim (Bool-cases (text_eq (codes token) (map to_ascii_lowercase t))) [
          | inl e ↦ ap (λ o. is_some o) (spelled_converges token t e) ∙ all.0
          | inr e ↦ go tokens t all.1 (rw e at k)
        ]
