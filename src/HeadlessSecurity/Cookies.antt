-- ===== src/HeadlessSecurity/Cookies.antt =====
-- How `cookie_value` of headless_security.rs reads a `Cookie` header.
use egress_apikey.Prelude.{
  ℕ, ◌≡◌, refl, sym, ap, ◌∙◌, Bool, true, false, not, ◌&&◌, Option, none, some, [], ◌∷◌, ◌++◌, all,
  List, All, Bool-cases, inl, inr, if◌then◌else◌, arith, ◌==◌,
}
use mathlib.Core.Path.{ap₂}
use mathlib.Core.Bool.{false≢true}
use mathlib.Core.List.{reverse, reverse-cons, reverse-reverse, append-nil}
use egress_apikey.Prelude.Texts.{Text, trim, skip_while, is_whitespace, text_eq}
use egress_apikey.HeadlessSecurity.{
  cookie_value, pair_value, split_once, token_cookie_name, split, onto_first, first_value,
}

-- No white space, and no semicolon.
abbrev pub is_token_char : ℕ → Bool
is_token_char c = not (is_whitespace c) && not (c == b';')

skip_while-none : (s : Text) → all is_token_char s ≡ true → skip_while is_whitespace s ≡ s
unfolding skip_while
skip_while-none [] h = refl
skip_while-none (c ∷ s) h =
    rw (not_blank (is_whitespace c) (not (c == b';')) (all is_token_char s) h) refl
  where
    not_blank : (a b r : Bool) → ((not a && b) && r) ≡ true → a ≡ false
    not_blank a b r h = ground arith

all-snoc :
    (s : Text) (c : ℕ) → all is_token_char (s ++ c ∷ []) ≡ (all is_token_char s && is_token_char c)
all-snoc [] c = and_comm (is_token_char c)
  where
    and_comm : (a : Bool) → (a && true) ≡ (true && a)
    and_comm a = ground arith
all-snoc (d ∷ s) c = ap (λ r. is_token_char d && r) (all-snoc s c) ∙ and_assoc (is_token_char d) _ _
  where
    and_assoc : (a b c : Bool) → (a && (b && c)) ≡ ((a && b) && c)
    and_assoc a b c = ground arith

all-reverse : (s : Text) → all is_token_char s ≡ true → all is_token_char (reverse s) ≡ true
all-reverse [] h = refl
all-reverse (c ∷ s) h =
    let (first, later) = both (is_token_char c) (all is_token_char s) h in
    ap (all is_token_char) (reverse-cons c s)
    ∙ all-snoc (reverse s) c
    ∙ ap₂ (λ a b. a && b) (all-reverse s later) first
  where
    both : (a b : Bool) → (a && b) ≡ true → (a ≡ true) × (b ≡ true)
    both a b h = ground arith

trim-token : (s : Text) → all is_token_char s ≡ true → trim s ≡ s
unfolding trim
trim-token s h =
    ap (λ t. reverse (skip_while is_whitespace (reverse t))) (skip_while-none s h)
    ∙ ap reverse (skip_while-none (reverse s) (all-reverse s h))
    ∙ reverse-reverse s

-- No semicolon.
abbrev pub is_not_mark : ℕ → Bool
is_not_mark c = not (c == b';')

both : (a b : Bool) → (a && b) ≡ true → (a ≡ true) × (b ≡ true)
both a b h = ground arith

plain_mark : (c : ℕ) → is_not_mark c ≡ true → (c == b';') ≡ false
plain_mark c h = elim (Bool-cases (c == b';')) [
  | inl e ↦ absurd (false≢true (sym (ap not e) ∙ h))
  | inr e ↦ e
]

split-first :
    (s rest : Text) → all is_not_mark s ≡ true → split b';' (s ++ b';' ∷ rest) ≡ s ∷ split b';' rest
unfolding split
split-first [] rest h = refl
split-first (c ∷ s) rest h =
    let (other, later) = both (is_not_mark c) (all is_not_mark s) h in
    rw (plain_mark c other) (ap (onto_first c) (split-first s rest later))

split-last : (s : Text) → all is_not_mark s ≡ true → split b';' s ≡ s ∷ []
unfolding split
split-last [] h = refl
split-last (c ∷ s) h =
    let (other, later) = both (is_not_mark c) (all is_not_mark s) h in
    rw (plain_mark c other) (ap (onto_first c) (split-last s later))

skip_while-gap :
    (gap s : Text)
    → all is_whitespace gap ≡ true
    → skip_while is_whitespace (gap ++ s) ≡ skip_while is_whitespace s
unfolding skip_while
skip_while-gap [] s h = refl
skip_while-gap (c ∷ gap) s h =
    let (blank, later) = both (is_whitespace c) (all is_whitespace gap) h in
    rw blank (skip_while-gap gap s later)

trim-gap : (gap s : Text) → all is_whitespace gap ≡ true → trim (gap ++ s) ≡ trim s
unfolding trim
trim-gap gap s h = ap (λ t. reverse (skip_while is_whitespace (reverse t))) (skip_while-gap gap s h)

unfoldable pub pair_of : Text → Text
pair_of token = token_cookie_name ++ (b'=' ∷ token)

pair-token :
    (token : Text) → all is_token_char token ≡ true → all is_token_char (pair_of token) ≡ true
unfolding pair_of is_whitespace
pair-token token h = h

value_of-pair :
    (token : Text) (later : Option Text)
    → pair_value trim token_cookie_name (split_once b'=' (pair_of token)) later ≡ some (trim token)
unfolding pair_of split_once trim text_eq
value_of-pair token later = refl

-- White space and the characters of a token are no semicolon.
unmarked : (s : Text) → all is_token_char s ≡ true → all is_not_mark s ≡ true
unmarked [] h = refl
unmarked (c ∷ s) h =
    let (char, later) = both (is_token_char c) (all is_token_char s) h in
    ap₂ (λ a b. a && b) (both (not (is_whitespace c)) (is_not_mark c) char).1 (unmarked s later)

blank_mark : (c : ℕ) → is_whitespace c ≡ true → is_not_mark c ≡ true
unfolding is_whitespace
blank_mark c h = ground arith

unmarked_gap :
    (gap s : Text)
    → all is_whitespace gap ≡ true
    → all is_not_mark s ≡ true
    → all is_not_mark (gap ++ s) ≡ true
unmarked_gap [] s h k = k
unmarked_gap (c ∷ gap) s h k =
    let (blank, later) = both (is_whitespace c) (all is_whitespace gap) h in
    ap₂ (λ a b. a && b) (blank_mark c blank) (unmarked_gap gap s later k)

-- What follows a cookie: nothing, or a semicolon and anything.
abbrev pub ended : Option Text → Text
ended none = []
ended (some rest) = b';' ∷ rest

-- The parts after the first.
parts_after : Option Text → List Text
parts_after none = []
parts_after (some rest) = split b';' rest

split-ended :
    (s : Text) (tail : Option Text)
    → all is_not_mark s ≡ true
    → split b';' (s ++ ended tail) ≡ s ∷ parts_after tail
unfolding parts_after
split-ended s none h = ap (split b';') (append-nil s) ∙ split-last s h
split-ended s (some rest) h = split-first s rest h

pub cookie_value-token :
    (gap token : Text) (tail : Option Text)
    → all is_whitespace gap ≡ true
    → all is_token_char token ≡ true
    → cookie_value ((gap ++ pair_of token) ++ ended tail) token_cookie_name ≡ some token
unfolding first_value
cookie_value-token gap token tail blank h =
    let plain = pair-token token h in
    let later = first_value trim token_cookie_name (parts_after tail) in
    ap (first_value trim token_cookie_name) (
      split-ended (gap ++ pair_of token) tail
        (unmarked_gap gap (pair_of token) blank (unmarked (pair_of token) plain)))
    ∙ ap (λ t. pair_value trim token_cookie_name (split_once b'=' t) later)
        (trim-gap gap (pair_of token) blank ∙ trim-token (pair_of token) plain)
    ∙ value_of-pair token later
    ∙ ap some (trim-token token h)

-- Another cookie: one part of the header, which by itself has no value under the session's name.
abbrev pub IsOther : Text → Type 0
IsOther part = (all is_not_mark part ≡ true) × (cookie_value part token_cookie_name ≡ none)

-- Parts, each with its semicolon, before the rest.
abbrev pub glued : List Text → Text → Text
glued [] s = s
glued (part ∷ parts) s = part ++ b';' ∷ glued parts s

passed_over :
    (o : Option (Text × Text)) (later : Option Text)
    → pair_value trim token_cookie_name o none ≡ none
    → pair_value trim token_cookie_name o later ≡ later
passed_over none later h = refl
passed_over (some (key, value)) later h = by_name (text_eq (trim key) token_cookie_name) h
  where
    by_name :
        (b : Bool)
        → (if b then some (trim value) else none) ≡ none
        → (if b then some (trim value) else later) ≡ later
    by_name true h = cc
    by_name false h = refl

pub cookie_value-glued :
    (parts : List Text) (s : Text)
    → All IsOther parts
    → cookie_value (glued parts s) token_cookie_name ≡ cookie_value s token_cookie_name
unfolding first_value
cookie_value-glued [] s h = refl
cookie_value-glued (part ∷ parts) s ((plain, other), more) =
    ap (first_value trim token_cookie_name) (split-first part (glued parts s) plain)
    ∙ passed_over (split_once b'=' (trim part)) (cookie_value (glued parts s) token_cookie_name)
        (sym (ap (first_value trim token_cookie_name) (split-last part plain)) ∙ other)
    ∙ cookie_value-glued parts s more
