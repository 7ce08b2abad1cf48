-- ===== src/PortHealth/Results.antt =====
-- The probe results of one tick of port_health.rs, by port.
use egress_apikey.Prelude.{
  ℕ, ◌≡◌, refl, sym, ap, ◌∙◌, Bool, true, false, ◌||◌, String, Option, none, some, List, [], ◌∷◌,
  map, any, filter, find, All, ◌==◌, if◌then◌else◌, if_elim, Bool-cases, inl, inr, arith,
}
use mathlib.Core.Path.{ap₂, subst}
use mathlib.Core.List.{Permᴰ}
use egress_apikey.Snapshot.{PortMapping}
use egress_apikey.PortHealth.{Histories, ProbeResult, is_due, result_of}

abbrev pub DiffersFrom : ℕ → PortMapping → Type 0
DiffersFrom port p = (port == p.port) ≡ false

-- No port stands in two rows.
abbrev pub AreDistinct : List PortMapping → Type 0
AreDistinct [] = Unit
AreDistinct (p ∷ ports) = All (DiffersFrom p.port) ports × AreDistinct ports

-- What `buffer_unordered` documents: each result once, in some order.
abbrev pub Reorders : (List ProbeResult → List ProbeResult) → Type 0
Reorders collect = (l : List ProbeResult) → Permᴰ l (collect l)

pub eq_refl : (n : ℕ) → (n == n) ≡ true
eq_refl n = ground arith

pub eq_sym : (m n : ℕ) → (m == n) ≡ false → (n == m) ≡ false
eq_sym m n h = ground arith

or_swap : (a b c : Bool) → (a || (b || c)) ≡ (b || (a || c))
or_swap a b c = ground arith

or_false : (a b : Bool) → (a || b) ≡ false → (a ≡ false) × (b ≡ false)
or_false a b h = ground arith

pub All-map2 :
    {A : Type 0} {P Q R : A → Type 0} (f : (a : A) → P a → Q a → R a) (l : List A)
    → All P l
    → All Q l
    → All R l
All-map2 f [] p q = tt
All-map2 f (a ∷ l) p q = (f a p.0 q.0, All-map2 f l p.1 q.1)

All-map : {A : Type 0} {P Q : A → Type 0} (f : (a : A) → P a → Q a) (l : List A) → All P l → All Q l
All-map f [] p = tt
All-map f (a ∷ l) p = (f a p.0, All-map f l p.1)

module _ {A : Type 0} where
  any-Permᴰ : (q : A → Bool) {l l' : List A} → Permᴰ l l' → any q l ≡ any q l'
  any-Permᴰ q Permᴰ.nil = refl
  any-Permᴰ q (Permᴰ.cons e p) = ap₂ (λ a b. a || b) (ap q e) (any-Permᴰ q p)
  any-Permᴰ q (Permᴰ.swap {a = a} {b = b} {l = l} e f) =
      or_swap (q a) (q b) (any q l) ∙ ap₂ (λ x y. x || y) (ap q f) (ap (λ x. x || any q l) (ap q e))
  any-Permᴰ q (Permᴰ.trans p p') = any-Permᴰ q p ∙ any-Permᴰ q p'

  All-Permᴰ : (P : A → Type 0) {l l' : List A} → Permᴰ l l' → All P l → All P l'
  All-Permᴰ P Permᴰ.nil h = tt
  All-Permᴰ P (Permᴰ.cons e p) h = (subst P e h.0, All-Permᴰ P p h.1)
  All-Permᴰ P (Permᴰ.swap e f) h = (subst P f h.1.0, (subst P e h.0, h.1.1))
  All-Permᴰ P (Permᴰ.trans p p') h = All-Permᴰ P p' (All-Permᴰ P p h)

  -- Whatever the test accepts is `a`.
  abbrev IsOnly : (A → Bool) → A → List A → Type 0
  IsOnly f a l = All (λ r. f r ≡ true → r ≡ a) l

  find-IsOnly :
      (f : A → Bool) (a : A) (l : List A) → IsOnly f a l → any f l ≡ true → find f l ≡ some a
  find-IsOnly f a [] only h = cc
  find-IsOnly f a (x ∷ l) only h = elim (Bool-cases (f x)) [
    | inl e ↦ rw e (ap some (only.0 e))
    | inr e ↦ rw e (find-IsOnly f a l only.1 (sym (ap (λ b. b || any f l) e) ∙ h))
  ]

  find-none : (f : A → Bool) (l : List A) → any f l ≡ false → find f l ≡ none
  find-none f [] h = refl
  find-none f (x ∷ l) h = let (e, later) = or_false (f x) (any f l) h in rw e (find-none f l later)

  IsOnly-none : (f : A → Bool) (a : A) (l : List A) → any f l ≡ false → IsOnly f a l
  IsOnly-none f a [] h = tt
  IsOnly-none f a (x ∷ l) h =
      let (e, later) = or_false (f x) (any f l) h in (λ k. cc, IsOnly-none f a l later)

-- What the probe of a port answers.
abbrev pub answer_of : (ℕ → String → Bool × Option ℕ) → PortMapping → ProbeResult
answer_of probe p = record {
  probed_port = p.port;
  answered = (probe p.port p.protocol).0;
  latency = (probe p.port p.protocol).1;
}

module _ (probe : ℕ → String → Bool × Option ℕ) (now : ℕ) (before : Histories) where
  -- The results have one for a port exactly if it is due, and it is that of its probe.
  abbrev pub HasAnswer : List ProbeResult → PortMapping → Type 0
  HasAnswer results p =
      result_of p.port results
      ≡ (if is_due now (before p.port) then some (answer_of probe p) else none)

  abbrev on : PortMapping → ProbeResult → Bool
  on p r = r.probed_port == p.port

  abbrev answers : List PortMapping → List ProbeResult
  answers ports =
      map (answer_of probe) (filter (λ (p : PortMapping). is_due now (before p.port)) ports)

  abbrev HasResult : List ProbeResult → PortMapping → Type 0
  HasResult l p = IsOnly (on p) (answer_of probe p) l × (any (on p) l ≡ is_due now (before p.port))

  none_of :
      (q : PortMapping) (ports : List PortMapping)
      → All (DiffersFrom q.port) ports
      → any (on q) (answers ports) ≡ false
  none_of q [] h = refl
  none_of q (p ∷ ports) h =
      if_elim (λ (l : List PortMapping). any (on q) (map (answer_of probe) l) ≡ false)
        (is_due now (before p.port))
        (λ _. ap₂ (λ a b. a || b) (eq_sym q.port p.port h.0) (none_of q ports h.1))
        (λ _. none_of q ports h.1)

  HasResult-head :
      (q : PortMapping) (ports : List PortMapping)
      → All (DiffersFrom q.port) ports
      → HasResult (answers (q ∷ ports)) q
  HasResult-head q ports h =
      let none = none_of q ports h in
      let only = IsOnly-none (on q) (answer_of probe q) (answers ports) none in
      if_elim (λ (l : List PortMapping). HasResult (map (answer_of probe) l) q)
        (is_due now (before q.port))
        (λ e.
          ((λ _. refl, only), ap (λ b. b || any (on q) (answers ports)) (eq_refl q.port) ∙ sym e))
        (λ e. (only, none ∙ sym e))

  HasResult-tail :
      (q : PortMapping) (ports : List PortMapping) (p : PortMapping)
      → DiffersFrom q.port p
      → HasResult (answers ports) p
      → HasResult (answers (q ∷ ports)) p
  HasResult-tail q ports p h fits =
      if_elim (λ (l : List PortMapping). HasResult (map (answer_of probe) l) p)
        (is_due now (before q.port))
        (λ _. ((λ k. cc, fits.0), ap (λ b. b || any (on p) (answers ports)) h ∙ fits.1)) (λ _. fits)

  All-HasResult :
      (ports : List PortMapping) → AreDistinct ports → All (HasResult (answers ports)) ports
  All-HasResult [] h = tt
  All-HasResult (q ∷ ports) h = (
    HasResult-head q ports h.0,
    All-map2 (HasResult-tail q ports) ports h.0 (All-HasResult ports h.1),
  )

  found :
      (l : List ProbeResult) (p : PortMapping) (due : Bool)
      → IsOnly (on p) (answer_of probe p) l
      → any (on p) l ≡ due
      → find (on p) l ≡ (if due then some (answer_of probe p) else none)
  found l p true only h = find-IsOnly (on p) (answer_of probe p) l only h
  found l p false only h = find-none (on p) l h

  pub collect-HasAnswer :
      (collect : List ProbeResult → List ProbeResult) (ports : List PortMapping)
      → Reorders collect
      → AreDistinct ports
      → All (HasAnswer (collect (answers ports))) ports
  collect-HasAnswer collect ports reorders distinct =
      All-map (answer_for (answers ports) (reorders (answers ports))) ports
        (All-HasResult ports distinct)
    where
      answer_for :
          (l : List ProbeResult)
          → Permᴰ l (collect l)
          → (p : PortMapping) → HasResult l p
          → HasAnswer (collect l) p
      answer_for l order p fits =
          found (collect l) p (is_due now (before p.port))
            (All-Permᴰ (λ r. on p r ≡ true → r ≡ answer_of probe p) order fits.0)
            (sym (any-Permᴰ (on p) order) ∙ fits.1)
