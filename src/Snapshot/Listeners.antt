-- ===== src/Snapshot/Listeners.antt =====
-- Ports and routes against the listeners that Resin has.
use egress_apikey.Prelude.{
  ℕ, ◌≡◌, refl, sym, ap, if_elim, ==_iff, ◌∙◌, Bool, true, false, ◌&&◌, ◌||◌, not, List, [], ◌∷◌,
  map, any, arith, ◌==◌,
}
use mathlib.Core.Path.{ap₂}
use egress_apikey.Prelude.SortBy.{any-sort_by}
use egress_apikey.Snapshot.{PortMapping, PortSnapshot, port_consistent, port_missing_on_resin}
use egress_apikey.Snapshot.Merges.{has_port, port_entry, port_less, merge_ports}

abbrev pub is_missing_port : ℕ → PortSnapshot → Bool
is_missing_port p (port_missing_on_resin m _ _) = m.port == p
is_missing_port p (port_consistent _ _) = false

-- The test for one port, by what holds of it: `here` is `has_port` of the mapping's own port.
listening :
    (at enabled there here : Bool)
    → (at ≡ true → there ≡ here)
    → here ≡ true
    → false ≡ (at && (enabled && not there))
listening false enabled there here h k = refl
listening true enabled there here h k = rw (h refl ∙ k) (ground arith)

silent :
    (at there here : Bool)
    → (at ≡ true → there ≡ here)
    → here ≡ false
    → at ≡ (at && (true && not there))
silent false there here h k = refl
silent true there here h k = rw (h refl ∙ k) refl

disabled : (at there enabled : Bool) → enabled ≡ false → false ≡ (at && (enabled && not there))
disabled at there enabled k = rw k (ground arith)

missing-entry :
    (p : ℕ) (resin_ports : List ℕ) (m : PortMapping)
    → is_missing_port p (port_entry resin_ports m)
      ≡ ((m.port == p) && (m.enabled && not (has_port resin_ports p)))
missing-entry p resin_ports m =
    let same =
      λ (e : (m.port == p) ≡ true). ap (has_port resin_ports) (sym ((==_iff m.port p).0 e)) in
    if_elim
      (λ x. is_missing_port p x ≡ ((m.port == p) && (m.enabled && not (has_port resin_ports p))))
      (has_port resin_ports m.port)
      (λ h.
        listening (m.port == p) m.enabled (has_port resin_ports p) (has_port resin_ports m.port)
          same h)
      (λ h.
        if_elim
          (λ x.
            is_missing_port p x ≡ ((m.port == p) && (m.enabled && not (has_port resin_ports p))))
          m.enabled
          (λ on.
            rw on
              (silent (m.port == p) (has_port resin_ports p) (has_port resin_ports m.port) same h))
          (λ off. disabled (m.port == p) (has_port resin_ports p) m.enabled off))

any-missing :
    (p : ℕ) (resin_ports : List ℕ) (whitebox : List PortMapping)
    → any (is_missing_port p) (map (port_entry resin_ports) whitebox)
      ≡ any
          (λ (m : PortMapping). (m.port == p) && (m.enabled && not (has_port resin_ports p)))
          whitebox
any-missing p resin_ports [] = refl
any-missing p resin_ports (m ∷ whitebox) =
    ap₂ (λ a b. a || b) (missing-entry p resin_ports m) (any-missing p resin_ports whitebox)

-- A port is reported missing exactly when an enabled mapping has it and Resin does not listen on it.
pub merge_ports-missing :
    (p : ℕ) (resin_ports : List ℕ) (whitebox : List PortMapping)
    → any (is_missing_port p) (merge_ports whitebox resin_ports)
      ≡ any
          (λ (m : PortMapping). (m.port == p) && (m.enabled && not (has_port resin_ports p)))
          whitebox
unfolding merge_ports
merge_ports-missing p resin_ports whitebox =
    any-sort_by (is_missing_port p) port_less (map (port_entry resin_ports) whitebox)
    ∙ any-missing p resin_ports whitebox
