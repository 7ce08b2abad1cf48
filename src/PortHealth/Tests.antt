-- ===== src/PortHealth/Tests.antt =====
-- Two rounds over two ports, one of which answers.
use egress_apikey.Prelude.{
  ℕ, ◌*◌, ◌≡◌, refl, Bool, true, false, none, some, List, [], ◌∷◌, ◌==◌, if◌then◌else◌,
}
use egress_apikey.Snapshot.{PortMapping}
use egress_apikey.PortHealth.{
  classify, degraded, dead, restarting, adaptive, Round, start, watch, PortHealthSnapshot,
}
use mathlib.Core.List.Permᴰ
use egress_apikey.PortHealth.Results.{AreDistinct, Reorders}
use egress_apikey.PortHealth.Watch.{Follows, watch-Follows}

abbrev mapped : ℕ → PortMapping
mapped port = record {
  port = port;
  protocol = "mixed";
  platform_name = "p";
  account = "";
  label = "";
  enabled = true;
  auth_required = false;
}

abbrev round : ℕ → Bool → Round
round now hidden = record {
  ports = mapped 17990 ∷ mapped 17991 ∷ [];
  now = now;
  created = now;
  paused = hidden;
  probe = λ port protocol. if port == 17990 then (true, some 12) else (false, none);
  collect = λ results. results;
}

abbrev rounds : List Round
rounds = round 0 false ∷ round (9 * 1000000000) true ∷ round (900 * 1000000000) false ∷ []

abbrev takes : PortHealthSnapshot → Bool
takes s = true

classify_test :
    (classify false 4 ≡ restarting) × (classify false 5 ≡ dead) × (classify true 1 ≡ degraded)
unfolding classify
classify_test = (refl, refl, refl)

two_ports : AreDistinct (mapped 17990 ∷ mapped 17991 ∷ [])
two_ports = ((refl, tt), (tt, tt))

in_order : Reorders (λ results. results)
in_order l = Permᴰ.refl l

watch-Follows_example :
    Follows
      (λ n. 2 * n)
      takes
      0
      start.histories
      rounds
      (watch (λ n. 2 * n) adaptive takes rounds start)
watch-Follows_example =
    watch-Follows (λ n. 2 * n) takes rounds start
      ((in_order, two_ports), ((in_order, two_ports), ((in_order, two_ports), tt))) (λ port. tt)
