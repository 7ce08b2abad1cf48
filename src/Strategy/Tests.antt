-- ===== src/Strategy/Tests.antt =====
-- Tokens as the program reads them.
use egress_apikey.Prelude.{◌≡◌, refl, some}
use egress_apikey.Strategy.{balanced, parse}

padded_test : parse "  Protocol_Weight\n" ≡ some balanced
unfolding parse
padded_test = refl
