-- ===== src/Prelude/Results.antt =====
-- `Result` with a displayed error.
use Prim.Native.String.{String}

pub data Result (A : Type 0) : Type 0 where
  ok : A → Result A
  err : String → Result A
