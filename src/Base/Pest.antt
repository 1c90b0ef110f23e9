-- ===== src/Base/Pest.antt =====
-- The pairs that a parser of the crate `pest` yields: a rule, the matched text and inner pairs.
pub mod Grammar
use Prim.Native.String.{String}

mutual
  pub data Pair (R : Type 0) : Type 0 where
    pair : R → String → Pairs R → Pair R

  pub data Pairs (R : Type 0) : Type 0 where
    nil : Pairs R
    cons : Pair R → Pairs R → Pairs R
