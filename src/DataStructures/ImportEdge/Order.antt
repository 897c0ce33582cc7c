-- ===== src/DataStructures/ImportEdge/Order.antt =====
-- Both orders are what a sort needs.
use osrm_backend.Prelude.{◌≡◌, Bool, true, false, arith}
use osrm_backend.DataStructures.ImportEdge.{node_lt, edge_lt}

-- A strict weak order: no element is before itself, and being before, and being in no order, are
-- transitive.
pub record IsStrictWeak {A : Type 0} (lt : A → A → Bool) : Type 0 where
  pub irrefl : (a : A) → lt a a ≡ false
  pub trans : (a b c : A) → lt a b ≡ true → lt b c ≡ true → lt a c ≡ true
  pub apart : (a b c : A) → lt a b ≡ false → lt b c ≡ false → lt a c ≡ false

-- The order of NodeBasedEdge is a strict weak order.
pub node_lt-IsStrictWeak : IsStrictWeak node_lt
unfolding node_lt
node_lt-IsStrictWeak = record {
  irrefl = λ a. ground arith;
  trans = λ a b c p q. ground arith;
  apart = λ a b c p q. ground arith;
}

-- The order of EdgeBasedEdge is a strict weak order.
pub edge_lt-IsStrictWeak : IsStrictWeak edge_lt
unfolding edge_lt
edge_lt-IsStrictWeak = record {
  irrefl = λ a. ground arith;
  trans = λ a b c p q. ground arith;
  apart = λ a b c p q. ground arith;
}
