-- ===== src/Contractor/Contractor/Independence/Bias.antt =====
-- The tie between two nodes of the same priority is broken in favour of one of them.
use osrm_backend.DataStructures.XorFastHash.{Filled}
use osrm_backend.Prelude.{
  ℕ, ◌≡◌, ◌≢◌, ap, Bool, true, false, some, arith, ltb, ◌==◌, if◌then◌else◌, Returns, done,
  Returns->>=, value_of,
}
use mathlib.Core.Bool.{not}
use osrm_backend.DataStructures.XorFastHash.{XorFastHash, fast_hash_lem}
use osrm_backend.Contractor.Contractor.Independence.{bias}

pub bias-Returns : (h : XorFastHash) (a b : ℕ) → Filled h → Returns (λ _. ℕ) (bias h a b)
unfolding bias
bias-Returns h a b filled =
    Returns->>= (fast_hash_lem h a filled.table1_le filled.table2_le)
      (λ x p. Returns->>= (fast_hash_lem h b filled.table1_le filled.table2_le) (λ y q. done 0))

first_of : ℕ → ℕ → ℕ → ℕ → Bool
first_of x y a b = if not (x == y) then ltb x y else ltb a b

first_of_total : (x y a b : ℕ) → a ≢ b → first_of x y a b ≡ false → first_of y x b a ≡ true
unfolding first_of
first_of_total x y a b other e = ground (arith, other, e)

-- Of two nodes one comes first.
pub bias_total :
    (h : XorFastHash) (a b : ℕ)
    → Filled h
    → a ≢ b
    → bias h a b ≡ some false
    → bias h b a ≡ some true
unfolding bias first_of
bias_total h a b filled other e =
    let (x, p, r) = value_of (fast_hash_lem h a filled.table1_le filled.table2_le) in
    let (y, q, s) = value_of (fast_hash_lem h b filled.table1_le filled.table2_le) in
    let f : some (first_of x y a b) ≡ some false = rw (p, q) at e in
    rw (q, p) (ap (λ c. some c) (first_of_total x y a b other (ground (arith, f))))
