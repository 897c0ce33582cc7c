-- ===== src/Prelude/Ranges.antt =====
-- What holds of all numbers in a range.
use Prim.Native.Nat.{ℕ, zero, suc, ◌+◌, ◌<◌, ◌≤◌}
use mathlib.Core.Path.{◌≡◌, subst}
use mathlib.Core.Logic.{◌⊎◌, inl, inr}
use mathlib.Core.Bool.{Bool, true, false}
use osrm_backend.Prelude.Tests.{◌==◌, Bool-cases}
use native.Mathlib.Omega.{arith}

-- All numbers from `low` on, below one more.
pub one_more :
    (Q : ℕ → Type 0) (low e : ℕ)
    → ((j : ℕ) → low ≤ j → j < e → Q j)
    → Q e
    → (j : ℕ) → low ≤ j
    → j < e + 1
    → Q j
one_more Q low e all here j p q = elim (Bool-cases (j == e)) [
  | inl same ↦ let z : e ≡ j = ground (arith, same) in subst Q z here
  | inr other ↦ all j p (ground (arith, other, q))
]

-- A test holds everywhere below the bound, or fails somewhere.
pub all_or_one :
    (test : ℕ → Bool) (n : ℕ)
    → ((i : ℕ) → i < n → test i ≡ true) ⊎ ((i : ℕ) × (i < n) × (test i ≡ false))
all_or_one test zero = inl (λ i p. absurd (omega (arith, p)))
all_or_one test (suc n) = elim (all_or_one test n) [
  | inr (i, p, f) ↦ inr (i, omega (arith, p), f)
  | inl all ↦ elim (Bool-cases (test n)) [
    | inr f ↦ inr (n, omega arith, f)
    | inl t ↦ inl (λ i p.
        one_more (λ j. test j ≡ true) 0 n (λ j _ q. all j q) t i (omega arith) (omega (arith, p)))
  ]
]
