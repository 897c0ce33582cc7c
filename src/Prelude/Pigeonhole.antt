-- ===== src/Prelude/Pigeonhole.antt =====
-- Different values below a bound are no more than the bound.
use Prim.Native.Nat.{ℕ, zero, suc, ◌<◌, ◌≤◌}
use mathlib.Core.Path.{◌≡◌}
use osrm_backend.Prelude.Tests.{◌==◌, if◌then◌else◌}
use native.Mathlib.Omega.{arith}

pub pigeonhole :
    (n m : ℕ) (f : ℕ → ℕ)
    → ((i : ℕ) → i < n → f i < m)
    → ((i j : ℕ) → i < n → j < n → f i ≡ f j → i ≡ j)
    → n ≤ m
pigeonhole zero m f below apart = omega arith
pigeonhole (suc n) zero f below apart = absurd (omega (arith, below n (omega arith)))
pigeonhole (suc n) (suc m) f below apart =
    let g : ℕ → ℕ = λ i. if f i == m then f n else f i in
    let rest : n ≤ m =
      pigeonhole n m g
        (λ i p. ground (
          arith,
          below i (omega arith),
          below n (omega arith),
          apart i n (omega arith) (omega arith),
        ))
        (λ i j p q e. ground (
          arith,
          e,
          apart i j (omega arith) (omega arith),
          apart i n (omega arith) (omega arith),
          apart j n (omega arith) (omega arith),
        )) in
    omega arith
