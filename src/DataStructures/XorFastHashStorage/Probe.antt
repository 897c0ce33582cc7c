-- ===== src/DataStructures/XorFastHashStorage/Probe.antt =====
-- Where the loop of operator[] ends.
use osrm_backend.Prelude.{
  ℕ, zero, suc, ◌+◌, ◌-◌, ◌%◌, ◌^◌, ◌≤◌, ◌<◌, ◌≡◌, ◌≢◌, inl, inr, refl, sym, ◌∙◌, Bool, true, false,
  arith, ltb, ◌==◌, Returns, done, Bool-cases,
}
use mathlib.Core.Path.{subst}
use osrm_backend.Prelude.Ranges.{one_more}
use osrm_backend.DataStructures.XorFastHash.{table_size}
use osrm_backend.DataStructures.XorFastHashStorage.{XorFastHashStorage, taken, find}

-- The position after `d` rounds.
abbrev pub probe : ℕ → ℕ → ℕ
probe hash d = (hash + d) % 2 ^ 16

module _ (s : XorFastHashStorage) where
  -- The cell is in use since the last Clear.
  abbrev pub current : ℕ → Bool
  current i = (s.positions.at i).time == s.current_timestamp

  -- The cell that the node is looked for in `p`: those on the way are taken by other nodes.
  pub record Way (node hash p : ℕ) : Type 0 where
    pub steps : ℕ
    pub ends : probe hash steps ≡ p
    pub passed : (j : ℕ) → j < steps → taken node s (s.positions.at (probe hash j)) ≡ true

  unfoldable pub Slot : ℕ → ℕ → ℕ → Type 0
  Slot node hash p = (p < 2 ^ 16) × Way node hash p × (taken node s (s.positions.at p) ≡ false)

  -- There is only one such cell.
  pub Slot-unique : (node hash p q : ℕ) → Slot node hash p → Slot node hash q → p ≡ q
  unfolding Slot
  Slot-unique node hash p q (a, v, e) (b, w, f) = elim (Bool-cases (ltb v.steps w.steps)) [
    | inl less ↦
        let x = w.passed v.steps (ground (arith, less)) in
        let y = subst (λ x. taken node s (s.positions.at x) ≡ false) (sym v.ends) e in
        absurd (ground (arith, x, y))
    | inr more ↦ elim (Bool-cases (ltb w.steps v.steps)) [
      | inl less ↦
          let x = v.passed w.steps (ground (arith, less)) in
          let y = subst (λ x. taken node s (s.positions.at x) ≡ false) (sym w.ends) f in
          absurd (ground (arith, x, y))
      | inr same ↦
          let z : v.steps ≡ w.steps = ground (arith, more, same) in
          sym v.ends ∙ subst (λ x. probe hash v.steps ≡ probe hash x) z refl ∙ w.ends
    ]
  ]

  -- The loop from round `k` on, when it comes to a cell that is not in use.
  find_from :
      (fuel node hash k free : ℕ)
      → s.positions.size ≡ table_size
      → ((j : ℕ) → j < k → taken node s (s.positions.at (probe hash j)) ≡ true)
      → k ≤ free
      → free < k + fuel
      → current (probe hash free) ≡ false
      → Returns (Slot node hash) (find fuel node (probe hash k) s)
  unfolding find Slot
  find_from zero node hash k free size passed low high c = absurd (omega (arith, low, high))
  find_from (suc fuel) node hash k free size passed low high c =
      let inside : ltb (probe hash k) s.positions.size ≡ true = ground (arith, size) in
      elim (Bool-cases (taken node s (s.positions.at (probe hash k)))) [
        | inl busy ↦
            let apart : k ≢ free = λ e.
              (let y = subst (λ x. current (probe hash x) ≡ false) (sym e) c in
                ground (arith, busy, y)) in
            let onward : (probe hash k + 1) % 2 ^ 16 % table_size ≡ probe hash (k + 1) =
              omega arith in
            rw (inside, busy, onward)
              (find_from fuel node hash (k + 1) free size
                (λ j p.
                  one_more (λ j. taken node s (s.positions.at (probe hash j)) ≡ true) 0 k
                    (λ j _ q. passed j q) busy j (omega arith) p)
                (omega (arith, low, apart)) (omega (arith, high)) c)
        | inr idle ↦
            rw (inside, idle)
              (done (omega arith, record { steps = k; ends = refl; passed = passed }, idle))
      ]

  -- As long as one of the positions is not in use, the loop ends at the node's cell.
  pub find_lem :
      (node hash free : ℕ)
      → s.positions.size ≡ table_size
      → hash < 2 ^ 16
      → free < 2 ^ 16
      → current free ≡ false
      → Returns (Slot node hash) (find (2 ^ 16) node hash s)
  find_lem node hash free size p q c =
      let away = (free + 2 ^ 16 - hash) % 2 ^ 16 in
      let there : free ≡ probe hash away = omega (arith, p, q) in
      let start : hash ≡ probe hash 0 = omega (arith, p) in
      subst (λ x. Returns (Slot node hash) (find (2 ^ 16) node x s)) (sym start)
        (find_from (2 ^ 16) node hash 0 away size (λ j r. absurd (omega (arith, r))) (omega arith)
          (omega arith) (subst (λ x. current x ≡ false) there c))
