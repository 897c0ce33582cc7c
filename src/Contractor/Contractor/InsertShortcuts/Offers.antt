-- ===== src/Contractor/Contractor/InsertShortcuts/Offers.antt =====
-- What an edge of a node is good for: a way to a target, in some directions, no longer than a distance.
use osrm_backend.Prelude.{
  ℕ, zero, suc, ◌+◌, ◌≤◌, ◌<◌, ◌≡◌, ◌⊎◌, inl, inr, refl, ◌∙◌, Bool, true, false, ◌&&◌, ◌||◌, arith,
  List, [], ◌∷◌, leb, ◌==◌, Bool-cases,
}
use mathlib.Core.Path.{subst}
use mathlib.Core.List.{Perm, Permᴰ}
use mathlib.Core.Logic.{∥∥₁_elim}
use mathlib.Core.Bool.{Bool-set}
use osrm_backend.DataStructures.DynamicGraph.{Edge}
use osrm_backend.DataStructures.DynamicGraph.Slices.{slice}
use osrm_backend.Contractor.Contractor.{ContractorEdgeData}
use osrm_backend.Contractor.Contractor.ContractNode.{same_flag}

pub true_right : (a : Bool) → (a || true) ≡ true
true_right true = refl
true_right false = refl

module _ (target : ℕ) (forward backward : Bool) (distance : ℕ) where
  abbrev pub offers : Edge ContractorEdgeData → Bool
  offers e =
      e.target == target
      && (same_flag forward e.stored.forward
          && (same_flag backward e.stored.backward && leb e.stored.distance distance))

  unfoldable pub offered : List (Edge ContractorEdgeData) → Bool
  offered [] = false
  offered (e ∷ es) = offers e || offered es

  either_order : (a b c : Bool) → a || (b || c) ≡ b || (a || c)
  either_order true true c = refl
  either_order true false c = refl
  either_order false b c = refl

  Permᴰ-offered :
      {es es' : List (Edge ContractorEdgeData)} → Permᴰ es es' → offered es ≡ offered es'
  unfolding offered
  Permᴰ-offered Permᴰ.nil = refl
  Permᴰ-offered (Permᴰ.cons e p) = rw (e, Permᴰ-offered p) refl
  Permᴰ-offered (Permᴰ.swap {l = l} e f) = rw (e, f) (either_order _ _ (offered l))
  Permᴰ-offered (Permᴰ.trans p q) = Permᴰ-offered p ∙ Permᴰ-offered q

  -- The order of the edges makes no difference.
  pub Perm-offered :
      {es es' : List (Edge ContractorEdgeData)} → Perm es es' → offered es ≡ offered es'
  Perm-offered p = ∥∥₁_elim p (Bool-set _ _) Permᴰ-offered

  pub offered-cons :
      (e : Edge ContractorEdgeData) (es : List (Edge ContractorEdgeData))
      → offered (e ∷ es) ≡ offers e || offered es
  unfolding offered
  offered-cons e es = refl

  pub offered_at :
      (f : ℕ → Edge ContractorEdgeData) (a n j : ℕ)
      → a ≤ j
      → j < a + n
      → offers (f j) ≡ true
      → offered (slice f a n) ≡ true
  unfolding offered
  offered_at f a zero j p q t = absurd (omega (arith, p, q))
  offered_at f a (suc n) j p q t = elim (Bool-cases (j == a)) [
    | inl same ↦
        let z : j ≡ a = ground (arith, same) in rw (subst (λ x. offers (f x) ≡ true) z t) refl
    | inr other ↦
        rw (offered_at f (a + 1) n j (ground (arith, p, other)) (omega (arith, q)) t)
          (true_right (offers (f a)))
  ]

  -- Whatever an edge of the first range offers, the edge in its place offers too, or `X`.
  pub offered-slices :
      {X : Type 0} (f g : ℕ → Edge ContractorEdgeData) (a n : ℕ)
      → ((j : ℕ) → a ≤ j → j < a + n → offers (f j) ≡ true → (offers (g j) ≡ true) ⊎ X)
      → offered (slice f a n) ≡ true
      → (offered (slice g a n) ≡ true) ⊎ X
  unfolding offered
  offered-slices f g a zero h t = inl t
  offered-slices f g a (suc n) h t = elim (Bool-cases (offers (f a))) [
    | inl here ↦ elim (h a (omega arith) (omega arith) here) [
      | inl e ↦ inl (rw e refl)
      | inr x ↦ inr x
    ]
    | inr other ↦
        elim (offered-slices f g (a + 1) n (λ j p q. h j (omega (arith, p)) (omega (arith, q)))
          (rw other at t)) [ inl e ↦ inl (rw e (true_right (offers (g a)))) | inr x ↦ inr x ]
  ]
