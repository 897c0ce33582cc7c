-- ===== src/Contractor/Contractor/DeleteIncoming/Shrinks.antt =====
-- Edges that are deleted because they lead to the node.
use osrm_backend.Prelude.{
  ℕ, zero, suc, ◌+◌, ◌≤◌, ◌<◌, ◌≡◌, ◌≢◌, ◌⊎◌, inl, inr, sym, arith, List, [], ◌∷◌, ◌++◌, ◌==◌,
  Bool-cases,
}
use mathlib.Core.Path.{subst}
use mathlib.Core.List.{Perm, append_assoc}
use mathlib.Core.List.Perm as Perm
use osrm_backend.DataStructures.DynamicGraph.{Edge, DynamicGraph}
use osrm_backend.DataStructures.DynamicGraph.Slices.{slice}
use osrm_backend.DataStructures.DynamicGraph.Valid.{adjacent}
use osrm_backend.DataStructures.DynamicGraph.Drop.{LeadAway, nothing, LeadAway-append}
use osrm_backend.Contractor.Contractor.{ContractorEdgeData}

module _ (node : ℕ) where
  -- None of the edges leads to the node.
  pub data Avoids : List (Edge ContractorEdgeData) → Type 0 where
    empty : Avoids []
    away :
        {e : Edge ContractorEdgeData} {es : List (Edge ContractorEdgeData)}
        → e.target ≢ node
        → Avoids es
        → Avoids (e ∷ es)

  pub slice-Avoids :
      (f : ℕ → Edge ContractorEdgeData) (a n : ℕ)
      → ((j : ℕ) → a ≤ j → j < a + n → (f j).target ≢ node)
      → Avoids (slice f a n)
  slice-Avoids f a zero h = empty
  slice-Avoids f a (suc n) h =
      away (h a (omega arith) (omega arith))
        (slice-Avoids f (a + 1) n (λ j p q. h j (omega (arith, p)) (omega (arith, q))))

  -- Either none of the edges leads to the node, or one is at hand that does.
  pub avoids_or_leads :
      (f : ℕ → Edge ContractorEdgeData) (a n : ℕ)
      → Avoids (slice f a n) ⊎ ((j : ℕ) × ((a ≤ j) × (j < a + n)) × ((f j).target ≡ node))
  avoids_or_leads f a zero = inl empty
  avoids_or_leads f a (suc n) = elim (Bool-cases ((f a).target == node)) [
    | inl t ↦ inr (a, (omega arith, omega arith), ground (arith, t))
    | inr t ↦ elim (avoids_or_leads f (a + 1) n) [
      | inl rest ↦ inl (away (λ e. ground (arith, t, e)) rest)
      | inr (j, w, e) ↦ inr (j, (omega (arith, w), omega (arith, w)), e)
    ]
  ]

  -- The edges of `v` in the one graph are those in the other and some that lead to the node.
  unfoldable pub Shrinks :
      ℕ → DynamicGraph ContractorEdgeData → DynamicGraph ContractorEdgeData → Type 0
  Shrinks v g g' =
      (gone : List (Edge ContractorEdgeData)) × LeadAway node gone
      × Perm (gone ++ adjacent v g') (adjacent v g)

  pub Shrinks-same :
      (v : ℕ) (g g' : DynamicGraph ContractorEdgeData)
      → adjacent v g' ≡ adjacent v g
      → Shrinks v g g'
  unfolding Shrinks
  Shrinks-same v g g' e = ([], nothing, subst (λ x. Perm x (adjacent v g)) (sym e) Perm.rfl)

  pub Shrinks-trans :
      (v : ℕ) (g g₁ g₂ : DynamicGraph ContractorEdgeData)
      → Shrinks v g g₁
      → Shrinks v g₁ g₂
      → Shrinks v g g₂
  unfolding Shrinks
  Shrinks-trans v g g₁ g₂ (gone, l, p) (gone', l', p') = (
    gone ++ gone',
    LeadAway-append node l l',
    rw (append_assoc gone gone' (adjacent v g₂)) (Perm.trans (Perm.append_left gone p') p),
  )
