-- ===== src/Contractor/Contractor/Round/Kept.antt =====
-- What the three parts of the round leave of the edges between the other nodes.
use osrm_backend.Prelude.{
  ℕ, ◌≡◌, ◌≢◌, inl, inr, refl, sym, ◌∙◌, Bool, false, ◌||◌, arith, List, [], ◌∷◌, ◌++◌, ◌==◌,
  Bool-cases,
}
use osrm_backend.DataStructures.DynamicGraph.{Edge, DynamicGraph}
use osrm_backend.DataStructures.DynamicGraph.Valid.{adjacent}
use osrm_backend.DataStructures.DynamicGraph.Drop.{LeadAway, nothing, one_more}
use osrm_backend.Contractor.Contractor.{ContractorEdgeData}
use osrm_backend.Contractor.Contractor.DeleteIncoming.Shrinks.{Shrinks}
use osrm_backend.Contractor.Contractor.InsertShortcuts.Offers.{
  offers, offered, Perm-offered, true_right,
}
use osrm_backend.Contractor.Contractor.InsertShortcuts.Step.{Offered}

module _ (node t : ℕ) (f b : Bool) (d : ℕ) where
  offered-append :
      (xs ys : List (Edge ContractorEdgeData))
      → offered t f b d (xs ++ ys) ≡ offered t f b d xs || offered t f b d ys
  unfolding offered
  offered-append [] ys = refl
  offered-append (x ∷ xs) ys = elim (Bool-cases (offers t f b d x)) [
    | inl e ↦ rw e refl
    | inr e ↦ rw e (offered-append xs ys)
  ]

  LeadAway-offered :
      t ≢ node
      → (es : List (Edge ContractorEdgeData)) → LeadAway node es
      → offered t f b d es ≡ false
  unfolding offered
  LeadAway-offered other [] nothing = refl
  LeadAway-offered other (e ∷ es) (one_more z l) =
      let away : (e.target == t) ≡ false = ground (arith, z, other) in
      rw away (LeadAway-offered other es l)

  -- An edge to another node stays.
  pub Shrinks-offered :
      (s : ℕ) (g g' : DynamicGraph ContractorEdgeData)
      → t ≢ node
      → Shrinks node s g g'
      → Offered g s t f b d
      → Offered g' s t f b d
  unfolding Shrinks
  Shrinks-offered s g g' other (gone, l, p) o =
      let whole = sym (offered-append gone (adjacent s g')) ∙ Perm-offered t f b d p in
      let none = LeadAway-offered other gone l in rw none at (whole ∙ o)

  -- No edge is new.
  pub Shrinks-offered_back :
      (s : ℕ) (g g' : DynamicGraph ContractorEdgeData)
      → Shrinks node s g g'
      → Offered g' s t f b d
      → Offered g s t f b d
  unfolding Shrinks
  Shrinks-offered_back s g g' (gone, l, p) o =
      let whole = sym (offered-append gone (adjacent s g')) ∙ Perm-offered t f b d p in
      sym whole ∙ rw o (true_right (offered t f b d gone))
