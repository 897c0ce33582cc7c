-- ===== src/Contractor/Contractor/Round/Paths.antt =====
-- Paths in the contractor's graph, along edges that can be taken forward.
use osrm_backend.Prelude.{
  ℕ, zero, suc, ◌+◌, ◌≤◌, ◌<◌, ◌≡◌, ◌≢◌, inl, inr, refl, Bool, true, arith, leb, ◌==◌, Bool-cases,
}
use osrm_backend.DataStructures.DynamicGraph.{Edge, DynamicGraph}
use osrm_backend.DataStructures.DynamicGraph.Slices.{slice, Within}
use osrm_backend.Contractor.Contractor.{ContractorEdgeData}
use osrm_backend.Contractor.Contractor.InsertShortcuts.Offers.{offers, offered, offered_at}
use osrm_backend.Contractor.Contractor.InsertShortcuts.Step.{Offered, same_flag_refl}

module _ (g : DynamicGraph ContractorEdgeData) (source : ℕ) where
  -- A path that is no longer than the number.
  pub data Route : ℕ → ℕ → Type 0 where
    at_source : Route source 0
    taken_on :
        {u v w : ℕ} → Route u w → (b : Bool) (c : ℕ) → Offered g u v true b c → Route v (w + c)

  -- A path that does not come to the node.
  pub data Around (node : ℕ) : ℕ → ℕ → Type 0 where
    begin : Around node source 0
    further :
        {u v w : ℕ}
        → Around node u w
        → v ≢ node
        → (b : Bool) (c : ℕ) → Offered g u v true b c
        → Around node v (w + c)

module _ (t : ℕ) (f b : Bool) (d : ℕ) where
  -- The edge that offers it.
  pub offered-find :
      (F : ℕ → Edge ContractorEdgeData) (a n : ℕ)
      → offered t f b d (slice F a n) ≡ true
      → (j : ℕ) × ((a ≤ j) × (j < a + n)) × (offers t f b d (F j) ≡ true)
  unfolding offered
  offered-find F a zero o = absurd (ground (arith, o))
  offered-find F a (suc n) o = elim (Bool-cases (offers t f b d (F a))) [
    | inl e ↦ (a, (omega arith, omega arith), e)
    | inr e ↦
        let (j, w, c) = offered-find F (a + 1) n (rw e at o) in
        (j, (omega (arith, w), omega (arith, w)), c)
  ]

module _ (g : DynamicGraph ContractorEdgeData) where
  -- An edge of `u` to `v` that can be taken forward.
  pub record Forward (u v d : ℕ) : Type 0 where
    pub edge : ℕ
    pub within : Within (g.node_list.at u) edge
    pub leads : (g.edge_list.at edge).target ≡ v
    pub flagged : (g.edge_list.at edge).stored.forward ≡ true
    pub short : (g.edge_list.at edge).stored.distance ≤ d

  pub Offered-Forward : (u v : ℕ) (b : Bool) (d : ℕ) → Offered g u v true b d → Forward u v d
  Offered-Forward u v b d o =
      let (j, w, c) = offered-find v true b d g.edge_list.at _ _ o in
      record {
        edge = j;
        within = w;
        leads = ground (arith, c);
        flagged = ground (arith, c);
        short = ground (arith, c);
      }

  pub Forward-Offered :
      (u v d : ℕ) (e : Forward u v d) → Offered g u v true (g.edge_list.at e.edge).stored.backward d
  Forward-Offered u v d e =
      let b = (g.edge_list.at e.edge).stored.backward in
      let here : ((g.edge_list.at e.edge).target == v) ≡ true = ground (arith, e.leads) in
      let le : leb (g.edge_list.at e.edge).stored.distance d ≡ true = ground (arith, e.short) in
      offered_at v true b d g.edge_list.at _ _ e.edge e.within.0 e.within.1
        (rw (here, e.flagged, same_flag_refl b, le) refl)
