-- ===== src/Contractor/Contractor/Round/Distances.antt =====
-- Contracting a node keeps the distances between all other nodes.
use osrm_backend.Prelude.{
  ℕ, ◌+◌, ◌-◌, ◌≤◌, ◌<◌, ◌≡◌, ◌≢◌, ◌⊎◌, inl, inr, sym, ◌∙◌, Bool, true, arith, ◌==◌, Array,
  Bool-cases,
}
use mathlib.Core.Path.{subst}
use osrm_backend.DataStructures.DynamicGraph.{DynamicGraph}
use osrm_backend.DataStructures.DynamicGraph.Slices.{Within}
use osrm_backend.Contractor.Contractor.{ContractorEdgeData, ContractorEdge}
use osrm_backend.Contractor.Contractor.WitnessSearch.Walks.{NodeGraph, Walk, start, onward}
use osrm_backend.Contractor.Contractor.ContractNode.Shortcuts.{
  edge_at, Incoming, Outgoing, Sound, Covered, Via,
}
use osrm_backend.Contractor.Contractor.DeleteIncoming.Emptied.{Isolated}
use osrm_backend.Contractor.Contractor.InsertShortcuts.Insert.{Merged}
use osrm_backend.Contractor.Contractor.InsertShortcuts.Step.{Offered}
use osrm_backend.Contractor.Contractor.Round.Paths.{
  Route, at_source, taken_on, Around, begin, further, Forward, Offered-Forward, Forward-Offered,
}
use osrm_backend.Contractor.Contractor.Round.Kept.{Shrinks-offered, Shrinks-offered_back}

-- Each edge has an edge back that is as long, with the flags exchanged.
pub record Mirrored (g : DynamicGraph ContractorEdgeData) (u j : ℕ) : Type 0 where
  pub edge : ℕ
  pub within : Within (g.node_list.at (g.edge_list.at j).target) edge
  pub leads : (g.edge_list.at edge).target ≡ u
  pub forward : (g.edge_list.at edge).stored.forward ≡ (g.edge_list.at j).stored.backward
  pub backward : (g.edge_list.at edge).stored.backward ≡ (g.edge_list.at j).stored.forward
  pub distance : (g.edge_list.at edge).stored.distance ≡ (g.edge_list.at j).stored.distance

-- The same elements.
pub record Arranged (a b : Array ContractorEdge) : Type 0 where
  pub from : (k : ℕ) → k < b.size → (j : ℕ) × (j < a.size) × (a.at j ≡ b.at k)
  pub to : (j : ℕ) → j < a.size → (k : ℕ) × (k < b.size) × (b.at k ≡ a.at j)

-- What the three parts of the round leave.
pub record Parts (g : DynamicGraph ContractorEdgeData) (node : ℕ)
    (noted sorted : Array ContractorEdge) (middle final : DynamicGraph ContractorEdgeData)
    : Type 0 where
  pub covered :
      (i j : ℕ)
      → Incoming g node i
      → Outgoing g node j
      → Covered g node 0 noted
          (edge_at g node i).target
          (edge_at g node j).target
          ((edge_at g node i).stored.distance + (edge_at g node j).stored.distance)
  pub sound : (k : ℕ) → k < noted.size → Sound g node (noted.at k)
  pub arranged : Arranged noted sorted
  pub isolated : Isolated node g middle
  pub merged : Merged sorted 0 sorted.size middle final

module _ (g : DynamicGraph ContractorEdgeData) (road : NodeGraph g)
    (mirror : (u j : ℕ) → u < g.node_list.size → Within (g.node_list.at u) j → Mirrored g u j)
    (node : ℕ) (real : node < g.node_list.size) where
  module _ (noted sorted : Array ContractorEdge) (middle final : DynamicGraph ContractorEdgeData)
      (parts : Parts g node noted sorted middle final) where
    -- An edge between other nodes is still offered.
    kept :
        (u v d : ℕ)
        → u < g.node_list.size
        → v ≢ node
        → (e : Forward g u v d) → Offered final u v true (g.edge_list.at e.edge).stored.backward d
    kept u v d p other e =
        let b = (g.edge_list.at e.edge).stored.backward in
        parts.merged.more u v true b d (omega (arith, p, parts.isolated.same_nodes)) (
          Shrinks-offered node v true b d u g middle other (parts.isolated.shrinks u p)
            (Forward-Offered g u v d e))

    -- The shortcuts that were noted are offered.
    noted_offered :
        (k : ℕ)
        → k < noted.size
        → Offered final
            (noted.at k).source
            (noted.at k).target
            (noted.at k).stored.forward
            (noted.at k).stored.backward
            (noted.at k).stored.distance
    noted_offered k q =
        let (h, r, same) = parts.arranged.to k q in
        subst
          (λ e.
            Offered final e.source e.target e.stored.forward e.stored.backward e.stored.distance)
          same (parts.merged.has h (omega arith) (omega (arith, r)))

    module _ (s : ℕ) where
      -- Reached in the contracted graph within `w`.
      pub record Reach (v w : ℕ) : Type 0 where
        pub exist : v < g.node_list.size
        pub other : v ≢ node
        pub length : ℕ
        pub le : length ≤ w
        pub along : Around final s node v length

      Reach-further :
          {u v w : ℕ}
          → Reach u w
          → v < g.node_list.size
          → v ≢ node
          → (b : Bool) (c x : ℕ) → Offered final u v true b c
          → w + c ≤ x
          → Reach v x
      Reach-further r p other b c x o le = record {
        exist = p;
        other = other;
        length = r.length + c;
        le = omega (arith, le, r.le);
        along = further r.along other b c o;
      }

      Reach-Walk : {u v w x : ℕ} → Reach u w → Walk g u node v x → (y : ℕ) → w + x ≤ y → Reach v y
      Reach-Walk r start y le = record {
        exist = r.exist;
        other = r.other;
        length = r.length;
        le = omega (arith, le, r.le);
        along = r.along;
      }
      Reach-Walk {v = v} r (onward {u = u} {c = c} walk l apart) y le =
          let mid = Reach-Walk r walk (y - c) (omega (arith, le)) in
          let p : v < g.node_list.size =
            subst (λ a. a < g.node_list.size) l.leads (road.targets u l.edge mid.exist l.within) in
          let e : Forward g u v c = record {
            edge = l.edge;
            within = l.within;
            leads = l.leads;
            flagged = l.flagged;
            short = omega (arith, l.weighs);
          } in
          Reach-further mid p apart (g.edge_list.at l.edge).stored.backward c y
            (kept u v c mid.exist apart e) (omega (arith, le))

      -- The last step before the node, for a path that has come to it.
      pub record Before (w : ℕ) : Type 0 where
        node_before : ℕ
        length : ℕ
        reach : Reach node_before length
        edge : Forward g node_before node (w - length)
        le : length ≤ w

      abbrev pub Near : ℕ → ℕ → Type 0
      Near v w = Reach v w ⊎ ((v ≡ node) × Before w)

      -- From the node before over the node to the next.
      Before-next :
          {v w c : ℕ}
          → Before w
          → Forward g node v c
          → v ≢ node
          → v < g.node_list.size
          → Reach v (w + c)
      Before-next {v} {w} {c} b e other p =
          let u = b.node_before in
          let m = mirror u b.edge.edge b.reach.exist b.edge.within in
          let i = m.edge in
          let at_node : Within (g.node_list.at node) i =
            subst (λ x. Within (g.node_list.at x) i) b.edge.leads m.within in
          let sum = (g.edge_list.at i).stored.distance + (g.edge_list.at e.edge).stored.distance in
          let total : b.length + sum ≤ w + c =
            omega (arith, m.distance, b.edge.short, b.le, e.short) in
          elim (parts.covered i e.edge (at_node, m.backward ∙ b.edge.flagged)
            (e.within, e.flagged)) [
              | inl (x, walk, le) ↦
                  let walk' : Walk g u node v x =
                    subst (λ a. Walk g a node v x) m.leads
                      (subst (λ a. Walk g (g.edge_list.at i).target node a x) e.leads walk) in
                  Reach-Walk b.reach walk' (w + c) (omega (arith, le, total))
              | inr ((k, _, q, source, target, distance, _, flag), back) ↦
                  let o =
                    subst
                      (λ a.
                        Offered final a (noted.at k).target (noted.at k).stored.forward
                          (noted.at k).stored.backward (noted.at k).stored.distance)
                      (source ∙ m.leads) (noted_offered k q) in
                  let o' =
                    subst
                      (λ a.
                        Offered final u a (noted.at k).stored.forward (noted.at k).stored.backward
                          (noted.at k).stored.distance)
                      (target ∙ e.leads) o in
                  let o'' =
                    subst
                      (λ a.
                        Offered final u v a (noted.at k).stored.backward
                          (noted.at k).stored.distance)
                      flag o' in
                  Reach-further b.reach p other (noted.at k).stored.backward
                    (noted.at k).stored.distance (w + c) o'' (omega (arith, distance, total))
            ]

      pub Route-Near : {v w : ℕ} → s < g.node_list.size → s ≢ node → Route g s v w → Near v w
      Route-Near p other at_source =
          inl (record { exist = p; other = other; length = 0; le = omega arith; along = begin })
      Route-Near {v} p other (taken_on {u = u} {w = w} r b c o) =
          let e = Offered-Forward g u v b c o in
          elim (Route-Near p other r) [
            | inl reach ↦
                let q : v < g.node_list.size =
                  subst (λ a. a < g.node_list.size) e.leads
                    (road.targets u e.edge reach.exist e.within) in
                elim (Bool-cases (v == node)) [
                  | inl y ↦
                      let z : v ≡ node = ground (arith, y) in
                      inr (
                        z,
                        record {
                          node_before = u;
                          length = w;
                          reach = reach;
                          edge = record {
                            edge = e.edge;
                            within = e.within;
                            leads = e.leads ∙ z;
                            flagged = e.flagged;
                            short = omega (arith, e.short);
                          };
                          le = omega arith;
                        },
                      )
                  | inr y ↦
                      let away : v ≢ node = λ z. ground (arith, y, z) in
                      inl (
                        Reach-further reach q away (g.edge_list.at e.edge).stored.backward c (w + c)
                          (kept u v c reach.exist away e) (omega arith))
                ]
            | inr (z, before) ↦
                let e' : Forward g node v c = subst (λ a. Forward g a v c) z e in
                let q : v < g.node_list.size =
                  subst (λ a. a < g.node_list.size) e'.leads
                    (road.targets node e'.edge real e'.within) in
                elim (Bool-cases (v == node)) [
                  | inl y ↦
                      let f = before.edge in
                      inr (
                        ground (arith, y),
                        record {
                          node_before = before.node_before;
                          length = before.length;
                          reach = before.reach;
                          edge = record {
                            edge = f.edge;
                            within = f.within;
                            leads = f.leads;
                            flagged = f.flagged;
                            short = omega (arith, f.short);
                          };
                          le = omega (arith, before.le);
                        },
                      )
                  | inr y ↦ inl (Before-next before e' (λ z'. ground (arith, y, z')) q)
                ]
          ]

      -- Reached in the graph before within `w`.
      pub record Origin (v w : ℕ) : Type 0 where
        pub exist : v < g.node_list.size
        pub length : ℕ
        pub le : length ≤ w
        pub along : Route g s v length

      -- The path that a noted shortcut stands for.
      Via-Origin :
          {u v w : ℕ} → Origin u w → (d c : ℕ) → Via g node u v d → d ≤ c → Origin v (w + c)
      Via-Origin {u} {v} {w} r d c via le =
          let m = mirror node via.in_edge real via.incoming.0 in
          let first : Forward g u node (g.edge_list.at via.in_edge).stored.distance = record {
            edge = m.edge;
            within = subst (λ x. Within (g.node_list.at x) m.edge) via.from m.within;
            leads = m.leads;
            flagged = m.forward ∙ via.incoming.1;
            short = omega (arith, m.distance);
          } in
          let second : Forward g node v (g.edge_list.at via.out_edge).stored.distance = record {
            edge = via.out_edge;
            within = via.outgoing.0;
            leads = via.to;
            flagged = via.outgoing.1;
            short = omega arith;
          } in
          record {
            exist =
                subst (λ a. a < g.node_list.size) via.to
                  (road.targets node via.out_edge real via.outgoing.0);
            length =
                r.length
                + (g.edge_list.at via.in_edge).stored.distance
                + (g.edge_list.at via.out_edge).stored.distance;
            le = omega (arith, r.le, via.length, le);
            along =
                taken_on (taken_on r.along _ _ (Forward-Offered g u node _ first)) _ _
                  (Forward-Offered g node v _ second);
          }

      pub Around-Origin : {v w : ℕ} → s < g.node_list.size → Around final s node v w → Origin v w
      Around-Origin p begin = record { exist = p; length = 0; le = omega arith; along = at_source }
      Around-Origin {v} p (further {u = u} {w = w} a other b c o) =
          let r = Around-Origin p a in
          elim (parts.merged.only u v true b c (omega (arith, r.exist, parts.isolated.same_nodes))
            o) [
              | inl o' ↦
                  let o'' =
                    Shrinks-offered_back node v true b c u g middle
                      (parts.isolated.shrinks u r.exist) o' in
                  let e = Offered-Forward g u v b c o'' in
                  record {
                    exist =
                        subst (λ a. a < g.node_list.size) e.leads
                          (road.targets u e.edge r.exist e.within);
                    length = r.length + c;
                    le = omega (arith, r.le);
                    along = taken_on r.along b c o'';
                  }
              | inr (k, q, z) ↦
                  let (j, q', same) = parts.arranged.from k (omega (arith, q)) in
                  let carries = z.1 in
                  let stands = subst (λ e. Sound g node e) same (parts.sound j q') in
                  let flag : (sorted.at k).stored.forward ≡ true = ground (arith, carries) in
                  let leads : (sorted.at k).target ≡ v = ground (arith, carries) in
                  let le : (sorted.at k).stored.distance ≤ c = ground (arith, carries) in
                  let via =
                    subst (λ a. Via g node a (sorted.at k).target (sorted.at k).stored.distance)
                      (sym z.0) (stands.forth flag) in
                  Via-Origin r (sorted.at k).stored.distance c
                    (subst (λ a. Via g node u a (sorted.at k).stored.distance) leads via) le
            ]
