-- ===== src/Contractor/Contractor/InsertShortcuts/Insert.antt =====
-- Inserting the noted edges: what the graph offers after it.
use osrm_backend.Prelude.{
  ℕ, zero, suc, ◌+◌, ◌≤◌, ◌<◌, ◌≡◌, ◌≢◌, ◌⊎◌, inl, inr, refl, ◌∙◌, Bool, true, arith, ltb, ◌==◌,
  Array, Returns, done, Returns-weaken, Returns->>=, Bool-cases,
}
use mathlib.Core.Path.{subst}
use osrm_backend.DataStructures.DynamicGraph.{Edge, DynamicGraph, no_node}
use osrm_backend.DataStructures.DynamicGraph.Valid.{IsValid}
use osrm_backend.Contractor.Contractor.{ContractorEdgeData, ContractorEdge}
use osrm_backend.Contractor.Contractor.InsertShortcuts.{insert_shortcuts}
use osrm_backend.Contractor.Contractor.InsertShortcuts.Step.{Offered, Carries, insert_shortcut_lem}

-- What the graph offers after `n` of the edges have been inserted, from `i` on.
pub record Merged (edges : Array ContractorEdge) (i n : ℕ) (g g' : DynamicGraph ContractorEdgeData)
    : Type 0 where
  pub valid : IsValid g'
  pub same_nodes : g'.node_list.size ≡ g.node_list.size
  pub more :
      (s t : ℕ) (f b : Bool) (d : ℕ)
      → s < g.node_list.size
      → Offered g s t f b d
      → Offered g' s t f b d
  pub has :
      (k : ℕ)
      → i ≤ k
      → k < i + n
      → Offered g'
          (edges.at k).source
          (edges.at k).target
          (edges.at k).stored.forward
          (edges.at k).stored.backward
          (edges.at k).stored.distance
  pub only :
      (s t : ℕ) (f b : Bool) (d : ℕ)
      → s < g.node_list.size
      → Offered g' s t f b d
      → Offered g s t f b d ⊎ ((k : ℕ) × (k < i + n) × Carries (edges.at k) s t f b d)

-- The edges lead from nodes of the graph to something other than the dummy.
pub record Proper (edges : Array ContractorEdge) (g : DynamicGraph ContractorEdgeData)
    : Type 0 where
  pub sources : (k : ℕ) → k < edges.size → (edges.at k).source < g.node_list.size
  pub targets : (k : ℕ) → k < edges.size → (edges.at k).target ≢ no_node

-- Inserting noted edges, which lead from nodes of a valid graph to anything but the dummy, returns and
-- keeps the graph valid. Each noted edge, and each edge that was in the graph, then has an edge
-- between the same nodes with the same flags that is no longer; and no edge of the graph offers
-- anything that an edge of the graph before or a noted edge did not offer.
pub insert_shortcuts_correct :
    (blank : Edge ContractorEdgeData) (n i : ℕ) (edges : Array ContractorEdge)
    (g : DynamicGraph ContractorEdgeData)
    → IsValid g
    → Proper edges g
    → i + n ≤ edges.size
    → Returns (Merged edges i n g) (insert_shortcuts blank n i edges g)
unfolding insert_shortcuts
insert_shortcuts_correct blank zero i edges g val proper fit = done (record {
  valid = val;
  same_nodes = refl;
  more = λ s t f b d r o. o;
  has = λ k p q. absurd (omega (arith, p, q));
  only = λ s t f b d r o. inl o;
})
insert_shortcuts_correct blank (suc n) i edges g val proper fit =
    let inside : ltb i edges.size ≡ true = ground (arith, fit) in
    let edge = edges.at i in
    let here : i < edges.size = omega (arith, fit) in
    rw inside (
      Returns->>=
        (insert_shortcut_lem edge g val (proper.sources i here) blank (proper.targets i here))
        (λ g₁ one.
          let size : (s : ℕ) → s < g.node_list.size → s < g₁.node_list.size =
            λ s r. omega (arith, r, one.same_nodes) in
          Returns-weaken
            (insert_shortcuts_correct blank n (i + 1) edges g₁ one.valid
              (record { sources = λ k p. size _ (proper.sources k p); targets = proper.targets })
              (omega (arith, fit)))
            (λ g' m. record {
              valid = m.valid;
              same_nodes = m.same_nodes ∙ one.same_nodes;
              more = λ s t f b d r o. m.more s t f b d (size s r) (one.more s t f b d r o);
              has = λ k p q. elim (Bool-cases (k == i)) [
                | inl e ↦
                    let z : i ≡ k = ground (arith, e) in
                    subst
                      (λ x.
                        Offered g' (edges.at x).source (edges.at x).target
                          (edges.at x).stored.forward (edges.at x).stored.backward
                          (edges.at x).stored.distance)
                      z (m.more _ _ _ _ _ (size _ (proper.sources i here)) one.has)
                | inr e ↦ m.has k (ground (arith, e, p)) (omega (arith, q))
              ];
              only = λ s t f b d r o. elim (m.only s t f b d (size s r) o) [
                | inr (k, p, c) ↦ inr (k, omega (arith, p), c)
                | inl o' ↦ elim (one.only s t f b d r o') [
                  | inl o'' ↦ inl o''
                  | inr c ↦ inr (i, omega arith, c)
                ]
              ];
            })))
