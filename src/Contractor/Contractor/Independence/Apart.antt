-- ===== src/Contractor/Contractor/Independence/Apart.antt =====
-- Nodes that are independent at the same time are more than two edges apart.
use osrm_backend.Prelude.{
  ℕ, ◌≤◌, ◌<◌, ◌≡◌, ◌≢◌, ◌⊎◌, inl, inr, sym, ◌∙◌, Bool, true, false, some, arith, ◌==◌, Array,
  value_of, Bool-cases,
}
use mathlib.Core.Path.{subst}
use osrm_backend.DataStructures.DynamicGraph.{DynamicGraph}
use osrm_backend.DataStructures.DynamicGraph.Slices.{Within}
use osrm_backend.DataStructures.XorFastHash.{XorFastHash}
use osrm_backend.DataStructures.XorFastHash.{Filled}
use osrm_backend.Contractor.Contractor.{ContractorEdgeData}
use osrm_backend.Contractor.Contractor.Edges.{Enclosed, Joined}
use osrm_backend.Contractor.Contractor.Independence.{is_node_independent}
use osrm_backend.Contractor.Contractor.Independence.Bias.{bias_total}
use osrm_backend.Contractor.Contractor.Independence.Waits.{Goes, Alone, is_node_independent_lem}

-- One or two edges from the one node to the other.
abbrev pub NearBy : DynamicGraph ContractorEdgeData → ℕ → ℕ → Type 0
NearBy g a b = Joined g a b ⊎ ((u : ℕ) × Joined g a u × Joined g u b)

NearBy-sym :
    (g : DynamicGraph ContractorEdgeData)
    → ((a b : ℕ) → Joined g a b → Joined g b a)
    → (a b : ℕ) → NearBy g a b
    → NearBy g b a
NearBy-sym g both a b (inl e) = inl (both a b e)
NearBy-sym g both a b (inr (u, e, f)) = inr (u, both u b f, both a u e)

module _ {P : Type 0} (greater near : P → P → Bool) (not_negative : P → Bool) (hash : XorFastHash)
    (priorities : Array P) (filled : Filled hash)
    (positive : (u : ℕ) → u < priorities.size → not_negative (priorities.at u) ≡ true)
    (ordered : (a b : ℕ)
      → a < priorities.size
      → b < priorities.size
      → greater (priorities.at a) (priorities.at b) ≡ false
      → greater (priorities.at b) (priorities.at a) ≡ false
      → near (priorities.at a) (priorities.at b) ≡ true) where
  -- Two nodes cannot both go first.
  Goes-both :
      (a b : ℕ)
      → a < priorities.size
      → b < priorities.size
      → a ≢ b
      → Goes greater near hash priorities a b
      → ¬ (Goes greater near hash priorities b a)
  Goes-both a b p q other (f, tie) (f', tie') =
      let first = bias_total hash a b filled other (tie (ordered a b p q f f')) in
      let second = tie' (ordered b a q p f' f) in ground (arith, first, second)

  module _ (g : DynamicGraph ContractorEdgeData) (road : Enclosed g)
      (sized : g.node_list.size ≤ priorities.size) where
    abbrev AloneAt : ℕ → Type 0
    AloneAt = Alone greater near not_negative hash priorities filled positive g road sized

    Goes-along :
        (a b : ℕ) → a ≢ b → AloneAt a → NearBy g a b → Goes greater near hash priorities a b
    Goes-along a b other alone (inl (j, w, z)) =
        subst (Goes greater near hash priorities a) z (alone.near_by j w (λ e. other (sym e ∙ z)))
    Goes-along a b other alone (inr (u, (i, w, y), (j, w', z))) = elim (Bool-cases (u == a)) [
      | inl same ↦
          let e : u ≡ a = ground (arith, same) in
          let v : Within (g.node_list.at a) j = subst (λ x. Within (g.node_list.at x) j) e w' in
          subst (Goes greater near hash priorities a) z (alone.near_by j v (λ e. other (sym e ∙ z)))
      | inr around ↦
          let v : Within (g.node_list.at (g.edge_list.at i).target) j =
            subst (λ x. Within (g.node_list.at x) j) (sym y) w' in
          subst (Goes greater near hash priorities a) z
            (alone.behind i j w (λ e. ground (arith, around, e, y)) v (λ e. other (sym e ∙ z)))
    ]

    -- Two different nodes that IsNodeIndependent returns true for, in a graph whose edges all have an
    -- edge back, are joined neither by an edge nor by two edges over another node. The priorities are
    -- not negative, and of two of which neither is greater each is near the other; the graph's
    -- edges lead between its nodes, each of which has a priority and, in filled tables, a hash.
    pub independent_nodes_apart :
        ((a b : ℕ) → Joined g a b → Joined g b a)
        → (a b : ℕ) → a < g.node_list.size
        → b < g.node_list.size
        → a ≢ b
        → is_node_independent greater near not_negative hash priorities a g ≡ some true
        → is_node_independent greater near not_negative hash priorities b g ≡ some true
        → ¬ NearBy g a b
    independent_nodes_apart both a b p q other one two path =
        let alone : (c : ℕ)
            → c < g.node_list.size
            → is_node_independent greater near not_negative hash priorities c g ≡ some true
            → AloneAt c =
          λ c r e.
            (let (flag, f, h) = value_of (
                is_node_independent_lem greater near not_negative hash priorities filled positive g
                  road sized c r) in
              h (ground (arith, e, f))) in
        Goes-both a b (omega (arith, p, sized)) (omega (arith, q, sized)) other
          (Goes-along a b other (alone a p one) path)
          (Goes-along b a (λ e. other (sym e)) (alone b q two) (NearBy-sym g both a b path))
