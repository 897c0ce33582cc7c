-- ===== src/Contractor/Contractor/InsertShortcuts/Step.antt =====
-- One noted edge, which replaces the data of an edge or is inserted.
use osrm_backend.Prelude.{
  ℕ, ◌+◌, ◌<◌, ◌≡◌, ◌≢◌, ◌⊎◌, inl, inr, refl, sym, ◌∙◌, Bool, true, false, ◌||◌, some, arith, ltb,
  leb, ◌==◌, update, Returns, done, Returns->>=, Bool-cases, ◌>>=◌,
}
use mathlib.Core.Path.{subst}
use osrm_backend.DataStructures.DynamicGraph.{
  Edge, DynamicGraph, no_node, end_edges, get_edge_data, insert_edge,
}
use osrm_backend.DataStructures.DynamicGraph.Slices.{Within}
use osrm_backend.DataStructures.DynamicGraph.Valid.{adjacent, IsValid}
use osrm_backend.DataStructures.DynamicGraph.Insert.{Inserted, insert_edge_correct}
use osrm_backend.DataStructures.DynamicGraph.Find.{find_edge_correct}
use osrm_backend.Contractor.Contractor.{ContractorEdgeData, ContractorEdge}
use osrm_backend.Contractor.Contractor.ContractNode.{same_flag}
use osrm_backend.Contractor.Contractor.InsertShortcuts.{replace_data, improves, insert_shortcut}
use osrm_backend.Contractor.Contractor.InsertShortcuts.Offers.{
  offers, offered, Perm-offered, offered-cons, offered_at, offered-slices,
}

-- The edge as its source has it.
abbrev pub as_edge : ContractorEdge → Edge ContractorEdgeData
as_edge e = record { target = e.target; stored = e.stored }

-- An edge of `s` to `t` with these flags that is no longer than `d`.
abbrev pub Offered : DynamicGraph ContractorEdgeData → ℕ → ℕ → Bool → Bool → ℕ → Type 0
Offered g s t f b d = offered t f b d (adjacent s g) ≡ true

-- What the edge itself offers.
abbrev pub Carries : ContractorEdge → ℕ → ℕ → Bool → Bool → ℕ → Type 0
Carries e s t f b d = (s ≡ e.source) × (offers t f b d (as_edge e) ≡ true)

pub record Step (edge : ContractorEdge) (g g' : DynamicGraph ContractorEdgeData) : Type 0 where
  pub valid : IsValid g'
  pub same_nodes : g'.node_list.size ≡ g.node_list.size
  pub more :
      (s t : ℕ) (f b : Bool) (d : ℕ)
      → s < g.node_list.size
      → Offered g s t f b d
      → Offered g' s t f b d
  pub has :
      Offered g' edge.source edge.target edge.stored.forward edge.stored.backward
        edge.stored.distance
  pub only :
      (s t : ℕ) (f b : Bool) (d : ℕ)
      → s < g.node_list.size
      → Offered g' s t f b d
      → Offered g s t f b d ⊎ Carries edge s t f b d

pub same_flag_refl : (b : Bool) → same_flag b b ≡ true
same_flag_refl true = refl
same_flag_refl false = refl

offers-own :
    (e : ContractorEdge)
    → offers e.target e.stored.forward e.stored.backward e.stored.distance (as_edge e) ≡ true
offers-own e =
    let here : (e.target == e.target) ≡ true = ground arith in
    let le : leb e.stored.distance e.stored.distance ≡ true = ground arith in
    rw (here, same_flag_refl e.stored.forward, same_flag_refl e.stored.backward, le) refl

module _ (edge : ContractorEdge) (g : DynamicGraph ContractorEdgeData) (val : IsValid g)
    (real : edge.source < g.node_list.size) where
  Inserted-Step :
      (end : ℕ) (g' : DynamicGraph ContractorEdgeData)
      → Inserted edge.source (as_edge edge) g end g'
      → Step edge g g'
  Inserted-Step end g' i =
      let whole : (t : ℕ) (f b : Bool) (d : ℕ)
          → offered t f b d (adjacent edge.source g')
            ≡ offers t f b d (as_edge edge) || offered t f b d (adjacent edge.source g) =
        λ t f b d.
          Perm-offered t f b d i.added
          ∙ offered-cons t f b d (as_edge edge) (adjacent edge.source g) in
      let other : (s : ℕ)
          → s < g.node_list.size
          → (s == edge.source) ≡ false
          → adjacent s g' ≡ adjacent s g =
        λ s r e. i.unchanged s r (λ z. ground (arith, e, z)) in
      record {
        valid = i.valid;
        same_nodes = i.same_nodes;
        more = λ s t f b d r o. elim (Bool-cases (s == edge.source)) [
          | inl e ↦
              let z : s ≡ edge.source = ground (arith, e) in
              subst (λ x. Offered g' x t f b d) (sym z)
                (whole t f b d ∙ ground (arith, subst (λ x. Offered g x t f b d) z o))
          | inr e ↦ subst (λ x. offered t f b d x ≡ true) (sym (other s r e)) o
        ];
        has = rw (whole _ _ _ _, offers-own edge) refl;
        only = λ s t f b d r o. elim (Bool-cases (s == edge.source)) [
          | inl e ↦
              let z : s ≡ edge.source = ground (arith, e) in
              let o' = sym (whole t f b d) ∙ subst (λ x. Offered g' x t f b d) z o in
              elim (Bool-cases (offers t f b d (as_edge edge))) [
                | inl c ↦ inr (z, c)
                | inr c ↦ inl (subst (λ x. Offered g x t f b d) (sym z) (rw c at o'))
              ]
          | inr e ↦ inl (subst (λ x. offered t f b d x ≡ true) (other s r e) o)
        ];
      }

  same_flag_trans :
      (f n c : Bool) → same_flag n c ≡ true → same_flag f c ≡ true → same_flag f n ≡ true
  same_flag_trans true true c p q = refl
  same_flag_trans true false true p q = absurd (ground (arith, p))
  same_flag_trans true false false p q = absurd (ground (arith, q))
  same_flag_trans false false c p q = refl
  same_flag_trans false true true p q = absurd (ground (arith, q))
  same_flag_trans false true false p q = absurd (ground (arith, p))

  -- The edge at `id`, with the new data.
  module _ (id : ℕ) (within : Within (g.node_list.at edge.source) id)
      (leads : (g.edge_list.at id).target ≡ edge.target)
      (better : improves edge.stored (g.edge_list.at id).stored ≡ true) where
    abbrev old : Edge ContractorEdgeData
    old = g.edge_list.at id

    abbrev new : Edge ContractorEdgeData
    new = record old { stored = edge.stored }

    abbrev replaced : DynamicGraph ContractorEdgeData
    replaced = record g { edge_list = record (g.edge_list) { at = update g.edge_list.at id new } }

    better_offers :
        (t : ℕ) (f b : Bool) (d : ℕ) → offers t f b d old ≡ true → offers t f b d new ≡ true
    better_offers t f b d o =
        let first : same_flag edge.stored.forward old.stored.forward ≡ true =
          ground (arith, better) in
        let second : same_flag edge.stored.backward old.stored.backward ≡ true =
          ground (arith, better) in
        let less : edge.stored.distance < old.stored.distance = ground (arith, better) in
        let p : same_flag f old.stored.forward ≡ true = ground (arith, o) in
        let q : same_flag b old.stored.backward ≡ true = ground (arith, o) in
        let p' = same_flag_trans f edge.stored.forward old.stored.forward first p in
        let q' = same_flag_trans b edge.stored.backward old.stored.backward second q in
        let here : (old.target == t) ≡ true = ground (arith, o) in
        let short : leb edge.stored.distance d ≡ true = ground (arith, o, less) in
        rw (here, p', q', short) refl

    replaced-Step : Step edge g replaced
    replaced-Step = record {
      valid = record {
        inside = val.inside;
        apart = val.apart;
        real = λ u j p w. elim (Bool-cases (j == id)) [
          | inl e ↦
              let z : id ≡ j = ground (arith, e) in
              rw e (subst (λ x. (g.edge_list.at x).target ≢ no_node) (sym z) (val.real u j p w))
          | inr e ↦ rw e (val.real u j p w)
        ];
      };
      same_nodes = refl;
      more = λ s t f b d r o.
          elim (offered-slices t f b d {X = ⊥} g.edge_list.at replaced.edge_list.at _ _
            (λ j p q c. elim (Bool-cases (j == id)) [
              | inl e ↦
                  let z : j ≡ id = ground (arith, e) in
                  inl (
                    rw e (
                      better_offers t f b d
                        (subst (λ x. offers t f b d (g.edge_list.at x) ≡ true) z c)))
              | inr e ↦ inl (rw e c)
            ])
            o) [ inl x ↦ x | inr x ↦ absurd x ];
      has =
          let here : (id == id) ≡ true = ground arith in
          offered_at edge.target edge.stored.forward edge.stored.backward edge.stored.distance
            replaced.edge_list.at _ _ id within.0 within.1 (rw (here, leads) (offers-own edge));
      only = λ s t f b d r o.
          offered-slices t f b d replaced.edge_list.at g.edge_list.at _ _
            (λ j p q c. elim (Bool-cases (j == id)) [
              | inl e ↦
                  let z : j ≡ id = ground (arith, e) in
                  inr (
                    val.apart s edge.source id r real (ground (arith, p, z), ground (arith, q, z))
                        within,
                    rw (← leads) (rw e at c),
                  )
              | inr e ↦ inl (rw e at c)
            ])
            o;
    }

  pub insert_shortcut_lem :
      (blank : Edge ContractorEdgeData)
      → edge.target ≢ no_node
      → Returns (Step edge g) (insert_shortcut blank edge g)
  unfolding insert_shortcut end_edges get_edge_data replace_data
  insert_shortcut_lem blank proper =
      let n = g.node_list.at edge.source in
      let there : ltb edge.source g.node_list.size ≡ true = ground (arith, real) in
      let inserted : Returns (Step edge g)
          (insert_edge blank edge.source edge.target edge.stored g >>= λ p. some p.1) =
        Returns->>=
          (insert_edge_correct edge.source edge.target edge.stored g val real proper blank)
          (λ p i. done (Inserted-Step p.0 p.1 i)) in
      Returns->>= (find_edge_correct edge.source edge.target g val real) (λ id found.
        rw there (elim (Bool-cases (ltb id (n.first_edge + n.edges))) [
          | inr none ↦ rw none inserted
          | inl hit ↦
              let below : id < n.first_edge + n.edges = ground (arith, hit) in
              let inside : ltb id g.edge_list.size ≡ true =
                ground (arith, hit, val.inside edge.source real) in
              elim (Bool-cases (improves edge.stored (g.edge_list.at id).stored)) [
                | inl better ↦
                    rw (hit, inside, better)
                      (done (replaced-Step id (found.from_first, below) (found.hit below) better))
                | inr worse ↦ rw (hit, inside, worse) inserted
              ]
        ]))
