-- ===== src/RoutingAlgorithms/BasicRoutingInterface/Arcs.antt =====
-- The search for the edge between two nodes, in both directions.
use osrm_backend.Prelude.{
  ℕ, zero, suc, ◌+◌, ◌-◌, ◌≤◌, ◌<◌, ◌≡◌, ◌⊎◌, inl, inr, refl, ◌∙◌, ap, ◌==◌, ◌&&◌, Bool, true,
  false, ltb, arith, Returns, done, Returns-weaken, Bool-cases, Option, some, none, value_of,
}
use osrm_backend.Prelude.Int.{ℤ, ltb_ℤ, eq_ℤ}
use mathlib.Core.Path.{subst}
use osrm_backend.DataStructures.StaticGraph.{
  EdgeArrayEntry, StaticGraph, special_id, invalid_edge_weight, begin_edges, end_edges,
}
use osrm_backend.DataStructures.StaticGraph.Cheapest.{IsValid}
use osrm_backend.RoutingAlgorithms.BasicRoutingInterface.{
  EdgeData, lighter, scan_edges, scan_node, find_arc,
}

abbrev pub weight : StaticGraph EdgeData → ℕ → ℤ
weight g j = (g.edge_array.at j).stored.distance

-- The edge `j` leads to the node and has the direction's flag.
abbrev pub Fits : (EdgeData → Bool) → ℕ → StaticGraph EdgeData → ℕ → Type 0
Fits flag to g j = ((g.edge_array.at j).target ≡ to) × (flag (g.edge_array.at j).stored ≡ true)

abbrev pub NoneFits : (EdgeData → Bool) → ℕ → ℕ → ℕ → StaticGraph EdgeData → Type 0
NoneFits flag to first end g =
    (j : ℕ)
    → first ≤ j
    → j < end
    → (g.edge_array.at j).target ≡ to
    → flag (g.edge_array.at j).stored ≡ false

pub record IsLightest (flag : EdgeData → Bool) (to first end : ℕ) (g : StaticGraph EdgeData) (r : ℕ)
    : Type 0 where
  pub from_first : first ≤ r
  pub before_end : r < end
  pub fits : Fits flag to g r
  pub lightest :
      (j : ℕ) → first ≤ j → j < end → Fits flag to g j → ltb_ℤ (weight g j) (weight g r) ≡ false

abbrev blank : ℕ × ℤ
blank = (special_id, invalid_edge_weight)

abbrev Best : (EdgeData → Bool) → ℕ → ℕ → ℕ → StaticGraph EdgeData → ℕ × ℤ → Type 0
Best flag to first end g b =
    ((b ≡ blank) × NoneFits flag to first end g)
    ⊎ ((b.1 ≡ weight g b.0) × IsLightest flag to first end g b.0)

lighter-Best :
    (flag : EdgeData → Bool) (to first edge : ℕ) (g : StaticGraph EdgeData) (b : ℕ × ℤ)
    → first ≤ edge
    → ltb_ℤ (weight g edge) invalid_edge_weight ≡ true
    → Best flag to first edge g b
    → Best flag to first (edge + 1) g (lighter flag to edge (g.edge_array.at edge) b)
unfolding lighter
lighter-Best flag to first edge g b p q (inl (e, n)) =
    elim (Bool-cases ((g.edge_array.at edge).target == to && flag (g.edge_array.at edge).stored)) [
      | inl t ↦
          let eq : lighter flag to edge (g.edge_array.at edge) b ≡ (edge, weight g edge) =
            ground (arith, e, t, q) in
          rw eq (
            inr (
              refl,
              record {
                from_first = p;
                before_end = omega arith;
                fits = (ground arith, ground arith);
                lightest = λ j a c z. ground (arith, n j, z);
              },
            ))
      | inr t ↦
          let eq : lighter flag to edge (g.edge_array.at edge) b ≡ b = ground (arith, t) in
          rw eq (inl (e, λ j a c z. ground (arith, n j, t)))
    ]
lighter-Best flag to first edge g b p q (inr (e, c)) =
    elim (Bool-cases (
      (g.edge_array.at edge).target == to
      && ltb_ℤ (weight g edge) b.1
      && flag (g.edge_array.at edge).stored)) [
        | inl t ↦
            let eq : lighter flag to edge (g.edge_array.at edge) b ≡ (edge, weight g edge) =
              ground (arith, t) in
            rw eq (
              inr (
                refl,
                record {
                  from_first = p;
                  before_end = omega arith;
                  fits = (ground arith, ground arith);
                  lightest = λ j a d z. ground (arith, e, t, c.lightest j, z);
                },
              ))
        | inr t ↦
            let eq : lighter flag to edge (g.edge_array.at edge) b ≡ b = ground (arith, t) in
            rw eq (
              inr (
                e,
                record {
                  from_first = c.from_first;
                  before_end = omega (arith, c.before_end);
                  fits = c.fits;
                  lightest = λ j a d z. ground (arith, e, t, c.lightest j, z);
                },
              ))
      ]

abbrev Valid : StaticGraph EdgeData → Type 0
Valid g = IsValid (λ (d : EdgeData). d.distance) g

scan_edges_lem :
    (flag : EdgeData → Bool) (n edge to first : ℕ) (b : ℕ × ℤ) (g : StaticGraph EdgeData)
    → Valid g
    → first ≤ edge
    → edge + n ≤ g.edge_array.size
    → Best flag to first edge g b
    → Returns (Best flag to first (edge + n) g) (scan_edges flag n edge to b g)
unfolding scan_edges
scan_edges_lem flag zero edge to first b g val p q h =
    let z : edge + 0 ≡ edge = omega arith in rw z (done h)
scan_edges_lem flag (suc n) edge to first b g val p q h =
    let a : ltb edge g.edge_array.size ≡ true = ground arith in
    let z : edge + suc n ≡ edge + 1 + n = omega arith in
    rw (a, z)
      (scan_edges_lem flag n (edge + 1) to first _ g val (omega arith) (omega arith)
        (lighter-Best flag to first edge g b p (val.light edge (omega arith)) h))

-- No edge of the node leads to the other in this direction; and the lightest one that does.
abbrev pub Unlinked : (EdgeData → Bool) → ℕ → ℕ → StaticGraph EdgeData → Type 0
Unlinked flag from to g = NoneFits flag to (g.node_array.at from) (g.node_array.at (from + 1)) g

abbrev pub Lightest : (EdgeData → Bool) → ℕ → ℕ → StaticGraph EdgeData → ℕ → Type 0
Lightest flag from to g r =
    IsLightest flag to (g.node_array.at from) (g.node_array.at (from + 1)) g r

scan_node_lem :
    (flag : EdgeData → Bool) (from to : ℕ) (g : StaticGraph EdgeData)
    → Valid g
    → from + 1 < g.node_array.size
    → Returns
        (Best flag to (g.node_array.at from) (g.node_array.at (from + 1)) g)
        (scan_node flag from to blank g)
unfolding scan_node begin_edges end_edges
scan_node_lem flag from to g val f =
    let a : ltb from g.node_array.size ≡ true = ground arith in
    let b : ltb (from + 1) g.node_array.size ≡ true = ground arith in
    let first = g.node_array.at from in
    let end = g.node_array.at (from + 1) in
    let o : first ≤ end = val.ordered from f in
    let z : first + (end - first) ≡ end = omega (arith, o) in
    let i = val.inside (from + 1) f in
    rw (a, b)
      (Returns-weaken
        (scan_edges_lem flag (end - first) first to first blank g val (omega arith)
          (omega (arith, i, z)) (inl (refl, λ j p q. absurd (omega arith))))
        (λ best h. subst (λ x. Best flag to first x g best) z h))

abbrev pub forward : EdgeData → Bool
forward d = d.forward

abbrev pub backward : EdgeData → Bool
backward d = d.backward

-- What the search answers.
pub data Answer (u v : ℕ) (g : StaticGraph EdgeData)
    : Option (EdgeArrayEntry EdgeData) → Type 0 where
  leads_forward : (r : ℕ) → Lightest forward u v g r → Answer u v g (some (g.edge_array.at r))
  leads_backward :
      (r : ℕ)
      → Unlinked forward u v g
      → Lightest backward v u g r
      → Answer u v g (some (g.edge_array.at r))
  no_edge : Unlinked forward u v g → Unlinked backward v u g → Answer u v g none

-- An edge of a node's range, that the scan has found, can be read and is no special one.
found_lem :
    (flag : EdgeData → Bool) (from to : ℕ) (g : StaticGraph EdgeData) (b : ℕ × ℤ)
    → Valid g
    → from + 1 < g.node_array.size
    → b.1 ≡ weight g b.0
    → Lightest flag from to g b.0
    → ((b.0 == special_id) ≡ false)
      × (eq_ℤ b.1 invalid_edge_weight ≡ false)
      × (ltb b.0 g.edge_array.size ≡ true)
found_lem flag from to g b val f e c =
    let i : b.0 < g.edge_array.size = omega (arith, c.before_end, val.inside (from + 1) f) in
    (ground (arith, i, val.few), ground (arith, e, val.light b.0 i), ground arith)

second :
    (u v : ℕ) (g : StaticGraph EdgeData) (b : ℕ × ℤ)
    → Valid g
    → v + 1 < g.node_array.size
    → Unlinked forward u v g
    → scan_node forward u v blank g ≡ some blank
    → scan_node backward v u blank g ≡ some b
    → Best backward u (g.node_array.at v) (g.node_array.at (v + 1)) g b
    → Answer u v g (find_arc u v g)
unfolding find_arc
second u v g b val q n e d (inl (z, m)) =
    let eq : find_arc u v g ≡ none = ground (arith, e, d, z) in rw eq (no_edge n m)
second u v g b val q n e d (inr (z, c)) =
    let (x, y, w) = found_lem backward v u g b val q z c in
    let eq : find_arc u v g ≡ some (g.edge_array.at b.0) = ground (arith, e, d, x, y, w) in
    rw eq (leads_backward b.0 n c)

first :
    (u v : ℕ) (g : StaticGraph EdgeData) (b : ℕ × ℤ)
    → Valid g
    → u + 1 < g.node_array.size
    → v + 1 < g.node_array.size
    → scan_node forward u v blank g ≡ some b
    → Best forward v (g.node_array.at u) (g.node_array.at (u + 1)) g b
    → Answer u v g (find_arc u v g)
unfolding find_arc
first u v g b val p q e (inl (z, n)) =
    let (d, e', best) = value_of (scan_node_lem backward v u g val q) in
    second u v g d val q n (e ∙ ap some z) e' best
first u v g b val p q e (inr (z, c)) =
    let (x, y, w) = found_lem forward u v g b val p z c in
    let eq : find_arc u v g ≡ some (g.edge_array.at b.0) = ground (arith, e, x, y, w) in
    rw eq (leads_forward b.0 c)

-- In a valid graph, the search between two existing nodes finds the lightest edge of the first that
-- leads forward to the second; when there is none, the lightest of the second that leads backward to the
-- first; and it fails when there is none of these either.
pub find_arc_correct :
    (u v : ℕ) (g : StaticGraph EdgeData)
    → IsValid (λ (d : EdgeData). d.distance) g
    → u + 1 < g.node_array.size
    → v + 1 < g.node_array.size
    → Answer u v g (find_arc u v g)
find_arc_correct u v g val p q =
    let (b, e, best) = value_of (scan_node_lem forward u v g val p) in first u v g b val p q e best
