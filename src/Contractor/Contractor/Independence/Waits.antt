-- ===== src/Contractor/Contractor/Independence/Waits.antt =====
-- What IsNodeIndependent compares a node with, in its two loops.
use osrm_backend.Prelude.{
  ℕ, ◌+◌, ◌≤◌, ◌<◌, ◌≡◌, ◌≢◌, inl, inr, refl, Bool, true, false, Option, some, arith, List, [], ◌∷◌,
  ◌++◌, ltb, ◌==◌, if◌then◌else◌, Array, Returns, done, Returns-weaken, Returns->>=, value_of,
  Bool-cases,
}
use mathlib.Core.Bool.{not}
use osrm_backend.Prelude.Ranges.{one_more}
use osrm_backend.DataStructures.DynamicGraph.{DynamicGraph}
use osrm_backend.DataStructures.DynamicGraph.Slices.{Within}
use osrm_backend.DataStructures.XorFastHash.{XorFastHash}
use osrm_backend.DataStructures.XorFastHash.{Filled}
use osrm_backend.Contractor.Contractor.{ContractorEdgeData}
use osrm_backend.Contractor.Contractor.Edges.{Enclosed, for_adjacent_lem}
use osrm_backend.Contractor.Contractor.Independence.{
  sort, unique, bias, Examined, may_go_first, examine_neighbour, examine_second, examine_all,
  is_node_independent,
}
use osrm_backend.Contractor.Contractor.Independence.Neighbours.{
  IsIn, first, later, IsIn-append, IsIn-append_right, IsIn-append_cases, IsIn-sort, IsIn-unique,
  sort-IsIn, unique-IsIn,
}
use osrm_backend.Contractor.Contractor.Independence.Bias.{bias-Returns}

tests :
    (later close after : Bool)
    → Returns
        (λ b. b ≡ true → (later ≡ false) × (close ≡ true → some after ≡ some false))
        (if later then some false else if close then some (not after) else some true)
tests true close after = done (λ e. ground (arith, e))
tests false true true = done (λ e. ground (arith, e))
tests false true false = done (λ e. (refl, λ f. refl))
tests false false after = done (λ e. (refl, λ f. ground (arith, f)))

module _ {P : Type 0} (greater near : P → P → Bool) (hash : XorFastHash)
    (priorities : Array P) where
  -- The node `a` need not wait for the node `t`.
  abbrev pub Goes : ℕ → ℕ → Type 0
  Goes a t =
      (greater (priorities.at a) (priorities.at t) ≡ false)
      × (near (priorities.at a) (priorities.at t) ≡ true → bias hash a t ≡ some false)

module _ {P : Type 0} (greater near : P → P → Bool) (not_negative : P → Bool) (hash : XorFastHash)
    (priorities : Array P) (filled : Filled hash)
    (positive : (u : ℕ) → u < priorities.size → not_negative (priorities.at u) ≡ true) where
  abbrev GoesBefore : ℕ → ℕ → Type 0
  GoesBefore = Goes greater near hash priorities

  abbrev goes_first : ℕ → ℕ → Option Bool
  goes_first a t = may_go_first greater near not_negative hash priorities a (priorities.at a) t

  may_go_first_lem :
      (a t : ℕ) → t < priorities.size → Returns (λ b. b ≡ true → GoesBefore a t) (goes_first a t)
  unfolding may_go_first
  may_go_first_lem a t real =
      let inside : ltb t priorities.size ≡ true = ground (arith, real) in
      let (flag, e, z) = value_of (bias-Returns hash a t filled) in
      rw (inside, positive t real, e) (tests _ _ _)

  module _ (g : DynamicGraph ContractorEdgeData) (road : Enclosed g)
      (sized : g.node_list.size ≤ priorities.size) (node : ℕ) where
    abbrev target : ℕ → ℕ
    target j = (g.edge_list.at j).target

    abbrev first_of_node : ℕ → ℕ
    first_of_node u = (g.node_list.at u).first_edge

    -- The node has been compared with the targets of its edges before `e`.
    record Compared (e : ℕ) (s : Examined) : Type 0 where
      goes :
          s.independent ≡ true
          → (j : ℕ) → first_of_node node ≤ j
          → j < e
          → target j ≢ node
          → GoesBefore node (target j) × IsIn (target j) s.neighbours
      exist : (u : ℕ) → IsIn u s.neighbours → u < g.node_list.size

    compare_lem :
        (t : ℕ)
        → t < g.node_list.size
        → Returns (λ b. b ≡ true → GoesBefore node t) (goes_first node t)
    compare_lem t p = may_go_first_lem node t (omega (arith, p, sized))

    abbrev examine : ℕ → Examined → Option Examined
    examine j s =
        examine_neighbour greater near not_negative hash priorities node (priorities.at node)
          (g.edge_list.at j) s

    examine_lem :
        (j : ℕ) (independent : Bool) (us : List ℕ)
        → node < g.node_list.size
        → Within (g.node_list.at node) j
        → Compared j (record { independent = independent; neighbours = us })
        → Returns
            (Compared (j + 1))
            (examine j (record { independent = independent; neighbours = us }))
    unfolding examine_neighbour
    examine_lem j false us real within c =
        done (record { goes = λ e. absurd (ground (arith, e)); exist = c.exist })
    examine_lem j true us real within c = elim (Bool-cases (node == target j)) [
      | inl same ↦ rw same (
          done (record {
            goes = λ e. one_more _ _ j (c.goes e) (λ other. absurd (ground (arith, same, other)));
            exist = c.exist;
          }))
      | inr other ↦
          let real' = road.targets node j real within in
          rw other (Returns->>= (compare_lem (target j) real') (λ flag h. after real' flag h))
    ]
      where
        after :
            target j < g.node_list.size
            → (flag : Bool) → (flag ≡ true → GoesBefore node (target j))
            → Returns (Compared (j + 1)) (
                some (
                  if flag
                  then record { independent = true; neighbours = us ++ (target j ∷ []) }
                  else record { independent = false; neighbours = us }))
        after p false h = done (record { goes = λ e. absurd (ground (arith, e)); exist = c.exist })
        after p true h = done (record {
          goes = λ e.
              one_more _ _ j
                (λ i low high other.
                  let (a, m) = c.goes refl i low high other in (a, IsIn-append _ m))
                (λ other. (h refl, IsIn-append_right us));
          exist = λ u m. elim (IsIn-append_cases us m) [
            | inl k ↦ c.exist u k
            | inr z ↦ omega (arith, z, p)
          ];
        })

    -- When the second loop over a node's edges has come to `e`, from the flag `start`.
    Second : Bool → ℕ → ℕ → Bool → Type 0
    Second start u e independent =
        independent ≡ true
        → (start ≡ true)
          × ((j : ℕ) → first_of_node u ≤ j → j < e → target j ≢ node → GoesBefore node (target j))

    abbrev second : ℕ → Bool → Option Bool
    second j b =
        examine_second greater near not_negative hash priorities node (priorities.at node)
          (g.edge_list.at j) b

    examine_second_lem :
        (start : Bool) (u j : ℕ) (independent : Bool)
        → u < g.node_list.size
        → Within (g.node_list.at u) j
        → Second start u j independent
        → Returns (Second start u (j + 1)) (second j independent)
    unfolding examine_second Second
    examine_second_lem start u j false real within c = done (λ e. absurd (ground (arith, e)))
    examine_second_lem start u j true real within c = elim (Bool-cases (node == target j)) [
      | inl same ↦ rw same (
          done (λ e. (
            (c refl).0,
            one_more _ _ j (c refl).1 (λ other. absurd (ground (arith, same, other))),
          )))
      | inr other ↦ rw other (
          Returns-weaken (compare_lem (target j) (road.targets u j real within))
            (λ flag h e. ((c refl).0, one_more _ _ j (c refl).1 (λ _. h e))))
    ]

    -- The node does not wait for the targets of any edge of the nodes in the list.
    Clear : List ℕ → Type 0
    Clear us =
        (u : ℕ)
        → IsIn u us
        → (j : ℕ) → Within (g.node_list.at u) j
        → target j ≢ node
        → GoesBefore node (target j)

    Clear-cons :
        (u : ℕ) (us : List ℕ)
        → ((j : ℕ) → Within (g.node_list.at u) j → target j ≢ node → GoesBefore node (target j))
        → Clear us
        → Clear (u ∷ us)
    unfolding Clear
    Clear-cons u us here rest v first = here
    Clear-cons u us here rest v (later m) = rest v m

    examine_all_lem :
        (us : List ℕ) (start : Bool)
        → ((u : ℕ) → IsIn u us → u < g.node_list.size)
        → Returns
            (λ b. b ≡ true → (start ≡ true) × Clear us)
            (examine_all greater near not_negative hash priorities node
              (priorities.at node)
              us
              g
              start)
    unfolding examine_all Clear Second
    examine_all_lem [] start exist = done (λ e. (e, λ u m. elim m [ ]))
    examine_all_lem (u ∷ us) start exist =
        Returns->>=
          (for_adjacent_lem
            (examine_second greater near not_negative hash priorities node (priorities.at node))
            (Second start u) u g start (exist u first) (road.inside u (exist u first))
            (λ j b. examine_second_lem start u j b (exist u first))
            (λ e. (e, λ j p q. absurd (omega (arith, p, q)))))
          (λ still h.
            Returns-weaken (examine_all_lem us still (λ v m. exist v (later m))) (λ b rest e.
              ((h (rest e).0).0, Clear-cons u us (λ j w. (h (rest e).0).1 j w.0 w.1) (rest e).1)))

    -- The node waits for no other node that it has an edge to, and for none behind those.
    pub record Alone : Type 0 where
      pub near_by :
          (j : ℕ) → Within (g.node_list.at node) j → target j ≢ node → GoesBefore node (target j)
      pub behind :
          (i j : ℕ)
          → Within (g.node_list.at node) i
          → target i ≢ node
          → Within (g.node_list.at (target i)) j
          → target j ≢ node
          → GoesBefore node (target j)

    second_loop :
        (e : ℕ) (s : Examined)
        → e ≡ first_of_node node + (g.node_list.at node).edges
        → Compared e s
        → Returns
            (λ b. b ≡ true → Alone)
            (if s.independent
              then examine_all greater near not_negative hash priorities node
                  (priorities.at node)
                  (unique (sort s.neighbours))
                  g
                  true
              else some false)
    unfolding Clear
    second_loop e s z c = elim (Bool-cases s.independent) [
      | inr f ↦ rw f (done (λ p. absurd (ground (arith, p))))
      | inl t ↦ rw t (
          Returns-weaken
            (examine_all_lem (unique (sort s.neighbours)) true
              (λ u m. c.exist u (sort-IsIn s.neighbours (unique-IsIn (sort s.neighbours) m))))
            (λ b clear p. record {
              near_by = λ j w other. (c.goes t j w.0 (omega (arith, w.1, z)) other).0;
              behind = λ i j w around.
                  let m = (c.goes t i w.0 (omega (arith, w.1, z)) around).1 in
                  (clear p).1 (target i)
                    (IsIn-unique (sort s.neighbours) (IsIn-sort s.neighbours m)) j;
            }))
    ]

    pub is_node_independent_lem :
        node < g.node_list.size
        → Returns
            (λ b. b ≡ true → Alone)
            (is_node_independent greater near not_negative hash priorities node g)
    unfolding is_node_independent
    is_node_independent_lem real =
        let inside : ltb node priorities.size ≡ true = ground (arith, real, sized) in
        rw inside (
          Returns->>=
            (for_adjacent_lem
              (examine_neighbour greater near not_negative hash priorities node
                (priorities.at node))
              Compared node g (record { independent = true; neighbours = [] }) real
              (road.inside node real) (λ j s w c. examine_lem j s.independent s.neighbours real w c)
              (record {
                goes = λ e j p q. absurd (omega (arith, p, q));
                exist = λ u m. elim m [ ];
              }))
            (λ s c. second_loop _ s refl c))
