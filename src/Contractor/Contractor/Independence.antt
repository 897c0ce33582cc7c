-- ===== src/Contractor/Contractor/Independence.antt =====
-- IsNodeIndependent: whether a node can be contracted before all others that are at most two edges
-- away. A priority is a float, of which only comparisons are used: `greater` is `>`, `near` the test
-- against the float's epsilon, and `not_negative` is `>= 0`.
pub mod Neighbours
pub mod Bias
pub mod Waits
pub mod Apart
mod Tests
use osrm_backend.Prelude.{
  ℕ, zero, suc, ◌+◌, Bool, true, false, Option, none, some, List, [], ◌∷◌, ◌++◌, ltb, leb, ◌==◌,
  if◌then◌else◌, Array, load, check, ◌>>=◌, ◌>>◌,
}
use mathlib.Core.Bool.{not}
use osrm_backend.DataStructures.DynamicGraph.{Edge, DynamicGraph}
use osrm_backend.DataStructures.XorFastHash.{XorFastHash, fast_hash}
use osrm_backend.Contractor.Contractor.{ContractorEdgeData}
use osrm_backend.Contractor.Contractor.Edges.{for_adjacent}

-- std::sort and std::unique.
pub insert_sorted : ℕ → List ℕ → List ℕ
insert_sorted x [] = x ∷ []
insert_sorted x (y ∷ ys) = let rest = insert_sorted x ys in if leb x y then x ∷ y ∷ ys else y ∷ rest

pub sort : List ℕ → List ℕ
unfolding insert_sorted
sort [] = []
sort (x ∷ xs) = insert_sorted x (sort xs)

pub unique : List ℕ → List ℕ
unique [] = []
unique (x ∷ []) = x ∷ []
unique (x ∷ y ∷ ys) = let rest = unique (y ∷ ys) in if x == y then rest else x ∷ rest

pub bias : XorFastHash → ℕ → ℕ → Option Bool
bias h a b = do
  hash_a ← fast_hash h a
  hash_b ← fast_hash h b
  some (if not (hash_a == hash_b) then ltb hash_a hash_b else ltb a b)

-- Whether the node is still independent, and the neighbours it has been compared with.
pub record Examined : Type 0 where
  pub independent : Bool
  pub neighbours : List ℕ

module _ {P : Type 0} (greater near : P → P → Bool) (not_negative : P → Bool) (hash : XorFastHash)
    (priorities : Array P) where
  -- The two tests of a target, which both end the function with false.
  pub may_go_first : ℕ → P → ℕ → Option Bool
  may_go_first node priority target = do
    target_priority ← load priorities target
    check (not_negative target_priority)
    let tie = bias hash node target >>= λ after. some (not after)
    let equal = if near priority target_priority then tie else some true
    if greater priority target_priority then some false else equal

  -- The body of the first loop. After the function has returned, nothing happens.
  pub examine_neighbour : ℕ → P → Edge ContractorEdgeData → Examined → Option Examined
  examine_neighbour node priority edge s =
      let next = do
        first ← may_go_first node priority edge.target
        some (
            if first
            then record s { neighbours = s.neighbours ++ (edge.target ∷ []) }
            else record s { independent = false })
      in if not s.independent then some s else if node == edge.target then some s else next

  -- The body of the second loop.
  pub examine_second : ℕ → P → Edge ContractorEdgeData → Bool → Option Bool
  examine_second node priority edge independent =
      let next = may_go_first node priority edge.target in
      if not independent
      then some independent
      else if node == edge.target
      then some independent
      else next

  pub examine_all : ℕ → P → List ℕ → DynamicGraph ContractorEdgeData → Bool → Option Bool
  examine_all node priority [] g independent = some independent
  examine_all node priority (u ∷ us) g independent = do
    still ← for_adjacent (examine_second node priority) u g independent
    examine_all node priority us g still

  pub is_node_independent : ℕ → DynamicGraph ContractorEdgeData → Option Bool
  is_node_independent node g = do
    priority ← load priorities node
    s ←
        for_adjacent (examine_neighbour node priority) node g
          (record { independent = true; neighbours = [] })
    let second = examine_all node priority (unique (sort s.neighbours)) g true
    if s.independent then second else some false
