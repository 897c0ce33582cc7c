-- ===== src/Contractor/Contractor/ContractNode.antt =====
-- ContractNode: for each path over the node a witness is looked for, and a shortcut is noted when there
-- is none. The template's RUNSIMULATION is an argument.
pub mod AddTargets
pub mod Shortcuts
pub mod InEdge
pub mod Merge
pub mod Merged
pub mod Covers
mod Tests
use Prim.Native.Nat.{max}
use osrm_backend.Prelude.{
  ℕ, zero, suc, ◌+◌, ◌-◌, ◌*◌, ◌%◌, ◌^◌, Bool, true, false, ◌&&◌, ◌||◌, Option, none, some, List,
  ltb, leb, ◌==◌, if◌then◌else◌, Array, load, store, push_back, ◌>>=◌,
}
use mathlib.Core.Bool.{not}
use osrm_backend.DataStructures.DynamicGraph.{Edge, DynamicGraph, InputEdge}
use osrm_backend.DataStructures.BinaryHeap.{BinaryHeap, get_key, was_inserted}
use osrm_backend.Contractor.Contractor.{
  ContractorEdgeData, ContractorHeapData, ContractorEdge, new_edge_data, origin, int_max,
}
use osrm_backend.Contractor.Contractor.Edges.{for_adjacent}
use osrm_backend.Contractor.Contractor.Index.{insert_new, clear_heap}
use osrm_backend.Contractor.Contractor.WitnessSearch.{dijkstra}

-- `timestamp` is the `current_timestamp` of the heap's index.
pub record ContractorThreadData : Type 0 where
  pub timestamp : ℕ
  pub heap : BinaryHeap ContractorHeapData
  pub inserted_edges : Array ContractorEdge
  pub neighbours : List ℕ

pub record ContractionStats : Type 0 where
  pub edges_deleted_count : ℕ
  pub edges_added_count : ℕ
  pub original_edges_deleted_count : ℕ
  pub original_edges_added_count : ℕ

abbrev pub new_stats : ContractionStats
new_stats = record {
  edges_deleted_count = 0;
  edges_added_count = 0;
  original_edges_deleted_count = 0;
  original_edges_added_count = 0;
}

-- `path_distance`, as an int.
abbrev pub path_distance : ContractorEdgeData → ContractorEdgeData → ℕ
path_distance in_data out_data = (origin + (in_data.distance + out_data.distance)) % 2 ^ 32

-- What the first loop over the outgoing edges changes.
pub record Targets : Type 0 where
  pub heap : BinaryHeap ContractorHeapData
  pub max_distance : ℕ
  pub number_of_targets : ℕ

pub add_target : ContractorEdgeData → Edge ContractorEdgeData → Targets → Option Targets
add_target in_data out t =
    let longest = max t.max_distance (path_distance in_data out.stored) in
    let added = do
      heap ← insert_new out.target int_max (record { hop = 0; target = true }) t.heap
      some (record {
        heap = heap;
        max_distance = longest;
        number_of_targets = t.number_of_targets + 1;
      })
    in let reach =
        if not (was_inserted out.target t.heap)
        then added
        else some (record t { max_distance = longest }) in
      if not out.stored.forward then some t else reach

-- What the second loop changes: the noted edges and the statistics.
pub record Notes : Type 0 where
  pub inserted_edges : Array ContractorEdge
  pub stats : ContractionStats

-- Both directions of a shortcut.
pub note_shortcut :
    ℕ
    → ℕ
    → ContractorEdgeData
    → Edge ContractorEdgeData
    → Array ContractorEdge
    → Array ContractorEdge
note_shortcut node source in_data out edges =
    let distance = (in_data.distance + out.stored.distance) % 2 ^ 32 in
    let original_edges = out.stored.original_edges + in_data.original_edges in
    push_back
      (push_back edges (record {
        source = source;
        target = out.target;
        stored = new_edge_data distance original_edges node true true false;
      }))
      (record {
        source = out.target;
        target = source;
        stored = new_edge_data distance original_edges node true false true;
      })

pub count_added : ContractorEdgeData → ContractorEdgeData → ContractionStats → ContractionStats
count_added in_data out_data stats = record stats {
  edges_added_count = stats.edges_added_count + 2;
  original_edges_added_count =
      stats.original_edges_added_count + 2 * (out_data.original_edges + in_data.original_edges);
}

pub add_shortcut :
    Bool
    → ℕ
    → ℕ
    → ContractorEdgeData
    → BinaryHeap ContractorHeapData
    → Edge ContractorEdgeData
    → Notes
    → Option Notes
add_shortcut run_simulation node source in_data heap out notes =
    let noted =
      if run_simulation
      then record notes { stats = count_added in_data out.stored notes.stats }
      else record notes {
        inserted_edges = note_shortcut node source in_data out notes.inserted_edges;
      } in
    let compare = do
      distance ← get_key out.target heap
      some (if ltb (path_distance in_data out.stored) distance then noted else notes)
    in if not out.stored.forward then some notes else compare

pub count_deleted : ContractorEdgeData → ContractionStats → ContractionStats
count_deleted in_data stats = record stats {
  edges_deleted_count = stats.edges_deleted_count + 1;
  original_edges_deleted_count = stats.original_edges_deleted_count + in_data.original_edges;
}

-- The timestamp of the heap's index, the heap, and what has been noted.
pub record Contraction : Type 0 where
  pub timestamp : ℕ
  pub heap : BinaryHeap ContractorHeapData
  pub notes : Notes

-- The body of the loop over the incoming edges.
pub contract_in_edge :
    Bool
    → ℕ
    → DynamicGraph ContractorEdgeData
    → Edge ContractorEdgeData
    → Contraction
    → Option Contraction
contract_in_edge run_simulation node g in_edge c =
    let in_data = in_edge.stored in
    let source = in_edge.target in
    let notes =
      if run_simulation
      then record (c.notes) { stats = count_deleted in_data c.notes.stats }
      else c.notes in
    let search = do
      (now, cleared) ← clear_heap c.timestamp c.heap
      h ← insert_new source origin (record { hop = 0; target = false }) cleared
      t ←
          for_adjacent (add_target in_data) node g
            (record { heap = h; max_distance = origin; number_of_targets = 0 })
      heap ←
          dijkstra (if run_simulation then 1000 else 2000) t.max_distance t.number_of_targets 0 node
            g t.heap
      notes' ← for_adjacent (add_shortcut run_simulation node source in_data heap) node g notes
      some (record { timestamp = now; heap = heap; notes = notes' })
    in if not in_data.backward then some (record c { notes = notes }) else search

abbrev pub same_flag : Bool → Bool → Bool
same_flag true b = b
same_flag false b = not b

-- Whether both edges differ in their flags alone.
pub alike : ContractorEdge → ContractorEdge → Bool
alike a b =
    a.source == b.source
    && (a.target == b.target
        && (a.stored.distance == b.stored.distance
            && same_flag a.stored.shortcut b.stored.shortcut))

-- The inner loop of the merging: the first edge from `other` on that is alike, or the end.
pub find_alike : ℕ → ℕ → ContractorEdge → Array ContractorEdge → Option ℕ
find_alike zero other edge edges = some other
find_alike (suc n) other edge edges = do
  candidate ← load edges other
  let rest = find_alike n (other + 1) edge edges
  if alike candidate edge then some other else rest

pub merge_flags : ContractorEdge → ContractorEdge → ContractorEdge
merge_flags into from = record into {
  stored = record (into.stored) {
    forward = into.stored.forward || from.stored.forward;
    backward = into.stored.backward || from.stored.backward;
  };
}

-- One round of the merging, at `i`: the edges and `inserted_edges_size`.
pub merge_edge : ℕ → ℕ → ℕ → Array ContractorEdge → Option (Array ContractorEdge × ℕ)
merge_edge n i size edges =
    let merge = λ (edge : ContractorEdge) (other : ℕ). do
      into ← load edges other
      merged ← store edges other (merge_flags into edge)
      some (merged, size)
    in let keep = λ (edge : ContractorEdge). do kept ← store edges size edge; some (kept, size + 1)
      in do
        edge ← load edges i
        other ← find_alike n (i + 1) edge edges
        if ltb other (i + 1 + n) then merge edge other else keep edge

pub merge_edges : ℕ → ℕ → ℕ → Array ContractorEdge → Option (Array ContractorEdge)
merge_edges zero i size edges = some (record edges { size = size })
merge_edges (suc n) i size edges = do
  (merged, size') ← merge_edge n i size edges
  merge_edges n (i + 1) size' merged

-- The thread data and the statistics after the call.
pub contract_node :
    Bool
    → ContractorThreadData
    → ℕ
    → ContractionStats
    → DynamicGraph ContractorEdgeData
    → Option (ContractorThreadData × ContractionStats)
contract_node run_simulation thread node stats g = do
  let start : Contraction = record {
    timestamp = thread.timestamp;
    heap = thread.heap;
    notes = record { inserted_edges = thread.inserted_edges; stats = stats };
  }
  let inserted_edges_size = thread.inserted_edges.size
  c ← for_adjacent (contract_in_edge run_simulation node g) node g start
  let noted = c.notes.inserted_edges
  let merge =
      merge_edges (noted.size - inserted_edges_size) inserted_edges_size inserted_edges_size noted
  edges ← if run_simulation then some noted else merge
  some (
    record thread { timestamp = c.timestamp; heap = c.heap; inserted_edges = edges },
    c.notes.stats,
  )
