-- ===== src/Contractor/GeometryCompressor.antt =====
-- Contractor/GeometryCompressor.cpp and .h: the nodes on each compressed edge, in one bucket per edge.
-- The free list is a list whose head is the back of the vector. The hash map is a function. The
-- file's global counter free_list_maximum is a field. A `none` is a failed BOOST_ASSERT, an access out
-- of range, or a key that `at` does not find. PrintStatistics only writes to the log.
pub mod Buckets
pub mod Entry
pub mod Compress
pub mod Serialize
mod Tests
use osrm_backend.Prelude.{
  ℕ, zero, suc, ◌+◌, ◌-◌, ◌^◌, ◌%◌, Bool, true, false, ◌&&◌, ◌||◌, Option, none, some, List, [],
  ◌∷◌, ◌++◌, map, ltb, leb, ◌==◌, if◌then◌else◌, Array, load, store, check, ◌>>=◌, ◌>>◌, length,
}
use osrm_backend.Prelude.Int.{ℤ, pos, eq_ℤ}
use mathlib.Core.Bool.{not}

pub record CompressedNode : Type 0 where
  pub node : ℕ
  pub weight : ℤ

pub record GeometryCompressor : Type 0 where
  pub compressed_geometries : Array (List CompressedNode)
  pub free_list : List ℕ
  pub edge_id_to_list_index_map : ℕ → Option ℕ
  pub free_list_maximum : ℕ

-- SPECIAL_EDGEID and SPECIAL_NODEID.
abbrev pub special_id : ℕ
special_id = 2 ^ 32 - 1

-- The maximum of `unsigned`.
abbrev pub unsigned_max : ℕ
unsigned_max = 2 ^ 32 - 1

abbrev pub invalid_edge_weight : ℤ
invalid_edge_weight = pos (2 ^ 31 - 1)

-- `map[key] = value`, and the removal of a key.
abbrev pub assign : (ℕ → Option ℕ) → ℕ → Option ℕ → ℕ → Option ℕ
assign f key o k = if k == key then o else f k

-- The loop of IncreaseFreeList, with `n` rounds left.
pub add_free : ℕ → GeometryCompressor → GeometryCompressor
add_free zero g = g
add_free (suc n) g = add_free n (record g {
  free_list = g.free_list_maximum ∷ g.free_list;
  free_list_maximum = g.free_list_maximum + 1;
})

pub increase_free_list : GeometryCompressor → GeometryCompressor
increase_free_list g =
    let size = g.compressed_geometries.size in
    let at = λ (i : ℕ). if ltb i size then g.compressed_geometries.at i else [] in
    add_free 100 (record g { compressed_geometries = record { size = size + 100; at = at } })

-- The constructor, when the global counter is still 0.
pub new_compressor : GeometryCompressor
new_compressor = increase_free_list (record {
  compressed_geometries = record { size = 0; at = λ i. [] };
  free_list = [];
  edge_id_to_list_index_map = λ e. none;
  free_list_maximum = 0;
})

abbrev pub is_some : Option ℕ → Bool
is_some none = false
is_some (some i) = true

pub has_entry_for_id : ℕ → GeometryCompressor → Bool
has_entry_for_id edge_id g = is_some (g.edge_id_to_list_index_map edge_id)

pub get_position_for_id : ℕ → GeometryCompressor → Option ℕ
get_position_for_id edge_id g = do
  index ← g.edge_id_to_list_index_map edge_id
  check (ltb index g.compressed_geometries.size)
  some index

-- `back()` and `pop_back()` of the free list, for the entry of an edge.
pub use_free : ℕ → List ℕ → GeometryCompressor → Option GeometryCompressor
use_free edge_id [] g = none
use_free edge_id (index ∷ free) g = some (record g {
  free_list = free;
  edge_id_to_list_index_map = assign g.edge_id_to_list_index_map edge_id (some index);
})

-- `if (0 == m_free_list.size()) IncreaseFreeList()`
pub with_room : List ℕ → GeometryCompressor → GeometryCompressor
with_room [] g = increase_free_list g
with_room (_ ∷ _) g = g

-- The first part of CompressEdge: the surviving edge has an entry.
pub ensure_entry : ℕ → GeometryCompressor → Option GeometryCompressor
ensure_entry edge_id g =
    let more = with_room g.free_list g in
    if has_entry_for_id edge_id g then some g else use_free edge_id more.free_list more

-- `if (edge_bucket_list1.empty()) edge_bucket_list1.emplace_back(via_node_id, weight1)`
abbrev pub with_via : CompressedNode → List CompressedNode → List CompressedNode
with_via via [] = via ∷ []
with_via via (x ∷ xs) = x ∷ xs

-- The last part: the removed edge's list, or its target, goes behind the surviving edge's list.
pub append_second :
    ℕ → ℕ → CompressedNode → List CompressedNode → GeometryCompressor → Option GeometryCompressor
append_second index1 edge_id_2 target list1 g =
    let join = do
      list_to_remove_index ← get_position_for_id edge_id_2 g
      list2 ← load g.compressed_geometries list_to_remove_index
      joined ← store g.compressed_geometries index1 (list1 ++ list2)
      cleared ← store joined list_to_remove_index []
      some (record g {
        compressed_geometries = cleared;
        edge_id_to_list_index_map = assign g.edge_id_to_list_index_map edge_id_2 none;
        free_list = list_to_remove_index ∷ g.free_list;
      })
    in let atomic = do
      extended ← store g.compressed_geometries index1 (list1 ++ (target ∷ []))
      some (record g { compressed_geometries = extended })
      in if has_entry_for_id edge_id_2 g then join else atomic

pub compress_edge : ℕ → ℕ → ℕ → ℕ → ℤ → ℤ → GeometryCompressor → Option GeometryCompressor
compress_edge edge_id_1 edge_id_2 via_node_id target_node_id weight1 weight2 g = do
  check (not (edge_id_1 == special_id))
  check (not (edge_id_2 == special_id))
  check (not (via_node_id == special_id))
  check (not (target_node_id == special_id))
  check (not (eq_ℤ weight1 invalid_edge_weight))
  check (not (eq_ℤ weight2 invalid_edge_weight))
  g₁ ← ensure_entry edge_id_1 g
  index1 ← get_position_for_id edge_id_1 g₁
  list1 ← load g₁.compressed_geometries index1
  append_second index1 edge_id_2 (record { node = target_node_id; weight = weight2 })
      (with_via (record { node = via_node_id; weight = weight1 }) list1) g₁

pub get_bucket_reference : ℕ → GeometryCompressor → Option (List CompressedNode)
get_bucket_reference edge_id g = do
  index ← g.edge_id_to_list_index_map edge_id
  load g.compressed_geometries index

-- `bucket[i].first`
abbrev pub node_at : List CompressedNode → ℕ → Option ℕ
node_at [] i = none
node_at (x ∷ xs) zero = some x.node
node_at (x ∷ xs) (suc i) = node_at xs i

pub get_first_node_id_of_bucket : ℕ → GeometryCompressor → Option ℕ
get_first_node_id_of_bucket edge_id g = do
  bucket ← get_bucket_reference edge_id g
  check (leb 2 (length bucket))
  node_at bucket 1

pub get_last_node_id_of_bucket : ℕ → GeometryCompressor → Option ℕ
get_last_node_id_of_bucket edge_id g = do
  bucket ← get_bucket_reference edge_id g
  check (leb 2 (length bucket))
  node_at bucket (length bucket - 2)

-- The numbers that are written for the starts of the lists, and `prefix_sum_of_list_indices` behind the
-- loop. Both are unsigned.
pub write_indices : ℕ → ℕ → ℕ → Array (List CompressedNode) → Option (List ℕ × ℕ)
write_indices zero i prefix_sum geometries = some (prefix_sum ∷ [], prefix_sum)
write_indices (suc n) i prefix_sum geometries = do
  let unpacked_size = length (geometries.at i) % 2 ^ 32
  check (not (unpacked_size == unsigned_max))
  (rest, sum) ← write_indices n (i + 1) ((prefix_sum + unpacked_size) % 2 ^ 32) geometries
  some (prefix_sum ∷ rest, sum)

-- The nodes that are written, and `control_sum` behind the loop.
pub write_nodes : ℕ → ℕ → ℕ → Array (List CompressedNode) → Option (List ℕ × ℕ)
write_nodes zero i control_sum geometries = some ([], control_sum)
write_nodes (suc n) i control_sum geometries = do
  let unpacked_size = length (geometries.at i) % 2 ^ 32
  check (not (unpacked_size == unsigned_max))
  (rest, sum) ← write_nodes n (i + 1) ((control_sum + unpacked_size) % 2 ^ 32) geometries
  some (map (λ c. c.node) (geometries.at i) ++ rest, sum)

unfoldable pub serialize_internal_vector : GeometryCompressor → Option (List ℕ)
unfolding write_indices write_nodes
serialize_internal_vector g = do
  let geometries = g.compressed_geometries
  let compressed_geometries = (geometries.size + 1) % 2 ^ 32
  check (not (compressed_geometries == unsigned_max))
  (indices, prefix_sum) ← write_indices geometries.size 0 0 geometries
  (nodes, control_sum) ← write_nodes geometries.size 0 0 geometries
  check (control_sum == prefix_sum)
  some ((compressed_geometries ∷ indices) ++ (prefix_sum ∷ nodes))
