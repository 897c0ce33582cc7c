-- ===== src/DataStructures/RestrictionMap.antt =====
-- DataStructures/RestrictionMap.cpp and .h, with the fields of DataStructures/Restriction.h: which
-- turns are forbidden, looked up by the first edge of the turn.
-- The hash map and the hash sets are functions. An operation is `none` where a BOOST_ASSERT fails,
-- where `at` throws, or where `begin()` of an empty bucket is read.
pub mod Bucket
pub mod Build
pub mod Queries
pub mod Fixup
pub mod Arrive
mod Tests
use osrm_backend.Prelude.{
  ℕ, ◌+◌, ◌-◌, ◌^◌, Bool, true, false, ◌&&◌, ◌||◌, Option, none, some, List, [], ◌∷◌, ◌++◌, map,
  ltb, ◌==◌, if◌then◌else◌, Array, load, store, push_back, check, ◌>>=◌, ◌>>◌, length,
}
use mathlib.Core.Bool.{not}

abbrev pub special_nodeid : ℕ
special_nodeid = 2 ^ 32 - 1

pub record TurnRestriction : Type 0 where
  pub via_node : ℕ
  pub from_node : ℕ
  pub to_node : ℕ
  pub is_only : Bool

pub record RestrictionTarget : Type 0 where
  pub target_node : ℕ
  pub is_only : Bool

-- The map goes from a start node and a via node to the index of a bucket.
pub record RestrictionMap : Type 0 where
  pub count : ℕ
  pub restriction_bucket_list : Array (List RestrictionTarget)
  pub restriction_map : ℕ → ℕ → Option ℕ
  pub restriction_start_nodes : ℕ → Bool
  pub no_turn_via_node_set : ℕ → Bool

-- `map[{u, v}] = i` for a key that is not there, and the removal of a key.
abbrev pub put : (ℕ → ℕ → Option ℕ) → ℕ → ℕ → Option ℕ → ℕ → ℕ → Option ℕ
put f u v o x y = if x == u && y == v then o else f x y

-- `map.emplace({u, v}, i)`: a key that is there keeps its value.
abbrev pub emplace : (ℕ → ℕ → Option ℕ) → ℕ → ℕ → ℕ → ℕ → ℕ → Option ℕ
emplace f u v i = elim (f u v) [ none ↦ put f u v (some i) | some j ↦ f ]

abbrev pub insert : (ℕ → Bool) → ℕ → ℕ → Bool
insert s a x = x == a || s x

pub is_via_node : ℕ → RestrictionMap → Bool
is_via_node node m = m.no_turn_via_node_set node

pub is_source_node : ℕ → RestrictionMap → Bool
is_source_node node m = m.restriction_start_nodes node

abbrev pub target_of : TurnRestriction → RestrictionTarget
target_of r = record { target_node = r.to_node; is_only = r.is_only }

-- `bucket.begin()->is_only`
abbrev first_is_only : List RestrictionTarget → Option Bool
first_is_only [] = none
first_is_only (t ∷ ts) = some t.is_only

-- `++m_count; m_restriction_bucket_list.at(index).emplace_back(...)`
add_to : ℕ → TurnRestriction → RestrictionMap → Option RestrictionMap
add_to index r m = do
  bucket ← load m.restriction_bucket_list index
  buckets ← store m.restriction_bucket_list index (bucket ++ (target_of r ∷ []))
  some (record m { count = m.count + 1; restriction_bucket_list = buckets })

-- The body of the constructor's loop, for one restriction.
pub add_restriction : TurnRestriction → RestrictionMap → Option RestrictionMap
unfolding add_to
add_restriction r m =
    let n = record m {
      restriction_start_nodes = insert m.restriction_start_nodes r.from_node;
      no_turn_via_node_set = insert m.no_turn_via_node_set r.via_node;
    } in
    let found = λ (index : ℕ). do
      bucket ← load n.restriction_bucket_list index
      only ← first_is_only bucket
      let clear = do
        buckets ← store n.restriction_bucket_list index []
        add_to index r
            (record n { count = n.count - length bucket; restriction_bucket_list = buckets })
      if only then some n else if r.is_only then clear else add_to index r n
    in let index = n.restriction_bucket_list.size in
      elim (n.restriction_map r.from_node r.via_node) [
        | none ↦ add_to index r (record n {
          restriction_bucket_list = push_back n.restriction_bucket_list [];
          restriction_map = put n.restriction_map r.from_node r.via_node (some index);
        })
        | some i ↦ found i
      ]

pub add_restrictions : List TurnRestriction → RestrictionMap → Option RestrictionMap
add_restrictions [] m = some m
add_restrictions (r ∷ rs) m = add_restriction r m >>= add_restrictions rs

abbrev pub empty_map : RestrictionMap
empty_map = record {
  count = 0;
  restriction_bucket_list = record { size = 0; at = λ i. [] };
  restriction_map = λ u v. none;
  restriction_start_nodes = λ u. false;
  no_turn_via_node_set = λ u. false;
}

pub new_map : List TurnRestriction → Option RestrictionMap
new_map rs = add_restrictions rs empty_map

-- A target `v` becomes `w`.
abbrev pub redirect : ℕ → ℕ → List RestrictionTarget → List RestrictionTarget
redirect v w [] = []
redirect v w (t ∷ ts) =
    (if v == t.target_node then record t { target_node = w } else t) ∷ redirect v w ts

-- The targets of the edges at `u` that are not `v`.
abbrev pub predecessors : ℕ → List ℕ → List ℕ
predecessors v [] = []
predecessors v (x ∷ xs) = if v == x then predecessors v xs else x ∷ predecessors v xs

pub redirect_all : ℕ → ℕ → ℕ → List ℕ → RestrictionMap → Option RestrictionMap
redirect_all u v w [] m = some m
redirect_all u v w (x ∷ xs) m =
    let visit = λ (index : ℕ). do
      bucket ← load m.restriction_bucket_list index
      buckets ← store m.restriction_bucket_list index (redirect v w bucket)
      redirect_all u v w xs (record m { restriction_bucket_list = buckets })
    in let skip = redirect_all u v w xs m in
      elim (m.restriction_map x u) [ none ↦ skip | some index ↦ visit index ]

abbrev three_nodes : ℕ → ℕ → ℕ → Option (Unit {0})
three_nodes u v w = do
  check (not (u == special_nodeid))
  check (not (v == special_nodeid))
  check (not (w == special_nodeid))

-- `adjacent` lists the targets of the graph's edges at `u`.
pub fixup_arriving_turn_restriction : List ℕ → ℕ → ℕ → ℕ → RestrictionMap → Option RestrictionMap
unfolding redirect_all
fixup_arriving_turn_restriction adjacent u v w m = do
  three_nodes u v w
  if is_via_node u m then redirect_all u v w (predecessors v adjacent) m else some m

pub fixup_starting_turn_restriction : ℕ → ℕ → ℕ → RestrictionMap → Option RestrictionMap
fixup_starting_turn_restriction u v w m =
    let move = λ (index : ℕ). record m {
      restriction_map = emplace (put m.restriction_map v w none) u w index;
      restriction_start_nodes = insert m.restriction_start_nodes u;
    } in
    let moved = elim (m.restriction_map v w) as (λ o. RestrictionMap) [
      | none ↦ m
      | some index ↦ move index
    ] in
    three_nodes u v w >> some (if is_source_node v m then moved else m)

pub only_target : List RestrictionTarget → ℕ
only_target [] = special_nodeid
only_target (t ∷ ts) = if t.is_only then t.target_node else only_target ts

pub check_for_emanating_is_only_turn : ℕ → ℕ → RestrictionMap → Option ℕ
unfolding only_target
check_for_emanating_is_only_turn u v m =
    let find = elim (m.restriction_map u v) as (λ o. Option ℕ) [
      | none ↦ some special_nodeid
      | some index ↦ load m.restriction_bucket_list index >>= λ bucket. some (only_target bucket)
    ] in
    check (not (u == special_nodeid))
    >> check (not (v == special_nodeid))
    >> (if is_source_node u m then find else some special_nodeid)

pub forbids : ℕ → List RestrictionTarget → Bool
forbids w [] = false
forbids w (t ∷ ts) = if w == t.target_node && not t.is_only then true else forbids w ts

pub check_if_turn_is_restricted : ℕ → ℕ → ℕ → RestrictionMap → Option Bool
unfolding forbids
check_if_turn_is_restricted u v w m =
    let find = elim (m.restriction_map u v) as (λ o. Option Bool) [
      | none ↦ some false
      | some index ↦ load m.restriction_bucket_list index >>= λ bucket. some (forbids w bucket)
    ] in
    three_nodes u v w >> (if is_source_node u m then find else some false)
