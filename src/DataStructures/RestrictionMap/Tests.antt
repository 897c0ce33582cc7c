-- ===== src/DataStructures/RestrictionMap/Tests.antt =====
-- Concrete restrictions, and the theorems at them.
use osrm_backend.Prelude.{
  ℕ, ◌≡◌, refl, Bool, true, false, Option, none, some, List, [], ◌∷◌, arith, ◌==◌, ◌&&◌,
  if◌then◌else◌, ◌>>=◌, Returns, value_of,
}
use osrm_backend.DataStructures.RestrictionMap.{
  TurnRestriction, RestrictionMap, new_map, add_restrictions, add_restriction,
  check_if_turn_is_restricted, check_for_emanating_is_only_turn, fixup_starting_turn_restriction,
  is_source_node, special_nodeid,
}
use osrm_backend.DataStructures.RestrictionMap.Build.{Represents, new_map_correct}
use osrm_backend.DataStructures.RestrictionMap.Fixup.{Restarted, fixup_starting_correct}

abbrev turn : ℕ → ℕ → ℕ → Bool → TurnRestriction
turn u v w only = record { from_node = u; via_node = v; to_node = w; is_only = only }

abbrev input : List TurnRestriction
input =
    turn 1 2 3 false ∷ turn 1 2 4 false ∷ turn 5 2 3 false ∷ turn 5 2 6 true ∷ turn 5 2 7 true ∷ []

abbrev answers : Option (Bool × Bool × ℕ × ℕ)
answers = do
  m ← new_map input
  a ← check_if_turn_is_restricted 1 2 4 m
  b ← check_if_turn_is_restricted 5 2 3 m
  c ← check_for_emanating_is_only_turn 1 2 m
  d ← check_for_emanating_is_only_turn 5 2 m
  some (a, b, c, d)

answers_lem : answers ≡ some (true, false, special_nodeid, 6)
unfolding new_map add_restrictions add_restriction check_if_turn_is_restricted
    check_for_emanating_is_only_turn is_source_node
answers_lem = refl

new_map_correct_example : Returns (Represents input) (new_map input)
new_map_correct_example = new_map_correct input

abbrev built : (m : RestrictionMap) × (new_map input ≡ some m) × Represents input m
built = value_of (new_map_correct input)

fixup_starting_correct_example :
    Returns (Restarted 8 1 2 built.0) (fixup_starting_turn_restriction 8 1 2 built.0)
fixup_starting_correct_example =
    fixup_starting_correct 8 1 2 (built.2).valid (omega arith) (omega arith)

-- The turn from 1 over 2 into 3 alone.
abbrev one_turn : RestrictionMap
one_turn = record {
  count = 1;
  restriction_bucket_list = record {
    size = 1;
    at = λ i. record { target_node = 3; is_only = false } ∷ [];
  };
  restriction_map = λ u v. if u == 1 && v == 2 then some 0 else none;
  restriction_start_nodes = λ u. u == 1;
  no_turn_via_node_set = λ u. u == 2;
}
