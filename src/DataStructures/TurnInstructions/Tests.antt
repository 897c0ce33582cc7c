-- ===== src/DataStructures/TurnInstructions/Tests.antt =====
-- An angle just below a right turn's.
use osrm_backend.Prelude.{◌≡◌, refl}
use osrm_backend.DataStructures.TurnInstructions.{turn_right, get_turn_direction_of_instruction}

right_at_80 : get_turn_direction_of_instruction 80 ≡ turn_right
unfolding get_turn_direction_of_instruction
right_at_80 = refl
