-- ===== src/DataStructures/TurnInstructions/Direction.antt =====
-- The instruction names the eighth of the circle that the angle points to.
use osrm_backend.Prelude.{ℕ, ◌+◌, ◌<◌, ◌≡◌, Bool, true, false, ◌&&◌, ◌||◌, leb, arith}
use osrm_backend.DataStructures.TurnInstructions.{
  TurnInstruction, go_straight, turn_slight_right, turn_right, turn_sharp_right, u_turn,
  turn_sharp_left, turn_left, turn_slight_left, get_turn_direction_of_instruction,
  turn_is_necessary,
}

-- At most 24 degrees apart.
abbrev is_close : ℕ → ℕ → Bool
is_close c angle = leb c (angle + 24) && leb angle (c + 24)

-- The eight directions at multiples of 45 degrees, where 180 degrees is straight on.
abbrev pub points_to : TurnInstruction → ℕ → Bool
points_to turn_sharp_right angle = is_close 45 angle
points_to turn_right angle = is_close 90 angle
points_to turn_slight_right angle = is_close 135 angle
points_to go_straight angle = is_close 180 angle
points_to turn_slight_left angle = is_close 225 angle
points_to turn_left angle = is_close 270 angle
points_to turn_sharp_left angle = is_close 315 angle
points_to u_turn angle = is_close 0 angle || is_close 360 angle
points_to _ angle = false

-- For an angle below 360 degrees the instruction's direction is at most 24 degrees off the angle,
-- and the turn is one that is announced.
direction_correct :
    (angle : ℕ)
    → angle < 360
    → (points_to (get_turn_direction_of_instruction angle) angle ≡ true)
      × (turn_is_necessary (get_turn_direction_of_instruction angle) ≡ true)
unfolding get_turn_direction_of_instruction turn_is_necessary
direction_correct angle h = (ground arith, ground arith)
