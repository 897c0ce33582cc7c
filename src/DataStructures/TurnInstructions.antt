-- ===== src/DataStructures/TurnInstructions.antt =====
-- DataStructures/TurnInstructions.h: the instruction for a turn by its angle.
-- The angle is a double that is only compared with whole numbers; here it is its whole part, and not
-- negative.
pub mod Direction
mod Tests
use osrm_backend.Prelude.{ℕ, Bool, true, false, ◌&&◌, leb, ltb, if◌then◌else◌}

pub data TurnInstruction : Type 0 where
  no_turn : TurnInstruction
  go_straight : TurnInstruction
  turn_slight_right : TurnInstruction
  turn_right : TurnInstruction
  turn_sharp_right : TurnInstruction
  u_turn : TurnInstruction
  turn_sharp_left : TurnInstruction
  turn_left : TurnInstruction
  turn_slight_left : TurnInstruction
  reach_via_location : TurnInstruction
  head_on : TurnInstruction
  enter_round_about : TurnInstruction
  leave_round_about : TurnInstruction
  stay_on_round_about : TurnInstruction
  start_at_end_of_street : TurnInstruction
  reached_your_destination : TurnInstruction
  enter_against_allowed_direction : TurnInstruction
  leave_against_allowed_direction : TurnInstruction
  inverse_access_restriction_flag : TurnInstruction
  access_restriction_flag : TurnInstruction
  access_restriction_penalty : TurnInstruction

pub get_turn_direction_of_instruction : ℕ → TurnInstruction
get_turn_direction_of_instruction angle =
    if leb 23 angle && ltb angle 67
    then turn_sharp_right
    else if leb 67 angle && ltb angle 113
    then turn_right
    else if leb 113 angle && ltb angle 158
    then turn_slight_right
    else if leb 158 angle && ltb angle 202
    then go_straight
    else if leb 202 angle && ltb angle 248
    then turn_slight_left
    else if leb 248 angle && ltb angle 292
    then turn_left
    else if leb 292 angle && ltb angle 336
    then turn_sharp_left
    else u_turn

pub turn_is_necessary : TurnInstruction → Bool
turn_is_necessary no_turn = false
turn_is_necessary stay_on_round_about = false
turn_is_necessary _ = true
