-- ===== src/Game.antt =====
-- The rules of a round: `Move`, `Result`, `IsValidMove` and `DetermineResult` of
-- backend/internal/room/domain/room.go. Both types are strings there: `other s` is any string `s`
-- that is none of the named constants, and `Result.unset` is the empty string.
pub mod Rules
mod Tests
use rock_paper_money.Prelude.{
  String, Bool, true, false, ◌&&◌, ◌||◌, not, Option, none, some, ◌≡◌, ◌↔◌, arith, Eq, ◌==◌,
  if◌then◌else◌,
}
use rock_paper_money.Prelude.{string_eq}
use rock_paper_money.Failure.{Error, invalid_move}

pub data Move : Type 0 where
  rock paper scissors : Move
  other : String → Move

pub data Result : Type 0 where
  unset draw player_one_wins player_two_wins : Result
  other_result : String → Result

abbrev pub move_beq : Move → Move → Bool
move_beq rock rock = true
move_beq paper paper = true
move_beq scissors scissors = true
move_beq (other s) (other t) = s == t
move_beq _ _ = false

pub move_beq_iff : (a b : Move) → (move_beq a b ≡ true) ↔ (a ≡ b)
move_beq_iff (other s) (other t) = ground (arith, string_eq.beq_iff s t)
move_beq_iff a b = ground arith

instance abbrev pub move_eq : Eq Move
move_eq = record { beq = move_beq; beq_iff = move_beq_iff }

abbrev pub result_beq : Result → Result → Bool
result_beq unset unset = true
result_beq draw draw = true
result_beq player_one_wins player_one_wins = true
result_beq player_two_wins player_two_wins = true
result_beq (other_result s) (other_result t) = s == t
result_beq _ _ = false

pub result_beq_iff : (a b : Result) → (result_beq a b ≡ true) ↔ (a ≡ b)
result_beq_iff (other_result s) (other_result t) = ground (arith, string_eq.beq_iff s t)
result_beq_iff a b = ground arith

instance abbrev pub result_eq : Eq Result
result_eq = record { beq = result_beq; beq_iff = result_beq_iff }

unfoldable pub is_valid_move : Move → Bool
is_valid_move move = move == rock || move == paper || move == scissors

unfoldable pub determine_result : Move → Move → Result × Option Error
unfolding is_valid_move
determine_result one two =
    if not (is_valid_move one) || not (is_valid_move two)
    then (unset, some invalid_move)
    else if one == two
    then (draw, none)
    else if one == rock && two == scissors
        || one == paper && two == rock
        || one == scissors && two == paper
    then (player_one_wins, none)
    else (player_two_wins, none)
