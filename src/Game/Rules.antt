-- ===== src/Game/Rules.antt =====
-- What the rules of a round guarantee.
use rock_paper_money.Prelude.{
  nat_eq, string_eq, bool_eq, ◌≡◌, refl, ◌⊎◌, inl, inr, true, false, Option, none, some, arith,
}
use rock_paper_money.Game.{
  Move, Result, move_eq, result_eq, is_valid_move, determine_result, rock, paper, scissors, other,
  unset, draw, player_one_wins, player_two_wins,
}
use rock_paper_money.Failure.{Error, invalid_move}

-- The three moves, as a relation: the first beats the second.
pub data Beats : Move → Move → Type 0 where
  rock_scissors : Beats rock scissors
  paper_rock : Beats paper rock
  scissors_paper : Beats scissors paper

-- The same result seen from the other seat.
abbrev pub mirror : Result → Result
mirror player_one_wins = player_two_wins
mirror player_two_wins = player_one_wins
mirror r = r

-- Swapping the two moves swaps the winner, and leaves a draw and an error as they are.
pub determine_result-mirror :
    (one two : Move)
    → determine_result two one ≡ (mirror (determine_result one two).0, (determine_result one two).1)
unfolding determine_result
determine_result-mirror (other s) two = ground arith
determine_result-mirror rock two = ground arith
determine_result-mirror paper two = ground arith
determine_result-mirror scissors two = ground arith

-- The result and error that the rules give two moves: a draw for one valid move made twice, the
-- win to the move that beats the other, the error if either move is not valid.
abbrev pub Judges : Move → Move → Result × Option Error → Type 0
Judges one two (draw, none) = (one ≡ two) × (is_valid_move one ≡ true)
Judges one two (player_one_wins, none) = Beats one two
Judges one two (player_two_wins, none) = Beats two one
Judges one two (unset, some invalid_move) =
    (is_valid_move one ≡ false) ⊎ (is_valid_move two ≡ false)
Judges one two _ = ⊥

-- `DetermineResult` judges every two strings by the rules.
pub determine_result-Judges : (one two : Move) → Judges one two (determine_result one two)
unfolding determine_result is_valid_move
determine_result-Judges (other s) two = inl refl
determine_result-Judges rock rock = (refl, refl)
determine_result-Judges rock paper = paper_rock
determine_result-Judges rock scissors = rock_scissors
determine_result-Judges rock (other s) = inr refl
determine_result-Judges paper rock = paper_rock
determine_result-Judges paper paper = (refl, refl)
determine_result-Judges paper scissors = scissors_paper
determine_result-Judges paper (other s) = inr refl
determine_result-Judges scissors rock = rock_scissors
determine_result-Judges scissors paper = scissors_paper
determine_result-Judges scissors scissors = (refl, refl)
determine_result-Judges scissors (other s) = inr refl
