-- ===== src/Game/Tests.antt =====
-- The rules of a round at concrete moves.
use rock_paper_money.Prelude.{nat_eq, string_eq, bool_eq, ◌≡◌, refl, none, some}
use rock_paper_money.Failure.{invalid_move}
use rock_paper_money.Game.{
  move_eq, result_eq, determine_result, rock, paper, other, unset, player_two_wins,
}
use rock_paper_money.Game.Rules.{mirror, determine_result-mirror, Judges, determine_result-Judges}

paper_beats_rock : determine_result rock paper ≡ (player_two_wins, none)
unfolding determine_result
paper_beats_rock = refl

unknown_move : determine_result (other "lizard") rock ≡ (unset, some invalid_move)
unfolding determine_result
unknown_move = refl

determine_result-Judges_example : Judges rock paper (determine_result rock paper)
determine_result-Judges_example = determine_result-Judges rock paper

determine_result-mirror_example :
    determine_result paper rock
    ≡ (mirror (determine_result rock paper).0, (determine_result rock paper).1)
determine_result-mirror_example = determine_result-mirror rock paper
