-- ===== src/Room/Actions.antt =====
-- The players' actions of backend/internal/room/domain/room.go: `Join`, `SubmitMove`,
-- `RequestNextRound`, `ResolveCommittedMoves`, `AdvanceCommittedNextRound` and `Leave`. A method
-- returns the room that it leaves behind, and its error if it returns one.
use rock_paper_money.Prelude.{
  ltb, if◌then◌else◌, length, ◌==◌, ◌/=◌, nat_eq, string_eq, bool_eq, ℕ, ◌+◌, ◌%◌, ◌^◌, String,
  Bool, true, false, not, ◌&&◌, ◌||◌, Option, none, some, List, [], ◌∷◌, ◌++◌,
}
use rock_paper_money.Prelude.Dict.{get_or, lookup, insert, contains}
use rock_paper_money.Prelude.Int.{inc_int, int_eq, pos}
use rock_paper_money.Failure.{
  Error, missing_player_id, duplicate_player, room_full, unknown_player, room_not_ready,
  duplicate_move, invalid_move, round_not_resolved, next_round_requested, stale_round,
  round_resolved, game_unfinished, room_closed,
}
use rock_paper_money.Game.{
  Move, Result, move_eq, result_eq, is_valid_move, determine_result, unset, player_one_wins,
  player_two_wins,
}
use rock_paper_money.Room.{PersistedPlayer, Room, move_of}

abbrev pub Outcome : Type 0
Outcome = Room × Option Error

unfoldable pub has_player : String → List PersistedPlayer → Bool
has_player id [] = false
has_player id (p ∷ ps) = p.id == id || has_player id ps

-- `players[i].Wins++`
abbrev pub win : PersistedPlayer → PersistedPlayer
win p = record p { wins = inc_int p.wins }

unfoldable pub join : String → Room → Outcome
unfolding has_player
join player_id r =
    if r.closed
    then (r, some room_closed)
    else if player_id == ""
    then (r, some missing_player_id)
    else if has_player player_id r.players
    then (r, some duplicate_player)
    else if length r.players == 2
    then (r, some room_full)
    else (record r { players = r.players ++ record { id = player_id; wins = pos 0 } ∷ [] }, none)

-- The wins after `resolve`.
abbrev pub award_result :
    Result → PersistedPlayer → PersistedPlayer → List PersistedPlayer → List PersistedPlayer
award_result result host guest rest =
    if result == player_one_wins
    then win host ∷ guest ∷ rest
    else if result == player_two_wins
    then host ∷ win guest ∷ rest
    else host ∷ guest ∷ rest

-- `resolve` of two players; Go panics where one is missing, and its callers have tested for two.
unfoldable pub resolve_seats : List PersistedPlayer → Room → Room
resolve_seats (host ∷ guest ∷ rest) r =
    let result = (determine_result (move_of host.id r.moves) (move_of guest.id r.moves)).0 in
    record r { result = result; resolved = true; players = award_result result host guest rest }
resolve_seats _ r = r

unfoldable pub resolve : Room → Room
unfolding resolve_seats
resolve r = resolve_seats r.players r

unfoldable pub submit_move : String → Move → Room → Outcome
unfolding has_player
submit_move player_id move r =
    if r.closed
    then (r, some room_closed)
    else if not (has_player player_id r.players)
    then (r, some unknown_player)
    else if ltb (length r.players) 2
    then (r, some room_not_ready)
    else if r.resolved
    then (r, some round_resolved)
    else if not (is_valid_move move)
    then (r, some invalid_move)
    else if contains player_id r.moves
    then (r, some duplicate_move)
    else let moved = record r { moves = insert player_id move r.moves } in
      (if length moved.moves == 2 then resolve moved else moved, none)

-- `r.round++` on a `uint64`.
abbrev pub next_round : ℕ → ℕ
next_round round = (round + 1) % 2 ^ 64

-- The reset that opens a new round.
abbrev pub advance : Room → Room
advance r = record r {
  moves = [];
  resolved = false;
  result = unset;
  forfeited_player_id = "";
  round = next_round r.round;
  next_round_requests = [];
}

unfoldable pub request_next_round : String → ℕ → Room → Outcome
unfolding has_player
request_next_round player_id round r =
    if r.closed
    then (r, some room_closed)
    else if not (has_player player_id r.players)
    then (r, some unknown_player)
    else if not r.resolved
    then (r, some round_not_resolved)
    else if round /= r.round
    then (r, some stale_round)
    else if get_or (lookup player_id r.next_round_requests) false
    then (r, some next_round_requested)
    else let asked = record r {
      next_round_requests = insert player_id true r.next_round_requests;
    } in
      (
        if length asked.next_round_requests == length asked.players then advance asked else asked,
        none,
      )

unfoldable pub resolve_committed_moves : ℕ → Room → Outcome
resolve_committed_moves expected_round r =
    if r.closed
    then (r, some room_closed)
    else if expected_round /= r.round
    then (r, some stale_round)
    else if r.resolved
    then (r, some round_resolved)
    else if length r.players /= 2
    then (r, some room_not_ready)
    else if length r.moves /= 2
    then (r, some round_not_resolved)
    else (resolve r, none)

unfoldable pub advance_committed_next_round : ℕ → Room → Outcome
advance_committed_next_round expected_round r =
    if r.closed
    then (r, some room_closed)
    else if expected_round /= r.round
    then (r, some stale_round)
    else if not r.resolved
    then (r, some round_not_resolved)
    else if length r.players /= 2 || length r.next_round_requests /= length r.players
    then (r, some room_not_ready)
    else (advance r, none)

unfoldable pub leave : String → Room → Outcome
unfolding has_player
leave player_id r =
    if r.closed
    then (r, some room_closed)
    else if not (has_player player_id r.players)
    then (r, some unknown_player)
    else if not r.resolved && length r.players == 2
    then (r, some game_unfinished)
    else (record r { closed = true }, none)
