-- ===== src/Room.antt =====
-- The aggregate of backend/internal/room/domain/room.go: its data, `New`, `Restore`,
-- `PersistenceState` and `State`. Its methods are in Actions and Deadlines.
--
-- `Wins` is a Go `int`, a ℤ here that wraps at 2^63; `Round` is a `uint64`, a ℕ here that wraps at
-- 2^64. The empty result and the empty player ID are `unset` and "".
pub mod Actions
pub mod Deadlines
pub mod Valid
pub mod Counting
pub mod Outcome
pub mod Persist
pub mod Keeps
pub mod Stranded
pub mod Machine
pub mod Secrecy
pub mod Order
mod Tests
use rock_paper_money.Prelude.{
  ℕ, ◌+◌, ◌%◌, ◌^◌, String, Bool, true, false, not, ◌&&◌, ◌||◌, Option, none, some, List, [], ◌∷◌,
  ◌≡◌, Eq, ◌==◌, ◌/=◌, if◌then◌else◌, length, leb, ltb, string_eq, nat_eq, bool_eq,
}
use rock_paper_money.Prelude.Dict.{Dict, lookup, insert, contains, get_or, clone}
use rock_paper_money.Prelude.Int.{ℤ, pos, ltb_ℤ}
use rock_paper_money.Failure.{
  Fallible, ok, err, ◌>>=◌, ◌>>◌, fail_if, Error, empty_code, missing_player_id, invalid_state,
}
use rock_paper_money.Game.{
  Move, other, Result, unset, draw, player_one_wins, player_two_wins, is_valid_move,
  determine_result, result_eq,
}

pub record PersistedPlayer : Type 0 where
  pub id : String
  pub wins : ℤ

pub record PersistenceState : Type 0 where
  pub code : String
  pub players : List PersistedPlayer
  pub round : ℕ
  pub closed : Bool
  pub resolved : Bool
  pub result : Result
  pub forfeited_player_id : String
  pub moves : Dict String Move
  pub next_round_requests : Dict String Bool

pub record Room : Type 0 where
  pub code : String
  pub players : List PersistedPlayer
  pub moves : Dict String Move
  pub resolved : Bool
  pub result : Result
  pub forfeited_player_id : String
  pub round : ℕ
  pub next_round_requests : Dict String Bool
  pub closed : Bool

pub record Player : Type 0 where
  pub id : String
  pub wins : ℤ
  pub submitted : Bool
  pub wants_next_round : Bool

pub record PlayerMove : Type 0 where
  pub player_id : String
  pub move : Move

pub record State : Type 0 where
  pub code : String
  pub players : List Player
  pub ready : Bool
  pub resolved : Bool
  pub round : ℕ
  pub closed : Bool
  pub moves : List PlayerMove
  pub result : Result
  pub forfeit : Bool

-- `New`: the room of its host alone.
unfoldable pub new : String → String → Fallible Room
new code host_player_id = do
  fail_if (code == "") empty_code
  fail_if (host_player_id == "") missing_player_id
  ok (record {
    code = code;
    players = record { id = host_player_id; wins = pos 0 } ∷ [];
    moves = [];
    resolved = false;
    result = unset;
    forfeited_player_id = "";
    round = 1;
    next_round_requests = [];
    closed = false;
  })

-- `seen[id]`
abbrev pub is_seen : String → Dict String Bool → Bool
is_seen id seen = get_or (lookup id seen) false

-- The loop of `Restore` over the players, which fills `seen`.
unfoldable pub check_players : List PersistedPlayer → Dict String Bool → Fallible (Dict String Bool)
check_players [] seen = ok seen
check_players (p ∷ ps) seen =
    let rest = check_players ps (insert p.id true seen) in
    fail_if (p.id == "" || ltb_ℤ p.wins (pos 0) || is_seen p.id seen) invalid_state >> rest

-- The loop over the moves.
unfoldable pub check_moves : Dict String Bool → Dict String Move → Fallible (Unit {0})
check_moves seen [] = ok tt
check_moves seen ((id, move) ∷ moves) =
    let rest = check_moves seen moves in
    fail_if (not (is_seen id seen) || not (is_valid_move move)) invalid_state >> rest

-- The loop over the requests for a next round, which reads the keys alone.
unfoldable pub check_requests : Dict String Bool → Dict String Bool → Fallible (Unit {0})
check_requests seen [] = ok tt
check_requests seen ((id, _) ∷ requests) =
    let rest = check_requests seen requests in fail_if (not (is_seen id seen)) invalid_state >> rest

-- `m[k]` of a missing player is the empty move.
abbrev pub move_of : String → Dict String Move → Move
move_of id moves = get_or (lookup id moves) (other "")

-- `validResolvedMoves` of two players, its `Players[0]` and `Players[1]`.
valid_moves_of : PersistedPlayer → PersistedPlayer → Dict String Move → Result → Bool
valid_moves_of host guest moves result =
    if length moves == 2
    then (determine_result (move_of host.id moves) (move_of guest.id moves)).0 == result
    else if length moves == 0
    then result == draw
    else if length moves == 1
    then (if contains host.id moves
        then result == player_one_wins
        else contains guest.id moves && result == player_two_wins)
    else false

-- Go panics where a player is missing; `Restore` calls it with two.
unfoldable pub valid_resolved_moves : PersistenceState → Bool
unfolding valid_moves_of
valid_resolved_moves state = elim state.players [
  | host ∷ guest ∷ _ ↦ valid_moves_of host guest state.moves state.result
  | _ ↦ false
]

abbrev pub first_id : List PersistedPlayer → String
first_id [] = ""
first_id (p ∷ _) = p.id

-- The tests on a resolved round, behind the `if state.Resolved` of `Restore`.
unfoldable pub check_resolved : Dict String Bool → PersistenceState → Fallible (Unit {0})
unfolding valid_resolved_moves
check_resolved seen state =
    if state.forfeited_player_id == ""
    then fail_if (not (valid_resolved_moves state)) invalid_state
    else fail_if
        (not (is_seen state.forfeited_player_id seen)
          || ltb 1 (length state.moves)
          || state.result == draw
          || (state.forfeited_player_id == first_id state.players)
            /= (state.result == player_two_wins))
        invalid_state

-- The whole `if state.Resolved … else if …`.
unfoldable pub check_outcome : Dict String Bool → PersistenceState → Fallible (Unit {0})
unfolding check_resolved
check_outcome seen state =
    if state.resolved
    then fail_if
        (length state.players /= 2
          || (state.result /= draw
              && state.result /= player_one_wins
              && state.result /= player_two_wins))
        invalid_state
      >> check_resolved seen state
    else fail_if
        (state.result /= unset
          || state.forfeited_player_id /= ""
          || length state.next_round_requests /= 0)
        invalid_state

unfoldable pub restore : PersistenceState → Fallible Room
restore state = do
  fail_if
      (state.code == ""
        || state.round == 0
        || ltb (length state.players) 1
        || ltb 2 (length state.players))
      invalid_state
  seen ← check_players state.players []
  check_moves seen state.moves
  check_requests seen state.next_round_requests
  check_outcome seen state
  ok (record {
    code = state.code;
    players = state.players;
    moves = clone state.moves;
    resolved = state.resolved;
    result = state.result;
    forfeited_player_id = state.forfeited_player_id;
    round = state.round;
    next_round_requests = clone state.next_round_requests;
    closed = state.closed;
  })

unfoldable pub persistence_state : Room → PersistenceState
persistence_state r = record {
  code = r.code;
  players = r.players;
  round = r.round;
  closed = r.closed;
  resolved = r.resolved;
  result = r.result;
  forfeited_player_id = r.forfeited_player_id;
  moves = clone r.moves;
  next_round_requests = clone r.next_round_requests;
}

-- One player of `State`.
abbrev pub view_player : Dict String Move → Dict String Bool → PersistedPlayer → Player
view_player moves requests p = record {
  id = p.id;
  wins = p.wins;
  submitted = contains p.id moves;
  wants_next_round = get_or (lookup p.id requests) false;
}

unfoldable pub view_players :
    Dict String Move → Dict String Bool → List PersistedPlayer → List Player
view_players moves requests [] = []
view_players moves requests (p ∷ ps) = view_player moves requests p ∷ view_players moves requests ps

-- The loop that lists the moves in the order of the seats.
unfoldable pub shown_moves : Dict String Move → List PersistedPlayer → List PlayerMove
shown_moves moves [] = []
shown_moves moves (p ∷ ps) = elim (lookup p.id moves) [
  | none ↦ shown_moves moves ps
  | some move ↦ record { player_id = p.id; move = move } ∷ shown_moves moves ps
]

unfoldable pub state : Room → State
unfolding view_players shown_moves
state r = record {
  code = r.code;
  players = view_players r.moves r.next_round_requests r.players;
  ready = length (view_players r.moves r.next_round_requests r.players) == 2;
  resolved = r.resolved;
  round = r.round;
  closed = r.closed;
  moves = if r.resolved then shown_moves r.moves r.players else [];
  result = if r.resolved then r.result else unset;
  forfeit = r.forfeited_player_id /= "";
}
