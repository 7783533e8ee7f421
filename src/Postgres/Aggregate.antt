-- ===== src/Postgres/Aggregate.antt =====
-- How a room is read from the tables and written back, `load`, `decodeAggregateRows` and `save` of
-- backend/internal/room/adapter/postgres/repository.go.
use rock_paper_money.Prelude.{
  ltb, if◌then◌else◌, ◌==◌, nat_eq, bool_eq, string_eq, ℕ, ◌-◌, ◌%◌, ◌^◌, String, Bool, true, false,
  not, ◌&&◌, Option, none, some, List, [], ◌∷◌, ◌++◌,
}
use rock_paper_money.Prelude.Int.{ℤ, sub_ℕ, int_eq, pos, negsuc}
use rock_paper_money.Prelude.Dict.{Dict, is_some, get_or, lookup, insert}
use rock_paper_money.Failure.{ok, err, external}
use rock_paper_money.Game.{Move, Result, move_eq, result_eq, unset}
use rock_paper_money.Room.{PersistedPlayer, PersistenceState, Room, restore, persistence_state}
use rock_paper_money.Action.{Action}
use rock_paper_money.Postgres.{
  Role, role_eq, RoundStatus, status_eq, RoomRow, RoundRow, SeatRow, MoveRow, RequestRow, Database,
  host, guest, active, resolved,
}
use rock_paper_money.Postgres.Sql.{rows_where, row_where, exists_where, update_where, delete_where}

-- `WHERE room_code=$1`, the host first.
unfoldable pub seats_of : String → Database → List SeatRow
unfolding rows_where
seats_of code db =
    rows_where (λ (s : SeatRow). s.room_code == code && s.role == host) db.seats
    ++ rows_where (λ (s : SeatRow). s.room_code == code && s.role == guest) db.seats

unfoldable pub seat_of_role : String → Role → Database → Option SeatRow
seat_of_role code role db =
    row_where (λ (s : SeatRow). s.room_code == code && s.role == role) db.seats

unfoldable pub seat_of_account : String → String → Database → Option SeatRow
seat_of_account code auth_user_id db =
    row_where (λ (s : SeatRow). s.room_code == code && s.auth_user_id == auth_user_id) db.seats

unfoldable pub room_row : String → Database → Option RoomRow
room_row code db = row_where (λ (r : RoomRow). r.code == code) db.rooms

unfoldable pub round_row : String → ℕ → Database → Option RoundRow
round_row code number db =
    row_where (λ (r : RoundRow). r.room_code == code && r.number == number) db.rounds

-- The roles of a room's players, Go's `map[string]string`.
abbrev pub Roles : Type 0
Roles = Dict Role String

-- The loop over the seats.
unfoldable pub decode_seats : List SeatRow → List PersistedPlayer × Roles
decode_seats [] = ([], [])
decode_seats (s ∷ ss) =
    let (players, roles) = decode_seats ss in
    (record { id = s.player_id; wins = s.wins } ∷ players, (s.role, s.player_id) ∷ roles)

-- The move that a seat has made in a round.
unfoldable pub move_of_seat : String → ℕ → SeatRow → Database → Option MoveRow
move_of_seat code round s db =
    row_where (λ (m : MoveRow). m.room_code == code && m.round_number == round && m.role == s.role)
      db.moves

unfoldable pub has_requested : String → ℕ → Role → Database → Bool
has_requested code round role db =
    exists_where
      (λ (n : RequestRow). n.room_code == code && n.round_number == round && n.role == role)
      db.requests

-- The moves and the requests of the seats, joined by role.
unfoldable pub decode_moves : String → ℕ → Database → List SeatRow → Dict String Move
unfolding move_of_seat
decode_moves code round db [] = []
decode_moves code round db (s ∷ ss) =
    let rest = decode_moves code round db ss in
    elim (move_of_seat code round s db) [ none ↦ rest | some m ↦ insert s.player_id m.move rest ]

unfoldable pub decode_requests : String → ℕ → Database → List SeatRow → Dict String Bool
unfolding has_requested
decode_requests code round db [] = []
decode_requests code round db (s ∷ ss) =
    let rest = decode_requests code round db ss in
    if has_requested code round s.role db then insert s.player_id true rest else rest

-- The state that `load` hands to `Restore`.
unfoldable pub loaded_state : String → RoomRow → RoundRow → Database → PersistenceState
unfolding seats_of decode_seats decode_moves decode_requests
loaded_state code room round db =
    let seats = seats_of code db in
    let (players, roles) = decode_seats seats in
    record {
      code = code;
      players = players;
      round = room.current_round;
      closed = room.is_closed;
      resolved = is_some round.result;
      result = get_or round.result unset;
      forfeited_player_id = elim round.forfeited_role [
        | none ↦ ""
        | some role ↦ get_or (lookup role roles) ""
      ];
      moves = decode_moves code room.current_round db seats;
      next_round_requests = decode_requests code room.current_round db seats;
    }

-- `load`: a room with the row of its current round.
unfoldable pub load : String → Action Database (Room × Roles)
unfolding room_row round_row loaded_state
load code db = elim (room_row code db) [
  | none ↦ (err (external 0), db)
  | some room ↦ elim (round_row code room.current_round db) [
    | none ↦ (err (external 0), db)
    | some round ↦ elim (restore (loaded_state code room round db)) [
      | err e ↦ (err e, db)
      | ok aggregate ↦ (ok (aggregate, (decode_seats (seats_of code db)).1), db)
    ]
  ]
]

-- One line of what `save` sends, a seat with its share of the state.
pub record InputRow : Type 0 where
  pub role : Role
  pub player_id : String
  pub wins : ℤ
  pub move : Option Move
  pub wants_next : Bool

-- `int32(wins)`
unfoldable pub int32 : ℤ → ℤ
int32 (pos n) = let low = n % 2 ^ 32 in if ltb low 2147483648 then pos low else sub_ℕ low 4294967296
int32 (negsuc n) =
    let low = (4294967295 - n % 2 ^ 32) % 2 ^ 32 in
    if ltb low 2147483648 then pos low else sub_ℕ low 4294967296

-- The loop over the players for one of them, the last match.
unfoldable pub wins_of : String → List PersistedPlayer → ℤ → ℤ
wins_of id [] wins = wins
wins_of id (p ∷ ps) wins = wins_of id ps (if p.id == id then p.wins else wins)

-- The player of a role; a guest who has just joined is the second player.
abbrev pub second_player : List PersistedPlayer → Option String
second_player (_ ∷ p ∷ []) = some p.id
second_player _ = none

abbrev pub player_of_role : Role → Roles → PersistenceState → Option String
player_of_role host roles state = lookup host roles
player_of_role guest roles state = elim (lookup guest roles) [
  | none ↦ second_player state.players
  | some id ↦ some id
]

unfoldable pub input_row : Role → Roles → PersistenceState → List InputRow
unfolding wins_of int32
input_row role roles state = elim (player_of_role role roles state) [
  | none ↦ []
  | some id ↦
      record {
        role = role;
        player_id = id;
        wins = int32 (wins_of id state.players (pos 0));
        move = lookup id state.moves;
        wants_next = get_or (lookup id state.next_round_requests) false;
      }
      ∷ []
]

unfoldable pub input_rows : Roles → PersistenceState → List InputRow
unfolding input_row
input_rows roles state = input_row host roles state ++ input_row guest roles state

unfoldable pub input_of : Role → List InputRow → Option InputRow
input_of role input = row_where (λ (i : InputRow). i.role == role) input

-- The role of the player who forfeited.
unfoldable pub role_of_player : String → Roles → Option Role
role_of_player id [] = none
role_of_player id ((role, player) ∷ roles) =
    if player == id then some role else role_of_player id roles

-- `INSERT … ON CONFLICT (room_code, number) DO UPDATE`
unfoldable pub upsert_round :
    String → ℕ → Option Result → Option Role → RoundStatus → List RoundRow → List RoundRow
upsert_round code number result forfeited_role status [] =
    record {
      room_code = code;
      number = number;
      result = result;
      forfeited_role = forfeited_role;
      funded = false;
      status = status;
    }
    ∷ []
upsert_round code number result forfeited_role status (r ∷ rs) =
    if r.room_code == code && r.number == number
    then record r { result = result; forfeited_role = forfeited_role; status = status } ∷ rs
    else r ∷ upsert_round code number result forfeited_role status rs

-- `INSERT … ON CONFLICT DO NOTHING` of a request.
unfoldable pub add_request : String → ℕ → Role → List RequestRow → List RequestRow
add_request code round role requests =
    if exists_where
      (λ (n : RequestRow). n.room_code == code && n.round_number == round && n.role == role)
      requests
    then requests
    else requests ++ record { room_code = code; round_number = round; role = role } ∷ []

unfoldable pub add_requests : String → ℕ → List InputRow → List RequestRow → List RequestRow
unfolding add_request
add_requests code round [] requests = requests
add_requests code round (i ∷ input) requests =
    add_requests code round input (add_request code round i.role requests)

-- `INSERT … ON CONFLICT (room_code, round_number, role) DO UPDATE` of the moves that are in.
unfoldable pub upsert_move : String → ℕ → Role → Move → List MoveRow → List MoveRow
upsert_move code round role move [] =
    record { room_code = code; round_number = round; role = role; move = move } ∷ []
upsert_move code round role move (m ∷ ms) =
    if m.room_code == code && m.round_number == round && m.role == role
    then record m { move = move } ∷ ms
    else m ∷ upsert_move code round role move ms

unfoldable pub upsert_moves : String → ℕ → List InputRow → List MoveRow → List MoveRow
unfolding upsert_move
upsert_moves code round [] moves = moves
upsert_moves code round (i ∷ input) moves =
    upsert_moves code round input
      (elim i.move [ none ↦ moves | some move ↦ upsert_move code round i.role move moves ])

abbrev pub has_move : Option InputRow → Bool
has_move none = false
has_move (some i) = is_some i.move

abbrev pub wants_next : Option InputRow → Bool
wants_next none = false
wants_next (some i) = i.wants_next

-- `save`: the room, its seats' wins, its round, the moves and the requests.
unfoldable pub save : Room → Roles → ℕ → ℕ → Database → Database
unfolding persistence_state input_rows input_of role_of_player upsert_round upsert_moves
    add_requests
save aggregate roles previous_round revision db =
    let state = persistence_state aggregate in
    let input = input_rows roles state in
    let waiting = rows_where (λ (i : InputRow). i.wants_next) input in
    let kept_requests =
      delete_where
        (λ (n : RequestRow).
          n.room_code == state.code
          && n.round_number == state.round
          && not (wants_next (input_of n.role input)))
        db.requests in
    let past_requests =
      (if ltb previous_round state.round
        then add_requests state.code previous_round input kept_requests
        else kept_requests) in
    record db {
      rooms =
          update_where (λ (r : RoomRow). r.code == state.code)
            (λ (r : RoomRow). record r {
              is_closed = state.closed;
              current_round = state.round;
              revision = revision;
            })
            db.rooms;
      seats =
          update_where (λ (s : SeatRow). s.room_code == state.code)
            (λ (s : SeatRow). elim (input_of s.role input) [
              | none ↦ s
              | some i ↦ record s { wins = i.wins }
            ])
            db.seats;
      rounds =
          upsert_round state.code state.round (if state.resolved then some state.result else none)
            (if state.resolved then role_of_player state.forfeited_player_id roles else none)
            (if state.resolved then resolved else active) db.rounds;
      moves = upsert_moves state.code state.round input (
          delete_where
            (λ (m : MoveRow).
              m.room_code == state.code
              && m.round_number == state.round
              && not (has_move (input_of m.role input)))
            db.moves);
      requests = add_requests state.code state.round waiting past_requests;
    }
