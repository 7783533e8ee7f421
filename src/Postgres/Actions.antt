-- ===== src/Postgres/Actions.antt =====
-- The players' actions in a round, `recordRoomAction` with `SubmitMoveCommand` and
-- `RequestNextRoundCommand` of backend/internal/room/adapter/postgres/commands.go.
use rock_paper_money.Action.{Action, pure, raise_if, modify, ◌>>=◌, ◌>>◌}
use rock_paper_money.Prelude.{
  if◌then◌else◌, length, ◌==◌, ◌/=◌, nat_eq, bool_eq, string_eq, ℕ, suc, String, Bool, true, false,
  not, ◌&&◌, none, some, [], ◌∷◌, ◌++◌,
}
use rock_paper_money.Prelude.Int.{int_eq}
use rock_paper_money.Failure.{
  Error, Fallible, ok, err, external, room_not_found, unauthorized, room_closed, stale_round,
  round_resolved, round_not_resolved, room_not_ready, invalid_move, duplicate_move,
  next_round_requested,
}
use rock_paper_money.Game.{Move, move_eq, result_eq, is_valid_move, unset}
use rock_paper_money.Room.{State}
use rock_paper_money.Application.{Command, CommandResult}
use rock_paper_money.Memory.{GoLibrary}
use rock_paper_money.Postgres.{
  Role, role_eq, RoundStatus, status_eq, RoomRow, RoundRow, SeatRow, MoveRow, Database, active,
  resolved,
}
use rock_paper_money.Postgres.Sql.{rows_where, exists_where}
use rock_paper_money.Postgres.Aggregate.{room_row, round_row, seat_of_account, has_requested}
use rock_paper_money.Postgres.Connections.{bump_revision}
use rock_paper_money.Postgres.Reconciliation.{reconcile_room}
use rock_paper_money.Postgres.Commands.{persist_command_effects, receipted, snapshot_result}

-- The round's row, with the test on its money and its seats.
unfoldable pub is_round_ready : String → RoundRow → Database → Bool
unfolding rows_where
is_round_ready code rr db =
    rr.funded && length (rows_where (λ (s : SeatRow). s.room_code == code) db.seats) == 2

abbrev pub wrong_status : RoundStatus → Error
wrong_status active = round_resolved
wrong_status _ = round_not_resolved

-- The tests of `recordRoomAction`, up to the seat that acts.
unfoldable pub acting_seat :
    String → String → RoundStatus → ℕ → RoomRow → RoundRow → Action Database SeatRow
unfolding seat_of_account is_round_ready
acting_seat code account_id required expected_round r rr db =
    if r.is_closed
    then (err room_closed, db)
    else if expected_round /= 0 && expected_round /= r.current_round
    then (err stale_round, db)
    else if rr.status /= required
    then (err (wrong_status required), db)
    else elim (seat_of_account code account_id db) [
      | none ↦ (err unauthorized, db)
      | some s ↦ if is_round_ready code rr db then (ok s, db) else (err room_not_ready, db)
    ]

-- The view that an action answers with.
abbrev pub acknowledged : String → ℕ → Bool → State
acknowledged code round is_resolved = record {
  code = code;
  players = [];
  moves = [];
  ready = true;
  resolved = is_resolved;
  result = unset;
  forfeit = false;
  round = round;
  closed = false;
}

module _ (is_bounded : String → ℕ → Bool) where
  -- `recordRoomAction` for the row of the room and of its round.
  unfoldable pub record_in_round :
      String
      → String
      → Command
      → RoundStatus
      → ℕ
      → (ℕ → Role → Action Database (Unit {0}))
      → RoomRow
      → RoundRow
      → Action Database CommandResult
  unfolding acting_seat bump_revision persist_command_effects
  record_in_round code account_id command required expected_round insert_action r rr = do
    seat ← acting_seat code account_id required expected_round r rr
    insert_action r.current_round seat.role
    modify (bump_revision code)
    persist_command_effects code (suc r.revision) account_id command (
        snapshot_result (acknowledged code r.current_round (required == resolved)) (suc r.revision)
          [])
    raise_if (not (is_bounded code r.current_round)) (external 12)
    pure (
        snapshot_result (acknowledged code r.current_round (required == resolved)) (suc r.revision)
          [])

  -- `recordRoomAction` up to its commit.
  unfoldable pub record_room_action :
      String
      → String
      → Command
      → RoundStatus
      → ℕ
      → (ℕ → Role → Action Database (Unit {0}))
      → Action Database CommandResult
  unfolding receipted room_row round_row record_in_round
  record_room_action code account_id command required expected_round insert_action =
      receipted account_id command (λ db. elim (room_row code db) [
        | none ↦ (err room_not_found, db)
        | some r ↦ elim (round_row code r.current_round db) [
          | none ↦ (err room_not_found, db)
          | some rr ↦
              record_in_round code account_id command required expected_round insert_action r rr db
        ]
      ])

  -- The reconciliation behind the commit of a new action, whose error is dropped. A replayed action
  -- has none.
  abbrev pub reconciled :
      GoLibrary → String → Fallible CommandResult × Database → Fallible CommandResult × Database
  reconciled go code (err e, db) = (err e, db)
  reconciled go code (ok result, db) =
      if result.replayed then (ok result, db) else elim result.snapshot [
        | none ↦ (ok result, db)
        | some s ↦ (
          ok result,
          (reconcile_room go is_bounded (record { room_code = code; round = s.state.round }) db).2,
        )
      ]

  unfoldable pub insert_move : String → Move → ℕ → Role → Action Database (Unit {0})
  unfolding exists_where
  insert_move code move round role db =
      if exists_where
        (λ (m : MoveRow). m.room_code == code && m.round_number == round && m.role == role) db.moves
      then (err duplicate_move, db)
      else (
        ok tt,
        record db {
          moves =
              db.moves
              ++ record { room_code = code; round_number = round; role = role; move = move } ∷ [];
        },
      )

  unfoldable pub insert_request : String → ℕ → Role → Action Database (Unit {0})
  unfolding has_requested
  insert_request code round role db =
      if has_requested code round role db then (err next_round_requested, db) else (
        ok tt,
        record db {
          requests =
              db.requests ++ record { room_code = code; round_number = round; role = role } ∷ [];
        },
      )

  unfoldable pub submit_move_command :
      GoLibrary → String → String → Move → Command → Action Database CommandResult
  unfolding record_room_action insert_move reconcile_room
  submit_move_command go code account_id move command db =
      if not (is_valid_move move)
      then (err invalid_move, db)
      else reconciled go code
          (record_room_action code account_id command active 0 (insert_move code move) db)

  unfoldable pub request_next_round_command :
      GoLibrary → String → String → ℕ → Command → Action Database CommandResult
  unfolding record_room_action insert_request reconcile_room
  request_next_round_command go code account_id round command db =
      reconciled go code
        (record_room_action code account_id command resolved round (insert_request code) db)
