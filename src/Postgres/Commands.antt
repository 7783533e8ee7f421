-- ===== src/Postgres/Commands.antt =====
-- The idempotent commands of the Postgres store,
-- backend/internal/room/adapter/postgres/commands.go: a receipt under the command's key, and the
-- write that is kept in it. A latency phase has no effect.
use rock_paper_money.Action.{Action, pure, gets, raise_if, lift, modify, ◌>>=◌, ◌>>◌}
use rock_paper_money.Prelude.{
  if◌then◌else◌, ◌==◌, ◌/=◌, nat_eq, bool_eq, string_eq, ℕ, suc, String, Bool, true, false, not,
  ◌||◌, Option, none, some, List, [], ◌∷◌, ◌++◌,
}
use rock_paper_money.Prelude.Int.{◌+ℤ◌, int_eq, pos}
use rock_paper_money.Prelude.Dict.{insert, is_some}
use rock_paper_money.Failure.{
  Fallible, ok, err, room_not_found, unauthorized, account_seated, room_full, idempotency_conflict,
}
use rock_paper_money.Game.{move_eq, result_eq}
use rock_paper_money.Room.{Room, State, state}
use rock_paper_money.Room.Actions.{join}
use rock_paper_money.Application.{PresenceLease, PresenceWindow, Mutation, Command, CommandResult}
use rock_paper_money.Memory.{GoLibrary}
use rock_paper_money.Postgres.{
  role_eq, status_eq, SeatRow, ReceiptRow, Database, transaction, guest,
}
use rock_paper_money.Postgres.Sql.{row_where}
use rock_paper_money.Postgres.Aggregate.{
  Roles, room_row, seats_of, seat_of_role, seat_of_account, load, save,
}
use rock_paper_money.Postgres.Wallets.{fund_round}
use rock_paper_money.Postgres.Repository.{outcome, create_room, seat_guest}
use rock_paper_money.Postgres.Connections.{presence_row, add_outbox}

unfoldable pub receipt_row : String → Database → Option ReceiptRow
unfolding row_where
receipt_row key db = row_where (λ (r : ReceiptRow). r.idempotency_key == key) db.receipts

-- `commandReceipt`: the kept result, if the command has run.
unfoldable pub command_receipt : String → Command → Database → Fallible (Option CommandResult)
unfolding receipt_row
command_receipt account_id command db = elim (receipt_row command.key db) [
  | none ↦ ok none
  | some r ↦
      if r.account_id /= account_id
        || r.operation /= command.operation
        || r.request_hash /= command.request_hash
      then err idempotency_conflict
      else ok (some (record r.response_body { replayed = true }))
]

-- `finishCommandReceipt`, for seven days.
unfoldable pub finish_command_receipt : String → Command → CommandResult → Database → Database
finish_command_receipt account_id command result db = record db {
  receipts =
      db.receipts
      ++ record {
        account_id = account_id;
        idempotency_key = command.key;
        operation = command.operation;
        request_hash = command.request_hash;
        response_status = command.response_status;
        response_body = result;
        expires_at = db.clock +ℤ pos 604800000000000;
      }
        ∷ [];
}

unfoldable pub persist_command_effects :
    String → ℕ → String → Command → CommandResult → Action Database (Unit {0})
unfolding add_outbox finish_command_receipt
persist_command_effects code revision account_id command result = do
  add_outbox code revision
  modify (finish_command_receipt account_id command result)

-- A command behind its receipt.
abbrev pub first_time :
    Fallible (Option CommandResult) → Action Database CommandResult → Action Database CommandResult
first_time (err e) m db = (err e, db)
first_time (ok (some replay)) m db = (ok replay, db)
first_time (ok none) m db = m db

unfoldable pub receipted :
    String → Command → Action Database CommandResult → Action Database CommandResult
unfolding command_receipt
receipted account_id command m =
    transaction (λ db. first_time (command_receipt account_id command db) m db)

abbrev pub snapshot_result : State → ℕ → List PresenceLease → CommandResult
snapshot_result s revision leases = record {
  snapshot = some (record { state = s; revision = revision; presence = [] });
  leases = leases;
  balance = pos 0;
  replayed = false;
}

unfoldable pub create_command : Room → String → Command → Action Database CommandResult
unfolding receipted create_room persist_command_effects
create_command aggregate account_id command = receipted account_id command (do
  create_room aggregate account_id
  persist_command_effects aggregate.code 1 account_id command
      (snapshot_result (state aggregate) 1 [])
  pure (snapshot_result (state aggregate) 1 []))

-- What a change of `writeAccountCommand` leaves: the room, its roles and the leases.
abbrev pub Written : Type 0
Written = Room × Roles × List PresenceLease

abbrev pub AccountChange : Type 0
AccountChange = Room → Roles → String → Action Database Written

unfoldable pub acting_player : Bool → String → String → Action Database String
unfolding seat_of_account
acting_player authorize code account_id db =
    if not authorize then (ok "", db) else elim (seat_of_account code account_id db) [
      | none ↦ (err unauthorized, db)
      | some s ↦ (ok s.player_id, db)
    ]

unfoldable pub write_account_room :
    String → ℕ → String → Command → Bool → AccountChange → Action Database CommandResult
unfolding load acting_player save persist_command_effects
write_account_room code revision account_id command authorize change = do
  (aggregate, roles) ← load code
  player_id ← acting_player authorize code account_id
  written ← change aggregate roles player_id
  modify (save written.0 written.1 aggregate.round (suc revision))
  persist_command_effects code (suc revision) account_id command
      (snapshot_result (state written.0) (suc revision) written.2)
  pure (snapshot_result (state written.0) (suc revision) written.2)

unfoldable pub write_account_command :
    String → String → Command → Bool → AccountChange → Action Database CommandResult
unfolding receipted room_row write_account_room
write_account_command code account_id command authorize change = receipted account_id command (λ db.
    elim (room_row code db) [
      | none ↦ (err room_not_found, db)
      | some r ↦ write_account_room code r.revision account_id command authorize change db
    ])

-- The leases of a room's seats, with the generations that the upsert returns.
unfoldable pub joined_leases :
    String → ℕ → PresenceWindow → List SeatRow → Database → List PresenceLease
unfolding presence_row
joined_leases code round window [] db = []
joined_leases code round window (s ∷ ss) db =
    let rest = joined_leases code round window ss db in
    elim (presence_row code s.player_id db) [
      | none ↦ rest
      | some p ↦
          record {
            room_code = code;
            player_id = s.player_id;
            round = round;
            generation = p.generation;
            deadline = window.deadline;
            evaluate_at = window.evaluate_at;
            proof_after = window.proof_after;
            active = true;
          }
          ∷ rest
    ]

-- The room, its roles and the leases behind a new guest.
unfoldable pub joined_written : String → String → PresenceWindow → Room → Roles → Database → Written
unfolding seats_of joined_leases
joined_written code player_id window joined roles db = (
  joined,
  insert guest player_id roles,
  joined_leases code joined.round window (seats_of code db) db,
)

unfoldable pub join_account : GoLibrary → String → String → String → PresenceWindow → AccountChange
unfolding seat_of_account seat_of_role fund_round seat_guest joined_written
join_account go code player_id account_id window aggregate roles _ = do
  joined ← lift (outcome (join player_id aggregate))
  λ db. raise_if (is_some (seat_of_account code account_id db)) account_seated db
  λ db. fund_round go db.clock code joined.round account_id db
  λ db. raise_if (is_some (seat_of_role code guest db)) room_full db
  modify (seat_guest code player_id account_id window)
  gets (joined_written code player_id window joined roles)

unfoldable pub join_command :
    GoLibrary → String → String → String → PresenceWindow → Command → Action Database CommandResult
unfolding write_account_command join_account
join_command go code player_id account_id window command =
    write_account_command code account_id command false
      (join_account go code player_id account_id window)

unfoldable pub mutate_command : String → String → Mutation → Command → Action Database CommandResult
unfolding write_account_command
mutate_command code account_id mutation command =
    write_account_command code account_id command true (λ aggregate roles player_id. do
      changed ← lift (outcome (mutation player_id aggregate))
      pure (changed, roles, []))
