-- ===== src/Postgres/CommandBooks.antt =====
-- The idempotent commands keep the books of the Postgres store,
-- backend/internal/room/adapter/postgres/commands.go.
use rock_paper_money.Action.{Action, pure, lift, modify, ◌>>=◌}
use rock_paper_money.Failure.{
  Fallible, ok, err, room_not_found, account_seated, room_full, external,
}
use rock_paper_money.Prelude.{
  nat_eq, bool_eq, string_eq, ℕ, suc, String, ◌≡◌, refl, sym, subst, Bool, true, false, not, Option,
  none, some, [], arith,
}
use rock_paper_money.Prelude.Int.{ℤ, int_eq}
use rock_paper_money.Prelude.Dict.{is_some}
use rock_paper_money.Game.{Move, move_eq, result_eq, is_valid_move}
use rock_paper_money.Room.{Room, state}
use rock_paper_money.Room.Actions.{join}
use rock_paper_money.Application.{PresenceWindow, Mutation, Command, CommandResult}
use rock_paper_money.Memory.{GoLibrary}
use rock_paper_money.Postgres.{
  Role, role_eq, RoundStatus, status_eq, RoomRow, RoundRow, Database, guest, active, resolved,
}
use rock_paper_money.Postgres.Aggregate.{seat_of_role, seat_of_account, room_row, round_row, Roles}
use rock_paper_money.Postgres.Repository.{outcome}
use rock_paper_money.Postgres.Recharges.{mint, recharge_key, balance_result, recharge_command}
use rock_paper_money.Postgres.Connections.{bump_revision}
use rock_paper_money.Postgres.Commands.{
  command_receipt, finish_command_receipt, persist_command_effects, first_time, receipted,
  snapshot_result, create_command, AccountChange, acting_player, write_account_room,
  write_account_command, join_account, join_command, mutate_command,
}
use rock_paper_money.Postgres.Actions.{
  acting_seat, record_in_round, record_room_action, reconciled, insert_move, insert_request,
  submit_move_command, request_next_round_command,
}
use rock_paper_money.Postgres.Ledger.{IsLedger, same-IsLedger}
use rock_paper_money.Postgres.Books.{
  Keeps, if-IsLedger, option-IsLedger, row-Keeps, transaction-Keeps, continue-IsLedger, >>=-Keeps,
  fund_round-Keeps,
}
use rock_paper_money.Postgres.Runs.{
  load-Keeps, save-Keeps, lift-Keeps, raise_if-Keeps, seat_guest-Keeps, create_room-Keeps,
  mint-IsLedger, ready_wallet-Keeps,
}
use rock_paper_money.Postgres.WorkerBooks.{add_outbox-Keeps, reconcile_room-IsLedger}

-- A command behind its receipt keeps the books if the command does.
receipted-Keeps :
    (account : String) (command : Command) (m : Action Database CommandResult)
    → Keeps m
    → Keeps (receipted account command m)
unfolding receipted
receipted-Keeps account command m keeps =
    transaction-Keeps {A = CommandResult} _
      (λ db h. first (command_receipt account command db) db h)
  where
    first :
        (r : Fallible (Option CommandResult)) (db : Database)
        → IsLedger db
        → IsLedger (first_time r m db).1
    first (err e) db h = h
    first (ok (some replay)) db h = h
    first (ok none) db h = keeps db h

finish_command_receipt-Keeps :
    (account : String) (command : Command) (result : CommandResult)
    → Keeps (modify (finish_command_receipt account command result))
unfolding finish_command_receipt
finish_command_receipt-Keeps account command result db h = same-IsLedger db _ refl refl h

persist_command_effects-Keeps :
    (code : String) (revision : ℕ) (account : String) (command : Command) (result : CommandResult)
    → Keeps (persist_command_effects code revision account command result)
unfolding persist_command_effects
persist_command_effects-Keeps code revision account command result =
    >>=-Keeps _ _ (add_outbox-Keeps code revision)
      (λ _. finish_command_receipt-Keeps account command result)

pub create_command-Keeps :
    (aggregate : Room) (account : String) (command : Command)
    → Keeps (create_command aggregate account command)
unfolding create_command
create_command-Keeps aggregate account command = receipted-Keeps account command _ (
    >>=-Keeps _ _ (create_room-Keeps aggregate account) (λ _.
      >>=-Keeps _ _
        (persist_command_effects-Keeps aggregate.code 1 account command
          (snapshot_result (state aggregate) 1 []))
        (λ _. λ db h. h)))

acting_player-Keeps :
    (authorize : Bool) (code account : String) → Keeps (acting_player authorize code account)
unfolding acting_player
acting_player-Keeps false code account db h = h
acting_player-Keeps true code account db h =
    option-IsLedger (seat_of_account code account db) _ _ h (λ s. h)

write_account_command-Keeps :
    (code account : String) (command : Command) (authorize : Bool) (change : AccountChange)
    → ((aggregate : Room) (roles : Roles) (player_id : String)
        → Keeps (change aggregate roles player_id))
    → Keeps (write_account_command code account command authorize change)
unfolding write_account_command write_account_room
write_account_command-Keeps code account command authorize change keeps =
    receipted-Keeps account command _ (
      row-Keeps {A = CommandResult} (room_row code) room_not_found
        (λ r. write_account_room code r.revision account command authorize change)
        (λ r. >>=-Keeps _ _ (load-Keeps code) (λ loaded.
          >>=-Keeps _ _ (acting_player-Keeps authorize code account) (λ player_id.
            >>=-Keeps _ _ (keeps loaded.0 loaded.1 player_id) (λ written.
              >>=-Keeps _ _ (save-Keeps written.0 written.1 loaded.0.round (suc r.revision)) (λ _.
                >>=-Keeps _ _
                  (persist_command_effects-Keeps code (suc r.revision) account command
                    (snapshot_result (state written.0) (suc r.revision) written.2))
                  (λ _. λ db h. h)))))))

pub join_command-Keeps :
    (go : GoLibrary) (code player_id account : String) (window : PresenceWindow) (command : Command)
    → Keeps (join_command go code player_id account window command)
unfolding join_command join_account
join_command-Keeps go code player_id account window command =
    write_account_command-Keeps code account command false
      (join_account go code player_id account window)
      (λ aggregate roles _.
        >>=-Keeps (lift (outcome (join player_id aggregate))) _
          (lift-Keeps (outcome (join player_id aggregate)))
          (λ joined.
            >>=-Keeps _ _
              (raise_if-Keeps (λ db. is_some (seat_of_account code account db)) account_seated)
              (λ _.
                >>=-Keeps _ _ (λ db h. fund_round-Keeps go db.clock code joined.round account db h)
                  (λ _.
                    >>=-Keeps _ _
                      (raise_if-Keeps (λ db. is_some (seat_of_role code guest db)) room_full)
                      (λ _.
                        >>=-Keeps _ _ (seat_guest-Keeps code player_id account window)
                          (λ _. λ db h. h))))))

pub mutate_command-Keeps :
    (code account : String) (mutation : Mutation) (command : Command)
    → Keeps (mutate_command code account mutation command)
unfolding mutate_command
mutate_command-Keeps code account mutation command =
    write_account_command-Keeps code account command true _ (λ aggregate roles player_id.
      >>=-Keeps (lift (outcome (mutation player_id aggregate))) _
        (lift-Keeps (outcome (mutation player_id aggregate))) (λ _. λ db h. h))

pub recharge_command-Keeps :
    (account : String) (amount : ℤ) (command : Command)
    → Keeps (recharge_command account amount command)
unfolding recharge_command ◌>>=◌
recharge_command-Keeps account amount command = receipted-Keeps account command _ (
    ready_wallet-Keeps account _ (λ db known h.
      continue-IsLedger (mint (recharge_key account command.key) account amount db) _
        (mint-IsLedger (recharge_key account command.key) account amount db known h)
        (λ balance.
          >>=-Keeps (modify (finish_command_receipt account command (balance_result balance)))
            (λ _. pure (balance_result balance))
            (finish_command_receipt-Keeps account command (balance_result balance))
            (λ _. λ db' k. k))))

acting_seat-Keeps :
    (code account : String) (required : RoundStatus) (round : ℕ) (r : RoomRow) (rr : RoundRow)
    → Keeps (acting_seat code account required round r rr)
unfolding acting_seat
acting_seat-Keeps code account required round r rr db h =
    subst IsLedger (sym (same code account required round r rr db)) h
  where
    same :
        (code account : String) (required : RoundStatus) (round : ℕ) (r : RoomRow) (rr : RoundRow)
        (db : Database)
        → (acting_seat code account required round r rr db).1 ≡ db
    same code account required round r rr db = ground arith

bump_revision-Keeps : (code : String) → Keeps (modify (bump_revision code))
unfolding bump_revision
bump_revision-Keeps code db h = same-IsLedger db _ refl refl h

module _ (go : GoLibrary) (is_bounded : String → ℕ → Bool) where
  record_room_action-Keeps :
      (code account : String) (command : Command) (required : RoundStatus) (round : ℕ)
      (insert_action : ℕ → Role → Action Database (Unit {0}))
      → ((n : ℕ) (role : Role) → Keeps (insert_action n role))
      → Keeps (record_room_action is_bounded code account command required round insert_action)
  unfolding record_room_action record_in_round
  record_room_action-Keeps code account command required round insert_action keeps =
      receipted-Keeps account command _ (
        row-Keeps {A = CommandResult} (room_row code) room_not_found _ (λ r.
          row-Keeps {A = CommandResult} (round_row code r.current_round) room_not_found
            (record_in_round is_bounded code account command required round insert_action r)
            (λ rr. >>=-Keeps _ _ (acting_seat-Keeps code account required round r rr) (λ seat.
              >>=-Keeps _ _ (keeps r.current_round seat.role) (λ _.
                >>=-Keeps _ _ (bump_revision-Keeps code) (λ _.
                  >>=-Keeps _ _
                    (persist_command_effects-Keeps code (suc r.revision) account command _)
                    (λ _.
                      >>=-Keeps _ _
                        (raise_if-Keeps (λ _. not (is_bounded code r.current_round)) (external 12))
                        (λ _. λ db h. h))))))))

  reconciled-IsLedger :
      (code : String) (r : Fallible CommandResult × Database)
      → IsLedger r.1
      → IsLedger (reconciled is_bounded go code r).1
  reconciled-IsLedger code (err e, db) h = h
  reconciled-IsLedger code (ok result, db) h = if-IsLedger result.replayed _ _ h (λ _.
      option-IsLedger {A = CommandResult} result.snapshot (ok result, db) _ h
        (λ s.
          reconcile_room-IsLedger go is_bounded (record { room_code = code; round = s.state.round })
            db h))

  insert_move-Keeps :
      (code : String) (move : Move) (round : ℕ) (role : Role)
      → Keeps (insert_move is_bounded code move round role)
  unfolding insert_move
  insert_move-Keeps code move round role db h =
      same-IsLedger db (insert_move is_bounded code move round role db).1 (ground arith)
        (ground arith) h

  insert_request-Keeps :
      (code : String) (round : ℕ) (role : Role) → Keeps (insert_request is_bounded code round role)
  unfolding insert_request
  insert_request-Keeps code round role db h =
      same-IsLedger db (insert_request is_bounded code round role db).1 (ground arith)
        (ground arith) h

  pub submit_move_command-Keeps :
      (code account : String) (move : Move) (command : Command)
      → Keeps (submit_move_command is_bounded go code account move command)
  unfolding submit_move_command
  submit_move_command-Keeps code account move command db h =
      if-IsLedger (not (is_valid_move move)) _ _ h (λ _. reconciled-IsLedger code _ (
        record_room_action-Keeps code account command active 0 (insert_move is_bounded code move)
          (insert_move-Keeps code move) db h))

  pub request_next_round_command-Keeps :
      (code account : String) (round : ℕ) (command : Command)
      → Keeps (request_next_round_command is_bounded go code account round command)
  unfolding request_next_round_command
  request_next_round_command-Keeps code account round command db h = reconciled-IsLedger code _ (
      record_room_action-Keeps code account command resolved round (insert_request is_bounded code)
        (insert_request-Keeps code) db h)
