-- ===== src/Service/Commands.antt =====
-- The service's idempotent commands, backend/internal/room/application/command.go: each makes a
-- `Command` of the client's key and passes it to the store that implements `CommandRepository`.
use rock_paper_money.Prelude.{◌==◌, nat_eq, string_eq, bool_eq, ℕ, String, Option, none, some}
use rock_paper_money.Failure.{duplicate_player, duplicate_room, unauthorized}
use rock_paper_money.Game.{Move, move_eq, result_eq}
use rock_paper_money.Room.{new}
use rock_paper_money.Room.Actions.{leave}
use rock_paper_money.Action.{Action, pure, lift, raise_if, ◌>>=◌, ◌>>◌}
use rock_paper_money.Application.{Snapshot, Credentials, Command, CommandResult}
use rock_paper_money.Service.{
  CommandPort, Service, new_command, attempts, retried, is_duplicate_room, is_duplicate_player,
  void, command_repository, identity, presence_window, empty_meaning, room_meaning, move_meaning,
  round_meaning,
}

module _ {S : Type 0} (sv : Service S) where
  open sv use {generate_code, now, library}

  -- The credentials of a result: the room's code alone.
  abbrev pub credentials_of : CommandResult → Credentials
  credentials_of result = record {
    room_code = elim result.snapshot [ none ↦ "" | some s ↦ s.state.code ];
    player_token = "";
  }

  -- One round of the loop of `CreateCommand`.
  unfoldable pub try_create_command :
      CommandPort S → String → Command → Action S (Option Credentials)
  try_create_command port account_id command = do
    code ← generate_code
    (_, player_id) ← identity sv
    aggregate ← lift (new code player_id)
    result ← λ s. retried is_duplicate_room (port.create_command aggregate account_id command s)
    pure (elim result [ none ↦ none | some r ↦ some (credentials_of r) ])

  unfoldable pub create_command : String → String → Action S Credentials
  create_command account_id key = do
    raise_if (account_id == "") unauthorized
    command ← lift (new_command library key "room.create" empty_meaning)
    port ← command_repository sv
    attempts 8 duplicate_room (try_create_command port account_id command)

  -- One round of the loop of `JoinCommand`.
  unfoldable pub try_join_command :
      CommandPort S → String → String → Command → Action S (Option Credentials)
  try_join_command port code account_id command = do
    (_, player_id) ← identity sv
    t ← now
    result ← λ s.
        retried is_duplicate_player
          (port.join_command code player_id account_id (presence_window sv t) command s)
    pure (elim result [ none ↦ none | some r ↦ some (credentials_of r) ])

  unfoldable pub join_command : String → String → String → Action S Credentials
  join_command code account_id key = do
    raise_if (account_id == "") unauthorized
    command ← lift (new_command library key "room.join" (room_meaning code))
    port ← command_repository sv
    attempts 8 duplicate_player (try_join_command port code account_id command)

  unfoldable pub submit_move_command : String → String → Move → String → Action S (Unit {0})
  submit_move_command code account_id move key = do
    command ← lift (new_command library key "room.move" (move_meaning code move))
    port ← command_repository sv
    void (port.submit_move_command code account_id move command)

  unfoldable pub request_next_round_command : String → String → ℕ → String → Action S (Unit {0})
  request_next_round_command code account_id round key = do
    command ← lift (new_command library key "room.next-round" (round_meaning code round))
    port ← command_repository sv
    void (port.request_next_round_command code account_id round command)

  unfoldable pub leave_command : String → String → String → Action S (Unit {0})
  leave_command code account_id key = do
    command ← lift (new_command library key "room.leave" (room_meaning code))
    port ← command_repository sv
    void (port.mutate_command code account_id leave command)

  unfoldable pub snapshot_for_account : String → String → Action S Snapshot
  snapshot_for_account code account_id = do
    raise_if (account_id == "") unauthorized
    port ← command_repository sv
    port.snapshot_for_account code account_id
