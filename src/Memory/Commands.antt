-- ===== src/Memory/Commands.antt =====
-- The idempotent commands of backend/internal/room/adapter/memory/repository.go: `executeCommand`
-- and the methods that run through it. `commandMu` makes each of them one action.
use rock_paper_money.Prelude.{
  if◌then◌else◌, ◌/=◌, nat_eq, string_eq, bool_eq, ℕ, String, true, false, ◌||◌, none, some, [],
}
use rock_paper_money.Prelude.Dict.{lookup, insert}
use rock_paper_money.Prelude.Int.{ℤ, int_eq, pos}
use rock_paper_money.Failure.{idempotency_conflict, ok, err}
use rock_paper_money.Game.{Move, move_eq, result_eq}
use rock_paper_money.Room.{Room, state}
use rock_paper_money.Action.{Action, pure, modify, ◌>>=◌, ◌>>◌}
use rock_paper_money.Application.{Time, Snapshot, PresenceWindow, Mutation, Command, CommandResult}
use rock_paper_money.Memory.{Repository, GoLibrary}
use rock_paper_money.Memory.Handlers.{
  first_player, create, join_funded, submit_move_and_settle, request_next_round_and_fund, mutate,
  recharge,
}

-- A command that has not been run: its result is kept under its key, if it has one.
unfoldable pub execute_new :
    String → Command → Action Repository CommandResult → Action Repository CommandResult
execute_new account_id command execute = do
  result ← execute
  modify (λ r. record r {
    receipts =
        insert command.key (record { account_id = account_id; command = command; result = result })
          r.receipts;
  })
  pure result

unfoldable pub execute_command :
    String → Command → Action Repository CommandResult → Action Repository CommandResult
unfolding execute_new
execute_command account_id command execute r = elim (lookup command.key r.receipts) [
  | none ↦ execute_new account_id command execute r
  | some receipt ↦
      if receipt.account_id /= account_id
        || receipt.command.operation /= command.operation
        || receipt.command.request_hash /= command.request_hash
      then (err idempotency_conflict, r)
      else (ok (record receipt.result { replayed = true }), r)
]

-- A result that holds a snapshot alone.
abbrev pub of_snapshot : Snapshot → CommandResult
of_snapshot s = record { snapshot = some s; leases = []; balance = pos 0; replayed = false }

unfoldable pub create_command :
    GoLibrary → Room → String → Command → Action Repository CommandResult
create_command go aggregate account_id command = execute_command account_id command (do
  s ← create aggregate (go.sha256 (first_player (state aggregate))) account_id
  pure (of_snapshot s))

unfoldable pub join_command :
    GoLibrary
    → String
    → String
    → String
    → PresenceWindow
    → Command
    → Action Repository CommandResult
join_command go code player_id account_id window command = execute_command account_id command (do
  (s, leases) ← join_funded go code player_id (go.sha256 player_id) account_id window
  pure (record { snapshot = some s; leases = leases; balance = pos 0; replayed = false }))

unfoldable pub submit_move_command :
    GoLibrary → Time → String → String → Move → Command → Action Repository CommandResult
submit_move_command go now code account_id move command =
    execute_command account_id command
      (do s ← submit_move_and_settle go now code 0 account_id move; pure (of_snapshot s))

unfoldable pub request_next_round_command :
    GoLibrary → String → String → ℕ → Command → Action Repository CommandResult
request_next_round_command go code account_id round command =
    execute_command account_id command
      (do s ← request_next_round_and_fund go code 0 account_id round; pure (of_snapshot s))

unfoldable pub mutate_command :
    String → String → Mutation → Command → Action Repository CommandResult
mutate_command code account_id mutation command =
    execute_command account_id command
      (do s ← mutate code 0 account_id mutation; pure (of_snapshot s))

unfoldable pub recharge_command : String → ℤ → Command → Action Repository CommandResult
recharge_command account_id amount command = execute_command account_id command (do
  b ← recharge account_id amount command.key
  pure (record { snapshot = none; leases = []; balance = b; replayed = false }))
