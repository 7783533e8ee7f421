-- ===== src/Memory/Idempotent.antt =====
-- A command under one key takes effect at most once.
use rock_paper_money.Prelude.{
  if◌then◌else◌, ◌/=◌, nat_eq, string_eq, bool_eq, String, ◌≡◌, inl, inr, true, ◌||◌, none, some,
  arith,
}
use rock_paper_money.Prelude.Dict.{lookup, lookup-insert_self}
use rock_paper_money.Prelude.Int.{int_eq}
use rock_paper_money.Failure.{Fallible, Fallible-cases, idempotency_conflict, ok, err}
use rock_paper_money.Game.{move_eq, result_eq}
use rock_paper_money.Action.{Action, ◌>>=◌}
use rock_paper_money.Application.{Command, CommandResult}
use rock_paper_money.Memory.{Repository}
use rock_paper_money.Memory.Commands.{execute_command}

-- The answer to a second command under the key of a command that has run: the kept result if it is
-- the same command of the same account, and the conflict if it is not.
abbrev pub second_answer :
    String → Command → CommandResult → String → Command → Fallible CommandResult
second_answer account_id command result account_id' command' =
    if account_id /= account_id'
      || command.operation /= command'.operation
      || command.request_hash /= command'.request_hash
    then err idempotency_conflict
    else ok (record result { replayed = true })

receipt_kept :
    (account_id : String) (command : Command) (execute : Action Repository CommandResult)
    (r r' : Repository) (result : CommandResult)
    → lookup command.key r.receipts ≡ none
    → execute_command account_id command execute r ≡ (ok result, r')
    → lookup command.key r'.receipts
      ≡ some (record { account_id = account_id; command = command; result = result })
unfolding execute_command ◌>>=◌
receipt_kept account_id command execute r r' result new_key h =
    elim (Fallible-cases (execute r).0) [
      | inl (a, e) ↦ ground (
        arith,
        lookup-insert_self command.key
            (record { account_id = account_id; command = command; result = a })
            (execute r).1.receipts,
      )
      | inr (x, e) ↦ absurd (ground arith)
    ]

-- Once a command has run under a new key, a second command under that key runs nothing: whatever
-- it would execute, the store stays as it is, and the answer is the kept result or the conflict.
pub execute_command_once :
    (account_id : String) (command : Command) (execute : Action Repository CommandResult)
    (r r' : Repository) (result : CommandResult) (account_id' : String) (command' : Command)
    (execute' : Action Repository CommandResult)
    → lookup command.key r.receipts ≡ none
    → execute_command account_id command execute r ≡ (ok result, r')
    → command'.key ≡ command.key
    → execute_command account_id' command' execute' r'
      ≡ (second_answer account_id command result account_id' command', r')
unfolding execute_command ◌>>=◌
execute_command_once account_id command execute r r' result account_id' command' execute' new_key h
      same_key =
    ground (arith, receipt_kept account_id command execute r r' result new_key h)
