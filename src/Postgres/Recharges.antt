-- ===== src/Postgres/Recharges.antt =====
-- The recharges of a wallet, `RechargeCommand` of
-- backend/internal/room/adapter/postgres/commands.go and `Recharge` of repository.go, and what else
-- commands.go reads.
use rock_paper_money.Action.{Action, pure, modify, ◌>>=◌, ◌>>◌}
use rock_paper_money.Prelude.{
  if◌then◌else◌, length, ◌==◌, nat_eq, bool_eq, string_eq, ℕ, String, concat, Bool, false, ◌&&◌,
  Option, none, some, List, [], ◌∷◌, ◌++◌,
}
use rock_paper_money.Prelude.Int.{ℤ, ◌-ℤ◌, leb_ℤ, int_eq, pos}
use rock_paper_money.Failure.{ok, err, external, unauthorized, idempotency_conflict}
use rock_paper_money.Game.{move_eq, result_eq}
use rock_paper_money.Room.{state}
use rock_paper_money.Application.{Time, Snapshot, Command, CommandResult}
use rock_paper_money.Worker.{Call}
use rock_paper_money.Postgres.{
  role_eq, status_eq, TransactionRow, ReceiptRow, Database, transaction,
}
use rock_paper_money.Postgres.Sql.{rows_where, row_where, delete_where}
use rock_paper_money.Postgres.Aggregate.{room_row, seat_of_account, load}
use rock_paper_money.Postgres.Wallets.{
  user_account_id, ensure_user_wallet, ensure_account, account_balance, are_accounts, apply_deltas,
  posted, has_transaction,
}
use rock_paper_money.Postgres.Commands.{finish_command_receipt, receipted}

-- The rows of a recharge, which the `mint` account pays.
abbrev pub minted : ℤ → String → List (String × ℤ)
minted amount account = ("mint", pos 0 -ℤ amount) ∷ (account, amount) ∷ []

-- The part that `Recharge` and `RechargeCommand` share, under a new business key: the new balance.
unfoldable pub mint : String → String → ℤ → Action Database ℤ
unfolding has_transaction apply_deltas posted
mint business_key account_id amount db =
    let account = user_account_id account_id in
    if has_transaction business_key db.transactions
    then (err (external 7), db)
    else if amount == pos 0
    then (err (external 8), db)
    else let accounts = apply_deltas (minted amount account) db.accounts in
      (
        ok (account_balance account accounts),
        record db {
          transactions =
              record { business_key = business_key; recharge = some (account_id, amount) }
              ∷ db.transactions;
          postings = posted business_key (minted amount account) ++ db.postings;
          accounts = accounts;
        },
      )

-- The wallet of an account, and the lock on it and on the mint.
unfoldable pub ready_wallet : String → Action Database (Unit {0})
unfolding ensure_account are_accounts
ready_wallet account_id db =
    let ensured = ensure_user_wallet account_id db.accounts in
    if are_accounts ensured ("mint" ∷ user_account_id account_id ∷ [])
    then (ok tt, record db { accounts = ensured })
    else (err (external 2), db)

abbrev pub recharge_key : String → String → String
recharge_key account_id key = concat "recharge:" (concat account_id (concat ":" key))

abbrev pub balance_result : ℤ → CommandResult
balance_result balance = record {
  snapshot = none;
  leases = [];
  balance = balance;
  replayed = false;
}

unfoldable pub recharge_command : String → ℤ → Command → Action Database CommandResult
unfolding receipted ready_wallet mint finish_command_receipt
recharge_command account_id amount command = receipted account_id command (do
  ready_wallet account_id
  balance ← mint (recharge_key account_id command.key) account_id amount
  modify (finish_command_receipt account_id command (balance_result balance))
  pure (balance_result balance))

unfoldable pub transaction_row : String → Database → Option TransactionRow
unfolding row_where
transaction_row key db = row_where (λ (t : TransactionRow). t.business_key == key) db.transactions

abbrev pub is_same_recharge : String → ℤ → Option (String × ℤ) → Bool
is_same_recharge account_id amount none = false
is_same_recharge account_id amount (some (owner, paid)) = owner == account_id && paid == amount

-- `Recharge` of repository.go.
unfoldable pub recharge : String → ℤ → String → Action Database ℤ
unfolding ready_wallet mint transaction_row
recharge account_id amount idempotency_key = transaction (do
  ready_wallet account_id
  λ db. elim (transaction_row (recharge_key account_id idempotency_key) db) [
    | some t ↦
        if is_same_recharge account_id amount t.recharge
        then (ok (account_balance (user_account_id account_id) db.accounts), db)
        else (err idempotency_conflict, db)
    | none ↦ mint (recharge_key account_id idempotency_key) account_id amount db
  ])

-- `SnapshotForAccount`
unfoldable pub snapshot_for_account : String → String → Action Database Snapshot
unfolding room_row seat_of_account load
snapshot_for_account code account_id = transaction (λ db.
    if account_id == "" then (err unauthorized, db) else elim (room_row code db) [
      | none ↦ (err unauthorized, db)
      | some r ↦ elim (seat_of_account code account_id db) [
        | none ↦ (err unauthorized, db)
        | some s ↦
            (do
              (aggregate, _) ← load code
              pure (record { state = state aggregate; revision = r.revision; presence = [] }))
              db
      ]
    ])

unfoldable pub cleanup_command_receipts : Time → Call Database ℕ
unfolding rows_where delete_where
cleanup_command_receipts now db = (
  length (rows_where (λ (r : ReceiptRow). leb_ℤ r.expires_at now) db.receipts),
  none,
  record db { receipts = delete_where (λ (r : ReceiptRow). leb_ℤ r.expires_at now) db.receipts },
)
