-- ===== src/Postgres/Wallets.antt =====
-- The wallets of the Postgres store: `fundRound`, `settleRound` and what they share, in
-- backend/internal/room/adapter/postgres/repository.go. Every change of a balance comes with its
-- postings, under a business key that is used once.
use rock_paper_money.Prelude.{
  if◌then◌else◌, ◌==◌, ◌/=◌, nat_eq, bool_eq, string_eq, ℕ, suc, String, concat, Bool, true, false,
  not, ◌&&◌, ◌||◌, Option, none, some, List, [], ◌∷◌, ◌++◌,
}
use rock_paper_money.Prelude.Int.{ℤ, ◌+ℤ◌, ltb_ℤ, int_eq, pos, negsuc}
use rock_paper_money.Prelude.Dict.{Dict, get_or, lookup, insert, contains}
use rock_paper_money.Failure.{ok, err, external, room_not_ready, insufficient_funds}
use rock_paper_money.Game.{Result, move_eq, result_eq, draw, player_two_wins}
use rock_paper_money.Room.{State}
use rock_paper_money.Action.{Action}
use rock_paper_money.Application.{Time, round_stake, winner_payout, house_payout}
use rock_paper_money.Memory.{GoLibrary}
use rock_paper_money.Postgres.{
  Role, role_eq, status_eq, DeadlineKind, kind_beq, RoundRow, SeatRow, DeadlineRow, TransactionRow,
  PostingRow, HistoryRow, Database, host, guest, active, pending, inactivity,
}
use rock_paper_money.Postgres.Sql.{exists_where, update_where}
use rock_paper_money.Postgres.Aggregate.{seats_of, round_row}

abbrev pub user_account_id : String → String
user_account_id auth_user_id = concat "user:" auth_user_id

unfoldable pub escrow_account_id : GoLibrary → String → ℕ → String
escrow_account_id go code round = concat "escrow:" (concat code (concat ":" (go.format_uint round)))

unfoldable pub stake_key : GoLibrary → String → ℕ → String
stake_key go code round = concat "stake:" (concat code (concat ":" (go.format_uint round)))

unfoldable pub settlement_key : GoLibrary → String → ℕ → String
settlement_key go code round =
    concat "settlement:" (concat code (concat ":" (go.format_uint round)))

-- `FundedInactivityDeadline`, thirty seconds.
abbrev pub funded_inactivity_deadline : ℤ
funded_inactivity_deadline = pos 30000000000

-- `INSERT INTO wallet_accounts … ON CONFLICT DO NOTHING`
unfoldable pub ensure_account : String → Dict String ℤ → Dict String ℤ
ensure_account account accounts =
    if contains account accounts then accounts else insert account (pos 0) accounts

abbrev pub ensure_user_wallet : String → Dict String ℤ → Dict String ℤ
ensure_user_wallet auth_user_id accounts = ensure_account (user_account_id auth_user_id) accounts

unfoldable pub is_account_of : String → List String → Bool
is_account_of a [] = false
is_account_of a (b ∷ bs) = b == a || is_account_of a bs

-- `lockWalletBalances` needs every account there, and no account twice.
unfoldable pub are_accounts : Dict String ℤ → List String → Bool
unfolding is_account_of
are_accounts accounts [] = true
are_accounts accounts (a ∷ as') =
    contains a accounts && not (is_account_of a as') && are_accounts accounts as'

abbrev pub account_balance : String → Dict String ℤ → ℤ
account_balance account accounts = get_or (lookup account accounts) (pos 0)

-- A delta of a transaction.
abbrev pub Delta : Type 0
Delta = String × ℤ

-- `UPDATE wallet_accounts SET balance=balance+amount` for each delta. The statement would take one
-- delta of an account that is there twice; `lockWalletBalances` before it refuses such accounts.
unfoldable pub apply_deltas : List Delta → Dict String ℤ → Dict String ℤ
apply_deltas [] accounts = accounts
apply_deltas ((account, amount) ∷ deltas) accounts = apply_deltas deltas (
    if contains account accounts
    then insert account (account_balance account accounts +ℤ amount) accounts
    else accounts)

unfoldable pub posted : String → List Delta → List PostingRow
posted key [] = []
posted key ((account, amount) ∷ deltas) =
    record { business_key = key; account_id = account; amount = amount } ∷ posted key deltas

unfoldable pub has_transaction : String → List TransactionRow → Bool
unfolding exists_where
has_transaction key transactions =
    exists_where (λ (t : TransactionRow). t.business_key == key) transactions

-- The statements behind `created_transaction`: they do something under a new business key alone.
unfoldable pub post_transaction : String → List Delta → Database → Database
unfolding has_transaction apply_deltas posted
post_transaction key deltas db = if has_transaction key db.transactions then db else record db {
  transactions = record { business_key = key; recharge = none } ∷ db.transactions;
  postings = posted key deltas ++ db.postings;
  accounts = apply_deltas deltas db.accounts;
}

-- `INSERT INTO room_deadlines … ON CONFLICT DO NOTHING`, by the index on room, round, kind, role
-- and generation.
unfoldable pub add_deadline : String → ℕ → DeadlineKind → ℕ → Time → Database → Database
add_deadline code round kind generation due_at db =
    if exists_where
      (λ (d : DeadlineRow).
        d.room_code == code
        && d.round_number == round
        && kind_beq d.kind kind
        && d.generation == generation)
      db.deadlines
    then db
    else record db {
      next_deadline = suc db.next_deadline;
      deadlines =
          db.deadlines
          ++ record {
            deadline_id = db.next_deadline;
            room_code = code;
            round_number = round;
            kind = kind;
            generation = generation;
            due_at = due_at;
            status = pending;
            completed_at = none;
          }
            ∷ [];
    }

-- The round's row, inserted if it is not there.
unfoldable pub ensure_round : String → ℕ → Database → Database
ensure_round code round db = elim (round_row code round db) [
  | some r ↦ db
  | none ↦ record db {
    rounds =
        db.rounds
        ++ record {
          room_code = code;
          number = round;
          result = none;
          forfeited_role = none;
          funded = false;
          status = active;
        }
          ∷ [];
  }
]

abbrev pub is_funded_row : Option RoundRow → Bool
is_funded_row none = false
is_funded_row (some r) = r.funded

unfoldable pub seat_owners : List SeatRow → List String
seat_owners [] = []
seat_owners (s ∷ ss) = s.auth_user_id ∷ seat_owners ss

unfoldable pub mark_funded : String → ℕ → List RoundRow → List RoundRow
mark_funded code round rounds =
    update_where (λ (r : RoundRow). r.room_code == code && r.number == round)
      (λ (r : RoundRow). record r { funded = true }) rounds

-- The wallets of the owners and the escrow.
unfoldable pub open_accounts : String → String → String → Database → Database
unfolding ensure_account
open_accounts a b escrow db = record db {
  accounts = ensure_account escrow (ensure_user_wallet b (ensure_user_wallet a db.accounts));
}

abbrev pub stake_deltas : GoLibrary → String → ℕ → String → String → List Delta
stake_deltas go code round a b =
    (user_account_id a, negsuc 49)
    ∷ (user_account_id b, negsuc 49)
    ∷ (escrow_account_id go code round, pos 100)
    ∷ []

-- The stake of two owners, the mark on the round and its deadline.
unfoldable pub stake_effects : GoLibrary → Time → String → ℕ → String → String → Database → Database
unfolding post_transaction mark_funded add_deadline
stake_effects go now code round a b db =
    let staked = post_transaction (stake_key go code round) (stake_deltas go code round a b) db in
    add_deadline code round inactivity round (now +ℤ funded_inactivity_deadline)
      (record staked { rounds = mark_funded code round staked.rounds })

abbrev pub stake_accounts : GoLibrary → String → ℕ → String → String → List String
stake_accounts go code round a b =
    user_account_id a ∷ user_account_id b ∷ escrow_account_id go code round ∷ []

-- `fundRound` behind its tests, for two owners: the accounts, their balances, the stake.
unfoldable pub stake_owners :
    GoLibrary → Time → String → ℕ → String → String → Action Database (Unit {0})
unfolding open_accounts are_accounts stake_effects
stake_owners go now code round a b db =
    let inserted = open_accounts a b (escrow_account_id go code round) db in
    if not (are_accounts inserted.accounts (stake_accounts go code round a b))
    then (err (external 2), inserted)
    else if ltb_ℤ (account_balance (user_account_id a) inserted.accounts) round_stake
        || ltb_ℤ (account_balance (user_account_id b) inserted.accounts) round_stake
    then (err insufficient_funds, inserted)
    else (ok tt, stake_effects go now code round a b inserted)

-- The owners that `fundRound` charges: both of them, or the error.
abbrev pub with_owners :
    List String → (String → String → Action Database (Unit {0})) → Action Database (Unit {0})
with_owners (a ∷ b ∷ []) k db = k a b db
with_owners _ k db = (err room_not_ready, db)

-- `fundRound`, with the database's clock.
unfoldable pub fund_round : GoLibrary → Time → String → ℕ → String → Action Database (Unit {0})
unfolding ensure_round seats_of seat_owners add_deadline stake_owners round_row
fund_round go now code round joining_auth_user_id db =
    let inserted = ensure_round code round db in
    if is_funded_row (round_row code round db)
    then (
      ok tt,
      add_deadline code round inactivity round (now +ℤ funded_inactivity_deadline) inserted,
    )
    else let seated = seat_owners (seats_of code db) in
      with_owners
        (if joining_auth_user_id /= "" then seated ++ joining_auth_user_id ∷ [] else seated)
        (stake_owners go now code round) inserted

-- `settlementEffects` of the host's account, the guest's and the escrow: the deltas, the winner's
-- role and the house's earnings.
unfoldable pub settlement_effects : Result → String → String → String → List Delta × Option Role × ℤ
settlement_effects result host_account guest_account escrow =
    if result == draw
    then (
      (escrow, negsuc 99) ∷ (host_account, round_stake) ∷ (guest_account, round_stake) ∷ [],
      none,
      pos 0,
    )
    else if result == player_two_wins
    then (
      (escrow, negsuc 99) ∷ (guest_account, winner_payout) ∷ ("house", house_payout) ∷ [],
      some guest,
      house_payout,
    )
    else (
      (escrow, negsuc 99) ∷ (host_account, winner_payout) ∷ ("house", house_payout) ∷ [],
      some host,
      house_payout,
    )

unfoldable pub is_recorded : String → ℕ → List HistoryRow → Bool
is_recorded code round history =
    exists_where (λ (h : HistoryRow). h.room_code == code && h.round_number == round) history

-- The part of `settleRound` behind its tests.
unfoldable pub record_settlement :
    GoLibrary → String → State → String → String → Database → Database
unfolding has_transaction settlement_effects post_transaction
record_settlement go code state host_account guest_account db =
    let key = settlement_key go code state.round in
    let (deltas, winner_role, house_earnings) =
      settlement_effects state.result host_account guest_account
        (escrow_account_id go code state.round) in
    if has_transaction key db.transactions
    then db
    else let paid = post_transaction key deltas db in
      record paid {
        history =
            record {
              room_code = code;
              round_number = state.round;
              host_account_id = host_account;
              guest_account_id = guest_account;
              result = state.result;
              winner_role = winner_role;
              forfeited = state.forfeit;
              house_earnings = house_earnings;
              resolved_at = db.clock;
            }
            ∷ paid.history;
      }

-- `settleRound` of a round that is not in the history, for the owners of the two seats.
unfoldable pub pay_owners :
    GoLibrary → String → State → String → String → Action Database (Unit {0})
unfolding are_accounts record_settlement
pay_owners go code state a b db =
    let escrow = escrow_account_id go code state.round in
    if not
      (are_accounts db.accounts ("house" ∷ user_account_id a ∷ user_account_id b ∷ escrow ∷ []))
    then (err (external 2), db)
    else if account_balance escrow db.accounts /= pos 100
    then (err (external 3), db)
    else (ok tt, record_settlement go code state (user_account_id a) (user_account_id b) db)

unfoldable pub settle_round : GoLibrary → String → State → Action Database (Unit {0})
unfolding is_recorded seats_of seat_owners pay_owners
settle_round go code state db =
    if is_recorded code state.round db.history
    then (ok tt, db)
    else with_owners (seat_owners (seats_of code db)) (pay_owners go code state) db
