-- ===== src/Postgres/Tests.antt =====
-- The Postgres store at concrete rooms.
use rock_paper_money.Room.Actions.{join}
use rock_paper_money.Postgres.Recharges.{mint, ready_wallet, transaction_row, recharge}
use rock_paper_money.Postgres.Disconnects.{
  is_connected, disappear, leave_seat, close_connection_by, close_connection, reap,
  reap_expired_connections,
}
use rock_paper_money.Postgres.{role_eq, status_eq, Database, host, pending, disconnect}
use rock_paper_money.Worker.Deadlines.{DeadlineResult, run_once}
use rock_paper_money.Prelude.{
  if◌then◌else◌, ◌==◌, ◌/=◌, nat_eq, bool_eq, string_eq, ℕ, ◌<◌, String, ◌≡◌, refl, ◌⊎◌, Bool, true,
  false, ◌&&◌, Option, none, some, List, [], ◌∷◌, arith,
}
use rock_paper_money.Postgres.Deadlines.{
  is_due, candidate, is_round_active, is_round_funded, set_status, is_applicable, first_applicable,
  next_applicable_deadline, resolution, close_round, commit_revision, commit_resolution,
  finish_deadline, process_claimed, process_candidate, process_next_deadline, deadline_port,
}
use rock_paper_money.Failure.{Error, ok}
use rock_paper_money.Postgres.Sql.{
  rows_where, row_where, exists_where, update_where, delete_where, least_of, least_row, insert_row,
  sorted_rows,
}
use rock_paper_money.Postgres.Outbox.{records_of, claim_outbox}
use rock_paper_money.Postgres.Claims.{holds, chosen_rows, claim_outbox-Exclusive}
use rock_paper_money.Postgres.Due.{due_count}
use rock_paper_money.Postgres.Ending.{due_rows, IsOver, run_once-IsOver}
use rock_paper_money.Postgres.Progress.{process_next_deadline-IsFewer}
use rock_paper_money.Prelude.Dict.{lookup, insert, clone}
use rock_paper_money.Room.Deadlines.{resolve_inactivity}
use rock_paper_money.Room.{
  Room, state, restore, check_players, check_moves, check_requests, check_outcome,
}
use rock_paper_money.Action.{◌>>=◌}
use rock_paper_money.Game.{move_eq, result_eq, unset, rock, paper}
use rock_paper_money.Application.{Time, PresenceWindow, Command}
use rock_paper_money.Postgres.Aggregate.{
  seats_of, seat_of_role, seat_of_account, room_row, round_row, loaded_state, load, save,
}
use rock_paper_money.Postgres.Wallets.{
  escrow_account_id, stake_key, ensure_account, is_account_of, are_accounts, apply_deltas, posted,
  has_transaction, post_transaction, add_deadline, ensure_round, mark_funded, open_accounts,
  stake_effects, stake_owners, fund_round, settlement_effects, is_recorded, record_settlement,
  pay_owners, settle_round,
}
use rock_paper_money.Postgres.Repository.{
  writer_of, write_room, write, created_rows, open_wallet, create_room, create, seat_guest,
  join_change, join_funded,
}
use rock_paper_money.Postgres.Ledger.{booked, transaction_sum, IsLedger}
use rock_paper_money.Postgres.Sequences.{
  StoreCall, performed, run, run-IsLedger, creates, joins, moves, recharges, ticks, recharges_once,
  asks_balance,
}
use rock_paper_money.Postgres.Connections.{
  ConnectionLease, is_session_live, connection_row, presence_row, insert_outbox, add_outbox,
  bump_revision, advance_presence_revision, authorized_seat, opened_connection, cancel_disconnect,
  appear, open_seat, open_connection,
}
use rock_paper_money.Postgres.Stuck.{IsStuck, run_once-IsStuck}
use rock_paper_money.Prelude.Int.{◌+ℤ◌, int_eq, pos}
use rock_paper_money.Memory.{GoLibrary}

abbrev go : GoLibrary
go = record {
  format_uint = λ n. if n == 1 then "1" else "2";
  sha256 = λ s. if s == "h" then 1 else 2;
}

abbrev id_before : String → String → Bool
id_before a b = a == "a" && b /= "a"

-- Nobody has a room; the host has coins and a session.
abbrev empty_store : Database
empty_store = record {
  rooms = [];
  rounds = [];
  seats = [];
  moves = [];
  requests = [];
  presence = [];
  connections = [];
  deadlines = [];
  next_deadline = 1;
  outbox = [];
  next_outbox = 1;
  accounts = ("house", pos 0) ∷ ("user:host", pos 200) ∷ [];
  transactions = [];
  postings = [];
  history = [];
  sessions =
      record {
        session_digest = 7;
        account_id = "host";
        revoked = false;
        idle_expires_at = pos 900;
        absolute_expires_at = pos 900;
      }
      ∷ [];
  receipts = [];
  clock = pos 5;
}

abbrev waiting_room : Room
waiting_room = record {
  code = "R";
  players = record { id = "h"; wins = pos 0 } ∷ [];
  moves = [];
  resolved = false;
  result = unset;
  forfeited_player_id = "";
  round = 1;
  next_round_requests = [];
  closed = false;
}

abbrev lease : ConnectionLease
lease = record {
  id = "a";
  session_digest = 7;
  room_code = "R";
  account_id = "host";
  connected_at = pos 10;
  lease_expires_at = pos 60;
}

abbrev hosting : Database
unfolding create create_room open_wallet row_where room_row state ensure_account created_rows ◌>>=◌
hosting = (create waiting_room "host" empty_store).1

abbrev connected : Database
unfolding open_connection room_row authorized_seat seat_of_account open_seat is_session_live
    connection_row opened_connection appear presence_row cancel_disconnect advance_presence_revision
    bump_revision add_outbox insert_outbox row_where exists_where update_where ◌>>=◌
connected = (open_connection lease hosting).1

abbrev left : Database
unfolding close_connection close_connection_by connection_row seat_of_role room_row leave_seat
    is_connected presence_row disappear add_deadline advance_presence_revision bump_revision
    add_outbox insert_outbox row_where exists_where update_where ◌>>=◌
left = (close_connection "a" (pos 50) connected).1

abbrev reaping : ℕ × Option Error × Database
unfolding reap_expired_connections rows_where sorted_rows reap
reaping = reap_expired_connections id_before (pos 20000000050) left

left-IsStuck : IsStuck (pos 20000000050) left
unfolding candidate least_row least_of rows_where is_due is_round_active is_round_funded room_row
    round_row row_where left connected hosting lookup ◌+ℤ◌
left-IsStuck = record {
  first = record {
    deadline_id = 1;
    room_code = "R";
    round_number = 1;
    kind = disconnect host;
    generation = 2;
    due_at = pos 20000000050;
    status = pending;
    completed_at = none;
  };
  is_candidate = refl;
  is_active = refl;
  is_unfunded = refl;
}

-- The host opens a room, connects and goes away again; twenty seconds later the worker runs.
run_once-IsStuck_example : run_once (deadline_port go id_before) (pos 20000000050) 10 left ≡ none
unfolding reap_expired_connections rows_where sorted_rows reap left connected hosting lookup ◌+ℤ◌
run_once-IsStuck_example = run_once-IsStuck go id_before (pos 20000000050) left refl left-IsStuck 10

-- The accounts that the migrations insert.
abbrev migrated : Database
migrated = record empty_store { accounts = ("house", pos 0) ∷ ("mint", pos 0) ∷ [] }

migrated-IsLedger : IsLedger migrated
unfolding lookup booked transaction_sum
migrated-IsLedger = record { is_booked = λ x. ground arith; is_balanced = λ key. refl }

abbrev window : PresenceWindow
window = record {
  observed_at = pos 10;
  proof_after = pos 5;
  deadline = pos 30;
  evaluate_at = pos 40;
}

abbrev command : Command
command = record { key = "third"; operation = "recharge"; request_hash = 7; response_status = 200 }

-- A whole round: two players recharge, meet in a room and move; the winner recharges once more.
abbrev calls : List StoreCall
calls =
    recharges "host" (pos 200) "first"
    ∷ recharges "guest" (pos 80) "second"
    ∷ creates waiting_room "host"
    ∷ joins (pos 10) "R" "g" "guest" window
    ∷ moves (pos 12) "R" "host" rock
    ∷ ticks (pos 14)
    ∷ moves (pos 13) "R" "guest" paper
    ∷ recharges_once "guest" (pos 10) command
    ∷ asks_balance "guest"
    ∷ []

run-IsLedger_example : IsLedger (run go (λ _ _. true) id_before calls migrated)
run-IsLedger_example = run-IsLedger go (λ _ _. true) id_before calls migrated migrated-IsLedger

-- Two players in a funded round, and nobody moves.
abbrev idle_calls : List StoreCall
idle_calls =
    recharges "host" (pos 200) "first"
    ∷ recharges "guest" (pos 80) "second"
    ∷ creates waiting_room "host"
    ∷ joins (pos 10) "R" "g" "guest" window
    ∷ []

abbrev idle : Database
unfolding run performed recharge ready_wallet mint transaction_row create create_room open_wallet
    created_rows join_funded join_change write write_room writer_of seat_guest fund_round
    ensure_round stake_owners open_accounts stake_effects post_transaction mark_funded add_deadline
    are_accounts is_account_of has_transaction apply_deltas posted ensure_account load loaded_state
    save row_where rows_where exists_where update_where delete_where room_row round_row seats_of
    seat_of_account seat_of_role ◌>>=◌
idle = run go (λ _ _. true) id_before idle_calls migrated

abbrev late : Time
late = pos 30000000010

abbrev inactivity_result : DeadlineResult
inactivity_result = record { processed = true; settled = true; stale = false; due_at = some late }

-- The inactivity deadline is due and ends the round.
idle-expires :
    process_next_deadline go late idle
    ≡ (ok inactivity_result, (process_next_deadline go late idle).1)
unfolding idle process_next_deadline candidate process_candidate process_claimed is_round_active
    is_round_funded set_status next_applicable_deadline first_applicable is_applicable resolution
    finish_deadline commit_resolution commit_revision close_round settle_round pay_owners
    record_settlement settlement_effects is_recorded least_row least_of sorted_rows insert_row
    is_due run performed recharge ready_wallet mint transaction_row create create_room open_wallet
    created_rows join_funded join_change write write_room writer_of seat_guest fund_round
    ensure_round stake_owners open_accounts stake_effects post_transaction mark_funded add_deadline
    are_accounts is_account_of has_transaction apply_deltas posted ensure_account load loaded_state
    save row_where rows_where exists_where update_where delete_where room_row round_row seats_of
    seat_of_account seat_of_role ◌>>=◌ lookup insert ◌+ℤ◌ restore check_players check_moves
    check_requests check_outcome join escrow_account_id stake_key clone resolve_inactivity state
idle-expires = refl

process_next_deadline-IsFewer_example :
    (due_count late (process_next_deadline go late idle).1.deadlines
      < due_count late idle.deadlines)
    ⊎ IsStuck late idle
process_next_deadline-IsFewer_example =
    process_next_deadline-IsFewer go late idle inactivity_result
      (process_next_deadline go late idle).1 idle-expires refl

-- A host leaves two revisions in the outbox.
claim_outbox-Exclusive_example :
    holds 1 (
      records_of "two" (
        chosen_rows (pos 20) (pos 5) (claim_outbox "one" (pos 10) (pos 1) (pos 100) left).1.outbox))
    ≡ false
unfolding claim_outbox chosen_rows ◌+ℤ◌ holds left connected hosting lookup
claim_outbox-Exclusive_example =
    claim_outbox-Exclusive "one" "two" (pos 10) (pos 20) (pos 1) (pos 5) (pos 100) (pos 50) left
      (claim_outbox "one" (pos 10) (pos 1) (pos 100) left).1
      (claim_outbox "two" (pos 20) (pos 5) (pos 50)
        (claim_outbox "one" (pos 10) (pos 1) (pos 100) left).1).1
      (records_of "one" (chosen_rows (pos 10) (pos 1) left.outbox))
      (records_of "two" (
        chosen_rows (pos 20) (pos 5) (claim_outbox "one" (pos 10) (pos 1) (pos 100) left).1.outbox))
      refl refl refl 1 refl

idle_due : due_rows late (reap_expired_connections id_before late idle).2 ≡ 1
unfolding idle due_count is_due reap_expired_connections reap sorted_rows insert_row rows_where run
    performed recharge ready_wallet mint transaction_row create create_room open_wallet created_rows
    join_funded join_change write write_room writer_of seat_guest fund_round ensure_round
    stake_owners open_accounts stake_effects post_transaction mark_funded add_deadline are_accounts
    is_account_of has_transaction apply_deltas posted ensure_account load loaded_state save
    row_where exists_where update_where delete_where room_row round_row seats_of seat_of_account
    seat_of_role ◌>>=◌ lookup insert ◌+ℤ◌ restore check_players check_moves check_requests
    check_outcome join escrow_account_id stake_key clone
idle_due = refl

run_once-IsOver_example : IsOver go id_before late 2 idle
run_once-IsOver_example = run_once-IsOver go id_before late 2 idle (ground (arith, idle_due))
