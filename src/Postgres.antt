-- ===== src/Postgres.antt =====
-- The Postgres store, backend/internal/room/adapter/postgres: its tables, as the migrations there
-- declare them, and what the statements of its methods do with them.
--
-- A table is the list of its rows. Columns that no modelled statement reads back (`created_at` but
-- that of the outbox, `updated_at`, `closed_at` of a room, `disconnected_at`, `claimed_at`) are
-- left out. A method is one transaction, taken as one step: an error rolls it back.
-- A database that can not be reached is not modelled; an error of the driver on data that is there
-- is `external`.
pub mod Sql
pub mod Aggregate
pub mod Wallets
pub mod Repository
pub mod Connections
pub mod Disconnects
pub mod Deadlines
pub mod Ledger
pub mod Books
pub mod Runs
pub mod WorkerBooks
pub mod CommandBooks
pub mod SocketBooks
pub mod Sequences
pub mod Stuck
pub mod Outbox
pub mod Reconciliation
pub mod Commands
pub mod Actions
pub mod Recharges
pub mod Presence
pub mod Reads
pub mod Claims
pub mod Rows
pub mod Due
pub mod Standing
pub mod Progress
pub mod Ending
mod Tests
use rock_paper_money.Application.{Time, Digest, CommandResult}
use rock_paper_money.Prelude.{
  ltb, leb, nat_beq, if◌then◌else◌, nat_beq_iff, Bool-cases, Option-cases, length, length-append,
  All, Eq, ◌==◌, ◌/=◌, nat_eq, bool_beq, bool_beq_iff, bool_eq, string_eq, ==_refl, ==_of_eq,
  ==_of_ne, ==_sym, Eq-cases, ℕ, zero, suc, ◌+◌, ◌-◌, ◌*◌, ◌/◌, ◌%◌, ◌^◌, ◌≤◌, ◌<◌, String, concat,
  ◌≡◌, refl, sym, ap, subst, ◌∙◌, ◌≢◌, ◌↔◌, ◌⊎◌, inl, inr, Bool, true, false, not, ◌&&◌, ◌||◌,
  Option, none, some, List, [], ◌∷◌, ◌++◌, map, arith,
}
use rock_paper_money.Prelude.Int.{
  ℤ, pos_part, neg_part, sub_ℕ, ◌+ℤ◌, ◌-ℤ◌, ◌≤ℤ◌, ltb_ℤ, leb_ℤ, +ℤ_parts, -ℤ_parts, eq_of_parts,
  int_laws, inc_int, ℤ_beq, ℤ_beq_iff, int_eq, max_int64, wrap64, add64, sub64, sub64_pos,
  add64_pos, pos, negsuc,
}
use rock_paper_money.Prelude.Dict.{
  Dict, is_some, get_or, lookup, insert, erase, contains, lookup-insert, lookup-insert_self,
  lookup-insert_ne, length-insert, IsMap, clone_into, clone, insert-IsMap, clone_lem, All-insert,
  All-mono,
}
use rock_paper_money.Failure.{Error, Fallible, ok, err, external}
use rock_paper_money.Game.{
  Move, Result, move_beq, move_beq_iff, move_eq, result_beq, result_beq_iff, result_eq,
  is_valid_move, determine_result, rock, paper, scissors, other, unset, draw, player_one_wins,
  player_two_wins, other_result,
}
use rock_paper_money.Action.{
  Action, pure, raise, lift, gets, or_raise, modify, raise_if, continue, ◌>>=◌, ◌>>◌, >>=-ok,
  >>=-ok_elim,
}

pub data Role : Type 0 where
  host guest : Role

abbrev pub role_beq : Role → Role → Bool
role_beq host host = true
role_beq guest guest = true
role_beq host guest = false
role_beq guest host = false

pub role_beq_iff : (a b : Role) → (role_beq a b ≡ true) ↔ (a ≡ b)
role_beq_iff a b = ground arith

instance abbrev pub role_eq : Eq Role
role_eq = record { beq = role_beq; beq_iff = role_beq_iff }

abbrev pub other_role : Role → Role
other_role host = guest
other_role guest = host

-- `room_rounds.status`
pub data RoundStatus : Type 0 where
  active settling resolved : RoundStatus

abbrev pub status_beq : RoundStatus → RoundStatus → Bool
status_beq active active = true
status_beq settling settling = true
status_beq resolved resolved = true
status_beq _ _ = false

pub status_beq_iff : (a b : RoundStatus) → (status_beq a b ≡ true) ↔ (a ≡ b)
status_beq_iff a b = ground arith

instance abbrev pub status_eq : Eq RoundStatus
status_eq = record { beq = status_beq; beq_iff = status_beq_iff }

-- `room_deadlines.status`; nothing writes 'claimed'.
pub data DeadlineStatus : Type 0 where
  pending completed cancelled : DeadlineStatus

abbrev pub is_pending : DeadlineStatus → Bool
is_pending pending = true
is_pending _ = false

-- `room_deadlines.kind` with its role, which a disconnection alone has.
pub data DeadlineKind : Type 0 where
  disconnect : Role → DeadlineKind
  inactivity : DeadlineKind

abbrev pub kind_beq : DeadlineKind → DeadlineKind → Bool
kind_beq (disconnect a) (disconnect b) = role_beq a b
kind_beq inactivity inactivity = true
kind_beq (disconnect a) inactivity = false
kind_beq inactivity (disconnect b) = false

pub record RoomRow : Type 0 where
  pub code : String
  pub is_closed : Bool
  pub current_round : ℕ
  pub revision : ℕ

pub record RoundRow : Type 0 where
  pub room_code : String
  pub number : ℕ
  pub result : Option Result
  pub forfeited_role : Option Role
  pub funded : Bool
  pub status : RoundStatus

pub record SeatRow : Type 0 where
  pub room_code : String
  pub role : Role
  pub player_id : String
  pub auth_user_id : String
  pub wins : ℤ

pub record MoveRow : Type 0 where
  pub room_code : String
  pub round_number : ℕ
  pub role : Role
  pub move : Move

pub record RequestRow : Type 0 where
  pub room_code : String
  pub round_number : ℕ
  pub role : Role

pub record PresenceRow : Type 0 where
  pub room_code : String
  pub player_id : String
  pub generation : ℕ
  pub deadline : Time
  pub refreshed_at : Time
  pub present : Bool

pub record ConnectionRow : Type 0 where
  pub connection_id : String
  pub session_digest : Digest
  pub room_code : String
  pub role : Role
  pub connected_at : Time
  pub lease_expires_at : Time
  pub closed_at : Option Time

pub record DeadlineRow : Type 0 where
  pub deadline_id : ℕ
  pub room_code : String
  pub round_number : ℕ
  pub kind : DeadlineKind
  pub generation : ℕ
  pub due_at : Time
  pub status : DeadlineStatus
  pub completed_at : Option Time

pub record OutboxRow : Type 0 where
  pub outbox_id : ℕ
  pub room_code : String
  pub revision : ℕ
  pub attempts : ℕ
  pub next_attempt_at : Time
  pub created_at : Time
  pub published_at : Option Time
  pub claim : Option (String × Time)

-- `recharge` is the account and the amount, which a recharge alone has.
pub record TransactionRow : Type 0 where
  pub business_key : String
  pub recharge : Option (String × ℤ)

-- `response_body` is the result that its JSON encodes.
pub record ReceiptRow : Type 0 where
  pub account_id : String
  pub idempotency_key : String
  pub operation : String
  pub request_hash : Digest
  pub response_status : ℕ
  pub response_body : CommandResult
  pub expires_at : Time

pub record PostingRow : Type 0 where
  pub business_key : String
  pub account_id : String
  pub amount : ℤ

pub record HistoryRow : Type 0 where
  pub room_code : String
  pub round_number : ℕ
  pub host_account_id : String
  pub guest_account_id : String
  pub result : Result
  pub winner_role : Option Role
  pub forfeited : Bool
  pub house_earnings : ℤ
  pub resolved_at : Time

-- The columns of `web_sessions` that the rooms' statements read.
pub record SessionRow : Type 0 where
  pub session_digest : Digest
  pub account_id : String
  pub revoked : Bool
  pub idle_expires_at : Time
  pub absolute_expires_at : Time

-- `accounts` maps an account of the wallet to its balance; `next_deadline` and `next_outbox` are the
-- sequences behind `deadline_id` and `outbox_id`, and `clock` is what `now()` reads.
pub record Database : Type 0 where
  pub rooms : List RoomRow
  pub rounds : List RoundRow
  pub seats : List SeatRow
  pub moves : List MoveRow
  pub requests : List RequestRow
  pub presence : List PresenceRow
  pub connections : List ConnectionRow
  pub deadlines : List DeadlineRow
  pub next_deadline : ℕ
  pub outbox : List OutboxRow
  pub next_outbox : ℕ
  pub accounts : Dict String ℤ
  pub transactions : List TransactionRow
  pub postings : List PostingRow
  pub history : List HistoryRow
  pub sessions : List SessionRow
  pub receipts : List ReceiptRow
  pub clock : Time

-- `defer tx.Rollback(ctx)`
abbrev pub settled_transaction :
    {A : Type 0} → Database → Fallible A × Database → Fallible A × Database
settled_transaction db (ok a, db') = (ok a, db')
settled_transaction db (err e, db') = (err e, db)

abbrev pub transaction : {A : Type 0} → Action Database A → Action Database A
transaction m db = settled_transaction db (m db)
