-- ===== src/Memory.antt =====
-- The store of backend/internal/room/adapter/memory/repository.go: its data and its small steps.
--
-- A method of the repository runs under its lock, so it is one action on the whole store. A
-- `*storedRoom` is a value that the method writes back under its code; `fundRound` and `changed`
-- are the only writes through it that a method makes.
pub mod Signals
pub mod Coins
pub mod Funding
pub mod Settling
pub mod Handlers
pub mod Presence
pub mod Commands
pub mod Idempotent
pub mod Atomic
mod Tests
use rock_paper_money.Prelude.{
  ltb, leb, nat_beq, if◌then◌else◌, nat_beq_iff, Bool-cases, Option-cases, length, length-append,
  All, Eq, ◌==◌, ◌/=◌, nat_eq, string_eq, bool_beq, bool_beq_iff, bool_eq, ==_refl, ==_of_eq,
  ==_of_ne, ==_sym, Eq-cases, ℕ, zero, suc, ◌+◌, ◌-◌, ◌*◌, ◌/◌, ◌%◌, ◌^◌, ◌≤◌, ◌<◌, String, concat,
  ◌≡◌, refl, sym, ap, subst, ◌∙◌, ◌≢◌, ◌↔◌, ◌⊎◌, inl, inr, Bool, true, false, not, ◌&&◌, ◌||◌,
  Option, none, some, List, [], ◌∷◌, ◌++◌, map, arith,
}
use rock_paper_money.Prelude.Dict.{
  Dict, is_some, get_or, lookup, insert, erase, contains, lookup-insert, lookup-insert_self,
  lookup-insert_ne, length-insert, IsMap, clone_into, clone, insert-IsMap, clone_lem, All-insert,
  All-mono,
}
use rock_paper_money.Prelude.Int.{
  ℤ, pos_part, neg_part, sub_ℕ, ◌+ℤ◌, ◌-ℤ◌, ◌≤ℤ◌, ltb_ℤ, +ℤ_parts, -ℤ_parts, eq_of_parts, int_laws,
  inc_int, ℤ_beq, ℤ_beq_iff, int_eq, max_int64, wrap64, add64, sub64, sub64_pos, add64_pos, pos,
  negsuc,
}
use rock_paper_money.Failure.{
  Error, Fallible, fail_if, Fallible-cases, empty_code, missing_player_id, duplicate_player,
  room_full, unknown_player, room_not_ready, duplicate_move, invalid_move, round_not_resolved,
  next_round_requested, stale_round, round_resolved, game_unfinished, room_closed, invalid_state,
  duplicate_room, room_not_found, unauthorized, account_seated, insufficient_funds,
  invalid_coin_amount, idempotency_required, idempotency_conflict, unsupported_command_repository,
  invalid_report, external, ok, err,
}
use rock_paper_money.Game.{
  Move, Result, move_beq, move_beq_iff, move_eq, result_beq, result_beq_iff, result_eq,
  is_valid_move, determine_result, rock, paper, scissors, other, unset, draw, player_one_wins,
  player_two_wins, other_result,
}
use rock_paper_money.Room.{
  PersistedPlayer, PersistenceState, Room, Player, PlayerMove, State, is_seen, check_players,
  check_moves, check_requests, move_of, valid_resolved_moves, first_id, check_resolved,
  check_outcome, restore, persistence_state, view_player, view_players, shown_moves, state,
}
use rock_paper_money.Action.{
  Action, pure, raise, lift, gets, or_raise, modify, raise_if, continue, ◌>>=◌, ◌>>◌,
}
use rock_paper_money.Application.{
  Time, Digest, round_stake, winner_payout, house_payout, Snapshot, PlayedRound, Analytics,
  Credentials, PresenceLease, PresenceWindow, Mutation, Command, CommandResult,
}
use rock_paper_money.Memory.Signals.{Events, channels, subscribe, unsubscribe, signal_all, publish}

pub record MemoryRecharge : Type 0 where
  pub owner : String
  pub amount : ℤ

pub record MemoryReceipt : Type 0 where
  pub account_id : String
  pub command : Command
  pub result : CommandResult

pub record MemoryPresence : Type 0 where
  pub generation : ℕ
  pub refreshed_at : Time
  pub deadline : Time

pub record StoredRoom : Type 0 where
  pub room : Room
  pub revision : ℕ
  pub credentials : Dict String Digest
  pub owners : Dict String String
  pub presence : Dict String MemoryPresence
  pub funded : Dict ℕ Bool

pub record Repository : Type 0 where
  pub rooms : Dict String StoredRoom
  pub events : Events
  pub wallets : Dict String ℤ
  pub recharges : Dict String MemoryRecharge
  pub history : List PlayedRound
  pub receipts : Dict String MemoryReceipt

abbrev pub Wallets : Type 0
Wallets = Dict String ℤ

unfoldable pub new : Repository
new = record {
  rooms = [];
  events = record { rooms = []; next = 0 };
  wallets = ("house", pos 0) ∷ [];
  recharges = [];
  history = [];
  receipts = [];
}

-- `r.wallets[owner]`; a missing wallet reads as 0.
abbrev pub balance_of : String → Wallets → ℤ
balance_of owner wallets = get_or (lookup owner wallets) (pos 0)

unfoldable pub ensure_wallet : String → Wallets → Wallets
ensure_wallet owner wallets =
    if contains owner wallets then wallets else insert owner (pos 0) wallets

-- `r.wallets[owner] += amount`
unfoldable pub credit : String → ℤ → Wallets → Wallets
credit owner amount wallets = insert owner (add64 (balance_of owner wallets) amount) wallets

-- `r.wallets[owner] -= amount`
unfoldable pub debit : String → ℤ → Wallets → Wallets
debit owner amount wallets = insert owner (sub64 (balance_of owner wallets) amount) wallets

-- What the store takes from Go's library: the decimal digits of a `uint64` and SHA-256.
pub record GoLibrary : Type 0 where
  pub format_uint : ℕ → String
  pub sha256 : String → Digest

unfoldable pub escrow_key : GoLibrary → String → ℕ → String
escrow_key go code round = concat "escrow:" (concat code (concat ":" (go.format_uint round)))

unfoldable pub is_funded : ℕ → StoredRoom → Bool
is_funded round stored = get_or (lookup round stored.funded) false

-- The owners of the seats, in the order of the players.
unfoldable pub owners_of : Dict String String → List Player → List String
owners_of owners [] = []
owners_of owners (p ∷ ps) = get_or (lookup p.id owners) "" ∷ owners_of owners ps

-- The first loop of `fundRound`: every owner has a wallet with the stake in it.
unfoldable pub check_stakes : List String → Action Wallets Unit
unfolding ensure_wallet
check_stakes [] wallets = (ok tt, wallets)
check_stakes (owner ∷ owners) wallets =
    let ensured = ensure_wallet owner wallets in
    let rest = check_stakes owners ensured in
    if ltb_ℤ (balance_of owner ensured) round_stake then (err insufficient_funds, ensured) else rest

-- The second loop: every owner pays the stake.
unfoldable pub take_stakes : List String → Wallets → Wallets
take_stakes [] wallets = wallets
take_stakes (owner ∷ owners) wallets = take_stakes owners (debit owner round_stake wallets)

-- The accounts that `fundRound` charges.
abbrev pub funding_owners : StoredRoom → String → List String
funding_owners stored joining_owner =
    let seated = owners_of stored.owners (state stored.room).players in
    if joining_owner /= "" then seated ++ joining_owner ∷ [] else seated

-- The part of `fundRound` behind its tests on the round and the owners.
unfoldable pub charge_owners :
    GoLibrary → StoredRoom → String → ℕ → List String → Action Wallets StoredRoom
charge_owners go stored code round owners wallets =
    continue (check_stakes owners wallets).0
      (λ _ w. (
        ok (record stored { funded = insert round true stored.funded }),
        insert (escrow_key go code round) (pos 100) (take_stakes owners w),
      ))
      (check_stakes owners wallets).1

-- `fundRound`: it changes the wallets, and marks the round in the stored room that it returns.
unfoldable pub fund_round : GoLibrary → StoredRoom → String → ℕ → String → Action Wallets StoredRoom
fund_round go stored code round joining_owner wallets =
    if is_funded round stored
    then (ok stored, wallets)
    else if length (funding_owners stored joining_owner) /= 2
    then (err room_not_ready, wallets)
    else charge_owners go stored code round (funding_owners stored joining_owner) wallets

-- The owner of the seat at an index; Go panics where there is none, and its callers settle rooms
-- of two players.
abbrev pub owner_at : ℕ → List String → String
owner_at i [] = ""
owner_at zero (o ∷ os) = o
owner_at (suc i) (o ∷ os) = owner_at i os

-- The coins that `settleRound` pays out of a full escrow.
unfoldable pub pay_out : List String → Result → Wallets → Wallets
pay_out owners result wallets =
    if result == draw
    then credit (owner_at 1 owners) round_stake (credit (owner_at 0 owners) round_stake wallets)
    else credit "house" house_payout (
        credit (owner_at (if result == player_two_wins then 1 else 0) owners) winner_payout wallets)

-- The line that `settleRound` adds to the history.
abbrev pub played_round : String → State → Time → PlayedRound
played_round code s now = record {
  room_code = code;
  round = s.round;
  result = s.result;
  winner_role =
      if s.result == draw then "" else if s.result == player_two_wins then "guest" else "host";
  forfeit = s.forfeit;
  house_earnings = if s.result == draw then pos 0 else house_payout;
  resolved_at = now;
}

unfoldable pub settle_round :
    GoLibrary → StoredRoom → String → State → Time → Repository → Repository
settle_round go stored code s now r =
    let escrow = escrow_key go code s.round in
    if balance_of escrow r.wallets == pos 0 then r else record r {
      wallets =
          insert escrow (pos 0) (pay_out (owners_of stored.owners s.players) s.result r.wallets);
      history = played_round code s now ∷ r.history;
    }

-- `room`: the stored room of a code.
unfoldable pub room : String → Action Repository StoredRoom
room code r = or_raise (lookup code r.rooms) room_not_found r

-- `changed`: the revision, the event and the write of the stored room.
unfoldable pub changed : String → StoredRoom → Action Repository Snapshot
changed code stored r =
    let stored' = record stored { revision = (stored.revision + 1) % 2 ^ 64 } in
    (
      ok (record { state = state stored'.room; revision = stored'.revision; presence = [] }),
      record r { rooms = insert code stored' r.rooms; events = publish code r.events },
    )

-- The first seat of an account, in the order of iteration.
unfoldable pub seat_of : String → Dict String String → String
seat_of account_id [] = ""
seat_of account_id ((id, owner) ∷ owners) =
    let rest = seat_of account_id owners in if owner == account_id then id else rest

unfoldable pub player_for_account : Dict String String → String → String
unfolding seat_of
player_for_account owners account_id = if account_id == "" then "" else seat_of account_id owners

-- `authenticate` ignores the credentials and the digest.
unfoldable pub authenticate :
    Dict String Digest → Dict String String → Digest → String → Option String
unfolding player_for_account
authenticate credentials owners digest account_id =
    let id = player_for_account owners account_id in if id == "" then none else some id
