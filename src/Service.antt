-- ===== src/Service.antt =====
-- The service of backend/internal/room/application (service.go, command.go): what it does between
-- the HTTP layer and a repository. `S` is the world behind it: the repository's store, the random
-- source and the clock.
pub mod Commands
pub mod Reports
pub mod Retry
pub mod Store
pub mod Wallet
mod Tests
use Prim.Native.String.{len}
use rock_paper_money.Prelude.{
  ltb, leb, nat_beq, if◌then◌else◌, nat_beq_iff, Bool-cases, Option-cases, length, length-append,
  All, Eq, ◌==◌, ◌/=◌, nat_eq, string_eq, bool_beq, bool_beq_iff, bool_eq, ==_refl, ==_of_eq,
  ==_of_ne, ==_sym, Eq-cases, ℕ, zero, suc, ◌+◌, ◌-◌, ◌*◌, ◌/◌, ◌%◌, ◌^◌, ◌≤◌, ◌<◌, String, concat,
  ◌≡◌, refl, sym, ap, subst, ◌∙◌, ◌≢◌, ◌↔◌, ◌⊎◌, inl, inr, Bool, true, false, not, ◌&&◌, ◌||◌,
  Option, none, some, List, [], ◌∷◌, ◌++◌, map, arith,
}
use rock_paper_money.Prelude.Int.{
  ℤ, pos_part, neg_part, sub_ℕ, ◌+ℤ◌, ◌-ℤ◌, ◌≤ℤ◌, ltb_ℤ, leb_ℤ, +ℤ_parts, -ℤ_parts, eq_of_parts,
  int_laws, inc_int, ℤ_beq, ℤ_beq_iff, int_eq, max_int64, wrap64, add64, sub64, sub64_pos,
  add64_pos, pos, negsuc,
}
use rock_paper_money.Failure.{
  Error, Fallible, fail_if, Fallible-cases, empty_code, missing_player_id, duplicate_player,
  room_full, unknown_player, room_not_ready, duplicate_move, invalid_move, round_not_resolved,
  next_round_requested, stale_round, round_resolved, game_unfinished, room_closed, invalid_state,
  duplicate_room, room_not_found, unauthorized, account_seated, insufficient_funds,
  invalid_coin_amount, idempotency_required, idempotency_conflict, unsupported_command_repository,
  invalid_report, external, ok, err,
}
use rock_paper_money.Game.{
  Move, Result, move_beq, move_beq_iff, move_eq, result_beq, result_beq_iff, result_eq,
  is_valid_move, determine_result, rock, paper, scissors, other, unset, draw, player_one_wins,
  player_two_wins, other_result,
}
use rock_paper_money.Room.{
  PersistedPlayer, PersistenceState, Room, Player, PlayerMove, State, new, is_seen, check_players,
  check_moves, check_requests, move_of, valid_resolved_moves, first_id, check_resolved,
  check_outcome, restore, persistence_state, view_player, view_players, shown_moves,
}
use rock_paper_money.Room.Actions.{
  Outcome, has_player, win, award_result, resolve_seats, resolve, next_round, advance,
  resolve_committed_moves, advance_committed_next_round, leave,
}
use rock_paper_money.Action.{
  Action, pure, raise, lift, gets, or_raise, modify, raise_if, continue, ◌>>=◌, ◌>>◌,
}
use rock_paper_money.Application.{
  Time, Digest, round_stake, winner_payout, house_payout, Snapshot, PlayedRound, Analytics,
  Credentials, PresenceLease, PresenceWindow, Mutation, Command, CommandResult,
}

-- `Repository`, the port that every store implements.
pub record RepositoryPort (S : Type 0) : Type 0 where
  pub create : Room → Digest → String → Action S Snapshot
  pub join_funded :
      String → String → Digest → String → PresenceWindow → Action S (Snapshot × List PresenceLease)
  pub submit_move_and_settle : String → Digest → String → Move → Action S Snapshot
  pub request_next_round_and_fund : String → Digest → String → ℕ → Action S Snapshot
  pub mutate : String → Digest → String → Mutation → Action S Snapshot
  pub snapshot : String → Action S Snapshot
  pub authenticate : String → Digest → String → Action S (Snapshot × String)
  pub refresh_presence : String → Digest → String → PresenceWindow → Action S (List PresenceLease)
  pub forfeit_expired : PresenceLease → Time → Action S (Snapshot × Bool)
  pub balance : String → Action S ℤ
  pub recharge : String → ℤ → String → Action S ℤ
  pub analytics : Action S Analytics

-- `CommandRepository`, which a store may implement besides.
pub record CommandPort (S : Type 0) : Type 0 where
  pub create_command : Room → String → Command → Action S CommandResult
  pub join_command : String → String → String → PresenceWindow → Command → Action S CommandResult
  pub submit_move_command : String → String → Move → Command → Action S CommandResult
  pub request_next_round_command : String → String → ℕ → Command → Action S CommandResult
  pub mutate_command : String → String → Mutation → Command → Action S CommandResult
  pub recharge_command : String → ℤ → Command → Action S CommandResult
  pub snapshot_for_account : String → String → Action S Snapshot

-- The structures that a command's hash is taken of.
pub data Meaning : Type 0 where
  empty_meaning : Meaning
  room_meaning : String → Meaning
  move_meaning : String → Move → Meaning
  round_meaning : String → ℕ → Meaning
  amount_meaning : ℤ → Meaning

-- What the service takes from Go's library: SHA-256 of a token and of a meaning's JSON, and the
-- two tests on texts.
pub record Library : Type 0 where
  pub digest_token : String → Digest
  pub hash_meaning : Meaning → Fallible Digest
  pub trim_space : String → String
  pub contains_any : String → String → Bool

pub record Service (S : Type 0) : Type 0 where
  pub repository : RepositoryPort S
  pub commands : Option (CommandPort S)
  pub generate_code : Action S String
  pub generate_token : Action S String
  pub generate_player_id : Action S String
  pub now : Action S Time
  pub grace_period : ℤ
  pub heartbeat_interval : ℤ
  pub library : Library

unfoldable pub command_response_status : String → ℕ
command_response_status operation =
    if operation == "room.create" || operation == "room.join"
    then 201
    else if operation == "room.move" || operation == "room.next-round" || operation == "room.leave"
    then 204
    else 200

-- The four characters of `ContainsAny`.
abbrev pub blanks : String
blanks = " \t\r\n"

unfoldable pub new_command : Library → String → String → Meaning → Fallible Command
unfolding command_response_status
new_command lib key operation meaning =
    if key == "" || ltb 128 (len key) || lib.trim_space key /= key || lib.contains_any key blanks
    then err idempotency_required
    else elim (lib.hash_meaning meaning) [
      | err e ↦ err e
      | ok hash ↦ ok (record {
        key = key;
        operation = operation;
        request_hash = hash;
        response_status = command_response_status operation;
      })
    ]

-- `for range n { … continue … }; return err`: an attempt that asks for another one gives `none`.
unfoldable pub attempts : {S A : Type 0} → ℕ → Error → Action S (Option A) → Action S A
attempts zero e m s = (err e, s)
attempts (suc n) e m s =
    continue (m s).0 (λ o. elim o [ none ↦ attempts n e m | some a ↦ pure a ]) (m s).1

-- An error for which the loop goes round again.
abbrev pub retried : {S A : Type 0} → (Error → Bool) → Fallible A × S → Fallible (Option A) × S
retried again (ok a, s) = (ok (some a), s)
retried again (err e, s) = if again e then (ok none, s) else (err e, s)

abbrev pub is_duplicate_room : Error → Bool
is_duplicate_room duplicate_room = true
is_duplicate_room _ = false

abbrev pub is_duplicate_player : Error → Bool
is_duplicate_player duplicate_player = true
is_duplicate_player _ = false

abbrev pub void : {S A : Type 0} → Action S A → Action S (Unit {0})
void m = do m; pure tt

module _ {S : Type 0} (sv : Service S) where
  open sv use {
    repository, commands, generate_code, generate_token, generate_player_id, now, library,
  }

  unfoldable pub command_repository : Action S (CommandPort S)
  command_repository = or_raise commands unsupported_command_repository

  unfoldable pub identity : Action S (String × String)
  identity = do token ← generate_token; id ← generate_player_id; pure (token, id)

  unfoldable pub presence_deadline : Time → Time
  presence_deadline t = t +ℤ (sv.heartbeat_interval +ℤ sv.grace_period)

  unfoldable pub presence_window : Time → PresenceWindow
  unfolding presence_deadline
  presence_window t = record {
    observed_at = t;
    proof_after = presence_deadline t;
    deadline = presence_deadline t;
    evaluate_at = presence_deadline t +ℤ sv.heartbeat_interval;
  }

  -- One round of the loop of `Create`.
  unfoldable pub try_create : String → Action S (Option Credentials)
  try_create auth_user_id = do
    code ← generate_code
    (token, id) ← identity
    r ← lift (new code id)
    created ← λ s.
        retried is_duplicate_room (repository.create r (library.digest_token token) auth_user_id s)
    pure (elim created [
      | none ↦ none
      | some _ ↦ some (record { room_code = code; player_token = token })
    ])

  unfoldable pub create : String → Action S Credentials
  create auth_user_id = do
    raise_if (auth_user_id == "") unauthorized
    balance ← repository.balance auth_user_id
    raise_if (ltb_ℤ balance round_stake) insufficient_funds
    attempts 8 duplicate_room (try_create auth_user_id)

  -- One round of the loop of `Join`.
  unfoldable pub try_join : String → String → Action S (Option Credentials)
  try_join code auth_user_id = do
    (token, id) ← identity
    t ← now
    joined ← λ s. retried is_duplicate_player (
        repository.join_funded code id (library.digest_token token) auth_user_id (presence_window t)
          s)
    pure (elim joined [
      | none ↦ none
      | some _ ↦ some (record { room_code = code; player_token = token })
    ])

  unfoldable pub join : String → String → Action S Credentials
  join code auth_user_id = do
    raise_if (auth_user_id == "") unauthorized
    attempts 8 duplicate_player (try_join code auth_user_id)

  unfoldable pub snapshot : String → Action S Snapshot
  snapshot code = repository.snapshot code

  unfoldable pub authenticate : String → String → String → Action S (Snapshot × String)
  authenticate code token auth_user_id =
      repository.authenticate code (library.digest_token token) auth_user_id

  unfoldable pub submit_move : String → String → String → Move → Action S (Unit {0})
  submit_move code token auth_user_id move =
      void (repository.submit_move_and_settle code (library.digest_token token) auth_user_id move)

  unfoldable pub request_next_round : String → String → String → ℕ → Action S (Unit {0})
  request_next_round code token auth_user_id round =
      void (
        repository.request_next_round_and_fund code (library.digest_token token) auth_user_id round)

  unfoldable pub leave_room : String → String → String → Action S (Unit {0})
  leave_room code token auth_user_id =
      void (repository.mutate code (library.digest_token token) auth_user_id leave)

  unfoldable pub balance : String → Action S ℤ
  balance auth_user_id = do
    raise_if (auth_user_id == "") unauthorized
    repository.balance auth_user_id

  -- `Recharge` behind its tests.
  unfoldable pub recharge_checked : String → ℤ → String → Option (CommandPort S) → Action S ℤ
  recharge_checked auth_user_id amount key none = repository.recharge auth_user_id amount key
  recharge_checked auth_user_id amount key (some port) = do
    command ← lift (new_command library key "wallet.recharge" (amount_meaning amount))
    result ← port.recharge_command auth_user_id amount command
    pure result.balance

  unfoldable pub recharge : String → ℤ → String → Action S ℤ
  unfolding recharge_checked
  recharge auth_user_id amount key = do
    raise_if (auth_user_id == "") unauthorized
    raise_if (leb_ℤ amount (pos 0)) invalid_coin_amount
    raise_if (key == "" || ltb 128 (len key)) idempotency_required
    recharge_checked auth_user_id amount key commands

  unfoldable pub analytics : String → Action S Analytics
  analytics auth_user_id = do raise_if (auth_user_id == "") unauthorized; repository.analytics

  unfoldable pub refresh_presence : String → String → String → Action S (Unit {0})
  refresh_presence code token auth_user_id = do
    t ← now
    void (
        repository.refresh_presence code (library.digest_token token) auth_user_id
          (presence_window t))
