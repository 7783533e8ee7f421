-- ===== src/Application.antt =====
-- The data that backend/internal/room/application passes between the service and a repository.
--
-- A time is a number of nanoseconds, a ℤ; a `CredentialDigest` and a `RequestHash` are 32 bytes,
-- read as one number.
use rock_paper_money.Prelude.{nat_eq, string_eq, bool_eq, ℕ, String, Bool, Option, List}
use rock_paper_money.Prelude.Dict.{Dict}
use rock_paper_money.Prelude.Int.{ℤ, int_eq, pos}
use rock_paper_money.Failure.{Error}
use rock_paper_money.Game.{Result, move_eq, result_eq}
use rock_paper_money.Room.{Room, State}

abbrev pub Time : Type 0
Time = ℤ

abbrev pub Digest : Type 0
Digest = ℕ

abbrev pub round_stake : ℤ
round_stake = pos 50

abbrev pub winner_payout : ℤ
winner_payout = pos 75

abbrev pub house_payout : ℤ
house_payout = pos 25

pub record Snapshot : Type 0 where
  pub state : State
  pub revision : ℕ
  pub presence : Dict String Bool

pub record PlayedRound : Type 0 where
  pub room_code : String
  pub round : ℕ
  pub result : Result
  pub winner_role : String
  pub forfeit : Bool
  pub house_earnings : ℤ
  pub resolved_at : Time

pub record Analytics : Type 0 where
  pub total_house_earnings : ℤ
  pub rounds : List PlayedRound

pub record Credentials : Type 0 where
  pub room_code : String
  pub player_token : String

pub record PresenceLease : Type 0 where
  pub room_code : String
  pub player_id : String
  pub round : ℕ
  pub generation : ℕ
  pub deadline : Time
  pub evaluate_at : Time
  pub proof_after : Time
  pub active : Bool

pub record PresenceWindow : Type 0 where
  pub observed_at : Time
  pub proof_after : Time
  pub deadline : Time
  pub evaluate_at : Time

-- The room after the mutation, and its error.
abbrev pub Mutation : Type 0
Mutation = String → Room → Room × Option Error

pub record Command : Type 0 where
  pub key : String
  pub operation : String
  pub request_hash : Digest
  pub response_status : ℕ

pub record CommandResult : Type 0 where
  pub snapshot : Option Snapshot
  pub leases : List PresenceLease
  pub balance : ℤ
  pub replayed : Bool
