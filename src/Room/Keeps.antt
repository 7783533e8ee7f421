-- ===== src/Room/Keeps.antt =====
-- The actions of a room keep it valid; an action that returns an error changes nothing.
pub mod Submit
pub mod Rounds
pub mod Deadline
use rock_paper_money.Prelude.{
  ltb, leb, nat_beq, if◌then◌else◌, nat_beq_iff, Bool-cases, Option-cases, length, length-append,
  All, Eq, ◌==◌, ◌/=◌, nat_eq, string_eq, bool_beq, bool_beq_iff, bool_eq, ==_refl, ==_of_eq,
  ==_of_ne, ==_sym, Eq-cases, ℕ, zero, suc, ◌+◌, ◌-◌, ◌*◌, ◌/◌, ◌%◌, ◌^◌, ◌≤◌, ◌<◌, String, ◌≡◌,
  refl, sym, ap, subst, ◌∙◌, ◌≢◌, ◌↔◌, ◌⊎◌, inl, inr, Bool, true, false, not, ◌&&◌, ◌||◌, Option,
  none, some, List, [], ◌∷◌, ◌++◌, map, arith,
}
use rock_paper_money.Prelude.Dict.{
  Dict, is_some, get_or, lookup, insert, erase, contains, lookup-insert, lookup-insert_self,
  lookup-insert_ne, length-insert, IsMap, clone_into, clone, insert-IsMap, clone_lem, All-insert,
  All-mono,
}
use rock_paper_money.Prelude.Int.{
  ℤ, pos_part, neg_part, sub_ℕ, ◌+ℤ◌, ◌-ℤ◌, ◌≤ℤ◌, ltb_ℤ, +ℤ_parts, -ℤ_parts, eq_of_parts, int_laws,
  inc_int, pos, negsuc,
}
use rock_paper_money.Failure.{
  Error, Fallible, ◌>>=◌, ◌>>◌, fail_if, Fallible-cases, empty_code, missing_player_id,
  duplicate_player, room_full, unknown_player, room_not_ready, duplicate_move, invalid_move,
  round_not_resolved, next_round_requested, stale_round, round_resolved, game_unfinished,
  room_closed, invalid_state, duplicate_room, room_not_found, unauthorized, account_seated,
  insufficient_funds, invalid_coin_amount, idempotency_required, idempotency_conflict,
  unsupported_command_repository, invalid_report, external, ok, err,
}
use rock_paper_money.Game.{
  Move, Result, move_beq, move_beq_iff, move_eq, result_beq, result_beq_iff, result_eq,
  is_valid_move, determine_result, rock, paper, scissors, other, unset, draw, player_one_wins,
  player_two_wins, other_result,
}
use rock_paper_money.Room.{
  PersistedPlayer, PersistenceState, Room, Player, PlayerMove, State, new, is_seen, check_players,
  check_moves, check_requests, move_of, valid_resolved_moves, first_id, check_resolved,
  check_outcome, restore, persistence_state, view_player, view_players, shown_moves, state,
}
use rock_paper_money.Room.Actions.{
  Outcome, has_player, win, join, award_result, resolve, submit_move, next_round, advance,
  request_next_round, resolve_committed_moves, advance_committed_next_round, leave,
}
use rock_paper_money.Room.Valid.{
  IsSeat, AreSeats, IsMoveOf, IsRequestOf, result_of, IsPlayed, IsForfeited, IsOutcome, IsValid,
  IsBounded,
}
use rock_paper_money.Room.Counting.{
  bit, IsKeyOf, keys_of_moves, keys_of_requests, length_of_two, length_of_one, AreSeats-length,
}
use rock_paper_money.Room.Outcome.{
  IsDecided, determine_result-IsDecided, known_valid, result_of-IsDecided, check_two_iff,
  check_one_iff,
}

-- The players of one list are players of the other.
abbrev pub IsPlayersIn : List PersistedPlayer → List PersistedPlayer → Type 0
IsPlayersIn ps qs = (id : String) → has_player id ps ≡ true → has_player id qs ≡ true

pub IsMoveOf-mono :
    (ps qs : List PersistedPlayer) (moves : Dict String Move)
    → IsPlayersIn ps qs
    → All (IsMoveOf ps) moves
    → All (IsMoveOf qs) moves
IsMoveOf-mono ps qs moves f h =
    All-mono (IsMoveOf ps) (IsMoveOf qs) moves (λ x p. (f x.0 p.0, p.1)) h

pub IsRequestOf-mono :
    (ps qs : List PersistedPlayer) (requests : Dict String Bool)
    → IsPlayersIn ps qs
    → All (IsRequestOf ps) requests
    → All (IsRequestOf qs) requests
IsRequestOf-mono ps qs requests f h =
    All-mono (IsRequestOf ps) (IsRequestOf qs) requests (λ x p. f x.0 p) h

pub IsPlayersIn-same :
    (host guest host' guest' : PersistedPlayer)
    → host'.id ≡ host.id
    → guest'.id ≡ guest.id
    → IsPlayersIn (host ∷ guest ∷ []) (host' ∷ guest' ∷ [])
unfolding has_player
IsPlayersIn-same host guest host' guest' e f id h = ground arith

has_player-append :
    (id : String) (ps qs : List PersistedPlayer)
    → has_player id (ps ++ qs) ≡ (has_player id ps || has_player id qs)
unfolding has_player
has_player-append id [] qs = refl
has_player-append id (p ∷ ps) qs = ground (arith, has_player-append id ps qs)

AreSeats-join :
    (id : String) (ps : List PersistedPlayer)
    → AreSeats ps
    → id ≢ ""
    → has_player id ps ≡ false
    → length ps ≢ 2
    → AreSeats (ps ++ record { id = id; wins = pos 0 } ∷ [])
unfolding has_player
AreSeats-join id (p ∷ []) h n f l = ground (arith, string_eq.beq_iff p.id id)
AreSeats-join id (p ∷ q ∷ []) h n f l = absurd (omega arith)
AreSeats-join id [] h n f l = absurd h
AreSeats-join id (p ∷ q ∷ x ∷ ps) h n f l = absurd h

-- An action that returns an error leaves the room as it was.
abbrev pub IsRefused : Room → Outcome → Type 0
IsRefused r (r', e) = (r' ≡ r) × (e ≢ none)

-- An open outcome does not depend on the players nor on the moves.
pub IsOutcome-open :
    (b : Bool) (ps qs : List PersistedPlayer) (moves moves' : Dict String Move)
    (requests : Dict String Bool) (result : Result) (loser : String)
    → b ≡ false
    → IsOutcome b ps moves requests result loser
    → IsOutcome b qs moves' requests result loser
IsOutcome-open false ps qs moves moves' requests result loser e h = h
IsOutcome-open true ps qs moves moves' requests result loser e h = cc

abbrev seated : String → Room → Room
seated id r = record r { players = r.players ++ record { id = id; wins = pos 0 } ∷ [] }

pub join-cases :
    (id : String) (r : Room)
    → IsRefused r (join id r)
      ⊎ (r.closed ≡ false)
        × (id ≢ "")
        × (has_player id r.players ≡ false)
        × (length r.players ≢ 2)
        × (join id r ≡ (seated id r, none))
unfolding join
join-cases id r = ground (arith, string_eq.beq_iff id "")

seated_outcome : (id : String) (r : Room) → IsValid r → length r.players ≢ 2 → r.resolved ≡ false
seated_outcome id r v l = ground arith

seated-IsValid :
    (id : String) (r : Room)
    → IsValid r
    → id ≢ ""
    → has_player id r.players ≡ false
    → length r.players ≢ 2
    → IsValid (seated id r)
seated-IsValid id r v n f l = record {
  code_set = v.code_set;
  round_set = v.round_set;
  seats = AreSeats-join id r.players v.seats n f l;
  moves_map = v.moves_map;
  moves_known =
      IsMoveOf-mono r.players _ r.moves
        (λ i h.
          ground (arith, has_player-append i r.players (record { id = id; wins = pos 0 } ∷ [])))
        v.moves_known;
  requests_map = v.requests_map;
  requests_known =
      IsRequestOf-mono r.players _ r.next_round_requests
        (λ i h.
          ground (arith, has_player-append i r.players (record { id = id; wins = pos 0 } ∷ [])))
        v.requests_known;
  outcome =
      IsOutcome-open r.resolved r.players _ r.moves r.moves r.next_round_requests r.result
        r.forfeited_player_id (seated_outcome id r v l) v.outcome;
}

pub join-IsValid : (id : String) (r : Room) → IsValid r → IsValid (join id r).0
join-IsValid id r v = elim (join-cases id r) [
  | inl e ↦ rw e.0 v
  | inr (_, n, f, l, e) ↦ rw e (seated-IsValid id r v n f l)
]

pub leave-IsValid : (id : String) (r : Room) → IsValid r → IsValid (leave id r).0
unfolding leave
leave-IsValid id r v = ground arith
