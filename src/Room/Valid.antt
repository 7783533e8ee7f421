-- ===== src/Room/Valid.antt =====
-- The states that a room of backend/internal/room/domain/room.go may be in, stated apart from the
-- code's own tests.
use rock_paper_money.Prelude.{
  ◌+◌, ◌≤◌, ◌<◌, ◌^◌, String, Bool, true, false, Option, none, some, List, [], ◌∷◌, ◌≡◌, ◌≢◌, ◌⊎◌,
  length, All, string_eq,
}
use rock_paper_money.Prelude.Dict.{Dict, lookup, IsMap}
use rock_paper_money.Prelude.Int.{pos, pos_part, ◌≤ℤ◌}
use rock_paper_money.Game.{
  Move, Result, unset, draw, player_one_wins, player_two_wins, is_valid_move, determine_result,
}
use rock_paper_money.Room.{Room, PersistedPlayer}
use rock_paper_money.Room.Actions.{has_player}

-- A seat has a named player whose wins are no negative number.
abbrev pub IsSeat : PersistedPlayer → Type 0
IsSeat p = (p.id ≢ "") × (pos 0 ≤ℤ p.wins)

-- One or two seats, of different players.
abbrev pub AreSeats : List PersistedPlayer → Type 0
AreSeats (host ∷ []) = IsSeat host
AreSeats (host ∷ guest ∷ []) = IsSeat host × IsSeat guest × (host.id ≢ guest.id)
AreSeats _ = ⊥

-- A move of one of the players, with a rule for it.
abbrev pub IsMoveOf : List PersistedPlayer → String × Move → Type 0
IsMoveOf players (id, move) = (has_player id players ≡ true) × (is_valid_move move ≡ true)

abbrev pub IsRequestOf : List PersistedPlayer → String × Bool → Type 0
IsRequestOf players (id, _) = has_player id players ≡ true

-- The result that the moves call for: who has not moved loses to who has, and nobody wins if
-- nobody has.
abbrev pub result_of : Option Move → Option Move → Result
result_of none none = draw
result_of (some _) none = player_one_wins
result_of none (some _) = player_two_wins
result_of (some one) (some two) = (determine_result one two).0

abbrev pub IsPlayed : PersistedPlayer → PersistedPlayer → Dict String Move → Result → Type 0
IsPlayed host guest moves result = result ≡ result_of (lookup host.id moves) (lookup guest.id moves)

-- The player who forfeits loses, and at most one move was made.
abbrev pub IsForfeited :
    PersistedPlayer → PersistedPlayer → Dict String Move → Result → String → Type 0
IsForfeited host guest moves result loser =
    ((loser ≡ host.id) × (result ≡ player_two_wins)
      ⊎ (loser ≡ guest.id) × (result ≡ player_one_wins))
    × (length moves ≤ 1)

-- An open round has no result and no request for a next one; a resolved one has two players and
-- a result by the rules or by forfeit.
abbrev pub IsOutcome :
    Bool → List PersistedPlayer → Dict String Move → Dict String Bool → Result → String → Type 0
IsOutcome false players moves requests result loser =
    (result ≡ unset) × (loser ≡ "") × (requests ≡ [])
IsOutcome true (host ∷ guest ∷ []) moves requests result loser =
    (loser ≡ "") × IsPlayed host guest moves result
    ⊎ (loser ≢ "") × IsForfeited host guest moves result loser
IsOutcome true _ moves requests result loser = ⊥

pub record IsValid (r : Room) : Type 0 where
  pub code_set : r.code ≢ ""
  pub round_set : 0 < r.round
  pub seats : AreSeats r.players
  pub moves_map : IsMap r.moves
  pub moves_known : All (IsMoveOf r.players) r.moves
  pub requests_map : IsMap r.next_round_requests
  pub requests_known : All (IsRequestOf r.players) r.next_round_requests
  pub outcome :
      IsOutcome r.resolved r.players r.moves r.next_round_requests r.result r.forfeited_player_id

-- No counter is at the end of its machine range: the next round and the next win do not wrap.
pub record IsBounded (r : Room) : Type 0 where
  pub round_below : r.round + 1 < 2 ^ 64
  pub wins_below : All (λ (p : PersistedPlayer). pos_part p.wins < 9223372036854775807) r.players
