-- ===== src/Room/Keeps/Submit.antt =====
-- A submitted move, and the resolution of a round, keep a room valid.
use rock_paper_money.Prelude.{
  if◌then◌else◌, nat_beq_iff, Bool-cases, length, All, ◌==◌, nat_eq, string_eq, bool_eq, ℕ, ◌≤◌,
  ◌<◌, String, ◌≡◌, refl, ◌≢◌, ◌⊎◌, inl, inr, true, false, none, List, [], ◌∷◌, arith,
}
use rock_paper_money.Prelude.Dict.{lookup, insert, contains, insert-IsMap, All-insert}
use rock_paper_money.Prelude.Int.{ℤ, pos_part, ◌≤ℤ◌, inc_int, pos}
use rock_paper_money.Game.{Move, Result, move_eq, result_eq, is_valid_move, determine_result}
use rock_paper_money.Room.{PersistedPlayer, Room, move_of}
use rock_paper_money.Room.Actions.{
  has_player, win, award_result, resolve, submit_move, resolve_committed_moves,
}
use rock_paper_money.Room.Valid.{
  IsSeat, AreSeats, IsMoveOf, result_of, IsOutcome, IsValid, IsBounded,
}
use rock_paper_money.Room.Counting.{IsKeyOf, keys_of_moves, length_of_two, AreSeats-length}
use rock_paper_money.Room.Keeps.{
  IsPlayersIn, IsMoveOf-mono, IsRequestOf-mono, IsRefused, IsOutcome-open,
}

pub win-IsSeat :
    (p : PersistedPlayer) → IsSeat p → pos_part p.wins < 9223372036854775807 → IsSeat (win p)
unfolding inc_int
win-IsSeat p h b = (h.0, inc_nonneg p.wins h.1 b)
  where
    inc_nonneg : (w : ℤ) → pos 0 ≤ℤ w → pos_part w < 9223372036854775807 → pos 0 ≤ℤ inc_int w
    inc_nonneg w h b = ground arith

abbrev pub moved : String → Move → Room → Room
moved id move r = record r { moves = insert id move r.moves }

moved-IsValid :
    (id : String) (move : Move) (r : Room)
    → IsValid r
    → has_player id r.players ≡ true
    → is_valid_move move ≡ true
    → r.resolved ≡ false
    → IsValid (moved id move r)
moved-IsValid id move r v k m o = record {
  code_set = v.code_set;
  round_set = v.round_set;
  seats = v.seats;
  moves_map = insert-IsMap id move r.moves v.moves_map;
  moves_known = All-insert (IsMoveOf r.players) id move r.moves (k, m) v.moves_known;
  requests_map = v.requests_map;
  requests_known = v.requests_known;
  outcome =
      IsOutcome-open r.resolved r.players r.players r.moves _ r.next_round_requests r.result
        r.forfeited_player_id o v.outcome;
}

module _ (r : Room) (v : IsValid r) (b : IsBounded r) (host guest : PersistedPlayer)
    (two : r.players ≡ host ∷ guest ∷ []) (unresolved : r.resolved ≡ false)
    (full : length r.moves ≡ 2) where
  distinct : host.id ≢ guest.id
  distinct = ground (arith, v.seats)

  keys : All (IsKeyOf (host ∷ guest ∷ [])) r.moves
  keys = keys_of_moves (host ∷ guest ∷ []) r.moves (rw two at v.moves_known)

  -- Two moves are one of each player.
  both_moved : (contains host.id r.moves ≡ true) × (contains guest.id r.moves ≡ true)
  both_moved = ground (arith, length_of_two host guest r.moves distinct v.moves_map keys)

  resolved_result :
      (determine_result (move_of host.id r.moves) (move_of guest.id r.moves)).0
      ≡ result_of (lookup host.id r.moves) (lookup guest.id r.moves)
  resolved_result = ground (arith, both_moved)

  won : Result
  won = (determine_result (move_of host.id r.moves) (move_of guest.id r.moves)).0

  abbrev resolved_room : Result → Room
  resolved_room result = record r {
    result = result;
    resolved = true;
    players = award_result result host guest [];
  }

  resolve_lem : resolve r ≡ resolved_room won
  unfolding resolve won
  resolve_lem = ground arith

  AreSeats-award : (result : Result) → AreSeats (award_result result host guest [])
  AreSeats-award result =
      ground (arith, distinct, v.seats, b.wins_below, win-IsSeat host, win-IsSeat guest)

  award_players :
      (result : Result) → IsPlayersIn (host ∷ guest ∷ []) (award_result result host guest [])
  unfolding has_player
  award_players result id h = ground arith

  award-IsOutcome :
      (result : Result)
      → result ≡ won
      → r.forfeited_player_id ≡ ""
      → IsOutcome true
          (award_result result host guest [])
          r.moves
          r.next_round_requests
          result
          r.forfeited_player_id
  unfolding won
  award-IsOutcome result e f = ground (arith, resolved_result)

  resolved_room-IsValid : IsValid (resolved_room won)
  resolved_room-IsValid = record {
    code_set = v.code_set;
    round_set = v.round_set;
    seats = AreSeats-award won;
    moves_map = v.moves_map;
    moves_known =
        IsMoveOf-mono (host ∷ guest ∷ []) _ r.moves (award_players won) (rw two at v.moves_known);
    requests_map = v.requests_map;
    requests_known =
        IsRequestOf-mono (host ∷ guest ∷ []) _ r.next_round_requests (award_players won)
          (rw two at v.requests_known);
    outcome = award-IsOutcome won refl (ground arith);
  }

  pub resolve_seated-IsValid : IsValid (resolve r)
  resolve_seated-IsValid = rw resolve_lem resolved_room-IsValid

-- The resolution of a round whose two moves are in keeps the room valid.
pub resolve-IsValid :
    (r : Room)
    → IsValid r
    → IsBounded r
    → length r.players ≡ 2
    → r.resolved ≡ false
    → length r.moves ≡ 2
    → IsValid (resolve r)
resolve-IsValid r v b = by_seats r.players refl
  where
    by_seats :
        (ps : List PersistedPlayer)
        → r.players ≡ ps
        → length r.players ≡ 2
        → r.resolved ≡ false
        → length r.moves ≡ 2
        → IsValid (resolve r)
    by_seats (host ∷ guest ∷ []) e l o f = resolve_seated-IsValid r v b host guest e o f
    by_seats [] e l o f = absurd (ground arith)
    by_seats (p ∷ []) e l o f = absurd (ground arith)
    by_seats (p ∷ q ∷ x ∷ ps) e l o f = absurd (ground arith)

-- What a submission does: it is refused, or the move is noted, and the second one resolves.
pub submit_move-cases :
    (id : String) (move : Move) (r : Room)
    → IsRefused r (submit_move id move r)
      ⊎ (r.closed ≡ false)
        × (has_player id r.players ≡ true)
        × (2 ≤ length r.players)
        × (r.resolved ≡ false)
        × (is_valid_move move ≡ true)
        × (contains id r.moves ≡ false)
        × (submit_move id move r ≡ (
          if length (insert id move r.moves) == 2
              then resolve (moved id move r)
              else moved id move r,
          none,
        ))
unfolding submit_move
submit_move-cases id move r = ground arith

-- A submission, accepted or refused, keeps a room valid whose counters are below the ends of
-- their ranges.
pub submit_move-IsValid :
    (id : String) (move : Move) (r : Room)
    → IsValid r
    → IsBounded r
    → IsValid (submit_move id move r).0
submit_move-IsValid id move r v b = elim (submit_move-cases id move r) [
  | inl e ↦ rw e.0 v
  | inr (_, k, l, o, m, _, e) ↦
      let w : IsValid (moved id move r) = moved-IsValid id move r v k m o in
      elim (Bool-cases (length (insert id move r.moves) == 2)) [
        | inl full ↦
            rw (e, full)
              (resolve-IsValid (moved id move r) w
                (record { round_below = b.round_below; wins_below = b.wins_below })
                (ground (arith, AreSeats-length r.players v.seats)) o ((nat_beq_iff _ _).0 full))
        | inr open_round ↦ rw (e, open_round) w
      ]
]

-- The reconciler's resolution keeps a valid room valid.
pub resolve_committed_moves-IsValid :
    (round : ℕ) (r : Room) → IsValid r → IsBounded r → IsValid (resolve_committed_moves round r).0
unfolding resolve_committed_moves
resolve_committed_moves-IsValid round r v b = ground (arith, resolve-IsValid r v b)
