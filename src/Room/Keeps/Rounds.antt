-- ===== src/Room/Keeps/Rounds.antt =====
-- The step to the next round keeps a room valid.
use rock_paper_money.Prelude.{
  if◌then◌else◌, Bool-cases, length, ◌==◌, nat_eq, string_eq, bool_eq, ℕ, String, ◌≡◌, refl, ◌⊎◌,
  inl, inr, Bool, true, false, none, List, [], ◌∷◌, arith,
}
use rock_paper_money.Prelude.Dict.{Dict, get_or, lookup, insert, insert-IsMap, All-insert}
use rock_paper_money.Game.{Move, Result, move_eq, result_eq}
use rock_paper_money.Room.{PersistedPlayer, Room}
use rock_paper_money.Room.Actions.{
  has_player, advance, request_next_round, advance_committed_next_round,
}
use rock_paper_money.Room.Valid.{IsRequestOf, IsOutcome, IsValid, IsBounded}
use rock_paper_money.Room.Keeps.{IsRefused}

-- A new round is open, with no move and no request.
pub advance-IsValid : (r : Room) → IsValid r → IsBounded r → IsValid (advance r)
advance-IsValid r v b = record {
  code_set = v.code_set;
  round_set = ground arith;
  seats = v.seats;
  moves_map = tt;
  moves_known = tt;
  requests_map = tt;
  requests_known = tt;
  outcome = (refl, refl, refl);
}

abbrev pub asked : String → Room → Room
asked id r = record r { next_round_requests = insert id true r.next_round_requests }

-- A resolved outcome does not depend on the requests.
IsOutcome-resolved :
    (b : Bool) (ps : List PersistedPlayer) (moves : Dict String Move)
    (requests requests' : Dict String Bool) (result : Result) (loser : String)
    → b ≡ true
    → IsOutcome b ps moves requests result loser
    → IsOutcome b ps moves requests' result loser
IsOutcome-resolved false ps moves requests requests' result loser e h = cc
IsOutcome-resolved true (p ∷ q ∷ []) moves requests requests' result loser e h = h
IsOutcome-resolved true [] moves requests requests' result loser e h = h
IsOutcome-resolved true (p ∷ []) moves requests requests' result loser e h = h
IsOutcome-resolved true (p ∷ q ∷ x ∷ ps) moves requests requests' result loser e h = h

asked-IsValid :
    (id : String) (r : Room)
    → IsValid r
    → has_player id r.players ≡ true
    → r.resolved ≡ true
    → IsValid (asked id r)
asked-IsValid id r v k o = record {
  code_set = v.code_set;
  round_set = v.round_set;
  seats = v.seats;
  moves_map = v.moves_map;
  moves_known = v.moves_known;
  requests_map = insert-IsMap id true r.next_round_requests v.requests_map;
  requests_known =
      All-insert (IsRequestOf r.players) id true r.next_round_requests k v.requests_known;
  outcome =
      IsOutcome-resolved r.resolved r.players r.moves r.next_round_requests _ r.result
        r.forfeited_player_id o v.outcome;
}

-- What a request does: it is refused, or it is noted, and the last one opens the next round.
pub request_next_round-cases :
    (id : String) (round : ℕ) (r : Room)
    → IsRefused r (request_next_round id round r)
      ⊎ (r.closed ≡ false)
        × (has_player id r.players ≡ true)
        × (r.resolved ≡ true)
        × (round ≡ r.round)
        × (get_or (lookup id r.next_round_requests) false ≡ false)
        × (request_next_round id round r ≡ (
          if length (insert id true r.next_round_requests) == length r.players
              then advance (asked id r)
              else asked id r,
          none,
        ))
unfolding request_next_round
request_next_round-cases id round r = ground arith

-- A request for the next round, accepted or refused, keeps a room valid whose counters are below
-- the ends of their ranges.
pub request_next_round-IsValid :
    (id : String) (round : ℕ) (r : Room)
    → IsValid r
    → IsBounded r
    → IsValid (request_next_round id round r).0
request_next_round-IsValid id round r v b = elim (request_next_round-cases id round r) [
  | inl e ↦ rw e.0 v
  | inr (_, k, o, _, _, e) ↦
      let w : IsValid (asked id r) = asked-IsValid id r v k o in
      elim (Bool-cases (length (insert id true r.next_round_requests) == length r.players)) [
        | inl all_asked ↦
            rw (e, all_asked)
              (advance-IsValid (asked id r) w
                (record { round_below = b.round_below; wins_below = b.wins_below }))
        | inr waiting ↦ rw (e, waiting) w
      ]
]

-- The reconciler's step to the next round keeps a valid room valid.
pub advance_committed_next_round-IsValid :
    (round : ℕ) (r : Room)
    → IsValid r
    → IsBounded r
    → IsValid (advance_committed_next_round round r).0
unfolding advance_committed_next_round
advance_committed_next_round-IsValid round r v b = ground (arith, advance-IsValid r v b)
