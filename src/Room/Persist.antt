-- ===== src/Room/Persist.antt =====
-- `Restore` accepts the valid states alone, and every one of them unchanged.
use rock_paper_money.Prelude.{
  length, All, nat_eq, string_eq, bool_eq, ◌≤◌, ◌<◌, String, ◌≡◌, refl, ◌≢◌, ◌↔◌, inl, inr, Bool,
  true, ◌||◌, List, [], ◌∷◌, arith,
}
use rock_paper_money.Prelude.Dict.{Dict, lookup, insert, lookup-insert, IsMap, clone_lem}
use rock_paper_money.Failure.{Fallible-cases, ok}
use rock_paper_money.Game.{Move, move_eq, result_eq}
use rock_paper_money.Room.{
  PersistedPlayer, PersistenceState, Room, is_seen, check_players, check_moves, check_requests,
  check_outcome, restore, persistence_state,
}
use rock_paper_money.Room.Actions.{has_player}
use rock_paper_money.Room.Outcome.{check_two_iff, check_one_iff}
use rock_paper_money.Room.Counting.{AreSeats-length}
use rock_paper_money.Room.Valid.{AreSeats, IsMoveOf, IsRequestOf, IsOutcome, IsValid}

-- What `seen` holds after the loop over the players.
abbrev seen_of : List PersistedPlayer → Dict String Bool → Dict String Bool
seen_of [] seen = seen
seen_of (p ∷ ps) seen = seen_of ps (insert p.id true seen)

is_seen-seen_of :
    (id : String) (ps : List PersistedPlayer) (seen : Dict String Bool)
    → is_seen id (seen_of ps seen) ≡ (has_player id ps || is_seen id seen)
unfolding has_player
is_seen-seen_of id [] seen = refl
is_seen-seen_of id (p ∷ ps) seen =
    ground (arith, is_seen-seen_of id ps (insert p.id true seen), lookup-insert p.id id true seen)

seen_known :
    (id : String) (ps : List PersistedPlayer) → is_seen id (seen_of ps []) ≡ has_player id ps
unfolding lookup
seen_known id ps = ground (arith, is_seen-seen_of id ps [])

check_players-AreSeats :
    (ps : List PersistedPlayer) → AreSeats ps → check_players ps [] ≡ ok (seen_of ps [])
unfolding check_players lookup insert
check_players-AreSeats (p ∷ []) h = ground (arith, string_eq.beq_iff p.id "")
check_players-AreSeats (p ∷ q ∷ []) h =
    ground
      (arith, string_eq.beq_iff p.id "", string_eq.beq_iff q.id "", string_eq.beq_iff p.id q.id)
check_players-AreSeats [] h = absurd h
check_players-AreSeats (p ∷ q ∷ x ∷ ps) h = absurd h

AreSeats-check_players :
    (ps : List PersistedPlayer) (seen : Dict String Bool)
    → 0 < length ps
    → length ps ≤ 2
    → check_players ps [] ≡ ok seen
    → AreSeats ps × (seen ≡ seen_of ps [])
unfolding check_players lookup insert
AreSeats-check_players [] seen a b h = absurd (omega arith)
AreSeats-check_players (p ∷ []) seen a b h = ground (arith, string_eq.beq_iff p.id "")
AreSeats-check_players (p ∷ q ∷ []) seen a b h =
    ground
      (arith, string_eq.beq_iff p.id "", string_eq.beq_iff q.id "", string_eq.beq_iff p.id q.id)
AreSeats-check_players (p ∷ q ∷ x ∷ ps) seen a b h = absurd (omega arith)

module _ (ps : List PersistedPlayer) where
  check_moves-IsMoveOf :
      (moves : Dict String Move)
      → All (IsMoveOf ps) moves
      → check_moves (seen_of ps []) moves ≡ ok tt
  unfolding check_moves
  check_moves-IsMoveOf [] h = refl
  check_moves-IsMoveOf ((id, move) ∷ moves) h =
      ground (arith, seen_known id ps, check_moves-IsMoveOf moves h.1)

  IsMoveOf-check_moves :
      (moves : Dict String Move)
      → check_moves (seen_of ps []) moves ≡ ok tt
      → All (IsMoveOf ps) moves
  unfolding check_moves
  IsMoveOf-check_moves [] h = tt
  IsMoveOf-check_moves ((id, move) ∷ moves) h =
      ground (arith, seen_known id ps, IsMoveOf-check_moves moves)

  check_requests-IsRequestOf :
      (requests : Dict String Bool)
      → All (IsRequestOf ps) requests
      → check_requests (seen_of ps []) requests ≡ ok tt
  unfolding check_requests
  check_requests-IsRequestOf [] h = refl
  check_requests-IsRequestOf ((id, b) ∷ requests) h =
      ground (arith, seen_known id ps, check_requests-IsRequestOf requests h.1)

  IsRequestOf-check_requests :
      (requests : Dict String Bool)
      → check_requests (seen_of ps []) requests ≡ ok tt
      → All (IsRequestOf ps) requests
  unfolding check_requests
  IsRequestOf-check_requests [] h = tt
  IsRequestOf-check_requests ((id, b) ∷ requests) h =
      ground (arith, seen_known id ps, IsRequestOf-check_requests requests)

-- The tests on the outcome, for one player or two.
check_outcome_iff :
    (ps : List PersistedPlayer) (s : PersistenceState)
    → s.players ≡ ps
    → AreSeats ps
    → IsMap s.moves
    → All (IsMoveOf ps) s.moves
    → (check_outcome (seen_of ps []) s ≡ ok tt)
      ↔ IsOutcome s.resolved ps s.moves s.next_round_requests s.result s.forfeited_player_id
check_outcome_iff [] s e h i k = absurd h
check_outcome_iff (p ∷ []) s e h i k = check_one_iff p s _ e
check_outcome_iff (p ∷ q ∷ []) s e h i k =
    check_two_iff p q h.2 s _ e h.0.0 h.1.0 i k (seen_known s.forfeited_player_id (p ∷ q ∷ []))
check_outcome_iff (p ∷ q ∷ x ∷ ps) s e h i k = absurd h

-- The room that a persisted state describes.
abbrev pub room_of : PersistenceState → Room
room_of s = record {
  code = s.code;
  players = s.players;
  moves = s.moves;
  resolved = s.resolved;
  result = s.result;
  forfeited_player_id = s.forfeited_player_id;
  round = s.round;
  next_round_requests = s.next_round_requests;
  closed = s.closed;
}

module _ (s : PersistenceState) (moves_map : IsMap s.moves)
    (requests_map : IsMap s.next_round_requests) where
  restore_of_IsValid : IsValid (room_of s) → restore s ≡ ok (room_of s)
  unfolding restore
  restore_of_IsValid v = ground (
    arith,
    string_eq.beq_iff s.code "",
    AreSeats-length s.players v.seats,
    check_players-AreSeats s.players v.seats,
    check_moves-IsMoveOf s.players s.moves v.moves_known,
    check_requests-IsRequestOf s.players s.next_round_requests v.requests_known,
    check_outcome_iff s.players s refl v.seats moves_map v.moves_known,
    clone_lem s.moves moves_map,
    clone_lem s.next_round_requests requests_map,
  )

  fields_of_restore :
      (r : Room)
      → restore s ≡ ok r
      → (r ≡ room_of s)
        × (s.code ≢ "")
        × (0 < s.round)
        × (0 < length s.players)
        × (length s.players ≤ 2)
        × ((seen : Dict String Bool) × (check_players s.players [] ≡ ok seen)
            × (check_moves seen s.moves ≡ ok tt)
            × (check_requests seen s.next_round_requests ≡ ok tt)
            × (check_outcome seen s ≡ ok tt))
  unfolding restore
  fields_of_restore r h = elim (Fallible-cases (check_players s.players [])) [
    | inl (seen, e) ↦ (
      ground (arith, clone_lem s.moves moves_map, clone_lem s.next_round_requests requests_map),
      ground (arith, string_eq.beq_iff s.code ""),
      ground arith,
      ground arith,
      ground arith,
      (seen, e, ground arith, ground arith, ground arith),
    )
    | inr (x, e) ↦ absurd (ground arith)
  ]

  -- What `Restore` accepts is valid, and is the room that the state describes.
  restored_IsValid : (r : Room) → restore s ≡ ok r → IsValid (room_of s)
  restored_IsValid r h =
      let (_, code, round, low, high, (seen, p, m, q, o)) = fields_of_restore r h in
      let (seats, e) = AreSeats-check_players s.players seen low high p in
      let known = IsMoveOf-check_moves s.players s.moves (rw (← e) m) in
      record {
        code_set = code;
        round_set = round;
        seats = seats;
        moves_map = moves_map;
        moves_known = known;
        requests_map = requests_map;
        requests_known = IsRequestOf-check_requests s.players s.next_round_requests (rw (← e) q);
        outcome = (check_outcome_iff s.players s refl seats moves_map known).0 (rw (← e) o);
      }

-- A room in a valid state is restored as it is from what it persists.
pub restore-persistence_state : (r : Room) → IsValid r → restore (persistence_state r) ≡ ok r
unfolding persistence_state
restore-persistence_state r v =
    rw (clone_lem r.moves v.moves_map, clone_lem r.next_round_requests v.requests_map)
      (restore_of_IsValid _ v.moves_map v.requests_map v)

-- `Restore` of a state whose maps hold no key twice accepts it only if the room that it returns is
-- valid, and that room persists as the same state.
pub restore-IsValid :
    (s : PersistenceState) (r : Room)
    → IsMap s.moves
    → IsMap s.next_round_requests
    → restore s ≡ ok r
    → IsValid r × (persistence_state r ≡ s)
unfolding persistence_state
restore-IsValid s r i j h =
    let e = (fields_of_restore s i j r h).0 in
    rw e (restored_IsValid s i j r h, rw (clone_lem s.moves i, clone_lem s.next_round_requests j))

-- A room that `Restore` takes back from what it persists is valid.
pub restored_of_persisted :
    (r x : Room)
    → IsMap r.moves
    → IsMap r.next_round_requests
    → restore (persistence_state r) ≡ ok x
    → IsValid r
unfolding persistence_state
restored_of_persisted r x i j h =
    restored_IsValid
      (record {
        code = r.code;
        players = r.players;
        round = r.round;
        closed = r.closed;
        resolved = r.resolved;
        result = r.result;
        forfeited_player_id = r.forfeited_player_id;
        moves = r.moves;
        next_round_requests = r.next_round_requests;
      })
      i j x (rw (clone_lem r.moves i, clone_lem r.next_round_requests j) at h)
