-- ===== src/Room/Outcome.antt =====
-- The tests of `Restore` on the outcome of a round decide that it is the outcome of its moves.
use rock_paper_money.Prelude.{
  Bool-cases, Option-cases, All, nat_eq, string_eq, bool_eq, String, ◌≡◌, refl, ◌≢◌, ◌↔◌, ◌⊎◌, inl,
  inr, Bool, true, false, some, List, [], ◌∷◌, arith,
}
use rock_paper_money.Prelude.Dict.{Dict, lookup, IsMap}
use rock_paper_money.Failure.{ok}
use rock_paper_money.Game.{
  Move, Result, unset, draw, player_one_wins, player_two_wins, determine_result, is_valid_move,
  result_beq_iff,
}
use rock_paper_money.Room.{
  PersistedPlayer, PersistenceState, is_seen, check_outcome, check_resolved, valid_resolved_moves,
  valid_moves_of, move_of,
}
use rock_paper_money.Room.Actions.{has_player}
use rock_paper_money.Room.Valid.{IsMoveOf, IsOutcome, IsPlayed, result_of}
use rock_paper_money.Room.Counting.{keys_of_moves, length_of_two}

abbrev pub IsDecided : Result → Type 0
IsDecided result = (result ≡ draw) ⊎ ((result ≡ player_one_wins) ⊎ (result ≡ player_two_wins))

-- Valid moves decide the round.
pub determine_result-IsDecided :
    (one two : Move)
    → is_valid_move one ≡ true
    → is_valid_move two ≡ true
    → IsDecided (determine_result one two).0
unfolding determine_result is_valid_move
determine_result-IsDecided one two h k = ground arith

pub known_valid :
    (players : List PersistedPlayer) (id : String) (move : Move) (moves : Dict String Move)
    → All (IsMoveOf players) moves
    → lookup id moves ≡ some move
    → is_valid_move move ≡ true
unfolding lookup
known_valid players id move [] h e = cc
known_valid players id move ((k, m) ∷ moves) h e =
    ground (arith, known_valid players id move moves h.1)

pub result_of-IsDecided :
    (players : List PersistedPlayer) (host guest : String) (moves : Dict String Move)
    → All (IsMoveOf players) moves
    → IsDecided (result_of (lookup host moves) (lookup guest moves))
result_of-IsDecided players host guest moves h = elim (Option-cases (lookup host moves)) [
  | inl e ↦ elim (Option-cases (lookup guest moves)) [
    | inl f ↦ rw (e, f) (inl refl)
    | inr (n, f) ↦ rw (e, f) (inr (inr refl))
  ]
  | inr (m, e) ↦ elim (Option-cases (lookup guest moves)) [
    | inl f ↦ rw (e, f) (inr (inl refl))
    | inr (n, f) ↦
        rw (e, f)
          (determine_result-IsDecided m n (known_valid players host m moves h e)
            (known_valid players guest n moves h f))
  ]
]

module _ (host guest : PersistedPlayer) (distinct : host.id ≢ guest.id) where
  module _ (moves : Dict String Move) (is_map : IsMap moves)
      (known : All (IsMoveOf (host ∷ guest ∷ [])) moves) (result : Result) where
    valid_moves_of_iff :
        (valid_moves_of host guest moves result ≡ true) ↔ IsPlayed host guest moves result
    unfolding valid_moves_of
    valid_moves_of_iff = ground (
      arith,
      length_of_two host guest moves distinct is_map (keys_of_moves _ moves known),
      result_beq_iff result draw,
      result_beq_iff result player_one_wins,
      result_beq_iff result player_two_wins,
      result_beq_iff (determine_result (move_of host.id moves) (move_of guest.id moves)).0 result,
    )

  module _ (s : PersistenceState) (seen : Dict String Bool) (two : s.players ≡ host ∷ guest ∷ [])
      (named : host.id ≢ "") (guest_named : guest.id ≢ "") (is_map : IsMap s.moves)
      (known : All (IsMoveOf (host ∷ guest ∷ [])) s.moves)
      (seen_players : is_seen s.forfeited_player_id seen
        ≡ has_player s.forfeited_player_id (host ∷ guest ∷ [])) where
    valid_two : valid_resolved_moves s ≡ valid_moves_of host guest s.moves s.result
    unfolding valid_resolved_moves
    valid_two = rw (two, valid_resolved_moves)

    open_check :
        s.resolved ≡ false
        → (check_outcome seen s ≡ ok tt)
          ↔ IsOutcome false
              (host ∷ guest ∷ [])
              s.moves
              s.next_round_requests
              s.result
              s.forfeited_player_id
    unfolding check_outcome
    open_check e =
        ground (arith, result_beq_iff s.result unset, string_eq.beq_iff s.forfeited_player_id "")

    resolved_check :
        s.resolved ≡ true
        → (check_outcome seen s ≡ ok tt)
          ↔ IsOutcome true
              (host ∷ guest ∷ [])
              s.moves
              s.next_round_requests
              s.result
              s.forfeited_player_id
    unfolding check_outcome check_resolved has_player
    resolved_check e = ground (
      arith,
      result_of-IsDecided (host ∷ guest ∷ []) host.id guest.id s.moves known,
      valid_two,
      valid_moves_of_iff s.moves is_map known s.result,
      result_beq_iff s.result draw,
      result_beq_iff s.result player_one_wins,
      result_beq_iff s.result player_two_wins,
      string_eq.beq_iff s.forfeited_player_id "",
      string_eq.beq_iff s.forfeited_player_id host.id,
      string_eq.beq_iff s.forfeited_player_id guest.id,
      string_eq.beq_iff host.id s.forfeited_player_id,
      string_eq.beq_iff guest.id s.forfeited_player_id,
    )

    -- The tests on the outcome pass exactly on the outcomes of two players.
    pub check_two_iff :
        (check_outcome seen s ≡ ok tt)
        ↔ IsOutcome s.resolved
            (host ∷ guest ∷ [])
            s.moves
            s.next_round_requests
            s.result
            s.forfeited_player_id
    check_two_iff = elim (Bool-cases s.resolved) [
      | inl e ↦ simp e (resolved_check e)
      | inr e ↦ simp e (open_check e)
    ]

-- With one player the round is open.
pub check_one_iff :
    (host : PersistedPlayer) (s : PersistenceState) (seen : Dict String Bool)
    → s.players ≡ host ∷ []
    → (check_outcome seen s ≡ ok tt)
      ↔ IsOutcome s.resolved
          (host ∷ [])
          s.moves
          s.next_round_requests
          s.result
          s.forfeited_player_id
unfolding check_outcome
check_one_iff host s seen one = elim (Bool-cases s.resolved) [
  | inl e ↦ simp e (ground arith)
  | inr e ↦
      simp e
        (ground (arith, result_beq_iff s.result unset, string_eq.beq_iff s.forfeited_player_id ""))
]
