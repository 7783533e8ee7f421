-- ===== src/Room/Keeps/Deadline.antt =====
-- The resolutions by a deadline: which of them keep a room valid, and where one does not.
use rock_paper_money.Prelude.{
  Option-cases, length, All, nat_eq, string_eq, bool_eq, Eq-cases, ℕ, ◌+◌, ◌≤◌, String, ◌≡◌, refl,
  sym, subst, ◌≢◌, ◌↔◌, ◌⊎◌, inl, inr, Bool, true, false, none, List, [], ◌∷◌, arith,
}
use rock_paper_money.Prelude.Dict.{Dict, lookup, contains}
use rock_paper_money.Game.{Move, Result, move_eq, result_eq, draw, player_one_wins, player_two_wins}
use rock_paper_money.Room.{PersistedPlayer, Room}
use rock_paper_money.Room.Actions.{has_player, win}
use rock_paper_money.Room.Valid.{
  AreSeats, IsMoveOf, result_of, IsPlayed, IsOutcome, IsValid, IsBounded,
}
use rock_paper_money.Room.Counting.{bit, keys_of_moves, length_of_two}
use rock_paper_money.Room.Keeps.{
  IsPlayersIn, IsMoveOf-mono, IsRequestOf-mono, IsPlayersIn-same, IsRefused,
}
use rock_paper_money.Room.Deadlines.{
  forfeit_seats, forfeit, validate_deadline_resolution, award_movers, resolve_inactivity,
  resolve_deadline_draw,
}
use rock_paper_money.Room.Keeps.Submit.{win-IsSeat}

abbrev pub is_two : List PersistedPlayer → Bool
is_two (p ∷ q ∷ []) = true
is_two _ = false

-- A deadline is refused, or the room is open, in the round that is meant, unresolved and full.
pub validate-cases :
    (round : ℕ) (r : Room)
    → (validate_deadline_resolution round r ≢ none)
      ⊎ (validate_deadline_resolution round r ≡ none)
        × (r.closed ≡ false)
        × (round ≡ r.round)
        × (r.resolved ≡ false)
        × (length r.players ≡ 2)
unfolding validate_deadline_resolution
validate-cases round r = ground arith

abbrev pub drawn : Room → Room
drawn r = record r { resolved = true; result = draw }

-- A draw by the deadline is refused or resolves the round as a draw, whatever the moves are.
pub resolve_deadline_draw-cases :
    (round : ℕ) (r : Room)
    → IsRefused r (resolve_deadline_draw round r)
      ⊎ (r.closed ≡ false)
        × (round ≡ r.round)
        × (r.resolved ≡ false)
        × (length r.players ≡ 2)
        × (resolve_deadline_draw round r ≡ (drawn r, none))
unfolding resolve_deadline_draw validate_deadline_resolution
resolve_deadline_draw-cases round r = ground arith

-- A room with two seats, a full and unresolved round.
module _ (r : Room) (v : IsValid r) (host guest : PersistedPlayer)
    (two : r.players ≡ host ∷ guest ∷ []) (unresolved : r.resolved ≡ false) where
  distinct : host.id ≢ guest.id
  distinct = ground (arith, v.seats)

  moves_known : All (IsMoveOf (host ∷ guest ∷ [])) r.moves
  moves_known = rw two at v.moves_known

  count : length r.moves ≡ bit (contains host.id r.moves) + bit (contains guest.id r.moves)
  count =
      length_of_two host guest r.moves distinct v.moves_map
        (keys_of_moves (host ∷ guest ∷ []) r.moves moves_known)

  -- The room after an outcome that is written by a deadline.
  abbrev ended : List PersistedPlayer → Result → String → Room
  ended ps result loser = record r {
    resolved = true;
    result = result;
    players = ps;
    forfeited_player_id = loser;
  }

  ended-IsValid :
      (host' guest' : PersistedPlayer) (result : Result) (loser : String)
      → host'.id ≡ host.id
      → guest'.id ≡ guest.id
      → AreSeats (host' ∷ guest' ∷ [])
      → IsOutcome true (host' ∷ guest' ∷ []) r.moves r.next_round_requests result loser
      → IsValid (ended (host' ∷ guest' ∷ []) result loser)
  ended-IsValid host' guest' result loser e f seats outcome = record {
    code_set = v.code_set;
    round_set = v.round_set;
    seats = seats;
    moves_map = v.moves_map;
    moves_known = IsMoveOf-mono (host ∷ guest ∷ []) _ r.moves same moves_known;
    requests_map = v.requests_map;
    requests_known =
        IsRequestOf-mono (host ∷ guest ∷ []) _ r.next_round_requests same
          (rw two at v.requests_known);
    outcome = outcome;
  }
    where
      same : IsPlayersIn (host ∷ guest ∷ []) (host' ∷ guest' ∷ [])
      same = IsPlayersIn-same host guest host' guest' e f

  module _ (b : IsBounded r) where
    host_wins : AreSeats (win host ∷ guest ∷ [])
    host_wins = ground (arith, v.seats, b.wins_below, distinct, win-IsSeat host)

    guest_wins : AreSeats (host ∷ win guest ∷ [])
    guest_wins = ground (arith, v.seats, b.wins_below, distinct, win-IsSeat guest)

    nobody_wins : AreSeats (host ∷ guest ∷ [])
    nobody_wins = ground (arith, v.seats)

    -- A forfeit with at most one move in.
    forfeited-IsValid :
        (id : String)
        → has_player id (host ∷ guest ∷ []) ≡ true
        → length r.moves ≤ 1
        → IsValid (forfeit_seats id (host ∷ guest ∷ []) r)
    unfolding forfeit_seats has_player
    forfeited-IsValid id k l = elim (Eq-cases host.id id) [
      | inl (e, p) ↦ simp e (
          ended-IsValid host (win guest) player_two_wins id refl refl guest_wins
            (ground (arith, v.seats)))
      | inr (e, p) ↦ simp e (
          ended-IsValid (win host) guest player_one_wins id refl refl host_wins
            (ground (arith, v.seats, string_eq.beq_iff guest.id id)))
    ]

    -- The rooms that `ResolveInactivity` leaves behind, by who has moved.
    inactive-IsValid :
        length r.moves ≡ 1
        → r.forfeited_player_id ≡ ""
        → let (result, players) = award_movers r.moves 0 r.result (host ∷ guest ∷ []) in
          IsValid (ended players result r.forfeited_player_id)
    unfolding award_movers
    inactive-IsValid l f = elim (Option-cases (lookup host.id r.moves)) [
      | inl e ↦ elim (Option-cases (lookup guest.id r.moves)) [
        | inl g ↦ absurd (ground (arith, count))
        | inr (m, g) ↦
            simp (e, g)
              (ended-IsValid host (win guest) player_two_wins _ refl refl guest_wins
                (inl (f, simp (e, g))))
      ]
      | inr (m, e) ↦ elim (Option-cases (lookup guest.id r.moves)) [
        | inl g ↦
            simp (e, g)
              (ended-IsValid (win host) guest player_one_wins _ refl refl host_wins
                (inl (f, simp (e, g))))
        | inr (n, g) ↦ absurd (ground (arith, count))
      ]
    ]

  -- A draw is the outcome of a round just when its moves call for one.
  drawn_iff :
      (forfeited_nobody : r.forfeited_player_id ≡ "")
      → IsValid (ended (host ∷ guest ∷ []) draw r.forfeited_player_id)
        ↔ IsPlayed host guest r.moves draw
  drawn_iff f = (
    λ w. ground (arith, w.outcome, v.seats),
    λ p. ended-IsValid host guest draw _ refl refl (ground (arith, v.seats)) (inl (f, p)),
  )

-- Two seats, from the length of the list.
pub two_seats :
    (ps : List PersistedPlayer)
    → length ps ≡ 2
    → (host : PersistedPlayer) × ((guest : PersistedPlayer) × (ps ≡ host ∷ guest ∷ []))
two_seats (p ∷ q ∷ []) h = (p, (q, refl))
two_seats [] h = absurd (omega arith)
two_seats (p ∷ []) h = absurd (omega arith)
two_seats (p ∷ q ∷ x ∷ ps) h = absurd (omega arith)

pub forfeit-cases :
    (id : String) (round : ℕ) (r : Room)
    → IsRefused r (forfeit id round r)
      ⊎ (r.closed ≡ false)
        × (has_player id r.players ≡ true)
        × (round ≡ r.round)
        × (r.resolved ≡ false)
        × (length r.players ≡ 2)
        × (forfeit id round r ≡ (forfeit_seats id r.players r, none))
unfolding forfeit
forfeit-cases id round r = ground arith

-- A forfeit, accepted or refused, keeps a valid room valid if at most one move is in and the
-- counters are below the ends of their ranges.
pub forfeit-IsValid :
    (id : String) (round : ℕ) (r : Room)
    → IsValid r
    → IsBounded r
    → length r.moves ≤ 1
    → IsValid (forfeit id round r).0
forfeit-IsValid id round r v b l = elim (forfeit-cases id round r) [
  | inl e ↦ rw e.0 v
  | inr (_, k, _, o, two, e) ↦
      let (host, (guest, s)) = two_seats r.players two in
      rw e (
        subst (λ ps. IsValid (forfeit_seats id ps r)) (sym s)
          (forfeited-IsValid r v host guest s o b id (rw s at k) l))
]

-- What the clock's resolution of an inactive round does.
pub resolve_inactivity-cases :
    (round : ℕ) (r : Room)
    → IsRefused r (resolve_inactivity round r)
      ⊎ (r.closed ≡ false)
        × (round ≡ r.round)
        × (r.resolved ≡ false)
        × (length r.players ≡ 2)
        × (length r.moves ≡ 0)
        × (resolve_inactivity round r ≡ (drawn r, none))
      ⊎ (r.closed ≡ false)
        × (round ≡ r.round)
        × (r.resolved ≡ false)
        × (length r.players ≡ 2)
        × (length r.moves ≡ 1)
        × (let (result, players) = award_movers r.moves 0 r.result r.players in
            resolve_inactivity round r
            ≡ (record r { result = result; players = players; resolved = true }, none))
unfolding resolve_inactivity validate_deadline_resolution
resolve_inactivity-cases round r = ground (arith, validate-cases round r)

pub nothing_forfeited : (r : Room) → IsValid r → r.resolved ≡ false → r.forfeited_player_id ≡ ""
nothing_forfeited r v o = ground arith

no_moves :
    (host guest : String) (moves : Dict String Move)
    → length moves ≡ 0
    → draw ≡ result_of (lookup host moves) (lookup guest moves)
unfolding lookup
no_moves host guest [] l = refl
no_moves host guest (x ∷ m) l = absurd (omega arith)

drawn_seats :
    (r : Room) (ps : List PersistedPlayer)
    → r.players ≡ ps
    → IsValid (record r {
      resolved = true;
      result = draw;
      players = ps;
      forfeited_player_id = r.forfeited_player_id;
    })
    → IsValid (drawn r)
drawn_seats r ps e w =
    subst (λ qs. IsValid (record r { resolved = true; result = draw; players = qs })) (sym e) w

-- A round without a move that ends as a draw.
drawn-IsValid :
    (r : Room)
    → IsValid r
    → r.resolved ≡ false
    → length r.players ≡ 2
    → length r.moves ≡ 0
    → IsValid (drawn r)
drawn-IsValid r v o two l =
    let (host, (guest, s)) = two_seats r.players two in
    drawn_seats r _ s (
      (drawn_iff r v host guest s o (nothing_forfeited r v o)).1
        (no_moves host.id guest.id r.moves l))

-- The draw by the deadline keeps a room valid unless it is accepted after a move.
pub resolve_deadline_draw-IsValid :
    (round : ℕ) (r : Room)
    → IsValid r
    → ((resolve_deadline_draw round r).1 ≡ none → length r.moves ≡ 0)
    → IsValid (resolve_deadline_draw round r).0
resolve_deadline_draw-IsValid round r v h = elim (resolve_deadline_draw-cases round r) [
  | inl e ↦ rw e.0 v
  | inr (_, _, o, two, e) ↦ rw e (drawn-IsValid r v o two (h (ground (arith, e))))
]

-- The clock's resolution of an inactive round, accepted or refused, keeps a room valid whose
-- counters are below the ends of their ranges.
pub resolve_inactivity-IsValid :
    (round : ℕ) (r : Room) → IsValid r → IsBounded r → IsValid (resolve_inactivity round r).0
resolve_inactivity-IsValid round r v b = elim (resolve_inactivity-cases round r) [
  | inl e ↦ rw e.0 v
  | inr (inl (_, _, o, two, l, e)) ↦ rw e (drawn-IsValid r v o two l)
  | inr (inr (_, _, o, two, l, e)) ↦
      let (host, (guest, s)) = two_seats r.players two in
      rw e (
        subst
          (λ qs. IsValid (record r {
            result = (award_movers r.moves 0 r.result qs).0;
            players = (award_movers r.moves 0 r.result qs).1;
            resolved = true;
          }))
          (sym s) (inactive-IsValid r v host guest s o b l (nothing_forfeited r v o)))
]
