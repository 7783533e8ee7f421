-- ===== src/Room/Stranded.antt =====
-- Where a deadline leaves a room in a state that `Restore` will not take back.
--
-- `ResolveDeadlineDraw` writes a draw whatever moves are in, and `Forfeit` does not look at the
-- moves; `Restore` holds a draw to the moves and a forfeit to one move at most.
use rock_paper_money.Prelude.{
  length, nat_eq, string_eq, bool_eq, String, ◌≡◌, refl, subst, ◌≢◌, true, false, none, List, [],
  ◌∷◌, arith,
}
use rock_paper_money.Failure.{ok}
use rock_paper_money.Game.{move_eq, result_eq}
use rock_paper_money.Room.{PersistedPlayer, Room, restore, persistence_state}
use rock_paper_money.Room.Actions.{Outcome, has_player}
use rock_paper_money.Room.Valid.{AreSeats, IsValid}
use rock_paper_money.Room.Counting.{keys_of_moves, length_of_two}
use rock_paper_money.Room.Persist.{restored_of_persisted}
use rock_paper_money.Room.Deadlines.{
  forfeit_seats, forfeit, validate_deadline_resolution, resolve_deadline_draw,
}
use rock_paper_money.Room.Keeps.Deadline.{drawn, two_seats, nothing_forfeited}

-- With one move in, a draw is not the outcome of the round.
drawn_invalid :
    (r : Room)
    → IsValid r
    → r.resolved ≡ false
    → length r.players ≡ 2
    → length r.moves ≡ 1
    → ¬ IsValid (drawn r)
drawn_invalid r v o two l w =
    let (host, (guest, s)) = two_seats r.players two in
    ground (
      arith,
      w.outcome,
      length_of_two host guest r.moves (ground (arith, v.seats)) v.moves_map
          (keys_of_moves (host ∷ guest ∷ []) r.moves (rw s at v.moves_known)),
      nothing_forfeited r v o,
    )

-- With two moves in, a forfeit is not the outcome of the round.
forfeited_seats_invalid :
    (id : String) (host guest : PersistedPlayer) (r : Room)
    → AreSeats (host ∷ guest ∷ [])
    → has_player id (host ∷ guest ∷ []) ≡ true
    → length r.moves ≡ 2
    → ¬ IsValid (forfeit_seats id (host ∷ guest ∷ []) r)
unfolding forfeit_seats has_player
forfeited_seats_invalid id host guest r v k l w =
    ground (arith, w.outcome, string_eq.beq_iff host.id id, string_eq.beq_iff guest.id id)

forfeited_invalid :
    (id : String) (r : Room)
    → IsValid r
    → has_player id r.players ≡ true
    → length r.players ≡ 2
    → length r.moves ≡ 2
    → ¬ IsValid (forfeit_seats id r.players r)
forfeited_invalid id r v k two l w =
    let (host, (guest, s)) = two_seats r.players two in
    forfeited_seats_invalid id host guest r (rw s at v.seats) (rw s at k) l
      (subst (λ ps. IsValid (forfeit_seats id ps r)) s w)

forfeit_seats_maps :
    (id : String) (ps : List PersistedPlayer) (r : Room)
    → ((forfeit_seats id ps r).moves ≡ r.moves)
      × ((forfeit_seats id ps r).next_round_requests ≡ r.next_round_requests)
unfolding forfeit_seats
forfeit_seats_maps id (host ∷ guest ∷ ps) r = ground arith
forfeit_seats_maps id [] r = (refl, refl)
forfeit_seats_maps id (p ∷ []) r = (refl, refl)

drawn_when_due :
    (r : Room)
    → r.closed ≡ false
    → r.resolved ≡ false
    → length r.players ≡ 2
    → resolve_deadline_draw r.round r ≡ (drawn r, none)
unfolding resolve_deadline_draw validate_deadline_resolution
drawn_when_due r c o two = ground arith

forfeited_when_due :
    (id : String) (r : Room)
    → r.closed ≡ false
    → has_player id r.players ≡ true
    → r.resolved ≡ false
    → length r.players ≡ 2
    → forfeit id r.round r ≡ (forfeit_seats id r.players r, none)
unfolding forfeit
forfeited_when_due id r c k o two = ground arith

-- After one move of two in an open, valid room, the draw that the code writes when both players are
-- gone persists as a state that `Restore` refuses.
pub resolve_deadline_draw_strands :
    (r x : Room)
    → IsValid r
    → r.closed ≡ false
    → r.resolved ≡ false
    → length r.players ≡ 2
    → length r.moves ≡ 1
    → restore (persistence_state (resolve_deadline_draw r.round r).0) ≢ ok x
resolve_deadline_draw_strands r x v c o two l h =
    let e : resolve_deadline_draw r.round r ≡ (drawn r, none) = drawn_when_due r c o two in
    drawn_invalid r v o two l (
      restored_of_persisted (drawn r) x v.moves_map v.requests_map
        (subst (λ (u : Outcome). restore (persistence_state u.0) ≡ ok x) e h))

-- In an open, valid room with both moves in and not yet resolved, the forfeit of a player persists
-- as a state that `Restore` refuses.
pub forfeit_strands :
    (id : String) (r x : Room)
    → IsValid r
    → r.closed ≡ false
    → has_player id r.players ≡ true
    → r.resolved ≡ false
    → length r.players ≡ 2
    → length r.moves ≡ 2
    → restore (persistence_state (forfeit id r.round r).0) ≢ ok x
forfeit_strands id r x v c k o two l h =
    let e : forfeit id r.round r ≡ (forfeit_seats id r.players r, none) =
      forfeited_when_due id r c k o two in
    let m = forfeit_seats_maps id r.players r in
    forfeited_invalid id r v k two l (
      restored_of_persisted (forfeit_seats id r.players r) x (rw m.0 v.moves_map)
        (rw m.1 v.requests_map)
        (subst (λ (u : Outcome). restore (persistence_state u.0) ≡ ok x) e h))
