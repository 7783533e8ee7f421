-- ===== src/Room/Order.antt =====
-- The order in which the two players move does not matter.
use rock_paper_money.Prelude.{
  nat_eq, string_eq, bool_eq, String, ◌≡◌, refl, ◌≢◌, true, false, [], ◌∷◌, arith,
}
use rock_paper_money.Prelude.Dict.{Dict, lookup, insert}
use rock_paper_money.Prelude.Int.{int_eq}
use rock_paper_money.Game.{Move, move_eq, result_eq, is_valid_move, determine_result}
use rock_paper_money.Room.{PersistedPlayer, Room, state}
use rock_paper_money.Room.Actions.{award_result, resolve, submit_move}

-- A room before any move: two players, an open and unresolved round.
module _ (r : Room) (host guest : PersistedPlayer) (one two : Move)
    (seats : r.players ≡ host ∷ guest ∷ []) (distinct_players : host.id ≢ guest.id)
    (is_open : r.closed ≡ false) (unresolved : r.resolved ≡ false) (unmoved : r.moves ≡ [])
    (valid_one : is_valid_move one ≡ true) (valid_two : is_valid_move two ≡ true) where
  abbrev settled : Dict String Move → Room
  settled moves =
      let result = (determine_result one two).0 in
      record r {
        moves = moves;
        resolved = true;
        result = result;
        players = award_result result host guest [];
      }

  host_first :
      (submit_move guest.id two (submit_move host.id one r).0).0
      ≡ settled ((host.id, one) ∷ (guest.id, two) ∷ [])
  unfolding submit_move resolve insert lookup
  host_first = ground (
    arith,
    string_eq.beq_iff host.id guest.id,
    string_eq.beq_iff guest.id host.id,
    string_eq.beq_iff host.id host.id,
    string_eq.beq_iff guest.id guest.id,
  )

  guest_first :
      (submit_move host.id one (submit_move guest.id two r).0).0
      ≡ settled ((guest.id, two) ∷ (host.id, one) ∷ [])
  unfolding submit_move resolve insert lookup
  guest_first = ground (
    arith,
    string_eq.beq_iff host.id guest.id,
    string_eq.beq_iff guest.id host.id,
    string_eq.beq_iff host.id host.id,
    string_eq.beq_iff guest.id guest.id,
  )

  view_settled :
      state (settled ((host.id, one) ∷ (guest.id, two) ∷ []))
      ≡ state (settled ((guest.id, two) ∷ (host.id, one) ∷ []))
  unfolding state lookup
  view_settled = ground (
    arith,
    string_eq.beq_iff host.id guest.id,
    string_eq.beq_iff guest.id host.id,
    string_eq.beq_iff host.id host.id,
    string_eq.beq_iff guest.id guest.id,
  )

  -- In an open round without moves, two valid moves of the two players, whichever comes first, give
  -- the same view: the round is resolved, by the rules on the host's move and the guest's.
  pub submit_move_order :
      (state (submit_move guest.id two (submit_move host.id one r).0).0
        ≡ state (submit_move host.id one (submit_move guest.id two r).0).0)
      × ((submit_move guest.id two (submit_move host.id one r).0).0.resolved ≡ true)
      × ((submit_move guest.id two (submit_move host.id one r).0).0.result
          ≡ (determine_result one two).0)
  submit_move_order = rw (host_first, guest_first) (view_settled, refl, refl)
