-- ===== src/Room/Secrecy.antt =====
-- What `State` shows of an open round, and what a refused call and a `Leave` leave of a room.
use rock_paper_money.Prelude.{
  nat_eq, string_eq, bool_eq, String, ◌≡◌, refl, sym, subst, ◌≢◌, Bool, true, false, none, some,
  List, [], ◌∷◌, arith,
}
use rock_paper_money.Prelude.Dict.{Dict, contains}
use rock_paper_money.Prelude.Int.{int_eq}
use rock_paper_money.Failure.{room_closed}
use rock_paper_money.Game.{Move, move_eq, result_eq, unset}
use rock_paper_money.Room.{PersistedPlayer, Room, view_players, state}
use rock_paper_money.Room.Actions.{
  join, submit_move, request_next_round, resolve_committed_moves, advance_committed_next_round,
  leave,
}
use rock_paper_money.Room.Deadlines.{
  forfeit, validate_deadline_resolution, resolve_inactivity, resolve_deadline_draw,
}
use rock_paper_money.Room.Machine.{
  Call, perform, run, draws, joins, leaves, submits, requests, forfeits, resolves, advances,
  expires,
}

view_players-same :
    (moves moves' : Dict String Move) (asks : Dict String Bool) (ps : List PersistedPlayer)
    → ((id : String) → contains id moves ≡ contains id moves')
    → view_players moves asks ps ≡ view_players moves' asks ps
unfolding view_players
view_players-same moves moves' asks [] h = refl
view_players-same moves moves' asks (p ∷ ps) h =
    ground (arith, h p.id, view_players-same moves moves' asks ps h)

-- While a round is open, its view does not depend on which moves were made, only on who has made
-- one: an opponent learns nothing of a move before both are in.
pub state_hides_moves :
    (r : Room) (moves : Dict String Move)
    → r.resolved ≡ false
    → ((id : String) → contains id moves ≡ contains id r.moves)
    → state (record r { moves = moves }) ≡ state r
unfolding state
state_hides_moves r moves o h =
    ground (arith, view_players-same moves r.moves r.next_round_requests r.players h)

-- An open round shows no move and no result.
pub state_open_round :
    (r : Room) → r.resolved ≡ false → ((state r).moves ≡ []) × ((state r).result ≡ unset)
unfolding state
state_open_round r o = ground arith

-- A call on a closed room is refused with `ErrRoomClosed`, and changes nothing.
closed_refuses : (c : Call) (r : Room) → r.closed ≡ true → perform c r ≡ (r, some room_closed)
unfolding perform join leave submit_move request_next_round forfeit resolve_committed_moves
    advance_committed_next_round resolve_inactivity resolve_deadline_draw
    validate_deadline_resolution
closed_refuses (joins id) r h = ground arith
closed_refuses (leaves id) r h = ground arith
closed_refuses (submits id move) r h = ground arith
closed_refuses (requests id round) r h = ground arith
closed_refuses (forfeits id round) r h = ground arith
closed_refuses (resolves round) r h = ground arith
closed_refuses (advances round) r h = ground arith
closed_refuses (expires round) r h = ground arith
closed_refuses (draws round) r h = ground arith

closed-run : (cs : List Call) (r : Room) → r.closed ≡ true → run cs r ≡ r
unfolding run
closed-run [] r h = refl
closed-run (c ∷ cs) r h = let same = closed_refuses c r h in ground (arith, same, closed-run cs r h)

leave-closes : (id : String) (r : Room) → (leave id r).1 ≡ none → (leave id r).0.closed ≡ true
unfolding leave
leave-closes id r h = ground (arith, h)

-- A `Leave` that succeeds is final: after whatever calls, the next one is refused with
-- `ErrRoomClosed`, and the room is as `Leave` left it.
pub leave_is_final :
    (id : String) (r : Room) (cs : List Call) (c : Call)
    → (leave id r).1 ≡ none
    → perform c (run cs (leave id r).0) ≡ ((leave id r).0, some room_closed)
leave_is_final id r cs c h =
    let closed = leave-closes id r h in
    subst (λ (s : Room). perform c s ≡ ((leave id r).0, some room_closed))
      (sym (closed-run cs (leave id r).0 closed)) (closed_refuses c (leave id r).0 closed)

-- Any call of the room's methods that returns an error leaves the room as it was.
pub error_changes_nothing : (c : Call) (r : Room) → (perform c r).1 ≢ none → (perform c r).0 ≡ r
unfolding perform join leave submit_move request_next_round forfeit resolve_committed_moves
    advance_committed_next_round resolve_inactivity resolve_deadline_draw
error_changes_nothing (joins id) r h = ground arith
error_changes_nothing (leaves id) r h = ground arith
error_changes_nothing (submits id move) r h = ground arith
error_changes_nothing (requests id round) r h = ground arith
error_changes_nothing (forfeits id round) r h = ground arith
error_changes_nothing (resolves round) r h = ground arith
error_changes_nothing (advances round) r h = ground arith
error_changes_nothing (expires round) r h = ground arith
error_changes_nothing (draws round) r h = ground arith
