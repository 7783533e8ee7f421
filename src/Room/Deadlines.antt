-- ===== src/Room/Deadlines.antt =====
-- The resolutions of backend/internal/room/domain/room.go that a clock makes: `Forfeit`,
-- `ResolveInactivity`, `ResolveDeadlineDraw` and `validateDeadlineResolution`.
use rock_paper_money.Prelude.{
  ℕ, suc, String, true, not, Option, none, some, List, [], ◌∷◌, ◌==◌, ◌/=◌, if◌then◌else◌, length,
  string_eq, nat_eq,
}
use rock_paper_money.Prelude.Dict.{Dict, contains}
use rock_paper_money.Failure.{
  Error, unknown_player, room_not_ready, stale_round, round_resolved, room_closed,
}
use rock_paper_money.Game.{Move, Result, draw, player_one_wins, player_two_wins}
use rock_paper_money.Room.{Room, PersistedPlayer}
use rock_paper_money.Room.Actions.{Outcome, has_player, win}

-- The write of `Forfeit`: the result and the win of the other seat.
unfoldable pub forfeit_seats : String → List PersistedPlayer → Room → Room
forfeit_seats player_id (host ∷ guest ∷ rest) r =
    if host.id == player_id
    then record r {
      resolved = true;
      forfeited_player_id = player_id;
      result = player_two_wins;
      players = host ∷ win guest ∷ rest;
    }
    else record r {
      resolved = true;
      forfeited_player_id = player_id;
      result = player_one_wins;
      players = win host ∷ guest ∷ rest;
    }
forfeit_seats _ _ r = r

unfoldable pub forfeit : String → ℕ → Room → Outcome
unfolding has_player forfeit_seats
forfeit player_id expected_round r =
    if r.closed
    then (r, some room_closed)
    else if not (has_player player_id r.players)
    then (r, some unknown_player)
    else if expected_round /= r.round
    then (r, some stale_round)
    else if r.resolved
    then (r, some round_resolved)
    else if length r.players /= 2
    then (r, some room_not_ready)
    else (forfeit_seats player_id r.players r, none)

unfoldable pub validate_deadline_resolution : ℕ → Room → Option Error
validate_deadline_resolution expected_round r =
    if r.closed
    then some room_closed
    else if expected_round /= r.round
    then some stale_round
    else if r.resolved
    then some round_resolved
    else if length r.players /= 2
    then some room_not_ready
    else none

-- The loop of `ResolveInactivity` over the players, from the seat `index` and the result so far.
unfoldable pub award_movers :
    Dict String Move → ℕ → Result → List PersistedPlayer → Result × List PersistedPlayer
award_movers moves index result [] = (result, [])
award_movers moves index result (p ∷ ps) =
    let submitted = contains p.id moves in
    let (result', ps') =
      award_movers moves (suc index)
        (if submitted then if index == 0 then player_one_wins else player_two_wins else result)
        ps in
    (result', (if submitted then win p else p) ∷ ps')

unfoldable pub resolve_inactivity : ℕ → Room → Outcome
unfolding validate_deadline_resolution
resolve_inactivity expected_round r = elim (validate_deadline_resolution expected_round r) [
  | some e ↦ (r, some e)
  | none ↦
      if length r.moves == 0
      then (record r { result = draw; resolved = true }, none)
      else if length r.moves == 1
      then (let (result', players') = award_movers r.moves 0 r.result r.players in
          (record r { result = result'; players = players'; resolved = true }, none))
      else (r, some round_resolved)
]

unfoldable pub resolve_deadline_draw : ℕ → Room → Outcome
unfolding validate_deadline_resolution
resolve_deadline_draw expected_round r = elim (validate_deadline_resolution expected_round r) [
  | some e ↦ (r, some e)
  | none ↦ (record r { resolved = true; result = draw }, none)
]
