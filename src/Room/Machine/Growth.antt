-- ===== src/Room/Machine/Growth.antt =====
-- One call raises the round and the wins by one at most, and leaves at most one move in an open
-- round.
use rock_paper_money.Prelude.{
  Bool-cases, length, ◌==◌, nat_eq, string_eq, bool_eq, ℕ, zero, suc, ◌+◌, ◌≤◌, String, ◌≡◌, inl,
  inr, true, false, List, [], ◌∷◌, ◌++◌, arith,
}
use rock_paper_money.Prelude.Dict.{Dict, insert, length-insert}
use rock_paper_money.Prelude.Int.{ℤ, pos_part, inc_int, int_eq, pos, negsuc}
use rock_paper_money.Game.{Move, Result, move_eq, result_eq}
use rock_paper_money.Room.{PersistedPlayer, Room}
use rock_paper_money.Room.Actions.{
  join, award_result, resolve_seats, resolve, submit_move, advance, request_next_round,
  resolve_committed_moves, advance_committed_next_round, leave,
}
use rock_paper_money.Room.Deadlines.{
  forfeit_seats, forfeit, award_movers, resolve_inactivity, resolve_deadline_draw,
}
use rock_paper_money.Room.Keeps.{join-cases}
use rock_paper_money.Room.Keeps.Submit.{moved, submit_move-cases}
use rock_paper_money.Room.Keeps.Rounds.{asked, request_next_round-cases}
use rock_paper_money.Room.Keeps.Deadline.{
  forfeit-cases, resolve_inactivity-cases, resolve_deadline_draw-cases,
}
use rock_paper_money.Room.Machine.{
  Call, perform, WinsLe, IsReached, joins, leaves, submits, requests, forfeits, resolves, advances,
  expires, draws,
}

-- What one call may have done to a room that `n` calls reach.
pub record HasGrown (n : ℕ) (r : Room) : Type 0 where
  pub open_moves : r.resolved ≡ false → length r.moves ≤ 1
  pub round_low : r.round ≤ n + 2
  pub wins_low : WinsLe (n + 1) r.players

WinsLe-suc : (n : ℕ) (ps : List PersistedPlayer) → WinsLe n ps → WinsLe (n + 1) ps
WinsLe-suc n [] h = tt
WinsLe-suc n (p ∷ ps) h = (omega arith, WinsLe-suc n ps h.1)

inc_int-le : (w : ℤ) → pos_part (inc_int w) ≤ pos_part w + 1
unfolding inc_int
inc_int-le (pos n) = ground arith
inc_int-le (negsuc zero) = omega arith
inc_int-le (negsuc (suc n)) = omega arith

same-HasGrown : (n : ℕ) (r : Room) → IsReached n r → HasGrown n r
same-HasGrown n r h = record {
  open_moves = h.open_moves;
  round_low = ground (arith, h.round_low);
  wins_low = WinsLe-suc n r.players h.wins_low;
}

join-HasGrown : (n : ℕ) (id : String) (r : Room) → IsReached n r → HasGrown n (join id r).0
join-HasGrown n id r h = elim (join-cases id r) [
  | inl e ↦ rw e.0 (same-HasGrown n r h)
  | inr (_, _, _, _, e) ↦ rw e (record {
    open_moves = h.open_moves;
    round_low = ground (arith, h.round_low);
    wins_low = WinsLe-snoc (n + 1) r.players _ (WinsLe-suc n r.players h.wins_low) (omega arith);
  })
]
  where
    WinsLe-snoc :
        (m : ℕ) (ps : List PersistedPlayer) (p : PersistedPlayer)
        → WinsLe m ps
        → pos_part p.wins ≤ m
        → WinsLe m (ps ++ p ∷ [])
    WinsLe-snoc m [] p h k = (k, tt)
    WinsLe-snoc m (q ∷ ps) p h k = (h.0, WinsLe-snoc m ps p h.1 k)

leave-HasGrown : (n : ℕ) (id : String) (r : Room) → IsReached n r → HasGrown n (leave id r).0
unfolding leave
leave-HasGrown n id r h = ground (arith, WinsLe-suc n r.players h.wins_low)

award_result-WinsLe :
    (n : ℕ) (result : Result) (host guest : PersistedPlayer) (rest : List PersistedPlayer)
    → WinsLe n (host ∷ guest ∷ rest)
    → WinsLe (n + 1) (award_result result host guest rest)
award_result-WinsLe n result host guest rest h =
    ground (arith, inc_int-le host.wins, inc_int-le guest.wins, WinsLe-suc n rest h.1.1)

resolve_seats-HasGrown :
    (n : ℕ) (ps : List PersistedPlayer) (r : Room)
    → 2 ≤ length ps
    → r.round ≤ n + 1
    → WinsLe n ps
    → HasGrown n (resolve_seats ps r)
unfolding resolve_seats
resolve_seats-HasGrown n [] r l o h = absurd (omega arith)
resolve_seats-HasGrown n (p ∷ []) r l o h = absurd (omega arith)
resolve_seats-HasGrown n (host ∷ guest ∷ rest) r l o h = record {
  open_moves = λ e. absurd (cc);
  round_low = omega arith;
  wins_low = award_result-WinsLe n _ host guest rest h;
}

resolve-HasGrown :
    (n : ℕ) (r : Room)
    → 2 ≤ length r.players
    → r.round ≤ n + 1
    → WinsLe n r.players
    → HasGrown n (resolve r)
unfolding resolve
resolve-HasGrown n r l o h = resolve_seats-HasGrown n r.players r l o h

submit_move-HasGrown :
    (n : ℕ) (id : String) (move : Move) (r : Room)
    → IsReached n r
    → HasGrown n (submit_move id move r).0
submit_move-HasGrown n id move r h = elim (submit_move-cases id move r) [
  | inl e ↦ rw e.0 (same-HasGrown n r h)
  | inr (_, _, l, o, _, _, e) ↦ elim (Bool-cases (length (insert id move r.moves) == 2)) [
    | inl full ↦ rw (e, full) (resolve-HasGrown n (moved id move r) l h.round_low h.wins_low)
    | inr half ↦
        rw (e, half)
          (record {
            open_moves = λ _. ground (arith, h.open_moves o, length-insert id move r.moves);
            round_low = ground (arith, h.round_low);
            wins_low = WinsLe-suc n r.players h.wins_low;
          })
  ]
]

advance-HasGrown :
    (n : ℕ) (r : Room) → r.round ≤ n + 1 → WinsLe n r.players → HasGrown n (advance r)
advance-HasGrown n r o h = record {
  open_moves = λ _. omega arith;
  round_low = omega arith;
  wins_low = WinsLe-suc n r.players h;
}

request_next_round-HasGrown :
    (n : ℕ) (id : String) (round : ℕ) (r : Room)
    → IsReached n r
    → HasGrown n (request_next_round id round r).0
request_next_round-HasGrown n id round r h = elim (request_next_round-cases id round r) [
  | inl e ↦ rw e.0 (same-HasGrown n r h)
  | inr (_, _, o, _, _, e) ↦
      elim (Bool-cases (length (insert id true r.next_round_requests) == length r.players)) [
        | inl all_asked ↦ rw (e, all_asked) (advance-HasGrown n (asked id r) h.round_low h.wins_low)
        | inr waiting ↦
            rw (e, waiting)
              (record {
                open_moves = λ u. cc;
                round_low = ground (arith, h.round_low);
                wins_low = WinsLe-suc n r.players h.wins_low;
              })
      ]
]

resolve_committed_moves-HasGrown :
    (n : ℕ) (round : ℕ) (r : Room) → IsReached n r → HasGrown n (resolve_committed_moves round r).0
unfolding resolve_committed_moves
resolve_committed_moves-HasGrown n round r h =
    ground (arith, same-HasGrown n r h, resolve-HasGrown n r, h.round_low, h.wins_low)

advance_committed_next_round-HasGrown :
    (n : ℕ) (round : ℕ) (r : Room)
    → IsReached n r
    → HasGrown n (advance_committed_next_round round r).0
unfolding advance_committed_next_round
advance_committed_next_round-HasGrown n round r h =
    ground (arith, same-HasGrown n r h, advance-HasGrown n r h.round_low h.wins_low)

forfeit_seats-HasGrown :
    (n : ℕ) (id : String) (ps : List PersistedPlayer) (r : Room)
    → 2 ≤ length ps
    → r.round ≤ n + 1
    → WinsLe n ps
    → HasGrown n (forfeit_seats id ps r)
unfolding forfeit_seats
forfeit_seats-HasGrown n id [] r l o h = absurd (omega arith)
forfeit_seats-HasGrown n id (p ∷ []) r l o h = absurd (omega arith)
forfeit_seats-HasGrown n id (host ∷ guest ∷ rest) r l o h =
    ground (arith, inc_int-le host.wins, inc_int-le guest.wins, WinsLe-suc n rest h.1.1)

forfeit-HasGrown :
    (n : ℕ) (id : String) (round : ℕ) (r : Room) → IsReached n r → HasGrown n (forfeit id round r).0
forfeit-HasGrown n id round r h = elim (forfeit-cases id round r) [
  | inl e ↦ rw e.0 (same-HasGrown n r h)
  | inr (_, _, _, _, two, e) ↦
      rw e (forfeit_seats-HasGrown n id r.players r (omega arith) h.round_low h.wins_low)
]

award_movers-WinsLe :
    (n i : ℕ) (moves : Dict String Move) (result : Result) (ps : List PersistedPlayer)
    → WinsLe n ps
    → WinsLe (n + 1) (award_movers moves i result ps).1
unfolding award_movers
award_movers-WinsLe n i moves result [] h = tt
award_movers-WinsLe n i moves result (p ∷ ps) h =
    (ground (arith, inc_int-le p.wins), award_movers-WinsLe n (suc i) moves _ ps h.1)

resolve_inactivity-HasGrown :
    (n : ℕ) (round : ℕ) (r : Room) → IsReached n r → HasGrown n (resolve_inactivity round r).0
resolve_inactivity-HasGrown n round r h = elim (resolve_inactivity-cases round r) [
  | inl e ↦ rw e.0 (same-HasGrown n r h)
  | inr (inl (_, _, _, _, _, e)) ↦ rw e (record {
    open_moves = λ u. cc;
    round_low = ground (arith, h.round_low);
    wins_low = WinsLe-suc n r.players h.wins_low;
  })
  | inr (inr (_, _, _, _, _, e)) ↦ rw e (record {
    open_moves = λ u. cc;
    round_low = ground (arith, h.round_low);
    wins_low = award_movers-WinsLe n 0 r.moves r.result r.players h.wins_low;
  })
]

resolve_deadline_draw-HasGrown :
    (n : ℕ) (round : ℕ) (r : Room) → IsReached n r → HasGrown n (resolve_deadline_draw round r).0
resolve_deadline_draw-HasGrown n round r h = elim (resolve_deadline_draw-cases round r) [
  | inl e ↦ rw e.0 (same-HasGrown n r h)
  | inr (_, _, _, _, e) ↦ rw e (record {
    open_moves = λ u. cc;
    round_low = ground (arith, h.round_low);
    wins_low = WinsLe-suc n r.players h.wins_low;
  })
]

pub perform-HasGrown : (n : ℕ) (c : Call) (r : Room) → IsReached n r → HasGrown n (perform c r).0
unfolding perform
perform-HasGrown n (joins id) r h = join-HasGrown n id r h
perform-HasGrown n (leaves id) r h = leave-HasGrown n id r h
perform-HasGrown n (submits id move) r h = submit_move-HasGrown n id move r h
perform-HasGrown n (requests id round) r h = request_next_round-HasGrown n id round r h
perform-HasGrown n (forfeits id round) r h = forfeit-HasGrown n id round r h
perform-HasGrown n (resolves round) r h = resolve_committed_moves-HasGrown n round r h
perform-HasGrown n (advances round) r h = advance_committed_next_round-HasGrown n round r h
perform-HasGrown n (expires round) r h = resolve_inactivity-HasGrown n round r h
perform-HasGrown n (draws round) r h = resolve_deadline_draw-HasGrown n round r h
