-- ===== src/Room/Machine/Reach.antt =====
-- Every room that calls reach from `New` is valid, but for a draw by the deadline after a move, and
-- so survives being stored.
use native.Mathlib.Nat.{add-zero}
use rock_paper_money.Prelude.{
  Bool-cases, length, nat_eq, string_eq, bool_eq, ℕ, ◌+◌, ◌≤◌, ◌<◌, String, ◌≡◌, subst, inl, inr,
  true, false, List, [], ◌∷◌, arith,
}
use rock_paper_money.Prelude.Int.{int_eq}
use rock_paper_money.Failure.{ok}
use rock_paper_money.Game.{move_eq, result_eq}
use rock_paper_money.Room.{Room, new, restore, persistence_state}
use rock_paper_money.Room.Deadlines.{forfeit}
use rock_paper_money.Room.Valid.{IsValid, IsBounded}
use rock_paper_money.Room.Persist.{restore-persistence_state}
use rock_paper_money.Room.Keeps.{join-IsValid, leave-IsValid}
use rock_paper_money.Room.Keeps.Submit.{submit_move-IsValid, resolve_committed_moves-IsValid}
use rock_paper_money.Room.Keeps.Rounds.{
  request_next_round-IsValid, advance_committed_next_round-IsValid,
}
use rock_paper_money.Room.Keeps.Deadline.{
  forfeit-IsValid, resolve_inactivity-IsValid, resolve_deadline_draw-IsValid,
}
use rock_paper_money.Room.Machine.{
  Call, perform, run, IsReached, new-IsReached, IsBounded-of_reached, joins, leaves, submits,
  requests, forfeits, resolves, advances, expires, draws, is_stranding, never_strands,
}
use rock_paper_money.Room.Machine.Growth.{perform-HasGrown}

forfeit_resolved :
    (id : String) (round : ℕ) (r : Room) → r.resolved ≡ true → (forfeit id round r).0 ≡ r
unfolding forfeit
forfeit_resolved id round r h = ground arith

-- Every call that does not strand a room keeps it valid, if no counter is at its end and an open
-- round has at most one move.
perform-IsValid :
    (c : Call) (r : Room)
    → IsValid r
    → IsBounded r
    → (r.resolved ≡ false → length r.moves ≤ 1)
    → is_stranding c r ≡ false
    → IsValid (perform c r).0
unfolding perform is_stranding
perform-IsValid (joins id) r v b o u = join-IsValid id r v
perform-IsValid (leaves id) r v b o u = leave-IsValid id r v
perform-IsValid (submits id move) r v b o u = submit_move-IsValid id move r v b
perform-IsValid (requests id round) r v b o u = request_next_round-IsValid id round r v b
perform-IsValid (forfeits id round) r v b o u = elim (Bool-cases r.resolved) [
  | inl done ↦ rw (forfeit_resolved id round r done) v
  | inr open_round ↦ forfeit-IsValid id round r v b (o open_round)
]
perform-IsValid (resolves round) r v b o u = resolve_committed_moves-IsValid round r v b
perform-IsValid (advances round) r v b o u = advance_committed_next_round-IsValid round r v b
perform-IsValid (expires round) r v b o u = resolve_inactivity-IsValid round r v b
perform-IsValid (draws round) r v b o u =
    resolve_deadline_draw-IsValid round r v (λ e. ground (arith, e, u))

perform-IsReached :
    (n : ℕ) (c : Call) (r : Room)
    → n < 9223372036854775807
    → IsReached n r
    → is_stranding c r ≡ false
    → IsReached (n + 1) (perform c r).0
perform-IsReached n c r l h u =
    let g = perform-HasGrown n c r h in
    record {
      valid = perform-IsValid c r h.valid (IsBounded-of_reached n r l h) h.open_moves u;
      open_moves = g.open_moves;
      round_low = ground (arith, g.round_low);
      wins_low = g.wins_low;
    }

run-IsReached :
    (n : ℕ) (cs : List Call) (r : Room)
    → n + length cs ≤ 9223372036854775807
    → IsReached n r
    → never_strands cs r ≡ true
    → IsReached (n + length cs) (run cs r)
unfolding run never_strands
run-IsReached n [] r l h u = rw add-zero h
run-IsReached n (c ∷ cs) r l h u =
    subst (λ m. IsReached m (run cs (perform c r).0)) (omega arith)
      (run-IsReached (n + 1) cs (perform c r).0 (omega arith)
        (perform-IsReached n c r (omega arith) h (ground arith)) (ground arith))

-- After any calls on a new room, fewer than 2^63 of them, with whatever arguments and outcomes, but
-- for a `ResolveDeadlineDraw` that is accepted after a committed move, `Restore` takes the room back
-- from what it persists, unchanged.
pub run-restore :
    (code id : String) (r : Room) (cs : List Call)
    → new code id ≡ ok r
    → length cs ≤ 9223372036854775807
    → never_strands cs r ≡ true
    → restore (persistence_state (run cs r)) ≡ ok (run cs r)
run-restore code id r cs e l u =
    restore-persistence_state (run cs r)
      (run-IsReached 0 cs r (omega arith) (new-IsReached code id r e) u).valid
