-- ===== src/Room/Machine.antt =====
-- A room as a machine: every method of backend/internal/room/domain/room.go that changes a room, as
-- the players, the reconciler and the clock call it, in any order, from `New` on.
pub mod Growth
pub mod Reach
use rock_paper_money.Prelude.{
  ltb, leb, nat_beq, if◌then◌else◌, nat_beq_iff, Bool-cases, Option-cases, length, length-append,
  All, Eq, ◌==◌, ◌/=◌, nat_eq, string_eq, bool_beq, bool_beq_iff, bool_eq, ==_refl, ==_of_eq,
  ==_of_ne, ==_sym, Eq-cases, ℕ, zero, suc, ◌+◌, ◌-◌, ◌*◌, ◌/◌, ◌%◌, ◌^◌, ◌≤◌, ◌<◌, String, concat,
  ◌≡◌, refl, sym, ap, subst, ◌∙◌, ◌≢◌, ◌↔◌, ◌⊎◌, inl, inr, Bool, true, false, not, ◌&&◌, ◌||◌,
  Option, none, some, List, [], ◌∷◌, ◌++◌, map, arith,
}
use rock_paper_money.Prelude.Dict.{
  Dict, is_some, get_or, lookup, insert, erase, contains, lookup-insert, lookup-insert_self,
  lookup-insert_ne, length-insert, IsMap, clone_into, clone, insert-IsMap, clone_lem, All-insert,
  All-mono,
}
use rock_paper_money.Prelude.Int.{
  ℤ, pos_part, neg_part, sub_ℕ, ◌+ℤ◌, ◌-ℤ◌, ◌≤ℤ◌, ltb_ℤ, +ℤ_parts, -ℤ_parts, eq_of_parts, int_laws,
  inc_int, ℤ_beq, ℤ_beq_iff, int_eq, max_int64, wrap64, add64, sub64, pos, negsuc,
}
use rock_paper_money.Failure.{
  Error, Fallible, ◌>>=◌, ◌>>◌, fail_if, Fallible-cases, empty_code, missing_player_id,
  duplicate_player, room_full, unknown_player, room_not_ready, duplicate_move, invalid_move,
  round_not_resolved, next_round_requested, stale_round, round_resolved, game_unfinished,
  room_closed, invalid_state, duplicate_room, room_not_found, unauthorized, account_seated,
  insufficient_funds, invalid_coin_amount, idempotency_required, idempotency_conflict,
  unsupported_command_repository, invalid_report, external, ok, err,
}
use rock_paper_money.Game.{
  Move, Result, move_beq, move_beq_iff, move_eq, result_beq, result_beq_iff, result_eq,
  is_valid_move, determine_result, rock, paper, scissors, other, unset, draw, player_one_wins,
  player_two_wins, other_result,
}
use rock_paper_money.Room.{
  PersistedPlayer, PersistenceState, Room, Player, PlayerMove, State, new, is_seen, check_players,
  check_moves, check_requests, move_of, valid_resolved_moves, first_id, check_resolved,
  check_outcome, restore, persistence_state, view_player, view_players, shown_moves, state,
}
use rock_paper_money.Room.Actions.{
  Outcome, has_player, win, join, award_result, resolve_seats, resolve, submit_move, next_round,
  advance, request_next_round, resolve_committed_moves, advance_committed_next_round, leave,
}
use rock_paper_money.Room.Deadlines.{
  forfeit_seats, forfeit, validate_deadline_resolution, award_movers, resolve_inactivity,
  resolve_deadline_draw,
}
use rock_paper_money.Room.Valid.{
  IsSeat, AreSeats, IsMoveOf, IsRequestOf, result_of, IsPlayed, IsForfeited, IsOutcome, IsValid,
  IsBounded,
}
use rock_paper_money.Room.Counting.{
  bit, IsKeyOf, keys_of_moves, keys_of_requests, length_of_two, length_of_one, AreSeats-length,
}
use rock_paper_money.Room.Keeps.{
  IsPlayersIn, IsMoveOf-mono, IsRequestOf-mono, IsPlayersIn-same, IsRefused, IsOutcome-open,
  join-cases, join-IsValid, leave-IsValid,
}
use rock_paper_money.Room.Keeps.Submit.{
  win-IsSeat, resolve_seated-IsValid, resolve-IsValid, submit_move-cases, submit_move-IsValid,
  resolve_committed_moves-IsValid,
}
use rock_paper_money.Room.Keeps.Rounds.{
  advance-IsValid, asked, request_next_round-cases, request_next_round-IsValid,
  advance_committed_next_round-IsValid,
}
use rock_paper_money.Room.Keeps.Deadline.{
  is_two, validate-cases, drawn, resolve_deadline_draw-cases, two_seats, forfeit-cases,
  forfeit-IsValid, resolve_inactivity-cases, nothing_forfeited, resolve_inactivity-IsValid,
}

pub data Call : Type 0 where
  joins leaves : String → Call
  submits : String → Move → Call
  requests forfeits : String → ℕ → Call
  resolves advances expires draws : ℕ → Call

unfoldable pub perform : Call → Room → Outcome
perform (joins id) r = join id r
perform (leaves id) r = leave id r
perform (submits id move) r = submit_move id move r
perform (requests id round) r = request_next_round id round r
perform (forfeits id round) r = forfeit id round r
perform (resolves round) r = resolve_committed_moves round r
perform (advances round) r = advance_committed_next_round round r
perform (expires round) r = resolve_inactivity round r
perform (draws round) r = resolve_deadline_draw round r

unfoldable pub run : List Call → Room → Room
unfolding perform
run [] r = r
run (c ∷ cs) r = run cs (perform c r).0

-- A `ResolveDeadlineDraw` that is accepted after a committed move: see Stranded.
unfoldable pub is_stranding : Call → Room → Bool
unfolding resolve_deadline_draw
is_stranding (draws round) r =
    not (is_some (resolve_deadline_draw round r).1) && length r.moves /= 0
is_stranding _ r = false

-- No call of the run strands the room that it finds.
unfoldable pub never_strands : List Call → Room → Bool
unfolding perform is_stranding
never_strands [] r = true
never_strands (c ∷ cs) r = not (is_stranding c r) && never_strands cs (perform c r).0

abbrev pub WinsLe : ℕ → List PersistedPlayer → Type 0
WinsLe n ps = All (λ (p : PersistedPlayer). pos_part p.wins ≤ n) ps

-- What holds of a room after at most `n` calls: it is valid, an open round has at most one move,
-- and the counters are no higher than the calls can have made them.
pub record IsReached (n : ℕ) (r : Room) : Type 0 where
  pub valid : IsValid r
  pub open_moves : r.resolved ≡ false → length r.moves ≤ 1
  pub round_low : r.round ≤ n + 1
  pub wins_low : WinsLe n r.players

pub new-IsReached : (code id : String) (r : Room) → new code id ≡ ok r → IsReached 0 r
unfolding new
new-IsReached code id r h = ground (arith, string_eq.beq_iff code "", string_eq.beq_iff id "")

pub IsBounded-of_reached :
    (n : ℕ) (r : Room) → n < 9223372036854775807 → IsReached n r → IsBounded r
IsBounded-of_reached n r l h = record {
  round_below = ground (arith, h.round_low);
  wins_below = wins_below r.players l h.wins_low;
}
  where
    wins_below :
        (ps : List PersistedPlayer)
        → n < 9223372036854775807
        → WinsLe n ps
        → All (λ (p : PersistedPlayer). pos_part p.wins < 9223372036854775807) ps
    wins_below [] l h = tt
    wins_below (p ∷ ps) l h = (omega arith, wins_below ps l h.1)
