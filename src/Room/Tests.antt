-- ===== src/Room/Tests.antt =====
-- Rooms at concrete players and moves.
use rock_paper_money.Prelude.{
  nat_eq, string_eq, bool_eq, String, ◌≡◌, refl, ◌≢◌, inl, true, false, some, List, [], ◌∷◌, arith,
}
use rock_paper_money.Prelude.Dict.{Dict, lookup, insert, clone}
use rock_paper_money.Prelude.Int.{inc_int, int_eq, pos}
use rock_paper_money.Failure.{room_closed, ok}
use rock_paper_money.Game.{
  Move, move_eq, result_eq, is_valid_move, determine_result, rock, paper, unset, draw,
  player_two_wins,
}
use rock_paper_money.Room.{PersistedPlayer, Room, new, restore, persistence_state, state}
use rock_paper_money.Room.Actions.{
  has_player, join, resolve, submit_move, request_next_round, leave,
}
use rock_paper_money.Room.Deadlines.{forfeit, resolve_inactivity, resolve_deadline_draw}
use rock_paper_money.Room.Valid.{AreSeats, IsValid, IsBounded}
use rock_paper_money.Room.Persist.{restore-persistence_state, restore-IsValid}
use rock_paper_money.Room.Machine.{
  Call, perform, run, never_strands, is_stranding, draws, joins, leaves, submits, requests,
  forfeits,
}
use rock_paper_money.Room.Machine.Reach.{run-restore}
use rock_paper_money.Room.Keeps.Submit.{submit_move-IsValid}
use rock_paper_money.Room.Keeps.Rounds.{request_next_round-IsValid}
use rock_paper_money.Room.Keeps.Deadline.{forfeit-IsValid, resolve_inactivity-IsValid}
use rock_paper_money.Room.Stranded.{resolve_deadline_draw_strands, forfeit_strands}
use rock_paper_money.Room.Secrecy.{state_hides_moves, leave_is_final, error_changes_nothing}
use rock_paper_money.Room.Order.{submit_move_order}

abbrev host_player : PersistedPlayer
host_player = record { id = "h"; wins = pos 0 }

abbrev guest_player : PersistedPlayer
guest_player = record { id = "g"; wins = pos 2 }

abbrev hosted : Room
hosted = record {
  code = "ROOM";
  players = record { id = "h"; wins = pos 0 } ∷ [];
  moves = [];
  resolved = false;
  result = unset;
  forfeited_player_id = "";
  round = 1;
  next_round_requests = [];
  closed = false;
}

-- Two players, with the moves that are in.
abbrev playing : Dict String Move → Room
playing moves = record hosted {
  players = host_player ∷ guest_player ∷ [];
  moves = moves;
  round = 3;
}

abbrev drawn_round : Room
drawn_round = record hosted {
  players = host_player ∷ guest_player ∷ [];
  round = 3;
  resolved = true;
  result = draw;
}

new-hosted : new "ROOM" "h" ≡ ok hosted
unfolding new
new-hosted = refl

ids_differ : ◌≢◌ {A = String} "h" "g"
ids_differ = ground (arith, string_eq.beq_iff "h" "g")

host_named : ◌≢◌ {A = String} "h" ""
host_named = ground (arith, string_eq.beq_iff "h" "")

guest_named : ◌≢◌ {A = String} "g" ""
guest_named = ground (arith, string_eq.beq_iff "g" "")

code_named : ◌≢◌ {A = String} "ROOM" ""
code_named = ground (arith, string_eq.beq_iff "ROOM" "")

two_seated : AreSeats (host_player ∷ guest_player ∷ [])
two_seated = ((host_named, omega arith), (guest_named, omega arith), ids_differ)

unmoved-IsValid : IsValid (playing [])
unmoved-IsValid = record {
  code_set = code_named;
  round_set = omega arith;
  seats = two_seated;
  moves_map = tt;
  moves_known = tt;
  requests_map = tt;
  requests_known = tt;
  outcome = (refl, refl, refl);
}

half_moved-IsValid : IsValid (playing (("h", rock) ∷ []))
unfolding has_player lookup is_valid_move
half_moved-IsValid = record {
  code_set = code_named;
  round_set = omega arith;
  seats = two_seated;
  moves_map = (refl, tt);
  moves_known = ((refl, refl), tt);
  requests_map = tt;
  requests_known = tt;
  outcome = (refl, refl, refl);
}

both_moved-IsValid : IsValid (playing (("h", rock) ∷ ("g", paper) ∷ []))
unfolding has_player lookup is_valid_move
both_moved-IsValid = record {
  code_set = code_named;
  round_set = omega arith;
  seats = two_seated;
  moves_map = (refl, (refl, tt));
  moves_known = ((refl, refl), ((refl, refl), tt));
  requests_map = tt;
  requests_known = tt;
  outcome = (refl, refl, refl);
}

drawn_round-IsValid : IsValid drawn_round
unfolding lookup
drawn_round-IsValid = record {
  code_set = code_named;
  round_set = omega arith;
  seats = two_seated;
  moves_map = tt;
  moves_known = tt;
  requests_map = tt;
  requests_known = tt;
  outcome = inl (refl, refl);
}

playing-IsBounded : (moves : Dict String Move) → IsBounded (playing moves)
playing-IsBounded moves = record {
  round_below = omega arith;
  wins_below = (omega arith, (omega arith, tt));
}

drawn_round-IsBounded : IsBounded drawn_round
drawn_round-IsBounded = record {
  round_below = omega arith;
  wins_below = (omega arith, (omega arith, tt));
}

-- A game: the guest joins, both move, both ask for another round, which a deadline ends as a draw,
-- and the host forfeits the third.
abbrev game : List Call
game =
    joins "g"
    ∷ submits "g" paper
    ∷ submits "h" rock
    ∷ submits "h" paper
    ∷ requests "h" 1
    ∷ requests "g" 1
    ∷ draws 2
    ∷ requests "g" 2
    ∷ requests "h" 2
    ∷ forfeits "h" 3
    ∷ leaves "g"
    ∷ []

run-game : run game hosted ≡ record hosted {
  players = host_player ∷ record { id = "g"; wins = pos 2 } ∷ [];
  round = 3;
  resolved = true;
  result = player_two_wins;
  forfeited_player_id = "h";
  closed = true;
}
unfolding run join submit_move request_next_round forfeit resolve_deadline_draw leave resolve insert
    lookup determine_result inc_int
run-game = refl

never_strands-game : never_strands game hosted ≡ true
unfolding never_strands is_stranding perform join submit_move request_next_round forfeit
    resolve_deadline_draw leave resolve insert lookup determine_result inc_int
never_strands-game = refl

run-restore_example : restore (persistence_state (run game hosted)) ≡ ok (run game hosted)
run-restore_example = run-restore "ROOM" "h" hosted game new-hosted (omega arith) never_strands-game

restore-persistence_state_example : restore (persistence_state drawn_round) ≡ ok drawn_round
restore-persistence_state_example = restore-persistence_state drawn_round drawn_round-IsValid

restore-IsValid_example :
    IsValid drawn_round × (persistence_state drawn_round ≡ persistence_state drawn_round)
unfolding persistence_state clone
restore-IsValid_example =
    restore-IsValid (persistence_state drawn_round) drawn_round tt tt
      (restore-persistence_state drawn_round drawn_round-IsValid)

submit_move-IsValid_example : IsValid (submit_move "g" paper (playing (("h", rock) ∷ []))).0
submit_move-IsValid_example =
    submit_move-IsValid "g" paper (playing (("h", rock) ∷ [])) half_moved-IsValid
      (playing-IsBounded (("h", rock) ∷ []))

request_next_round-IsValid_example : IsValid (request_next_round "g" 3 drawn_round).0
request_next_round-IsValid_example =
    request_next_round-IsValid "g" 3 drawn_round drawn_round-IsValid drawn_round-IsBounded

resolve_inactivity-IsValid_example : IsValid (resolve_inactivity 3 (playing (("h", rock) ∷ []))).0
resolve_inactivity-IsValid_example =
    resolve_inactivity-IsValid 3 (playing (("h", rock) ∷ [])) half_moved-IsValid
      (playing-IsBounded (("h", rock) ∷ []))

forfeit-IsValid_example : IsValid (forfeit "g" 3 (playing (("h", rock) ∷ []))).0
forfeit-IsValid_example =
    forfeit-IsValid "g" 3 (playing (("h", rock) ∷ [])) half_moved-IsValid
      (playing-IsBounded (("h", rock) ∷ [])) (omega arith)

-- Both players gone after one move: the room cannot be loaded again.
resolve_deadline_draw_strands_example :
    restore (persistence_state (resolve_deadline_draw 3 (playing (("h", rock) ∷ []))).0)
    ≢ ok (playing [])
resolve_deadline_draw_strands_example =
    resolve_deadline_draw_strands (playing (("h", rock) ∷ [])) (playing []) half_moved-IsValid refl
      refl refl refl

forfeit_strands_example :
    restore (persistence_state (forfeit "h" 3 (playing (("h", rock) ∷ ("g", paper) ∷ []))).0)
    ≢ ok (playing [])
unfolding has_player
forfeit_strands_example =
    forfeit_strands "h" (playing (("h", rock) ∷ ("g", paper) ∷ [])) (playing []) both_moved-IsValid
      refl refl refl refl refl

state_hides_moves_example : state (playing (("h", paper) ∷ [])) ≡ state (playing (("h", rock) ∷ []))
unfolding lookup
state_hides_moves_example =
    state_hides_moves (playing (("h", rock) ∷ [])) (("h", paper) ∷ []) refl (λ id. ground arith)

leave_is_final_example :
    perform (forfeits "h" 1) (run (joins "g" ∷ draws 1 ∷ []) (leave "h" hosted).0)
    ≡ ((leave "h" hosted).0, some room_closed)
unfolding leave
leave_is_final_example = leave_is_final "h" hosted (joins "g" ∷ draws 1 ∷ []) (forfeits "h" 1) refl

error_changes_nothing_example : (perform (joins "h") hosted).0 ≡ hosted
unfolding perform join
error_changes_nothing_example = error_changes_nothing (joins "h") hosted (λ e. cc)

submit_move_order_example :
    (state (submit_move "g" paper (submit_move "h" rock (playing [])).0).0
      ≡ state (submit_move "h" rock (submit_move "g" paper (playing [])).0).0)
    × ((submit_move "g" paper (submit_move "h" rock (playing [])).0).0.resolved ≡ true)
    × ((submit_move "g" paper (submit_move "h" rock (playing [])).0).0.result
        ≡ (determine_result rock paper).0)
unfolding is_valid_move
submit_move_order_example =
    submit_move_order (playing []) host_player guest_player rock paper refl ids_differ refl refl
      refl refl refl
