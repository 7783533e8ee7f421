-- ===== src/Socket.antt =====
-- The sockets that snapshots are sent over, backend/internal/realtime/websocket.go: the queue of a
-- socket, the frame of a snapshot, and what a socket does with an event. The connection itself and
-- the timers are not modelled; the tables of the sessions and of the rooms are.
pub mod Serve
mod Tests
use rock_paper_money.Prelude.{
  ltb, leb, nat_beq, if◌then◌else◌, nat_beq_iff, Bool-cases, Option-cases, length, length-append,
  All, Eq, ◌==◌, ◌/=◌, nat_eq, bool_beq, bool_beq_iff, bool_eq, string_eq, ==_refl, ==_of_eq,
  ==_of_ne, ==_sym, Eq-cases, ℕ, zero, suc, ◌+◌, ◌-◌, ◌*◌, ◌/◌, ◌%◌, ◌^◌, ◌≤◌, ◌<◌, String, concat,
  ◌≡◌, refl, sym, ap, subst, ◌∙◌, ◌≢◌, ◌↔◌, ◌⊎◌, inl, inr, Bool, true, false, not, ◌&&◌, ◌||◌,
  Option, none, some, List, [], ◌∷◌, ◌++◌, map, arith,
}
use rock_paper_money.Prelude.Int.{
  ℤ, pos_part, neg_part, sub_ℕ, ◌+ℤ◌, ◌-ℤ◌, ◌≤ℤ◌, ltb_ℤ, leb_ℤ, +ℤ_parts, -ℤ_parts, eq_of_parts,
  +ℤ_assoc, +ℤ_swap, +ℤ_comm, +ℤ_zero, int_laws, inc_int, ℤ_beq, ℤ_beq_iff, int_eq, max_int64,
  wrap64, add64, sub64, sub64_pos, add64_pos, pos, negsuc,
}
use rock_paper_money.Prelude.Dict.{Dict, lookup, insert, get_or}
use rock_paper_money.Game.{Move, Result, move_eq, result_eq, unset}
use rock_paper_money.Room.{Player, PlayerMove, State}
use rock_paper_money.Application.{Snapshot}

-- `snapshotQueue`: a channel of capacity one.
abbrev pub SnapshotQueue : Type 0
SnapshotQueue = Option Snapshot

-- A send that does not wait.
abbrev pub send_if_empty : Snapshot → SnapshotQueue → SnapshotQueue
send_if_empty s none = some s
send_if_empty s (some t) = some t

-- A receive that does not wait.
abbrev pub drain : SnapshotQueue → SnapshotQueue
drain q = none

-- `Offer`. The reader may take the waiting snapshot between the first `select` and the second.
unfoldable pub offer : Bool → Snapshot → SnapshotQueue → SnapshotQueue
offer is_taken s none = some s
offer is_taken s (some waiting) = send_if_empty s (drain (if is_taken then none else some waiting))

pub record PublicPlayer : Type 0 where
  pub role : String
  pub wins : ℤ
  pub submitted : Bool
  pub wants_next_round : Bool

pub record PublicMove : Type 0 where
  pub role : String
  pub move : Move

pub record PublicRoom : Type 0 where
  pub code : String
  pub ready : Bool
  pub resolved : Bool
  pub round : ℕ
  pub closed : Bool
  pub forfeit : Bool
  pub players : List PublicPlayer
  pub result : Result
  pub moves : List PublicMove

pub record SocketFrame : Type 0 where
  pub revision : ℕ
  pub room : PublicRoom
  pub presence : Dict String Bool
  pub account_id : String
  pub role : String

abbrev pub role_at : ℕ → String
role_at zero = "host"
role_at (suc n) = "guest"

-- The loop over the players, from an index: their roles and what is shown of them.
unfoldable pub public_players :
    ℕ → List Player → Dict String String → Dict String String × List PublicPlayer
unfolding insert
public_players index [] roles = (roles, [])
public_players index (p ∷ ps) roles =
    let (roles', shown) = public_players (suc index) ps (insert p.id (role_at index) roles) in
    (
      roles',
      record {
        role = role_at index;
        wins = p.wins;
        submitted = p.submitted;
        wants_next_round = p.wants_next_round;
      }
          ∷ shown,
    )

unfoldable pub public_moves : Dict String String → List PlayerMove → List PublicMove
unfolding lookup
public_moves roles [] = []
public_moves roles (m ∷ ms) =
    record { role = get_or (lookup m.player_id roles) ""; move = m.move } ∷ public_moves roles ms

unfoldable pub snapshot_frame : Snapshot → String → String → SocketFrame
unfolding public_players public_moves
snapshot_frame snapshot account_id role =
    let s = snapshot.state in
    let (roles, players) = public_players 0 s.players [] in
    record {
      revision = snapshot.revision;
      room = record {
        code = s.code;
        ready = s.ready;
        resolved = s.resolved;
        round = s.round;
        closed = s.closed;
        forfeit = s.forfeit;
        players = players;
        result = if s.resolved then s.result else unset;
        moves = if s.resolved then public_moves roles s.moves else [];
      };
      presence = snapshot.presence;
      account_id = account_id;
      role = role;
    }
