-- ===== src/Postgres/Connections.antt =====
-- A socket's seat, in backend/internal/room/adapter/postgres/deadlines.go: `OpenConnection` and
-- `advancePresenceRevision`.
use rock_paper_money.Postgres.Aggregate.{room_row, seat_of_account}
use rock_paper_money.Prelude.{
  if◌then◌else◌, ◌==◌, nat_eq, bool_eq, string_eq, ℕ, suc, String, Bool, true, false, not, ◌&&◌,
  Option, none, some, List, [], ◌∷◌, ◌++◌,
}
use rock_paper_money.Prelude.Int.{ℤ, ltb_ℤ, int_eq, pos}
use rock_paper_money.Prelude.Dict.{is_some}
use rock_paper_money.Failure.{ok, err, external, room_not_found, unauthorized}
use rock_paper_money.Game.{move_eq, result_eq}
use rock_paper_money.Action.{Action, pure, ◌>>◌}
use rock_paper_money.Application.{Time, Digest}
use rock_paper_money.Postgres.{
  Role, role_eq, status_eq, is_pending, kind_beq, RoomRow, SeatRow, PresenceRow, ConnectionRow,
  DeadlineRow, OutboxRow, SessionRow, Database, transaction, cancelled, disconnect,
}
use rock_paper_money.Postgres.Sql.{row_where, exists_where, update_where}

-- `ConnectionLease`
pub record ConnectionLease : Type 0 where
  pub id : String
  pub session_digest : Digest
  pub room_code : String
  pub account_id : String
  pub connected_at : Time
  pub lease_expires_at : Time

-- `PresenceTransition`; an empty code is a call that found nothing to do.
pub record PresenceTransition : Type 0 where
  pub room_code : String
  pub role : Option Role
  pub generation : ℕ
  pub last_socket : Bool
  pub grace_due_at : Option Time

abbrev pub no_transition : PresenceTransition
no_transition = record {
  room_code = "";
  role = none;
  generation = 0;
  last_socket = false;
  grace_due_at = none;
}

-- `DisconnectGracePeriod`, twenty seconds.
abbrev pub disconnect_grace_period : ℤ
disconnect_grace_period = pos 20000000000

-- `revoked_at IS NULL AND idle_expires_at>$1 AND absolute_expires_at>$1`
unfoldable pub is_session_live : Time → SessionRow → Bool
is_session_live at ws =
    not ws.revoked && ltb_ℤ at ws.idle_expires_at && ltb_ℤ at ws.absolute_expires_at

unfoldable pub connection_row : String → Database → Option ConnectionRow
connection_row id db = row_where (λ (c : ConnectionRow). c.connection_id == id) db.connections

unfoldable pub presence_row : String → String → Database → Option PresenceRow
presence_row code player_id db =
    row_where (λ (p : PresenceRow). p.room_code == code && p.player_id == player_id) db.presence

abbrev pub is_revision : String → ℕ → OutboxRow → Bool
is_revision code revision o = o.room_code == code && o.revision == revision

unfoldable pub insert_outbox : String → ℕ → Database → Database
insert_outbox code revision db = record db {
  next_outbox = suc db.next_outbox;
  outbox =
      db.outbox
      ++ record {
        outbox_id = db.next_outbox;
        room_code = code;
        revision = revision;
        attempts = 0;
        next_attempt_at = db.clock;
        created_at = db.clock;
        published_at = none;
        claim = none;
      }
        ∷ [];
}

-- `INSERT INTO room_outbox`, and the same `ON CONFLICT DO NOTHING`.
unfoldable pub add_outbox : String → ℕ → Action Database (Unit {0})
unfolding insert_outbox exists_where
add_outbox code revision db =
    if exists_where (is_revision code revision) db.outbox
    then (err (external 5), db)
    else (ok tt, insert_outbox code revision db)

unfoldable pub ensure_outbox : String → ℕ → Database → Database
unfolding insert_outbox exists_where
ensure_outbox code revision db =
    if exists_where (is_revision code revision) db.outbox
    then db
    else insert_outbox code revision db

-- `revision=revision+1`
unfoldable pub bump_revision : String → Database → Database
unfolding update_where
bump_revision code db = record db {
  rooms =
      update_where (λ (r : RoomRow). r.code == code)
        (λ (r : RoomRow). record r { revision = suc r.revision }) db.rooms;
}

unfoldable pub advance_presence_revision : String → Action Database (Unit {0})
unfolding room_row bump_revision add_outbox
advance_presence_revision code db = elim (room_row code db) [
  | none ↦ (err (external 0), db)
  | some r ↦ add_outbox code (suc r.revision) (bump_revision code db)
]

-- The seat of an account with a session that is valid at the time.
unfoldable pub authorized_seat : ConnectionLease → Database → Option SeatRow
unfolding is_session_live
authorized_seat lease db =
    if exists_where
      (λ (ws : SessionRow).
        ws.account_id == lease.account_id
        && ws.session_digest == lease.session_digest
        && is_session_live lease.connected_at ws)
      db.sessions
    then seat_of_account lease.room_code lease.account_id db
    else none

unfoldable pub opened_connection : ConnectionLease → Role → ConnectionRow
opened_connection lease role = record {
  connection_id = lease.id;
  session_digest = lease.session_digest;
  room_code = lease.room_code;
  role = role;
  connected_at = lease.connected_at;
  lease_expires_at = lease.lease_expires_at;
  closed_at = none;
}

abbrev pub cancelled_at : Time → DeadlineRow → DeadlineRow
cancelled_at now d = record d { status = cancelled; completed_at = some now }

-- The pending disconnection of a seat in a round and a generation is cancelled.
unfoldable pub cancel_disconnect :
    String → ℕ → Role → ℕ → Time → List DeadlineRow → List DeadlineRow
cancel_disconnect code round role generation now deadlines =
    update_where
      (λ (d : DeadlineRow).
        d.room_code == code
        && d.round_number == round
        && kind_beq d.kind (disconnect role)
        && d.generation == generation
        && is_pending d.status)
      (cancelled_at now) deadlines

-- The presence behind a new connection: its generation, and whether it has changed.
unfoldable pub appear : ConnectionLease → ℕ → Role → String → Database → (ℕ × Bool) × Database
unfolding presence_row cancel_disconnect
appear lease round role player_id db = elim (presence_row lease.room_code player_id db) [
  | none ↦ (
    (1, true),
    record db {
      presence =
          db.presence
          ++ record {
            room_code = lease.room_code;
            player_id = player_id;
            generation = 1;
            deadline = lease.lease_expires_at;
            refreshed_at = lease.connected_at;
            present = true;
          }
            ∷ [];
    },
  )
  | some p ↦ (
    (p.generation, not p.present),
    record db {
      deadlines =
          (if p.present
            then db.deadlines
            else cancel_disconnect lease.room_code round role p.generation lease.connected_at
                db.deadlines);
      presence =
          update_where
            (λ (p : PresenceRow). p.room_code == lease.room_code && p.player_id == player_id)
            (λ (p : PresenceRow). record p {
              present = true;
              deadline = lease.lease_expires_at;
              refreshed_at = lease.connected_at;
            })
            db.presence;
    },
  )
]

-- `OpenConnection` behind the row of the room and the seat.
unfoldable pub open_seat : ConnectionLease → ℕ → SeatRow → Action Database PresenceTransition
unfolding connection_row opened_connection appear advance_presence_revision
open_seat lease round seat db =
    if is_some (connection_row lease.id db)
    then (err (external 4), db)
    else let inserted = record db {
      connections = db.connections ++ opened_connection lease seat.role ∷ [];
    } in
      let ((generation, changed), shown) = appear lease round seat.role seat.player_id inserted in
      let transition : PresenceTransition = record {
        room_code = lease.room_code;
        role = some seat.role;
        generation = generation;
        last_socket = false;
        grace_due_at = none;
      } in
      (do (if changed then advance_presence_revision lease.room_code else pure tt); pure transition)
        shown

unfoldable pub open_connection : ConnectionLease → Action Database PresenceTransition
unfolding room_row authorized_seat open_seat
open_connection lease = transaction (λ db.
    if not (ltb_ℤ lease.connected_at lease.lease_expires_at)
    then (err (external 3), db)
    else elim (room_row lease.room_code db) [
      | none ↦ (err room_not_found, db)
      | some room ↦ elim (authorized_seat lease db) [
        | none ↦ (err unauthorized, db)
        | some seat ↦ open_seat lease room.current_round seat db
      ]
    ])
