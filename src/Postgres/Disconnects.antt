-- ===== src/Postgres/Disconnects.antt =====
-- The end of a socket's lease, in backend/internal/room/adapter/postgres/deadlines.go:
-- `RenewConnection`, `CloseConnection` and `ReapExpiredConnections`. A connection identifier is a
-- uuid; the order of uuids is a parameter.
use rock_paper_money.Postgres.Aggregate.{room_row, seat_of_role}
use rock_paper_money.Prelude.{
  if◌then◌else◌, ◌==◌, ◌/=◌, nat_eq, bool_eq, string_eq, ℕ, suc, String, Bool, true, false, not,
  ◌&&◌, ◌||◌, Option, none, some, List, [], ◌∷◌,
}
use rock_paper_money.Prelude.Int.{◌+ℤ◌, ltb_ℤ, leb_ℤ, int_eq}
use rock_paper_money.Prelude.Dict.{is_some}
use rock_paper_money.Failure.{ok, err, external, unauthorized}
use rock_paper_money.Game.{move_eq, result_eq}
use rock_paper_money.Action.{Action, pure, ◌>>◌}
use rock_paper_money.Application.{Time}
use rock_paper_money.Worker.{Call}
use rock_paper_money.Postgres.{
  Role, role_eq, status_eq, SeatRow, PresenceRow, ConnectionRow, SessionRow, Database, transaction,
  disconnect,
}
use rock_paper_money.Postgres.Sql.{rows_where, exists_where, update_where, sorted_rows}
use rock_paper_money.Postgres.Wallets.{add_deadline}
use rock_paper_money.Postgres.Connections.{
  PresenceTransition, no_transition, disconnect_grace_period, is_session_live, connection_row,
  presence_row, advance_presence_revision,
}

-- A connection that `RenewConnection` may renew: open, with its seat's valid session.
unfoldable pub is_renewable : Time → Database → ConnectionRow → Bool
unfolding is_session_live
is_renewable at db c =
    not (is_some c.closed_at)
    && exists_where
        (λ (ws : SessionRow).
          ws.session_digest == c.session_digest
          && is_session_live at ws
          && exists_where
              (λ (s : SeatRow).
                s.room_code == c.room_code && s.role == c.role && s.auth_user_id == ws.account_id)
              db.seats)
        db.sessions

unfoldable pub renew_connection : String → Time → Time → Action Database (Unit {0})
unfolding connection_row is_renewable
renew_connection id observed_at lease_expires_at db =
    if not (ltb_ℤ observed_at lease_expires_at)
    then (err (external 3), db)
    else elim (connection_row id db) [
      | none ↦ (err unauthorized, db)
      | some c ↦
          if not (is_renewable observed_at db c)
          then (err unauthorized, db)
          else if not (ltb_ℤ c.connected_at lease_expires_at)
          then (err (external 6), db)
          else (
            ok tt,
            record db {
              connections =
                  update_where (λ (c : ConnectionRow). c.connection_id == id)
                    (λ (c : ConnectionRow). record c { lease_expires_at = lease_expires_at })
                    db.connections;
            },
          )
    ]

-- An open connection that holds its seat at a time.
unfoldable pub is_connected : String → Role → Time → Database → Bool
is_connected code role at db =
    exists_where
      (λ (c : ConnectionRow).
        c.room_code == code
        && c.role == role
        && not (is_some c.closed_at)
        && ltb_ℤ at c.lease_expires_at)
      db.connections

-- The player is gone, with the deadline for the way back.
unfoldable pub disappear : String → ℕ → Role → String → Time → PresenceRow → Database → Database
unfolding add_deadline
disappear code round role player_id disappeared_at p db =
    let grace_due_at = disappeared_at +ℤ disconnect_grace_period in
    add_deadline code round (disconnect role) (suc p.generation) grace_due_at (record db {
      presence =
          update_where (λ (p : PresenceRow). p.room_code == code && p.player_id == player_id)
            (λ (q : PresenceRow). record q {
              present = false;
              generation = suc p.generation;
              deadline = grace_due_at;
            })
            db.presence;
    })

-- `closeConnection` behind the update of the connection's row.
unfoldable pub leave_seat : String → ℕ → Role → String → Time → Action Database PresenceTransition
unfolding is_connected presence_row disappear advance_presence_revision
leave_seat code round role player_id disappeared_at db =
    let transition : PresenceTransition = record no_transition {
      room_code = code;
      role = some role;
    } in
    if is_connected code role disappeared_at db
    then (ok transition, db)
    else elim (presence_row code player_id db) [
      | none ↦ (err (external 0), db)
      | some p ↦
          if not p.present
          then (ok (record transition { generation = p.generation }), db)
          else (do
            advance_presence_revision code
            pure (record transition {
              generation = suc p.generation;
              last_socket = true;
              grace_due_at = some (disappeared_at +ℤ disconnect_grace_period);
            }))
              (disappear code round role player_id disappeared_at p db)
    ]

abbrev pub has_expired_by : Option Time → ConnectionRow → Bool
has_expired_by none c = true
has_expired_by (some by) c = leb_ℤ c.lease_expires_at by

-- `closeConnection`. Its last argument is the bound on the lease that the reaper sets.
unfoldable pub close_connection_by :
    String → Time → Option Time → Action Database PresenceTransition
unfolding connection_row seat_of_role room_row leave_seat
close_connection_by id disappeared_at lease_expired_by = transaction (λ db.
    elim (connection_row id db) [
      | none ↦ (ok no_transition, db)
      | some c ↦ elim (seat_of_role c.room_code c.role db) [
        | none ↦ (ok no_transition, db)
        | some seat ↦ elim (room_row c.room_code db) [
          | none ↦ (err (external 0), db)
          | some room ↦
              if is_some c.closed_at || not (has_expired_by lease_expired_by c)
              then (ok no_transition, db)
              else if ltb_ℤ disappeared_at c.connected_at
              then (err (external 6), db)
              else leave_seat c.room_code room.current_round c.role seat.player_id disappeared_at
                  (record db {
                    connections =
                        update_where (λ (c : ConnectionRow). c.connection_id == id)
                          (λ (c : ConnectionRow). record c { closed_at = some disappeared_at })
                          db.connections;
                  })
        ]
      ]
    ])

unfoldable pub close_connection : String → Time → Action Database PresenceTransition
unfolding close_connection_by
close_connection id disappeared_at = close_connection_by id disappeared_at none

module _ (id_before : String → String → Bool) where
  unfoldable pub lease_before : ConnectionRow → ConnectionRow → Bool
  lease_before c d =
      ltb_ℤ c.lease_expires_at d.lease_expires_at
      || c.lease_expires_at == d.lease_expires_at && id_before c.connection_id d.connection_id

  -- The loop of `ReapExpiredConnections`, with the connections that it has closed so far.
  unfoldable pub reap : Time → List ConnectionRow → ℕ → Call Database ℕ
  unfolding close_connection_by
  reap now [] reaped db = (reaped, none, db)
  reap now (c ∷ cs) reaped db =
      let (r, db') = close_connection_by c.connection_id c.lease_expires_at (some now) db in
      elim r [
        | err e ↦ (reaped, some e, db')
        | ok transition ↦
            reap now cs (if transition.room_code /= "" then suc reaped else reaped) db'
      ]

  unfoldable pub reap_expired_connections : Time → Call Database ℕ
  unfolding sorted_rows reap
  reap_expired_connections now db =
      reap now
        (sorted_rows lease_before (
          rows_where
            (λ (c : ConnectionRow). not (is_some c.closed_at) && leb_ℤ c.lease_expires_at now)
            db.connections))
        0 db
