-- ===== src/Postgres/SocketBooks.antt =====
-- Presence, sockets and the outbox keep the books of the Postgres store: what
-- backend/internal/room/adapter/postgres/repository.go, deadlines.go and outbox.go do beside the
-- rounds.
use rock_paper_money.Action.{pure}
use rock_paper_money.Failure.{Error, Fallible, ok, err, room_not_found, external, unauthorized}
use rock_paper_money.Prelude.{
  Option-cases, inl, inr, if◌then◌else◌, Option-cases, ◌==◌, ◌/=◌, nat_eq, bool_eq, string_eq, ℕ,
  suc, String, refl, inl, inr, Bool, true, false, not, ◌||◌, Option, none, some, List, [], ◌∷◌,
  ◌++◌, arith,
}
use rock_paper_money.Prelude.Int.{ℤ, ltb_ℤ, int_eq}
use rock_paper_money.Prelude.Dict.{is_some}
use rock_paper_money.Game.{move_eq, result_eq}
use rock_paper_money.Room.{state}
use rock_paper_money.Room.Deadlines.{forfeit}
use rock_paper_money.Application.{Time, PresenceLease, PresenceWindow, Snapshot}
use rock_paper_money.Memory.{GoLibrary}
use rock_paper_money.Postgres.{
  Role, role_eq, status_eq, RoomRow, SeatRow, PresenceRow, ConnectionRow, OutboxRow, Database,
  disconnect,
}
use rock_paper_money.Postgres.Aggregate.{seat_of_role, room_row}
use rock_paper_money.Postgres.Wallets.{user_account_id}
use rock_paper_money.Postgres.Repository.{balance, write}
use rock_paper_money.Postgres.Sql.{update_where}
use rock_paper_money.Postgres.Presence.{
  refresh_presence, presence_lease_current, is_lease_current, forfeited, is_lease_over,
  is_other_connected, forfeit_change, forfeit_result, forfeit_expired,
}
use rock_paper_money.Postgres.Connections.{
  ConnectionLease, PresenceTransition, no_transition, connection_row, presence_row, bump_revision,
  advance_presence_revision, authorized_seat, opened_connection, appear, open_seat, open_connection,
}
use rock_paper_money.Postgres.Disconnects.{
  renew_connection, is_connected, disappear, leave_seat, has_expired_by, close_connection_by,
  close_connection, reap, reap_expired_connections,
}
use rock_paper_money.Postgres.Deadlines.{cleanup_deadlines}
use rock_paper_money.Worker.Outbox.{OutboxRecord}
use rock_paper_money.Postgres.Outbox.{
  claim_outbox, update_claimed, published, released, mark_outbox_published, release_outbox,
  cleanup_published_outbox,
}
use rock_paper_money.Postgres.Recharges.{cleanup_command_receipts}
use rock_paper_money.Postgres.Ledger.{IsLedger, same-IsLedger, ensure_account-IsLedger}
use rock_paper_money.Postgres.Books.{
  settled-IsLedger, Keeps, if-IsLedger, option-IsLedger, transaction-Keeps, >>=-Keeps,
  add_deadline-IsLedger, fund_round-Keeps, settle_round-Keeps,
}
use rock_paper_money.Postgres.Runs.{write-Keeps, raise_if-Keeps, lift-Keeps}
use rock_paper_money.Postgres.WorkerBooks.{add_outbox-Keeps}

pub balance-Keeps : (account : String) → Keeps (balance account)
unfolding balance
balance-Keeps account db h = ensure_account-IsLedger (user_account_id account) db h

pub refresh_presence-Keeps :
    (code account : String) (window : PresenceWindow) → Keeps (refresh_presence code account window)
unfolding refresh_presence
refresh_presence-Keeps code account window db h =
    same-IsLedger db (refresh_presence code account window db).1 (ground arith) (ground arith) h

forfeit_result-IsLedger :
    (r : Fallible Snapshot × Database) → IsLedger r.1 → IsLedger (forfeit_result r).1
forfeit_result-IsLedger (ok s, db) h = h
forfeit_result-IsLedger (err e, db) h = if-IsLedger (is_lease_current e) _ _ h (λ _. h)

pub forfeit_expired-Keeps :
    (go : GoLibrary) (lease : PresenceLease) (now : Time) → Keeps (forfeit_expired go lease now)
unfolding forfeit_expired forfeit_change
forfeit_expired-Keeps go lease now db h =
    forfeit_result-IsLedger (write lease.room_code none (forfeit_change go lease now) db) (
      write-Keeps lease.room_code none (forfeit_change go lease now)
        (λ aggregate _.
          >>=-Keeps _ _
            (raise_if-Keeps (λ db. not (is_lease_over lease now db)) presence_lease_current)
            (λ _.
              >>=-Keeps _ _
                (raise_if-Keeps (λ db. not (is_other_connected lease now db))
                  presence_lease_current)
                (λ _.
                  >>=-Keeps _ _
                    (λ db h. fund_round-Keeps go db.clock lease.room_code aggregate.round "" db h)
                    (λ _.
                      >>=-Keeps _ _
                        (lift-Keeps (forfeited (forfeit lease.player_id lease.round aggregate)))
                        (λ changed.
                          >>=-Keeps _ _ (settle_round-Keeps go lease.room_code (state changed))
                            (λ _. λ db h. h))))))
        db h)

advance_presence_revision-Keeps : (code : String) → Keeps (advance_presence_revision code)
unfolding advance_presence_revision bump_revision
advance_presence_revision-Keeps code db h = option-IsLedger (room_row code db) _ _ h (λ r.
    add_outbox-Keeps code (suc r.revision) (bump_revision code db)
      (same-IsLedger db (bump_revision code db) refl refl h))

appear-IsLedger :
    (lease : ConnectionLease) (round : ℕ) (role : Role) (player_id : String) (db : Database)
    → IsLedger db
    → IsLedger (appear lease round role player_id db).1
unfolding appear
appear-IsLedger lease round role player_id db h = same-IsLedger db _ (ground arith) (ground arith) h

open_seat-Keeps :
    (lease : ConnectionLease) (round : ℕ) (seat : SeatRow) → Keeps (open_seat lease round seat)
unfolding open_seat
open_seat-Keeps lease round seat db h =
    if-IsLedger (is_some (connection_row lease.id db)) _ _ h (λ _.
      >>=-Keeps _ _ (advanced (appear lease round seat.role seat.player_id inserted).0.1)
        (λ _. λ db' k. k) (appear lease round seat.role seat.player_id inserted).1
        (appear-IsLedger lease round seat.role seat.player_id inserted
          (same-IsLedger db inserted refl refl h)))
  where
    inserted : Database
    inserted = record db { connections = db.connections ++ opened_connection lease seat.role ∷ [] }

    advanced : (b : Bool) → Keeps (if b then advance_presence_revision lease.room_code else pure tt)
    advanced true = advance_presence_revision-Keeps lease.room_code
    advanced false = λ db' k. k

pub open_connection-Keeps : (lease : ConnectionLease) → Keeps (open_connection lease)
unfolding open_connection
open_connection-Keeps lease = transaction-Keeps {A = PresenceTransition} _ (λ db h.
    opened db h (not (ltb_ℤ lease.connected_at lease.lease_expires_at))
      (room_row lease.room_code db) (authorized_seat lease db))
  where
    opened :
        (db : Database)
        → IsLedger db
        → (b : Bool) (o : Option RoomRow) (s : Option SeatRow)
        → IsLedger
            (if b
              then (err (external 3), db)
              else elim o as (λ _. Fallible PresenceTransition × Database) [
                | none ↦ (err room_not_found, db)
                | some room ↦ elim s as (λ _. Fallible PresenceTransition × Database) [
                  | none ↦ (err unauthorized, db)
                  | some seat ↦ open_seat lease room.current_round seat db
                ]
              ]).1
    opened db h true o s = h
    opened db h false none s = h
    opened db h false (some room) none = h
    opened db h false (some room) (some seat) = open_seat-Keeps lease room.current_round seat db h

pub renew_connection-Keeps : (id : String) (at until : Time) → Keeps (renew_connection id at until)
unfolding renew_connection
renew_connection-Keeps id at until db h =
    same-IsLedger db (renew_connection id at until db).1 (ground arith) (ground arith) h

disappear-IsLedger :
    (code : String) (round : ℕ) (role : Role) (player_id : String) (at : Time) (p : PresenceRow)
    (db : Database)
    → IsLedger db
    → IsLedger (disappear code round role player_id at p db)
unfolding disappear
disappear-IsLedger code round role player_id at p db h =
    add_deadline-IsLedger code round (disconnect role) (suc p.generation) _ _
      (same-IsLedger db _ refl refl h)

leave_seat-Keeps :
    (code : String) (round : ℕ) (role : Role) (player_id : String) (at : Time)
    → Keeps (leave_seat code round role player_id at)
unfolding leave_seat
leave_seat-Keeps code round role player_id at db h =
    if-IsLedger (is_connected code role at db) _ _ h (λ _.
      option-IsLedger {A = PresenceTransition} (presence_row code player_id db) _ _ h (λ p.
        if-IsLedger (not p.present) _ _ h (λ _.
          >>=-Keeps _ _ (advance_presence_revision-Keeps code) (λ _. λ db' k. k)
            (disappear code round role player_id at p db)
            (disappear-IsLedger code round role player_id at p db h))))

abbrev closed_row : String → Time → Database → Database
closed_row id at db = record db {
  connections =
      update_where (λ (c : ConnectionRow). c.connection_id == id)
        (λ (c : ConnectionRow). record c { closed_at = some at }) db.connections;
}

close_connection_by-Keeps :
    (id : String) (at : Time) (by : Option Time) → Keeps (close_connection_by id at by)
unfolding close_connection_by
close_connection_by-Keeps id at by db h = elim (Option-cases (connection_row id db)) [
  | inl e ↦ rw e h
  | inr (c, e) ↦ elim (Option-cases (seat_of_role c.room_code c.role db)) [
    | inl f ↦ rw (e, f) h
    | inr (seat, f) ↦ elim (Option-cases (room_row c.room_code db)) [
      | inl g ↦ rw (e, f, g) h
      | inr (room, g) ↦
          rw (e, f, g)
            (settled-IsLedger {A = PresenceTransition} db _ h (
              if-IsLedger {A = PresenceTransition}
                (is_some c.closed_at || not (has_expired_by by c)) (ok no_transition, db) _ h
                (λ _.
                  if-IsLedger {A = PresenceTransition} (ltb_ℤ at c.connected_at)
                    (err (external 6), db)
                    (leave_seat c.room_code room.current_round c.role seat.player_id at
                      (closed_row id at db))
                    h
                    (λ _.
                      leave_seat-Keeps c.room_code room.current_round c.role seat.player_id at
                        (closed_row id at db)
                        (same-IsLedger db (closed_row id at db) refl refl h)))))
    ]
  ]
]

pub close_connection-Keeps : (id : String) (at : Time) → Keeps (close_connection id at)
unfolding close_connection
close_connection-Keeps id at = close_connection_by-Keeps id at none

module _ (id_before : String → String → Bool) (now : Time) where
  reap-IsLedger :
      (cs : List ConnectionRow) (reaped : ℕ) (db : Database)
      → IsLedger db
      → IsLedger (reap id_before now cs reaped db).2
  unfolding reap
  reap-IsLedger [] reaped db h = h
  reap-IsLedger (c ∷ cs) reaped db h =
      step (close_connection_by c.connection_id c.lease_expires_at (some now) db)
        (λ n db' k. reap-IsLedger cs n db' k)
        (close_connection_by-Keeps c.connection_id c.lease_expires_at (some now) db h)
    where
      step :
          (r : Fallible PresenceTransition × Database)
          → ((n : ℕ) (db' : Database) → IsLedger db' → IsLedger (reap id_before now cs n db').2)
          → IsLedger r.1
          → IsLedger
              (elim r.0 as (λ _. ℕ × Option Error × Database) [
                | err e ↦ (reaped, some e, r.1)
                | ok transition ↦
                    reap id_before now cs
                      (if transition.room_code /= "" then suc reaped else reaped)
                      r.1
              ]).2
      step (err e, db') rest k = k
      step (ok transition, db') rest k = rest _ db' k

  pub reap_expired_connections-IsLedger :
      (db : Database) → IsLedger db → IsLedger (reap_expired_connections id_before now db).2
  unfolding reap_expired_connections
  reap_expired_connections-IsLedger db h = reap-IsLedger _ 0 db h

pub claim_outbox-Keeps :
    (token : String) (now : Time) (limit lease : ℤ) → Keeps (claim_outbox token now limit lease)
unfolding claim_outbox
claim_outbox-Keeps token now limit lease db h =
    same-IsLedger db (claim_outbox token now limit lease db).1 (ground arith) (ground arith) h

update_claimed-Keeps : (r : OutboxRecord) (f : OutboxRow → OutboxRow) → Keeps (update_claimed r f)
unfolding update_claimed
update_claimed-Keeps r f db h =
    same-IsLedger db (update_claimed r f db).1 (ground arith) (ground arith) h

pub mark_outbox_published-Keeps :
    (r : OutboxRecord) (at : Time) → Keeps (mark_outbox_published r at)
unfolding mark_outbox_published
mark_outbox_published-Keeps r at = update_claimed-Keeps r (published at)

pub release_outbox-Keeps : (r : OutboxRecord) (at : Time) → Keeps (release_outbox r at)
unfolding release_outbox
release_outbox-Keeps r at = update_claimed-Keeps r (released at)

pub cleanup_deadlines-IsLedger :
    (before : Time) (db : Database) → IsLedger db → IsLedger (cleanup_deadlines before db).2
unfolding cleanup_deadlines
cleanup_deadlines-IsLedger before db h = same-IsLedger db _ refl refl h

pub cleanup_published_outbox-IsLedger :
    (before : Time) (db : Database) → IsLedger db → IsLedger (cleanup_published_outbox before db).2
unfolding cleanup_published_outbox
cleanup_published_outbox-IsLedger before db h = same-IsLedger db _ refl refl h

pub cleanup_command_receipts-IsLedger :
    (before : Time) (db : Database) → IsLedger db → IsLedger (cleanup_command_receipts before db).2
unfolding cleanup_command_receipts
cleanup_command_receipts-IsLedger before db h = same-IsLedger db _ refl refl h
