-- ===== src/Postgres/Presence.antt =====
-- `RefreshPresence` and `ForfeitExpired` of
-- backend/internal/room/adapter/postgres/repository.go.
use rock_paper_money.Prelude.{
  if◌then◌else◌, length, ◌==◌, ◌/=◌, nat_eq, bool_eq, string_eq, ℕ, suc, String, Bool, true, false,
  not, ◌&&◌, Option, none, some, List, [], ◌∷◌,
}
use rock_paper_money.Prelude.Int.{ℤ, ◌+ℤ◌, ◌-ℤ◌, ltb_ℤ, int_eq}
use rock_paper_money.Prelude.Dict.{is_some}
use rock_paper_money.Failure.{
  Error, Fallible, ok, err, external, room_not_found, unauthorized, stale_round, round_resolved,
  room_closed,
}
use rock_paper_money.Game.{move_eq, result_eq}
use rock_paper_money.Room.{Room, state}
use rock_paper_money.Room.Actions.{Outcome}
use rock_paper_money.Room.Deadlines.{forfeit}
use rock_paper_money.Action.{Action, pure, raise_if, lift, ◌>>=◌, ◌>>◌}
use rock_paper_money.Application.{Time, Snapshot, PresenceLease, PresenceWindow}
use rock_paper_money.Memory.{GoLibrary}
use rock_paper_money.Postgres.{
  role_eq, status_eq, RoomRow, SeatRow, PresenceRow, Database, transaction,
}
use rock_paper_money.Postgres.Sql.{rows_where, exists_where, update_where}
use rock_paper_money.Postgres.Aggregate.{room_row, round_row, seat_of_account}
use rock_paper_money.Postgres.Wallets.{fund_round, settle_round}
use rock_paper_money.Postgres.Repository.{Change, write}
use rock_paper_money.Postgres.Connections.{presence_row}

-- `INSERT INTO room_presence … ON CONFLICT DO UPDATE` of `RefreshPresence`.
unfoldable pub refresh_row : String → String → PresenceWindow → List PresenceRow → List PresenceRow
refresh_row code player_id window [] =
    record {
      room_code = code;
      player_id = player_id;
      generation = 1;
      deadline = window.deadline;
      refreshed_at = window.observed_at;
      present = false;
    }
    ∷ []
refresh_row code player_id window (p ∷ ps) =
    if p.room_code == code && p.player_id == player_id
    then record p { deadline = window.deadline; refreshed_at = window.observed_at } ∷ ps
    else p ∷ refresh_row code player_id window ps

unfoldable pub next_generation : String → List PresenceRow → List PresenceRow
unfolding update_where
next_generation code presence =
    update_where (λ (p : PresenceRow). p.room_code == code)
      (λ (p : PresenceRow). record p { generation = suc p.generation }) presence

unfoldable pub leases_of : String → ℕ → Bool → ℤ → List PresenceRow → List PresenceLease
leases_of code round is_active delay [] = []
leases_of code round is_active delay (p ∷ ps) =
    record {
      room_code = code;
      player_id = p.player_id;
      round = round;
      generation = p.generation;
      deadline = p.deadline;
      evaluate_at = p.deadline +ℤ delay;
      proof_after = p.deadline;
      active = is_active;
    }
    ∷ leases_of code round is_active delay ps

-- An open room with two seats, whose round has no result.
unfoldable pub is_in_play : String → RoomRow → Database → Bool
unfolding rows_where round_row
is_in_play code r db =
    not r.is_closed
    && elim (round_row code r.current_round db) [ none ↦ true | some rr ↦ not (is_some rr.result) ]
    && length (rows_where (λ (s : SeatRow). s.room_code == code) db.seats) == 2

unfoldable pub refresh_presence :
    String → String → PresenceWindow → Action Database (List PresenceLease)
unfolding room_row seat_of_account refresh_row next_generation rows_where leases_of is_in_play
refresh_presence code auth_user_id window = transaction (λ db. elim (room_row code db) [
  | none ↦ (err room_not_found, db)
  | some r ↦ elim (seat_of_account code auth_user_id db) [
    | none ↦ (err unauthorized, db)
    | some s ↦
        let presence = next_generation code (refresh_row code s.player_id window db.presence) in
        (
          ok (
              leases_of code r.current_round (is_in_play code r db)
                (window.evaluate_at -ℤ window.deadline)
                (rows_where (λ (p : PresenceRow). p.room_code == code) presence)),
          record db { presence = presence },
        )
  ]
])

-- `errPresenceLeaseCurrent`
abbrev pub presence_lease_current : Error
presence_lease_current = external 13

abbrev pub is_lease_current : Error → Bool
is_lease_current (external n) = n == 13
is_lease_current _ = false

-- The errors of `Forfeit` that `ForfeitExpired` takes for a late attempt.
abbrev pub late_error : Error → Error
late_error stale_round = presence_lease_current
late_error round_resolved = presence_lease_current
late_error room_closed = presence_lease_current
late_error e = e

abbrev pub forfeited : Outcome → Fallible Room
forfeited (r, none) = ok r
forfeited (r, some e) = err (late_error e)

-- The lease's generation is the present one, and its deadline has passed.
unfoldable pub is_lease_over : PresenceLease → Time → Database → Bool
unfolding presence_row
is_lease_over lease now db = elim (presence_row lease.room_code lease.player_id db) [
  | none ↦ false
  | some p ↦ p.generation == lease.generation && not (ltb_ℤ now p.deadline)
]

-- Somebody else in the room has been seen since.
unfoldable pub is_other_connected : PresenceLease → Time → Database → Bool
unfolding exists_where
is_other_connected lease now db =
    exists_where
      (λ (p : PresenceRow).
        p.room_code == lease.room_code
        && p.player_id /= lease.player_id
        && ltb_ℤ now p.deadline
        && ltb_ℤ lease.proof_after p.refreshed_at)
      db.presence

unfoldable pub forfeit_change : GoLibrary → PresenceLease → Time → Change
unfolding is_lease_over is_other_connected fund_round settle_round
forfeit_change go lease now aggregate _ = do
  λ db. raise_if (not (is_lease_over lease now db)) presence_lease_current db
  λ db. raise_if (not (is_other_connected lease now db)) presence_lease_current db
  λ db. fund_round go db.clock lease.room_code aggregate.round "" db
  changed ← lift (forfeited (forfeit lease.player_id lease.round aggregate))
  settle_round go lease.room_code (state changed)
  pure changed

-- The snapshot of a forfeit; `none` where there was nothing to forfeit.
abbrev pub forfeit_result : Fallible Snapshot × Database → Fallible (Option Snapshot) × Database
forfeit_result (ok s, db) = (ok (some s), db)
forfeit_result (err e, db) = if is_lease_current e then (ok none, db) else (err e, db)

unfoldable pub forfeit_expired :
    GoLibrary → PresenceLease → Time → Action Database (Option Snapshot)
unfolding write forfeit_change
forfeit_expired go lease now db =
    forfeit_result (write lease.room_code none (forfeit_change go lease now) db)
