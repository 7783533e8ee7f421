-- ===== src/Postgres/Stuck.antt =====
-- What becomes of a due deadline whose round has not been funded, in
-- backend/internal/room/adapter/postgres/deadlines.go and backend/internal/worker/deadlines.go.
-- `closeConnection` makes one for a host who leaves before anybody has joined.
use rock_paper_money.Failure.{Error, ok}
use rock_paper_money.Prelude.{
  nat_eq, bool_eq, string_eq, ℕ, zero, suc, String, ◌≡◌, refl, Bool, true, false, Option, none,
  some, arith,
}
use rock_paper_money.Prelude.Int.{int_eq}
use rock_paper_money.Game.{move_eq, result_eq}
use rock_paper_money.Application.{Time}
use rock_paper_money.Memory.{GoLibrary}
use rock_paper_money.Worker.Deadlines.{
  DeadlineRunReport, count_deadline, process_deadlines, reaped, run_reaped, run_once,
}
use rock_paper_money.Postgres.{role_eq, status_eq, DeadlineRow, Database}
use rock_paper_money.Postgres.Disconnects.{reap_expired_connections}
use rock_paper_money.Postgres.Deadlines.{
  candidate, is_round_active, is_round_funded, stale_result, process_candidate,
  process_next_deadline, deadline_port,
}

-- The first due deadline belongs to the current, active round of an open room, and the round has
-- not been funded.
pub record IsStuck (now : Time) (db : Database) : Type 0 where
  pub first : DeadlineRow
  pub is_candidate : candidate now db.deadlines ≡ some first
  pub is_active : is_round_active first.room_code first.round_number db ≡ true
  pub is_unfunded : is_round_funded first.room_code first.round_number db ≡ false

module _ (go : GoLibrary) (now : Time) (db : Database) where
  -- A deadline of an active round that has not been funded is reported as processed, and nothing
  -- is written.
  pub process_next_deadline-IsStuck :
      (h : IsStuck now db)
      → process_next_deadline go now db ≡ (ok (stale_result h.first.due_at), db)
  unfolding process_next_deadline process_candidate
  process_next_deadline-IsStuck h = ground (arith, h.is_candidate, h.is_active, h.is_unfunded)

  -- The loop of the deadline worker over such a store does not end.
  pub process_deadlines-IsStuck :
      (id_before : String → String → Bool)
      → IsStuck now db
      → (fuel : ℕ) (report : DeadlineRunReport)
      → process_deadlines (deadline_port go id_before) now fuel report db ≡ none
  unfolding process_deadlines deadline_port
  process_deadlines-IsStuck id_before h zero report = refl
  process_deadlines-IsStuck id_before h (suc fuel) report = ground (
    arith,
    process_next_deadline-IsStuck h,
    process_deadlines-IsStuck id_before h fuel
        (count_deadline now (stale_result h.first.due_at) report),
  )

run_reaped-IsStuck :
    (go : GoLibrary) (now : Time) (id_before : String → String → Bool)
    (r : ℕ × Option Error × Database)
    → r.1 ≡ none
    → IsStuck now r.2
    → (fuel : ℕ) → run_reaped (deadline_port go id_before) now fuel r ≡ none
unfolding run_reaped
run_reaped-IsStuck go now id_before (expired, some e, db) reaping h fuel =
    absurd (ground (arith, reaping))
run_reaped-IsStuck go now id_before (expired, none, db) reaping h fuel = ground (
  arith,
  process_deadlines-IsStuck go now db id_before h fuel
      (reaped (deadline_port go id_before) now expired),
)

-- A run of the deadline worker over the Postgres store does not end, on any fuel, where the first
-- due deadline after the reaping belongs to the current, active round of an open room, and that
-- round has not been funded: the deadline is neither claimed nor cancelled, yet reported processed.
pub run_once-IsStuck :
    (go : GoLibrary) (id_before : String → String → Bool) (now : Time) (db : Database)
    → (reap_expired_connections id_before now db).1 ≡ none
    → IsStuck now (reap_expired_connections id_before now db).2
    → (fuel : ℕ) → run_once (deadline_port go id_before) now fuel db ≡ none
unfolding run_once deadline_port
run_once-IsStuck go id_before now db reaping h fuel =
    run_reaped-IsStuck go now id_before (reap_expired_connections id_before now db) reaping h fuel
