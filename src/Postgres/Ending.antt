-- ===== src/Postgres/Ending.antt =====
-- How a run of the deadline worker over the Postgres store ends,
-- backend/internal/worker/deadlines.go and backend/internal/room/adapter/postgres/deadlines.go.
use rock_paper_money.Prelude.{
  nat_eq, bool_eq, string_eq, ℕ, ◌<◌, String, ◌≡◌, refl, ◌⊎◌, Bool, true, arith, zero, suc, none,
  inl, inr,
}
use rock_paper_money.Prelude.Int.{int_eq}
use rock_paper_money.Failure.{Fallible, ok, err}
use rock_paper_money.Game.{move_eq, result_eq}
use rock_paper_money.Application.{Time}
use rock_paper_money.Memory.{GoLibrary}
use rock_paper_money.Worker.Deadlines.{
  DeadlineResult, DeadlineRunReport, count_deadline, process_deadlines, run_once,
}
use rock_paper_money.Worker.Totals.{Consumes, Sticks, here, there, Ends, run_once-Ends}
use rock_paper_money.Postgres.{role_eq, status_eq, Database}
use rock_paper_money.Postgres.Disconnects.{reap_expired_connections}
use rock_paper_money.Postgres.Deadlines.{process_next_deadline, called, deadline_port}
use rock_paper_money.Postgres.Due.{due_count}
use rock_paper_money.Postgres.Stuck.{IsStuck, process_deadlines-IsStuck}
use rock_paper_money.Postgres.Progress.{process_next_deadline-IsFewer}

abbrev pub due_rows : Time → Database → ℕ
due_rows now db = due_count now db.deadlines

module _ (go : GoLibrary) (id_before : String → String → Bool) (now : Time) where
  called-IsFewer :
      (db : Database) (r : Fallible DeadlineResult × Database)
      → process_next_deadline go now db ≡ r
      → (called r).0.processed ≡ true
      → (due_rows now (called r).2 < due_rows now db) ⊎ IsStuck now db
  called-IsFewer db (ok result, db') q p = process_next_deadline-IsFewer go now db result db' q p
  called-IsFewer db (err e, db') q p = absurd (ground (arith, p))

  deadline_port-Consumes : Consumes (deadline_port go id_before) now (IsStuck now) (due_rows now)
  unfolding deadline_port
  deadline_port-Consumes db p = called-IsFewer db (process_next_deadline go now db) refl p

  -- The loop that comes to a stuck store ends on no fuel.
  process_deadlines-Sticks :
      (db : Database)
      → Sticks (deadline_port go id_before) now (IsStuck now) db
      → (fuel : ℕ) (report : DeadlineRunReport)
      → process_deadlines (deadline_port go id_before) now fuel report db ≡ none
  unfolding process_deadlines
  process_deadlines-Sticks db (here h) fuel report =
      process_deadlines-IsStuck go now db id_before h fuel report
  process_deadlines-Sticks db (there done p k) zero report = refl
  process_deadlines-Sticks db (there done p k) (suc fuel) report =
      let (result, e, db') = (deadline_port go id_before).process_next_deadline now db in
      ground
        (arith, done, p, process_deadlines-Sticks db' k fuel (count_deadline now result report))

  -- The run ends with a report that adds up, or its loop comes to a stuck store and so ends on no
  -- fuel.
  abbrev pub IsOver : ℕ → Database → Type 0
  IsOver fuel db =
      let reaped : Database = (reap_expired_connections id_before now db).2 in
      Ends (deadline_port go id_before) now (IsStuck now)
        (run_once (deadline_port go id_before) now fuel db)
      ⊎ Sticks (deadline_port go id_before) now (IsStuck now) reaped
        × ((fuel' : ℕ) (report : DeadlineRunReport)
            → process_deadlines (deadline_port go id_before) now fuel' report reaped ≡ none)

  -- On more fuel than there are deadlines due after the reaping, a run of the deadline worker over
  -- the Postgres store ends, and its report adds up: each processed deadline settled a round or was a
  -- no-op, and no more claims were stale than deadlines processed; or its loop comes to a store whose
  -- first due deadline is that of a current, active round that has not been funded, and the loop then
  -- ends on no fuel.
  pub run_once-IsOver :
      (fuel : ℕ) (db : Database)
      → due_rows now (reap_expired_connections id_before now db).2 < fuel
      → IsOver fuel db
  unfolding deadline_port
  run_once-IsOver fuel db enough =
      elim (run_once-Ends (deadline_port go id_before) now (IsStuck now) (due_rows now)
        deadline_port-Consumes fuel db enough) [
          | inl ends ↦ inl ends
          | inr sticks ↦ inr (
            sticks,
            process_deadlines-Sticks (reap_expired_connections id_before now db).2 sticks,
          )
        ]
