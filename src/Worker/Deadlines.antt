-- ===== src/Worker/Deadlines.antt =====
-- The deadline worker, backend/internal/worker/deadlines.go: expired connections are reaped, due
-- deadlines are processed one after the other until none is left, and old rows go.
--
-- The loop has no bound of its own, so it runs on fuel; a run that has used its fuel up is `none`.
use rock_paper_money.Prelude.{
  if◌then◌else◌, nat_eq, string_eq, bool_eq, ℕ, zero, suc, Bool, Option, none, some, [], ◌∷◌,
}
use rock_paper_money.Prelude.Int.{ℤ, ◌-ℤ◌, ltb_ℤ, int_eq, pos}
use rock_paper_money.Failure.{Error}
use rock_paper_money.Application.{Time}
use rock_paper_money.Worker.{Call}
use rock_paper_money.Worker.Outbox.{Run, errors_of}

-- The fields of `DeadlineResult` that the worker reads; a zero `DueAt` is `none`.
pub record DeadlineResult : Type 0 where
  pub processed : Bool
  pub settled : Bool
  pub stale : Bool
  pub due_at : Option Time

-- `DeadlineRepository`.
pub record DeadlinePort (S : Type 0) : Type 0 where
  pub reap_expired_connections : Time → Call S ℕ
  pub process_next_deadline : Time → Call S DeadlineResult
  pub cleanup_deadlines : Time → Call S ℕ

pub record DeadlineRunReport : Type 0 where
  pub expired_connections : ℕ
  pub processed_deadlines : ℕ
  pub settled_rounds : ℕ
  pub noop_deadlines : ℕ
  pub stale_claims : ℕ
  pub max_claim_lag : ℤ
  pub cleaned_rows : ℕ

abbrev pub longer_lag : Time → Option Time → ℤ → ℤ
longer_lag now none lag = lag
longer_lag now (some due_at) lag = if ltb_ℤ lag (now -ℤ due_at) then now -ℤ due_at else lag

-- What one processed deadline adds to the report.
unfoldable pub count_deadline : Time → DeadlineResult → DeadlineRunReport → DeadlineRunReport
count_deadline now result report = record report {
  processed_deadlines = suc report.processed_deadlines;
  max_claim_lag = longer_lag now result.due_at report.max_claim_lag;
  settled_rounds = if result.settled then suc report.settled_rounds else report.settled_rounds;
  noop_deadlines = if result.settled then report.noop_deadlines else suc report.noop_deadlines;
  stale_claims = if result.stale then suc report.stale_claims else report.stale_claims;
}

module _ {S : Type 0} (port : DeadlinePort S) (now : Time) where
  -- The loop.
  unfoldable pub process_deadlines : ℕ → DeadlineRunReport → S → Option (Run DeadlineRunReport S)
  process_deadlines zero report s = none
  process_deadlines (suc fuel) report s =
      let (result, e, s') = port.process_next_deadline now s in
      let rest = process_deadlines fuel (count_deadline now result report) s' in
      elim e [
        | some x ↦ some (report, x ∷ [], s')
        | none ↦ if result.processed then rest else some (report, [], s')
      ]

  -- The end of a run.
  unfoldable pub clean_deadlines : Run DeadlineRunReport S → Run DeadlineRunReport S
  clean_deadlines (report, e ∷ es, s) = (report, e ∷ es, s)
  clean_deadlines (report, [], s) =
      let (cleaned, e, s') = port.cleanup_deadlines now s in
      (record report { cleaned_rows = cleaned }, errors_of e, s')

  abbrev pub reaped : ℕ → DeadlineRunReport
  reaped expired = record {
    expired_connections = expired;
    processed_deadlines = 0;
    settled_rounds = 0;
    noop_deadlines = 0;
    stale_claims = 0;
    max_claim_lag = pos 0;
    cleaned_rows = 0;
  }

  -- The part of a run behind the reaping.
  unfoldable pub run_reaped : ℕ → ℕ × Option Error × S → Option (Run DeadlineRunReport S)
  run_reaped fuel (expired, some e, s) = some (reaped expired, e ∷ [], s)
  run_reaped fuel (expired, none, s) = elim (process_deadlines fuel (reaped expired) s) [
    | none ↦ none
    | some r ↦ some (clean_deadlines r)
  ]

  unfoldable pub run_once : ℕ → S → Option (Run DeadlineRunReport S)
  unfolding run_reaped
  run_once fuel s = run_reaped fuel (port.reap_expired_connections now s)
