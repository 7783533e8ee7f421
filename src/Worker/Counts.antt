-- ===== src/Worker/Counts.antt =====
-- What the reports of the workers count, backend/internal/worker/outbox.go and deadlines.go.
use rock_paper_money.Prelude.{
  length, nat_eq, string_eq, bool_eq, ℕ, suc, ◌+◌, ◌≤◌, ◌≡◌, ◌≢◌, ◌⊎◌, Option, none, some, List, [],
  ◌∷◌, arith,
}
use rock_paper_money.Prelude.Int.{int_eq}
use rock_paper_money.Failure.{Error}
use rock_paper_money.Application.{Time}
use rock_paper_money.Worker.Outbox.{
  OutboxRecord, OutboxPendingStats, OutboxPort, OutboxConfig, OutboxRunReport, Run, attempted,
  release_failed, publish_records, clean_published, started, run_claimed, run_started, run_once,
}

-- The report of a run's loop that began at `before` with `n` records: every attempt is one of
-- them, and is published, failed or left claimed; at most one fails; a run without an error
-- publishes every one.
abbrev pub Counts : {S : Type 0} → ℕ → OutboxRunReport → Run OutboxRunReport S → Type 0
Counts n before (after, es, _) =
    (after.claimed ≡ before.claimed)
    × (after.published + after.publish_failures + before.attempts
        ≤ before.published + before.publish_failures + after.attempts)
    × (after.attempts ≤ before.attempts + n)
    × (after.publish_failures ≤ suc before.publish_failures)
    × (after.retries + before.attempts ≤ before.retries + after.attempts)
    × ((es ≢ [])
        ⊎ (after.published ≡ before.published + n)
          × (after.publish_failures ≡ before.publish_failures))

-- What a run's report says of the `claimed` records: no attempt without a claim, no publication
-- or failure without an attempt, at most one failure, no retry that is not an attempt, and a run
-- without an error has published them all.
abbrev pub IsAccounted : OutboxRunReport → List Error → Type 0
IsAccounted report es =
    (report.published + report.publish_failures ≤ report.attempts)
    × (report.attempts ≤ report.claimed)
    × (report.publish_failures ≤ 1)
    × (report.retries ≤ report.attempts)
    × ((es ≢ []) ⊎ (report.published ≡ report.claimed) × (report.publish_failures ≡ 0))

module _ {S : Type 0} (port : OutboxPort S) (config : OutboxConfig) (now : Time) where
  -- One record more, whichever way its publication and its marking went.
  next-Counts :
      (r : OutboxRecord) (n : ℕ) (report : OutboxRunReport) (failed unmarked : Option Error)
      (s1 s2 : S) (rest : Run OutboxRunReport S)
      → Counts n (record (attempted r report) { published = suc report.published }) rest
      → Counts (suc n) report (elim failed [
        | some e ↦ release_failed port config now r (attempted r report) e s1
        | none ↦ elim unmarked [ some e ↦ (attempted r report, e ∷ [], s2) | none ↦ rest ]
      ])
  unfolding release_failed
  next-Counts r n report (some e) unmarked s1 s2 rest h = ground arith
  next-Counts r n report none (some e) s1 s2 rest h = ground arith
  next-Counts r n report none none s1 s2 rest h = ground arith

  publish_records-Counts :
      (rs : List OutboxRecord) (report : OutboxRunReport) (s : S)
      → Counts (length rs) report (publish_records port config now rs report s)
  unfolding publish_records
  publish_records-Counts [] report s = ground arith
  publish_records-Counts (r ∷ rs) report s =
      let (failed, s1) = port.publish_revision r.room_id r.revision s in
      let (unmarked, s2) = port.mark_outbox_published r now s1 in
      let report' = record (attempted r report) { published = suc report.published } in
      next-Counts r (length rs) report failed unmarked s1 s2
        (publish_records port config now rs report' s2) (publish_records-Counts rs report' s2)

  clean_published-IsAccounted :
      (r : Run OutboxRunReport S)
      → IsAccounted r.0 r.1
      → IsAccounted (clean_published port config now r).0 (clean_published port config now r).1
  unfolding clean_published
  clean_published-IsAccounted (report, [], s) h = ground arith
  clean_published-IsAccounted (report, e ∷ es, s) h = h

  run_claimed-IsAccounted :
      (stats : OutboxPendingStats) (c : List OutboxRecord × Option Error × S)
      → IsAccounted
          (run_claimed port config now (started port config now stats) c).0
          (run_claimed port config now (started port config now stats) c).1
  unfolding run_claimed
  run_claimed-IsAccounted stats (rs, some e, s) = ground arith
  run_claimed-IsAccounted stats (rs, none, s) =
      let counts =
        publish_records-Counts rs (record (started port config now stats) { claimed = length rs })
          s in
      clean_published-IsAccounted
        (publish_records port config now rs
          (record (started port config now stats) { claimed = length rs }) s)
        (ground (arith, counts))

  run_started-IsAccounted :
      (r : OutboxPendingStats × Option Error × S)
      → IsAccounted (run_started port config now r).0 (run_started port config now r).1
  unfolding run_started
  run_started-IsAccounted (stats, some e, s) = ground arith
  run_started-IsAccounted (stats, none, s) =
      run_claimed-IsAccounted stats (port.claim_outbox now config.batch_size config.claim_lease s)

  -- Every run of the outbox worker, whatever its store and its publisher answer, accounts for the
  -- records it claimed.
  pub run_once-IsAccounted :
      (s : S) → IsAccounted (run_once port config now s).0 (run_once port config now s).1
  unfolding run_once
  run_once-IsAccounted s = run_started-IsAccounted (port.outbox_pending_stats now s)
