-- ===== src/Worker/Reconciliation.antt =====
-- The reconciliation worker, backend/internal/worker/reconciliation.go: how reports add up, how a
-- drain takes batches, and when the next periodic scan is due. The `select` loop and the listener's
-- goroutine around them are not modelled.
use rock_paper_money.Prelude.{
  ltb, nat_beq, if◌then◌else◌, nat_eq, string_eq, bool_eq, ℕ, zero, suc, ◌+◌, ◌&&◌, none, some,
}
use rock_paper_money.Prelude.Int.{ℤ, pos_part, ltb_ℤ, int_eq, pos}
use rock_paper_money.Worker.{Call}
use rock_paper_money.Worker.Outbox.{or_default}

pub record ReconciliationReport : Type 0 where
  pub claim_attempts : ℕ
  pub claim_wins : ℕ
  pub claim_noops : ℕ
  pub settled_rounds : ℕ
  pub advanced_rounds : ℕ
  pub failures : ℕ
  pub eligible_backlog : ℕ
  pub oldest_eligible_age : ℕ

abbrev pub empty_report : ReconciliationReport
empty_report = record {
  claim_attempts = 0;
  claim_wins = 0;
  claim_noops = 0;
  settled_rounds = 0;
  advanced_rounds = 0;
  failures = 0;
  eligible_backlog = 0;
  oldest_eligible_age = 0;
}

-- `if b > a { a = b }`
abbrev pub greater : ℕ → ℕ → ℕ
greater a b = if ltb a b then b else a

unfoldable pub add : ReconciliationReport → ReconciliationReport → ReconciliationReport
add r x = record {
  claim_attempts = r.claim_attempts + x.claim_attempts;
  claim_wins = r.claim_wins + x.claim_wins;
  claim_noops = r.claim_noops + x.claim_noops;
  settled_rounds = r.settled_rounds + x.settled_rounds;
  advanced_rounds = r.advanced_rounds + x.advanced_rounds;
  failures = r.failures + x.failures;
  eligible_backlog = greater r.eligible_backlog x.eligible_backlog;
  oldest_eligible_age = greater r.oldest_eligible_age x.oldest_eligible_age;
}

pub record ReconciliationConfig : Type 0 where
  pub batch_size : ℕ
  pub max_drain_batches : ℕ
  pub periodic_interval : ℕ
  pub idle_interval : ℕ
  pub reconnect_delay : ℕ

-- `NewReconciliationWorker`: the configuration that it keeps.
unfoldable pub new_reconciliation_worker : ℤ → ℤ → ℤ → ℤ → ℤ → ReconciliationConfig
new_reconciliation_worker batch_size max_drain_batches periodic_interval idle_interval
      reconnect_delay =
    let periodic = or_default periodic_interval 1000000000 in
    record {
      batch_size = or_default batch_size 32;
      max_drain_batches = or_default max_drain_batches 8;
      periodic_interval = periodic;
      idle_interval =
          if ltb_ℤ idle_interval (pos periodic) then 5000000000 else pos_part idle_interval;
      reconnect_delay = or_default reconnect_delay 1000000000;
    }

module _ {S : Type 0} (reconcile_batch : ℕ → Call S ReconciliationReport) (batch_size : ℕ) where
  -- The loop of `drain`: at most the given number of batches.
  unfoldable pub drain_batches : ℕ → ReconciliationReport → Call S ReconciliationReport
  drain_batches zero total s = (total, none, s)
  drain_batches (suc n) total s =
      let (report, e, s') = reconcile_batch batch_size s in
      let rest = drain_batches n (add total report) s' in
      elim e [
        | some x ↦ (add total report, some x, s')
        | none ↦ if ltb report.claim_attempts batch_size then (add total report, none, s') else rest
      ]

unfoldable pub drain :
    {S : Type 0}
    → (ℕ → Call S ReconciliationReport)
    → ReconciliationConfig
    → Call S ReconciliationReport
unfolding drain_batches
drain reconcile_batch config =
    drain_batches reconcile_batch config.batch_size config.max_drain_batches empty_report

unfoldable pub next_interval : ReconciliationConfig → ReconciliationReport → ℕ
next_interval config report =
    if nat_beq report.eligible_backlog 0 && nat_beq report.claim_wins 0
    then config.idle_interval
    else config.periodic_interval
