-- ===== src/Worker/Outbox.antt =====
-- The outbox worker, backend/internal/worker/outbox.go: claimed room revisions are published and
-- marked, the first failure ends the run, and a failed publication is released for a later one.
--
-- Counts are natural numbers, durations natural numbers of nanoseconds: `NewOutboxWorker` makes
-- every period of its configuration positive.
use rock_paper_money.Prelude.{
  ltb, if◌then◌else◌, length, nat_eq, string_eq, bool_eq, ℕ, zero, suc, ◌-◌, ◌*◌, ◌/◌, String,
  Option, none, some, List, [], ◌∷◌,
}
use rock_paper_money.Prelude.Int.{ℤ, ◌+ℤ◌, ◌-ℤ◌, int_eq, pos}
use rock_paper_money.Failure.{Error}
use rock_paper_money.Application.{Time}
use rock_paper_money.Worker.{Call}

pub record OutboxRecord : Type 0 where
  pub id : ℕ
  pub room_id : String
  pub revision : ℕ
  pub claim_token : String
  pub attempts : ℕ

pub record OutboxPendingStats : Type 0 where
  pub backlog_depth : ℕ
  pub oldest_pending_age : ℤ

-- `OutboxStore` and `RevisionPublisher`.
pub record OutboxPort (S : Type 0) : Type 0 where
  pub outbox_pending_stats : Time → Call S OutboxPendingStats
  pub claim_outbox : Time → ℕ → ℕ → Call S (List OutboxRecord)
  pub mark_outbox_published : OutboxRecord → Time → S → Option Error × S
  pub release_outbox : OutboxRecord → Time → S → Option Error × S
  pub cleanup_published_outbox : Time → Call S ℕ
  pub publish_revision : String → ℕ → S → Option Error × S

pub record OutboxConfig : Type 0 where
  pub batch_size : ℕ
  pub claim_lease : ℕ
  pub retry_base : ℕ
  pub max_retry : ℕ
  pub published_retain : ℕ

pub record OutboxRunReport : Type 0 where
  pub claimed : ℕ
  pub published : ℕ
  pub attempts : ℕ
  pub retries : ℕ
  pub publish_failures : ℕ
  pub backlog_depth : ℕ
  pub oldest_pending_age : ℤ
  pub cleaned : ℕ

-- A period that is not positive has its default.
abbrev pub or_default : ℤ → ℕ → ℕ
or_default (pos (suc n)) d = suc n
or_default _ d = d

-- `NewOutboxWorker`: the configuration that it keeps.
unfoldable pub new_outbox_worker : ℤ → ℤ → ℤ → ℤ → ℤ → OutboxConfig
new_outbox_worker batch_size claim_lease retry_base max_retry published_retain = record {
  batch_size = or_default batch_size 100;
  claim_lease = or_default claim_lease 30000000000;
  retry_base = or_default retry_base 1000000000;
  max_retry = or_default max_retry 60000000000;
  published_retain = or_default published_retain 86400000000000;
}

-- The loop of `retryDelay`, which goes round at most the given number of times.
unfoldable pub double_delay : ℕ → ℕ → ℕ → ℕ
double_delay zero max_retry delay = if ltb max_retry delay then max_retry else delay
double_delay (suc n) max_retry delay =
    let rest = double_delay n max_retry (delay * 2) in
    if ltb delay max_retry
    then (if ltb (max_retry / 2) delay then max_retry else rest)
    else if ltb max_retry delay
    then max_retry
    else delay

unfoldable pub retry_delay : OutboxConfig → ℕ → ℕ
retry_delay config attempts = double_delay (attempts - 1) config.max_retry config.retry_base

-- The report and the error of a run; no error is `[]`, and `errors.Join` keeps the errors there are.
abbrev pub Run : Type 0 → Type 0 → Type 0
Run R S = R × List Error × S

abbrev pub errors_of : Option Error → List Error
errors_of none = []
errors_of (some e) = e ∷ []

abbrev pub attempted : OutboxRecord → OutboxRunReport → OutboxRunReport
attempted r report = record report {
  attempts = suc report.attempts;
  retries = if ltb 1 r.attempts then suc report.retries else report.retries;
}

module _ {S : Type 0} (port : OutboxPort S) (config : OutboxConfig) (now : Time) where
  -- A record whose publication failed: the run ends.
  unfoldable pub release_failed : OutboxRecord → OutboxRunReport → Error → S → Run OutboxRunReport S
  release_failed r report e s =
      let (released, s') = port.release_outbox r (now +ℤ pos (retry_delay config r.attempts)) s in
      (record report { publish_failures = suc report.publish_failures }, e ∷ errors_of released, s')

  -- The loop over the claimed records.
  unfoldable pub publish_records : List OutboxRecord → OutboxRunReport → S → Run OutboxRunReport S
  publish_records [] report s = (report, [], s)
  publish_records (r ∷ rs) report s =
      let (failed, s1) = port.publish_revision r.room_id r.revision s in
      let (unmarked, s2) = port.mark_outbox_published r now s1 in
      let rest =
        publish_records rs (record (attempted r report) { published = suc report.published }) s2 in
      elim failed [
        | some e ↦ release_failed r (attempted r report) e s1
        | none ↦ elim unmarked [ some e ↦ (attempted r report, e ∷ [], s2) | none ↦ rest ]
      ]

  -- The end of a run: the old publications go once every record is published.
  unfoldable pub clean_published : Run OutboxRunReport S → Run OutboxRunReport S
  clean_published (report, e ∷ es, s) = (report, e ∷ es, s)
  clean_published (report, [], s) =
      let (cleaned, e, s') = port.cleanup_published_outbox (now -ℤ pos config.published_retain) s in
      (record report { cleaned = cleaned }, errors_of e, s')

  abbrev pub started : OutboxPendingStats → OutboxRunReport
  started stats = record {
    claimed = 0;
    published = 0;
    attempts = 0;
    retries = 0;
    publish_failures = 0;
    backlog_depth = stats.backlog_depth;
    oldest_pending_age = stats.oldest_pending_age;
    cleaned = 0;
  }

  -- The part of a run behind the claim.
  unfoldable pub run_claimed :
      OutboxRunReport → List OutboxRecord × Option Error × S → Run OutboxRunReport S
  unfolding publish_records clean_published
  run_claimed report (rs, some e, s) = (record report { claimed = length rs }, e ∷ [], s)
  run_claimed report (rs, none, s) =
      clean_published (publish_records rs (record report { claimed = length rs }) s)

  unfoldable pub run_started : OutboxPendingStats × Option Error × S → Run OutboxRunReport S
  unfolding run_claimed
  run_started (stats, some e, s) = (started stats, e ∷ [], s)
  run_started (stats, none, s) =
      run_claimed (started stats) (port.claim_outbox now config.batch_size config.claim_lease s)

  unfoldable pub run_once : S → Run OutboxRunReport S
  unfolding run_started
  run_once s = run_started (port.outbox_pending_stats now s)
