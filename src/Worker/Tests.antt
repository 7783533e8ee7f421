-- ===== src/Worker/Tests.antt =====
-- Witnesses: stores and publishers whose state is a number, the calls that are still to succeed.
use rock_paper_money.Prelude.{
  nat_beq, if◌then◌else◌, nat_eq, string_eq, bool_eq, ℕ, ◌-◌, ◌≡◌, none, some, [], ◌∷◌,
}
use rock_paper_money.Prelude.Int.{int_eq, pos}
use rock_paper_money.Failure.{room_not_found}
use rock_paper_money.Worker.Outbox
use rock_paper_money.Worker.Outbox.{OutboxRecord, OutboxPort, OutboxConfig, retry_delay}
use rock_paper_money.Worker.Delay.{retry_delay-doubles}
use rock_paper_money.Worker.Counts.{IsAccounted, run_once-IsAccounted}

abbrev config : OutboxConfig
config = record {
  batch_size = 100;
  claim_lease = 30;
  retry_base = 3;
  max_retry = 20;
  published_retain = 5;
}

retry_delay-doubles_example : retry_delay config 3 ≡ 12
retry_delay-doubles_example = retry_delay-doubles config 2

abbrev hint : ℕ → OutboxRecord
hint attempts = record {
  id = 1;
  room_id = "R";
  revision = 4;
  claim_token = "t";
  attempts = attempts;
}

-- Two records are claimed, and the publisher takes as many as the state says.
abbrev outbox : OutboxPort ℕ
outbox = record {
  outbox_pending_stats = λ _ n. (record { backlog_depth = 2; oldest_pending_age = pos 7 }, none, n);
  claim_outbox = λ _ _ _ n. (hint 1 ∷ hint 2 ∷ [], none, n);
  mark_outbox_published = λ _ _ n. (none, n);
  release_outbox = λ _ _ n. (none, n);
  cleanup_published_outbox = λ _ n. (6, none, n);
  publish_revision = λ _ _ n. if nat_beq n 0 then (some room_not_found, n) else (none, n - 1);
}

run_once-IsAccounted_example :
    IsAccounted
      (Outbox.run_once outbox config (pos 0) 1).0
      (Outbox.run_once outbox config (pos 0) 1).1
run_once-IsAccounted_example = run_once-IsAccounted outbox config (pos 0) 1
