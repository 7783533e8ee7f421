-- ===== src/Worker/Cleanup.antt =====
-- The cleanup worker, backend/internal/worker/cleanup.go: sessions first, then command receipts.
use rock_paper_money.Prelude.{nat_eq, string_eq, bool_eq, ℕ, Option, none, some, [], ◌∷◌}
use rock_paper_money.Failure.{Error}
use rock_paper_money.Application.{Time}
use rock_paper_money.Worker.{Call}
use rock_paper_money.Worker.Outbox.{Run, errors_of}

pub record CleanupReport : Type 0 where
  pub sessions : ℕ
  pub receipts : ℕ

module _ {S : Type 0} (cleanup : Call S ℕ) (cleanup_command_receipts : Time → Call S ℕ)
    (now : Time) where
  -- The part of a run behind the sessions.
  unfoldable pub clean_receipts : ℕ × Option Error × S → Run CleanupReport S
  clean_receipts (sessions, some e, s) = (record { sessions = sessions; receipts = 0 }, e ∷ [], s)
  clean_receipts (sessions, none, s) =
      let (receipts, e, s') = cleanup_command_receipts now s in
      (record { sessions = sessions; receipts = receipts }, errors_of e, s')

  unfoldable pub run_once : S → Run CleanupReport S
  unfolding clean_receipts
  run_once s = clean_receipts (cleanup s)
