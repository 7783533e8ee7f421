-- ===== src/Worker.antt =====
-- The background workers of backend/internal/worker: what one run of each does with the stores
-- behind it, and what its report counts.
--
-- A store's method is a `Call`: Go returns a value and an error side by side, and the workers read
-- the value even beside an error.
pub mod Outbox
pub mod Deadlines
pub mod Reconciliation
pub mod Cleanup
pub mod Delay
pub mod Counts
pub mod Totals
mod Tests
use rock_paper_money.Prelude.{Option}
use rock_paper_money.Failure.{Error}

abbrev pub Call : Type 0 → Type 0 → Type 0
Call S A = S → A × Option Error × S
