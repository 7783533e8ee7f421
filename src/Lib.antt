-- ===== src/Lib.antt =====
-- Verification of the server of Rock Paper Money: two players in a room play rounds of rock, paper,
-- scissors for stakes of coins.
--
-- The program and the files that model it:
--
--   backend/internal/room/domain/room.go, the room: Game (the moves and `DetermineResult`), Room
--     (`New`, `Restore`, `PersistenceState`, `State`), Room/Actions (`Join`, `SubmitMove`,
--     `RequestNextRound`, `Leave` and the reconciler's two), Room/Deadlines (`Forfeit`,
--     `ResolveInactivity`, `ResolveDeadlineDraw`). A method on `*Room` is a function that gives the
--     room back beside the error. Proofs: Game/Rules, Room/Valid (what a valid room is),
--     Room/Counting, Room/Outcome, Room/Persist, Room/Keeps, Room/Machine (any sequence of calls),
--     Room/Order, Room/Secrecy, Room/Stranded.
--   backend/internal/room/adapter/memory/repository.go, the store: Memory (the state, wallets,
--     escrows, `fundRound`, `settleRound`), Memory/Handlers (the methods), Memory/Presence (leases),
--     Memory/Commands (idempotent commands), Memory/Signals (subscriptions). A method is an `Action`
--     on the whole store, as the mutex makes it one step. Proofs: Memory/Coins, Memory/Funding,
--     Memory/Settling, Memory/Idempotent, Memory/Atomic.
--   backend/internal/room/application, the service between HTTP and a store: Application (the data),
--     Service (service.go), Service/Commands (command.go), Service/Store (the service over the memory
--     store). The store, the random generators, the clock, SHA-256 and the JSON encoding are
--     parameters. Service/Reports models reports.go. Proofs: Service/Retry, Service/Wallet,
--     Service/Reports.
--   backend/internal/worker, the background workers: Worker/Outbox, Worker/Deadlines,
--     Worker/Reconciliation, Worker/Cleanup, each one run over the stores as parameters. Proofs:
--     Worker/Delay, Worker/Counts, Worker/Totals.
--   backend/internal/realtime/hub.go, the snapshots that the consumers of a room are given: Hub, each
--     function as one run, the subscriber and the loader as arguments. Proofs: Hub/Order.
--   backend/internal/room/adapter/postgres, the store that the server runs on: Postgres (the tables,
--     a list of rows each), Postgres/Sql (statements on rows), Postgres/Aggregate (`load` and `save`),
--     Postgres/Wallets (`fundRound`, `settleRound`), Postgres/Repository, Postgres/Presence,
--     Postgres/Recharges, Postgres/Reads (the other methods of repository.go, commands.go and
--     realtime.go), Postgres/Commands and Postgres/Actions (commands.go), Postgres/Connections,
--     Postgres/Disconnects and Postgres/Deadlines (deadlines.go), Postgres/Outbox (outbox.go),
--     Postgres/Reconciliation (reconciliation.go). A method is one transaction on the database, which
--     an error rolls back; what Go decides between two statements is a function of its own. The worker
--     of Worker/Deadlines runs on it through `deadline_port`. Proofs: Postgres/Ledger, Postgres/Books,
--     Postgres/WorkerBooks, Postgres/CommandBooks, Postgres/SocketBooks, Postgres/Runs and
--     Postgres/Sequences (the books), Postgres/Rows and Postgres/Claims (the outbox), Postgres/Due,
--     Postgres/Standing, Postgres/Progress, Postgres/Stuck and Postgres/Ending (the deadlines).
--   backend/internal/auth, the sessions of the browsers: Auth (session.go over the statements of
--     postgres.go), Auth/Requests (`ValidateOrigin`, `ValidateMutation`, `CORS`), Auth/Handlers
--     (`ServeHTTP`, `bootstrap`, `logout`). Proofs: Auth/Lifetime, Auth/Revoked, Auth/Guards.
--   backend/internal/realtime/websocket.go, the sockets between the hub and the browsers: Socket (the
--     queue and `snapshotFrame`), Socket/Serve (`serveConnection`, one step for each event, and
--     `revalidate` over the sessions' and the rooms' tables, with the proofs).
--
-- Shared: Prelude and its children (Boolean tests, lists, association lists for Go's maps, integers
-- over the native numbers), Failure (the errors, and a result or an error), Action (a step on a
-- state that may fail and keeps what it wrote).
--
-- Numbers: a round is a `uint64` and wraps at 2^64, a player's wins and a balance are `int64` and
-- wrap at 2^63. A time is an unbounded number of nanoseconds. A map is a list of keys and values in
-- the order of insertion; no result depends on that order but where a comment says so. Fuel is used
-- for the deadline worker's loop alone: over the Postgres store as many rounds as there are due
-- deadlines, and one more, are enough (Postgres/Ending), but for the state in which none is
-- (Postgres/Stuck). Every other loop goes over a list or a counted range. A `bigint` of the Postgres
-- store is an unbounded integer, and its times keep their nanoseconds, where `timestamptz` rounds to
-- microseconds.
--
-- Parameters: the random generators, the clock, SHA-256 and the JSON encoding; the order of the rooms'
-- codes and of the connections' uuids in a statement's `ORDER BY`; the bound that `pg_notify` puts on
-- a hint; the library functions on text; the verifier of account tokens, a function that gives the
-- subject of a token.
--
-- Not modelled: of the Postgres store `ResetDisposableRooms`, the query of `ReconcileBatch`,
-- reports.go, events.go, listener.go, migrate.go, and what a notification does; the HTTP router and
-- its encoding; the Redis adapter; of the sockets the admission and the shutdown; verifier.go, which
-- rests on a cryptographic library, the parsing of the allowed origin and the attributes of the
-- cookie; metrics and logging; the command line; the select loops, timers and goroutines around the
-- workers; transactions that interleave, since a method is one step, and runs of the hub that do; the
-- frontend.
pub mod Prelude
pub mod Failure
pub mod Game
pub mod Room
pub mod Action
pub mod Application
pub mod Auth
pub mod Memory
pub mod Service
pub mod Worker
pub mod Hub
pub mod Postgres
pub mod Socket
