-- ===== src/Postgres/Sequences.antt =====
-- Sequences of calls on the Postgres store, backend/internal/room/adapter/postgres, by the players,
-- their sockets and the workers. The methods that only read are left out, and `ReconcileBatch`, whose
-- loop is a sequence of `ReconcileRoom`.
use rock_paper_money.Prelude.{nat_eq, bool_eq, string_eq, refl, ℕ, String, Bool, List, [], ◌∷◌}
use rock_paper_money.Prelude.Int.{ℤ, int_eq}
use rock_paper_money.Game.{Move, move_eq, result_eq}
use rock_paper_money.Room.{Room}
use rock_paper_money.Application.{Time, PresenceLease, PresenceWindow, Mutation, Command}
use rock_paper_money.Memory.{GoLibrary}
use rock_paper_money.Worker.Outbox.{OutboxRecord}
use rock_paper_money.Postgres.{role_eq, status_eq, Database}
use rock_paper_money.Postgres.Repository.{
  create, join_funded, submit_move_and_settle, request_next_round_and_fund, mutate, balance,
}
use rock_paper_money.Postgres.Presence.{refresh_presence, forfeit_expired}
use rock_paper_money.Postgres.Commands.{create_command, join_command, mutate_command}
use rock_paper_money.Postgres.Actions.{submit_move_command, request_next_round_command}
use rock_paper_money.Postgres.Recharges.{recharge, recharge_command, cleanup_command_receipts}
use rock_paper_money.Postgres.Connections.{ConnectionLease, open_connection}
use rock_paper_money.Postgres.Disconnects.{
  renew_connection, close_connection, reap_expired_connections,
}
use rock_paper_money.Postgres.Deadlines.{process_next_deadline, cleanup_deadlines}
use rock_paper_money.Postgres.Reconciliation.{RoomHint, reconcile_room}
use rock_paper_money.Postgres.Outbox.{
  claim_outbox, mark_outbox_published, release_outbox, cleanup_published_outbox,
}
use rock_paper_money.Postgres.Ledger.{IsLedger, same-IsLedger}
use rock_paper_money.Postgres.Runs.{
  join_funded-Keeps, submit_move_and_settle-Keeps, request_next_round_and_fund-Keeps, mutate-Keeps,
  create-Keeps, recharge-Keeps,
}
use rock_paper_money.Postgres.WorkerBooks.{process_next_deadline-Keeps, reconcile_room-IsLedger}
use rock_paper_money.Postgres.CommandBooks.{
  create_command-Keeps, join_command-Keeps, submit_move_command-Keeps,
  request_next_round_command-Keeps, mutate_command-Keeps, recharge_command-Keeps,
}
use rock_paper_money.Postgres.SocketBooks.{
  balance-Keeps, refresh_presence-Keeps, forfeit_expired-Keeps, open_connection-Keeps,
  renew_connection-Keeps, close_connection-Keeps, reap_expired_connections-IsLedger,
  claim_outbox-Keeps, mark_outbox_published-Keeps, release_outbox-Keeps, cleanup_deadlines-IsLedger,
  cleanup_published_outbox-IsLedger, cleanup_command_receipts-IsLedger,
}

-- A call of a method that writes, with its arguments: of repository.go, of commands.go, of
-- deadlines.go, of reconciliation.go, of outbox.go; `ticks` is the database's clock.
pub data StoreCall : Type 0 where
  creates : Room → String → StoreCall
  joins : Time → String → String → String → PresenceWindow → StoreCall
  moves : Time → String → String → Move → StoreCall
  asks : Time → String → String → ℕ → StoreCall
  mutates : String → String → Mutation → StoreCall
  recharges : String → ℤ → String → StoreCall
  asks_balance : String → StoreCall
  refreshes : String → String → PresenceWindow → StoreCall
  forfeits : PresenceLease → Time → StoreCall
  creates_once : Room → String → Command → StoreCall
  joins_once : String → String → String → PresenceWindow → Command → StoreCall
  moves_once : String → String → Move → Command → StoreCall
  asks_once : String → String → ℕ → Command → StoreCall
  mutates_once : String → String → Mutation → Command → StoreCall
  recharges_once : String → ℤ → Command → StoreCall
  connects : ConnectionLease → StoreCall
  renews : String → Time → Time → StoreCall
  disconnects : String → Time → StoreCall
  reaps : Time → StoreCall
  expires : Time → StoreCall
  reconciles : RoomHint → StoreCall
  claims : String → Time → ℤ → ℤ → StoreCall
  publishes : OutboxRecord → Time → StoreCall
  releases : OutboxRecord → Time → StoreCall
  cleans_deadlines : Time → StoreCall
  cleans_outbox : Time → StoreCall
  cleans_receipts : Time → StoreCall
  ticks : Time → StoreCall

module _ (go : GoLibrary) (is_bounded : String → ℕ → Bool)
    (id_before : String → String → Bool) where
  -- The store after a call, whatever it answers.
  unfoldable pub performed : StoreCall → Database → Database
  unfolding create join_funded submit_move_and_settle request_next_round_and_fund mutate recharge
      balance refresh_presence forfeit_expired create_command join_command submit_move_command
      request_next_round_command mutate_command recharge_command open_connection renew_connection
      close_connection reap_expired_connections process_next_deadline reconcile_room claim_outbox
      mark_outbox_published release_outbox cleanup_deadlines cleanup_published_outbox
      cleanup_command_receipts
  performed (creates aggregate account) db = (create aggregate account db).1
  performed (joins now code player_id account window) db =
      (join_funded go now code player_id account window db).1
  performed (moves now code account move) db =
      (submit_move_and_settle go now code account move db).1
  performed (asks now code account round) db =
      (request_next_round_and_fund go now code account round db).1
  performed (mutates code account mutation) db = (mutate code account mutation db).1
  performed (recharges account amount key) db = (recharge account amount key db).1
  performed (asks_balance account) db = (balance account db).1
  performed (refreshes code account window) db = (refresh_presence code account window db).1
  performed (forfeits lease now) db = (forfeit_expired go lease now db).1
  performed (creates_once aggregate account command) db =
      (create_command aggregate account command db).1
  performed (joins_once code player_id account window command) db =
      (join_command go code player_id account window command db).1
  performed (moves_once code account move command) db =
      (submit_move_command is_bounded go code account move command db).1
  performed (asks_once code account round command) db =
      (request_next_round_command is_bounded go code account round command db).1
  performed (mutates_once code account mutation command) db =
      (mutate_command code account mutation command db).1
  performed (recharges_once account amount command) db =
      (recharge_command account amount command db).1
  performed (connects lease) db = (open_connection lease db).1
  performed (renews id at until) db = (renew_connection id at until db).1
  performed (disconnects id at) db = (close_connection id at db).1
  performed (reaps now) db = (reap_expired_connections id_before now db).2
  performed (expires now) db = (process_next_deadline go now db).1
  performed (reconciles hint) db = (reconcile_room go is_bounded hint db).2
  performed (claims token now limit lease) db = (claim_outbox token now limit lease db).1
  performed (publishes claimed at) db = (mark_outbox_published claimed at db).1
  performed (releases claimed at) db = (release_outbox claimed at db).1
  performed (cleans_deadlines before) db = (cleanup_deadlines before db).2
  performed (cleans_outbox before) db = (cleanup_published_outbox before db).2
  performed (cleans_receipts now) db = (cleanup_command_receipts now db).2
  performed (ticks now) db = record db { clock = now }

  unfoldable pub run : List StoreCall → Database → Database
  unfolding performed
  run [] db = db
  run (call ∷ calls) db = run calls (performed call db)

  performed-IsLedger :
      (call : StoreCall) (db : Database) → IsLedger db → IsLedger (performed call db)
  unfolding performed
  performed-IsLedger (creates aggregate account) db h = create-Keeps aggregate account db h
  performed-IsLedger (joins now code player_id account window) db h =
      join_funded-Keeps go now code player_id account window db h
  performed-IsLedger (moves now code account move) db h =
      submit_move_and_settle-Keeps go now code account move db h
  performed-IsLedger (asks now code account round) db h =
      request_next_round_and_fund-Keeps go now code account round db h
  performed-IsLedger (mutates code account mutation) db h = mutate-Keeps code account mutation db h
  performed-IsLedger (recharges account amount key) db h = recharge-Keeps account amount key db h
  performed-IsLedger (asks_balance account) db h = balance-Keeps account db h
  performed-IsLedger (refreshes code account window) db h =
      refresh_presence-Keeps code account window db h
  performed-IsLedger (forfeits lease now) db h = forfeit_expired-Keeps go lease now db h
  performed-IsLedger (creates_once aggregate account command) db h =
      create_command-Keeps aggregate account command db h
  performed-IsLedger (joins_once code player_id account window command) db h =
      join_command-Keeps go code player_id account window command db h
  performed-IsLedger (moves_once code account move command) db h =
      submit_move_command-Keeps go is_bounded code account move command db h
  performed-IsLedger (asks_once code account round command) db h =
      request_next_round_command-Keeps go is_bounded code account round command db h
  performed-IsLedger (mutates_once code account mutation command) db h =
      mutate_command-Keeps code account mutation command db h
  performed-IsLedger (recharges_once account amount command) db h =
      recharge_command-Keeps account amount command db h
  performed-IsLedger (connects lease) db h = open_connection-Keeps lease db h
  performed-IsLedger (renews id at until) db h = renew_connection-Keeps id at until db h
  performed-IsLedger (disconnects id at) db h = close_connection-Keeps id at db h
  performed-IsLedger (reaps now) db h = reap_expired_connections-IsLedger id_before now db h
  performed-IsLedger (expires now) db h = process_next_deadline-Keeps go now db h
  performed-IsLedger (reconciles hint) db h = reconcile_room-IsLedger go is_bounded hint db h
  performed-IsLedger (claims token now limit lease) db h =
      claim_outbox-Keeps token now limit lease db h
  performed-IsLedger (publishes claimed at) db h = mark_outbox_published-Keeps claimed at db h
  performed-IsLedger (releases claimed at) db h = release_outbox-Keeps claimed at db h
  performed-IsLedger (cleans_deadlines before) db h = cleanup_deadlines-IsLedger before db h
  performed-IsLedger (cleans_outbox before) db h = cleanup_published_outbox-IsLedger before db h
  performed-IsLedger (cleans_receipts now) db h = cleanup_command_receipts-IsLedger now db h
  performed-IsLedger (ticks now) db h = same-IsLedger db _ refl refl h

  -- After any sequence of calls of the modelled methods that write, refused ones included, every
  -- balance is the sum of its account's postings and every transaction's postings sum up to nothing,
  -- if that held before.
  pub run-IsLedger :
      (calls : List StoreCall) (db : Database) → IsLedger db → IsLedger (run calls db)
  unfolding run
  run-IsLedger [] db h = h
  run-IsLedger (call ∷ calls) db h =
      run-IsLedger calls (performed call db) (performed-IsLedger call db h)
