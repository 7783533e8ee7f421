-- ===== src/Postgres/Reconciliation.antt =====
-- How the Postgres store resolves and advances rounds behind the players' calls,
-- backend/internal/room/adapter/postgres/reconciliation.go. A run keeps Go's report beside its
-- error. The notification that `notifyRoomStateChanged` sends is outside the store; its bound of 128
-- bytes on the hint is a parameter, since it depends on the digits of the round.
use rock_paper_money.Room.Actions.{Outcome, resolve_committed_moves, advance_committed_next_round}
use rock_paper_money.Prelude.{
  if◌then◌else◌, length, ◌==◌, nat_eq, bool_eq, string_eq, ℕ, suc, String, Bool, false, not, ◌&&◌,
  Option, none, some, List, [], ◌∷◌, ◌++◌,
}
use rock_paper_money.Postgres.{
  role_eq, RoundStatus, status_eq, is_pending, RoundRow, MoveRow, RequestRow, DeadlineRow, Database,
  active, settling, resolved,
}
use rock_paper_money.Postgres.Aggregate.{room_row, load, save}
use rock_paper_money.Prelude.Int.{int_eq}
use rock_paper_money.Failure.{Error, Fallible, ok, err, external}
use rock_paper_money.Game.{move_eq, result_eq}
use rock_paper_money.Room.{Room, state}
use rock_paper_money.Action.{Action, pure, raise_if, lift, modify, ◌>>=◌, ◌>>◌}
use rock_paper_money.Memory.{GoLibrary}
use rock_paper_money.Worker.{Call}
use rock_paper_money.Worker.Reconciliation.{ReconciliationReport, empty_report, add}
use rock_paper_money.Postgres.Sql.{rows_where, exists_where, update_where}
use rock_paper_money.Postgres.Wallets.{fund_round, settle_round}
use rock_paper_money.Postgres.Repository.{outcome}
use rock_paper_money.Postgres.Connections.{add_outbox, cancelled_at}
use rock_paper_money.Postgres.Deadlines.{is_round_funded, set_status}

-- `worker.RoomHint`
pub record RoomHint : Type 0 where
  pub room_code : String
  pub round : ℕ

pub data Transition : Type 0 where
  resolve advance : Transition

unfoldable pub move_count : String → ℕ → Database → ℕ
unfolding rows_where
move_count code round db =
    length (rows_where (λ (m : MoveRow). m.room_code == code && m.round_number == round) db.moves)

unfoldable pub request_count : String → ℕ → Database → ℕ
unfolding rows_where
request_count code round db =
    length
      (rows_where (λ (n : RequestRow). n.room_code == code && n.round_number == round) db.requests)

-- The round is the current one of an open room, and stands in a status.
unfoldable pub is_current : RoundStatus → String → ℕ → Database → Bool
unfolding exists_where room_row
is_current status code round db = elim (room_row code db) [
  | none ↦ false
  | some r ↦
      r.current_round == round
      && not r.is_closed
      && exists_where
          (λ (rr : RoundRow). rr.room_code == code && rr.number == round && rr.status == status)
          db.rounds
]

unfoldable pub claim_room_transition : RoomHint → Database → Option Transition × Database
unfolding is_current is_round_funded move_count request_count set_status
claim_room_transition hint db =
    if is_current active hint.room_code hint.round db
      && is_round_funded hint.room_code hint.round db
      && move_count hint.room_code hint.round db == 2
    then (some resolve, set_status hint.room_code hint.round active settling db)
    else if is_current resolved hint.room_code hint.round db
        && request_count hint.room_code hint.round db == 2
    then (some advance, set_status hint.room_code hint.round resolved settling db)
    else (none, db)

abbrev pub transition_of : Transition → ℕ → Room → Outcome
transition_of resolve round aggregate = resolve_committed_moves round aggregate
transition_of advance round aggregate = advance_committed_next_round round aggregate

-- The pending deadlines of a resolved round.
unfoldable pub cancel_round : RoomHint → Database → Database
unfolding update_where
cancel_round hint db = record db {
  deadlines =
      update_where
        (λ (d : DeadlineRow).
          d.room_code == hint.room_code && d.round_number == hint.round && is_pending d.status)
        (cancelled_at db.clock) db.deadlines;
}

-- The coins of a transition, with the deadlines or the round that it leaves.
unfoldable pub settle_transition :
    GoLibrary → RoomHint → Transition → Room → Action Database (Unit {0})
unfolding settle_round fund_round cancel_round set_status
settle_transition go hint resolve aggregate = do
  settle_round go hint.room_code (state aggregate)
  modify (cancel_round hint)
settle_transition go hint advance aggregate = do
  λ db. fund_round go db.clock hint.room_code aggregate.round "" db
  modify (set_status hint.room_code hint.round settling resolved)

unfoldable pub revision_of : String → Action Database ℕ
unfolding room_row
revision_of code db = elim (room_row code db) [
  | none ↦ (err (external 0), db)
  | some r ↦ (ok r.revision, db)
]

module _ (go : GoLibrary) (is_bounded : String → ℕ → Bool) where
  -- `ReconcileRoom` behind its claim, up to the settlement: the room and its new revision.
  unfoldable pub reconcile_claimed : RoomHint → Transition → Action Database (Room × ℕ)
  unfolding revision_of load save settle_transition
  reconcile_claimed hint transition = do
    (aggregate, roles) ← load hint.room_code
    changed ← lift (outcome (transition_of transition hint.round aggregate))
    revision ← revision_of hint.room_code
    modify (save changed roles aggregate.round (suc revision))
    settle_transition go hint transition changed
    pure (changed, suc revision)

  unfoldable pub announce : RoomHint → Room × ℕ → Action Database (Unit {0})
  unfolding add_outbox
  announce hint (changed, revision) = do
    add_outbox hint.room_code revision
    raise_if (not (is_bounded hint.room_code changed.round)) (external 12)

  abbrev pub won : Transition → ReconciliationReport
  won resolve = record empty_report { claim_attempts = 1; claim_wins = 1; settled_rounds = 1 }
  won advance = record empty_report { claim_attempts = 1; claim_wins = 1; advanced_rounds = 1 }

  -- An error rolls the transition back. The report keeps what was counted before it.
  abbrev pub announced :
      Database
      → Transition
      → Fallible (Unit {0}) × Database
      → ReconciliationReport × Option Error × Database
  announced db transition (ok _, db') = (won transition, none, db')
  announced db transition (err e, _) = (won transition, some e, db)

  abbrev pub settled :
      Database
      → RoomHint
      → Transition
      → Fallible (Room × ℕ) × Database
      → ReconciliationReport × Option Error × Database
  settled db hint transition (ok changed, db') = announced db transition (announce hint changed db')
  settled db hint transition (err e, _) =
      (record empty_report { claim_attempts = 1; claim_wins = 1 }, some e, db)

  abbrev pub reconcile_claim :
      RoomHint
      → Database
      → Option Transition × Database
      → ReconciliationReport × Option Error × Database
  reconcile_claim hint db (none, _) =
      (record empty_report { claim_attempts = 1; claim_noops = 1 }, none, db)
  reconcile_claim hint db (some transition, claimed) =
      settled db hint transition (reconcile_claimed hint transition claimed)

  unfoldable pub reconcile_room : RoomHint → Call Database ReconciliationReport
  unfolding claim_room_transition reconcile_claimed announce
  reconcile_room hint db = reconcile_claim hint db (claim_room_transition hint db)

  -- The loop of `ReconcileBatch` over the hints that are due, oldest first; the errors are joined.
  unfoldable pub reconcile_hints :
      List RoomHint
      → ReconciliationReport
      → List Error
      → Database
      → ReconciliationReport × List Error × Database
  unfolding reconcile_room
  reconcile_hints [] report errors db = (report, errors, db)
  reconcile_hints (hint ∷ hints) report errors db =
      let (part, e, db') = reconcile_room hint db in
      let counted = add report part in
      elim e [
        | none ↦ reconcile_hints hints counted errors db'
        | some x ↦
            reconcile_hints hints (record counted { failures = suc counted.failures })
              (errors ++ x ∷ []) db'
      ]
