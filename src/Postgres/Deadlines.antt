-- ===== src/Postgres/Deadlines.antt =====
-- The deadlines of the Postgres store, in backend/internal/room/adapter/postgres/deadlines.go:
-- `ProcessNextDeadline`, what it calls, and `CleanupDeadlines`. With `ReapExpiredConnections` they
-- are the repository that the deadline worker runs on.
use rock_paper_money.Prelude.{
  ltb, if◌then◌else◌, length, ◌==◌, nat_eq, bool_eq, string_eq, ℕ, suc, ◌+◌, String, Bool, true,
  false, not, ◌&&◌, ◌||◌, Option, none, some, List, [], ◌∷◌,
}
use rock_paper_money.Prelude.Int.{ltb_ℤ, leb_ℤ, int_eq}
use rock_paper_money.Prelude.Dict.{is_some, get_or, lookup}
use rock_paper_money.Failure.{
  Error, Fallible, ok, err, external, stale_round, round_resolved, room_closed,
}
use rock_paper_money.Game.{move_eq, result_eq}
use rock_paper_money.Room.{Room, state}
use rock_paper_money.Room.Actions.{Outcome}
use rock_paper_money.Room.Deadlines.{forfeit, resolve_inactivity, resolve_deadline_draw}
use rock_paper_money.Action.{Action, pure, modify, ◌>>=◌, ◌>>◌}
use rock_paper_money.Application.{Time}
use rock_paper_money.Memory.{GoLibrary}
use rock_paper_money.Worker.{Call}
use rock_paper_money.Worker.Deadlines.{DeadlineResult, DeadlinePort}
use rock_paper_money.Postgres.{
  Role, role_eq, other_role, RoundStatus, status_eq, is_pending, DeadlineKind, RoundRow,
  ConnectionRow, DeadlineRow, Database, transaction, active, settling, completed, cancelled,
  disconnect, inactivity,
}
use rock_paper_money.Postgres.Sql.{rows_where, update_where, delete_where, least_row, sorted_rows}
use rock_paper_money.Postgres.Aggregate.{seat_of_role, room_row, round_row, Roles, load, save}
use rock_paper_money.Postgres.Wallets.{settle_round}
use rock_paper_money.Postgres.Connections.{presence_row, ensure_outbox, cancelled_at}
use rock_paper_money.Postgres.Disconnects.{is_connected, reap_expired_connections}

-- `CASE kind WHEN 'disconnect' THEN 0 ELSE 1 END`
abbrev pub kind_order : DeadlineKind → ℕ
kind_order (disconnect role) = 0
kind_order inactivity = 1

-- `ORDER BY due_at, kind, deadline_id`
unfoldable pub due_before : DeadlineRow → DeadlineRow → Bool
due_before d e =
    ltb_ℤ d.due_at e.due_at
    || d.due_at == e.due_at
      && (ltb (kind_order d.kind) (kind_order e.kind)
          || kind_order d.kind == kind_order e.kind && ltb d.deadline_id e.deadline_id)

unfoldable pub is_due : Time → DeadlineRow → Bool
is_due now d = is_pending d.status && leb_ℤ d.due_at now

-- The deadline that `ProcessNextDeadline` looks at first.
unfoldable pub candidate : Time → List DeadlineRow → Option DeadlineRow
unfolding least_row rows_where due_before is_due
candidate now deadlines = least_row due_before (rows_where (is_due now) deadlines)

-- The current round of an open room, in a state of its own.
unfoldable pub is_round_active : String → ℕ → Database → Bool
unfolding room_row round_row
is_round_active code round db = elim (room_row code db) [
  | none ↦ false
  | some r ↦ elim (round_row code round db) [
    | none ↦ false
    | some rr ↦ r.current_round == round && not r.is_closed && rr.status == active
  ]
]

unfoldable pub is_round_funded : String → ℕ → Database → Bool
unfolding round_row
is_round_funded code round db = elim (round_row code round db) [
  | none ↦ false
  | some rr ↦ rr.funded
]

unfoldable pub set_status : String → ℕ → RoundStatus → RoundStatus → Database → Database
unfolding update_where
set_status code round before after db = record db {
  rounds =
      update_where
        (λ (rr : RoundRow). rr.room_code == code && rr.number == round && rr.status == before)
        (λ (rr : RoundRow). record rr { status = after }) db.rounds;
}

unfoldable pub cancel_deadline : ℕ → Time → Database → Database
unfolding update_where
cancel_deadline id now db = record db {
  deadlines =
      update_where (λ (d : DeadlineRow). d.deadline_id == id) (cancelled_at now) db.deadlines;
}

-- A seat's player is away since the disconnection that the deadline is for.
unfoldable pub is_still_away : String → Role → ℕ → Database → Bool
unfolding seat_of_role presence_row
is_still_away code role generation db = elim (seat_of_role code role db) [
  | none ↦ false
  | some s ↦ elim (presence_row code s.player_id db) [
    | none ↦ false
    | some p ↦ p.generation == generation && not p.present
  ]
]

abbrev pub is_kind_applicable : String → DeadlineRow → Database → DeadlineKind → Bool
is_kind_applicable code d db inactivity = true
is_kind_applicable code d db (disconnect role) = is_still_away code role d.generation db

-- A due deadline of the room still counts.
unfoldable pub is_applicable : String → ℕ → Room → DeadlineRow → Database → Bool
unfolding is_round_funded is_still_away
is_applicable code round aggregate d db =
    aggregate.round == round
    && not aggregate.resolved
    && not aggregate.closed
    && is_round_funded code round db
    && is_kind_applicable code d db d.kind

-- The loop of `nextApplicableDeadline`: what does not count any more is cancelled.
unfoldable pub first_applicable :
    String → ℕ → Room → Time → List DeadlineRow → Database → Option DeadlineRow × Database
unfolding is_applicable cancel_deadline
first_applicable code round aggregate now [] db = (none, db)
first_applicable code round aggregate now (d ∷ ds) db =
    let rest =
      first_applicable code round aggregate now ds (cancel_deadline d.deadline_id now db) in
    if is_applicable code round aggregate d db then (some d, db) else rest

unfoldable pub next_applicable_deadline :
    String → ℕ → Room → Time → Database → Option DeadlineRow × Database
unfolding first_applicable rows_where sorted_rows due_before is_due
next_applicable_deadline code round aggregate now db =
    first_applicable code round aggregate now
      (sorted_rows due_before
        (rows_where (λ (d : DeadlineRow). d.room_code == code && is_due now d) db.deadlines))
      db

-- `activeRoles` for one role: its seat is there, and an open connection holds it.
unfoldable pub is_role_active : String → Role → Time → Database → Bool
unfolding seat_of_role is_connected
is_role_active code role now db =
    is_some (seat_of_role code role db) && is_connected code role now db

abbrev pub stale_result : Time → DeadlineResult
stale_result due_at = record {
  processed = true;
  settled = false;
  stale = true;
  due_at = some due_at;
}

abbrev pub idle_result : DeadlineResult
idle_result = record { processed = false; settled = false; stale = false; due_at = none }

-- A claim without a deadline that counts: the round is active again.
unfoldable pub give_back : String → ℕ → Time → Action Database DeadlineResult
unfolding set_status
give_back code round due_at db =
    (ok (stale_result due_at), set_status code round settling active db)

-- The same with the deadline cancelled.
unfoldable pub give_back_deadline : String → ℕ → Time → DeadlineRow → Action Database DeadlineResult
unfolding give_back cancel_deadline
give_back_deadline code round now d db =
    give_back code round d.due_at (cancel_deadline d.deadline_id now db)

-- The resolution that a deadline asks for; `none` where the player is back.
unfoldable pub resolution :
    String → ℕ → Time → Roles → DeadlineKind → Database → Room → Option Outcome
unfolding is_role_active
resolution code round now roles inactivity db aggregate = some (resolve_inactivity round aggregate)
resolution code round now roles (disconnect role) db aggregate =
    if is_role_active code role now db
    then none
    else if is_role_active code (other_role role) now db
    then some (forfeit (get_or (lookup role roles) "") round aggregate)
    else some (resolve_deadline_draw round aggregate)

abbrev pub is_passed_over : Error → Bool
is_passed_over round_resolved = true
is_passed_over stale_round = true
is_passed_over room_closed = true
is_passed_over _ = false

abbrev pub closed_deadline : ℕ → Time → DeadlineRow → DeadlineRow
closed_deadline id now d = record d {
  status = if d.deadline_id == id then completed else cancelled;
  completed_at = some now;
}

-- The outbox and the deadlines of a resolved round.
unfoldable pub close_round : String → ℕ → ℕ → Time → DeadlineRow → Database → Database
unfolding ensure_outbox update_where
close_round code round revision now d db = record (ensure_outbox code revision db) {
  deadlines =
      update_where
        (λ (e : DeadlineRow). e.room_code == code && e.round_number == round && is_pending e.status)
        (closed_deadline d.deadline_id now) db.deadlines;
}

-- The writes of a resolved round under its new revision.
unfoldable pub commit_revision :
    GoLibrary → String → ℕ → Time → Roles → DeadlineRow → Room → ℕ → Action Database DeadlineResult
unfolding save settle_round close_round
commit_revision go code round now roles d aggregate revision db =
    (do
      settle_round go code (state aggregate)
      modify (close_round code round revision now d)
      pure (record { processed = true; settled = true; stale = false; due_at = some d.due_at }))
      (save aggregate roles round revision db)

unfoldable pub commit_resolution :
    GoLibrary → String → ℕ → Time → Roles → DeadlineRow → Room → Action Database DeadlineResult
unfolding room_row commit_revision
commit_resolution go code round now roles d aggregate db = elim (room_row code db) [
  | none ↦ (err (external 0), db)
  | some r ↦ commit_revision go code round now roles d aggregate (suc r.revision) db
]

-- `ProcessNextDeadline` with the deadline found and its resolution.
unfoldable pub finish_deadline :
    GoLibrary
    → String
    → ℕ
    → Time
    → Roles
    → DeadlineRow
    → Option Outcome
    → Action Database DeadlineResult
unfolding give_back_deadline commit_resolution
finish_deadline go code round now roles d none db = give_back_deadline code round now d db
finish_deadline go code round now roles d (some (_, some e)) db =
    if is_passed_over e then give_back_deadline code round now d db else (err e, db)
finish_deadline go code round now roles d (some (aggregate, none)) db =
    commit_resolution go code round now roles d aggregate db

abbrev pub with_deadline :
    GoLibrary
    → String
    → ℕ
    → Time
    → Time
    → Room
    → Roles
    → Option DeadlineRow × Database
    → Fallible DeadlineResult × Database
with_deadline go code round now due_at aggregate roles (none, db) = give_back code round due_at db
with_deadline go code round now due_at aggregate roles (some d, db) =
    finish_deadline go code round now roles d (resolution code round now roles d.kind db aggregate)
      db

-- `ProcessNextDeadline` behind its claim.
unfoldable pub process_claimed : GoLibrary → Time → DeadlineRow → Action Database DeadlineResult
unfolding room_row load next_applicable_deadline resolution finish_deadline give_back
    cancel_deadline
process_claimed go now d db = elim (room_row d.room_code db) [
  | none ↦ (ok (stale_result d.due_at), cancel_deadline d.deadline_id now db)
  | some r ↦
      (do
        (aggregate, roles) ← load d.room_code
        λ claimed.
            with_deadline go d.room_code r.current_round now d.due_at aggregate roles
              (next_applicable_deadline d.room_code r.current_round aggregate now claimed))
        db
]

-- `ProcessNextDeadline` for its candidate.
unfoldable pub process_candidate : GoLibrary → Time → DeadlineRow → Action Database DeadlineResult
unfolding is_round_active is_round_funded set_status cancel_deadline process_claimed
process_candidate go now d db =
    if is_round_active d.room_code d.round_number db
      && is_round_funded d.room_code d.round_number db
    then process_claimed go now d (set_status d.room_code d.round_number active settling db)
    else (
      ok (stale_result d.due_at),
      if is_round_active d.room_code d.round_number db
          then db
          else cancel_deadline d.deadline_id now db,
    )

unfoldable pub process_next_deadline : GoLibrary → Time → Action Database DeadlineResult
unfolding candidate process_candidate
process_next_deadline go now = transaction (λ db. elim (candidate now db.deadlines) [
  | none ↦ (ok idle_result, db)
  | some d ↦ process_candidate go now d db
])

abbrev pub is_finished : Time → DeadlineRow → Bool
is_finished before d =
    not (is_pending d.status) && elim d.completed_at [ none ↦ false | some at ↦ ltb_ℤ at before ]

abbrev pub is_long_closed : Time → ConnectionRow → Bool
is_long_closed before c = elim c.closed_at [ none ↦ false | some at ↦ ltb_ℤ at before ]

unfoldable pub cleanup_deadlines : Time → Call Database ℕ
unfolding rows_where delete_where
cleanup_deadlines before db = (
  length (rows_where (is_finished before) db.deadlines)
      + length (rows_where (is_long_closed before) db.connections),
  none,
  record db {
    deadlines = delete_where (is_finished before) db.deadlines;
    connections = delete_where (is_long_closed before) db.connections;
  },
)

-- A result beside its error, which goes with an empty result.
abbrev pub called : Fallible DeadlineResult × Database → DeadlineResult × Option Error × Database
called (ok result, db) = (result, none, db)
called (err e, db) = (idle_result, some e, db)

-- The repository of the deadline worker.
unfoldable pub deadline_port : GoLibrary → (String → String → Bool) → DeadlinePort Database
unfolding reap_expired_connections process_next_deadline cleanup_deadlines
deadline_port go id_before = record {
  reap_expired_connections = λ now db. reap_expired_connections id_before now db;
  process_next_deadline = λ now db. called (process_next_deadline go now db);
  cleanup_deadlines = λ now db. cleanup_deadlines now db;
}
