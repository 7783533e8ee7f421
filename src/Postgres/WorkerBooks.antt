-- ===== src/Postgres/WorkerBooks.antt =====
-- The workers' steps keep the books of the Postgres store,
-- backend/internal/room/adapter/postgres/deadlines.go and reconciliation.go.
use rock_paper_money.Postgres.Sql.{exists_where}
use rock_paper_money.Failure.{Fallible, ok, err, external}
use rock_paper_money.Prelude.{
  if◌then◌else◌, nat_eq, bool_eq, string_eq, ℕ, suc, String, refl, Bool, true, false, not, ◌&&◌,
  Option, none, some, List, [], ◌∷◌, arith,
}
use rock_paper_money.Postgres.Repository.{outcome}
use rock_paper_money.Postgres.Connections.{is_revision, insert_outbox, add_outbox, ensure_outbox}
use rock_paper_money.Postgres.Reconciliation.{
  RoomHint, Transition, claim_room_transition, transition_of, cancel_round, settle_transition,
  revision_of, reconcile_claimed, announce, announced, settled, reconcile_claim, reconcile_room,
  resolve, advance,
}
use rock_paper_money.Action.{modify}
use rock_paper_money.Prelude.Int.{int_eq}
use rock_paper_money.Game.{move_eq, result_eq}
use rock_paper_money.Room.{Room, state}
use rock_paper_money.Room.Actions.{Outcome}
use rock_paper_money.Application.{Time}
use rock_paper_money.Memory.{GoLibrary}
use rock_paper_money.Worker.Deadlines.{DeadlineResult}
use rock_paper_money.Postgres.{
  role_eq, RoundStatus, status_eq, DeadlineRow, Database, active, settling, resolved,
}
use rock_paper_money.Postgres.Aggregate.{room_row, Roles, load, save}
use rock_paper_money.Postgres.Deadlines.{
  candidate, is_round_active, is_round_funded, set_status, cancel_deadline, is_applicable,
  first_applicable, next_applicable_deadline, idle_result, give_back, give_back_deadline,
  resolution, is_passed_over, close_round, commit_revision, commit_resolution, finish_deadline,
  with_deadline, process_claimed, process_candidate, process_next_deadline,
}
use rock_paper_money.Postgres.Ledger.{IsLedger, same-IsLedger}
use rock_paper_money.Postgres.Books.{
  Keeps, if-IsLedger, option-IsLedger, row-Keeps, transaction-Keeps, >>=-Keeps, fund_round-Keeps,
  settle_round-Keeps,
}
use rock_paper_money.Postgres.Runs.{load-Keeps, save-Keeps, lift-Keeps, raise_if-Keeps}

set_status-IsLedger :
    (code : String) (round : ℕ) (before after : RoundStatus) (db : Database)
    → IsLedger db
    → IsLedger (set_status code round before after db)
unfolding set_status
set_status-IsLedger code round before after db h = same-IsLedger db _ refl refl h

cancel_deadline-IsLedger :
    (id : ℕ) (now : Time) (db : Database) → IsLedger db → IsLedger (cancel_deadline id now db)
unfolding cancel_deadline
cancel_deadline-IsLedger id now db h = same-IsLedger db _ refl refl h

pick-IsLedger :
    (b : Bool) (r s : Option DeadlineRow × Database)
    → IsLedger r.1
    → IsLedger s.1
    → IsLedger (if b then r else s).1
pick-IsLedger true r s h k = h
pick-IsLedger false r s h k = k

first_applicable-IsLedger :
    (code : String) (round : ℕ) (aggregate : Room) (now : Time) (ds : List DeadlineRow)
    (db : Database)
    → IsLedger db
    → IsLedger (first_applicable code round aggregate now ds db).1
unfolding first_applicable
first_applicable-IsLedger code round aggregate now [] db h = h
first_applicable-IsLedger code round aggregate now (d ∷ ds) db h =
    pick-IsLedger (is_applicable code round aggregate d db) (some d, db)
      (first_applicable code round aggregate now ds (cancel_deadline d.deadline_id now db)) h
      (first_applicable-IsLedger code round aggregate now ds (cancel_deadline d.deadline_id now db)
        (cancel_deadline-IsLedger d.deadline_id now db h))

ensure_outbox-IsLedger :
    (code : String) (revision : ℕ) (db : Database)
    → IsLedger db
    → IsLedger (ensure_outbox code revision db)
unfolding ensure_outbox insert_outbox
ensure_outbox-IsLedger code revision db h =
    same-IsLedger db (ensure_outbox code revision db) (ground arith) (ground arith) h

give_back-Keeps : (code : String) (round : ℕ) (due_at : Time) → Keeps (give_back code round due_at)
unfolding give_back
give_back-Keeps code round due_at db h = set_status-IsLedger code round settling active db h

give_back_deadline-Keeps :
    (code : String) (round : ℕ) (now : Time) (d : DeadlineRow)
    → Keeps (give_back_deadline code round now d)
unfolding give_back_deadline
give_back_deadline-Keeps code round now d db h =
    give_back-Keeps code round d.due_at (cancel_deadline d.deadline_id now db)
      (cancel_deadline-IsLedger d.deadline_id now db h)

close_round-Keeps :
    (code : String) (round revision : ℕ) (now : Time) (d : DeadlineRow)
    → Keeps (modify (close_round code round revision now d))
unfolding close_round
close_round-Keeps code round revision now d db h =
    same-IsLedger (ensure_outbox code revision db) _ refl refl
      (ensure_outbox-IsLedger code revision db h)

commit_revision-Keeps :
    (go : GoLibrary) (code : String) (round : ℕ) (now : Time) (roles : Roles) (d : DeadlineRow)
    (aggregate : Room) (revision : ℕ)
    → Keeps (commit_revision go code round now roles d aggregate revision)
unfolding commit_revision
commit_revision-Keeps go code round now roles d aggregate revision db h =
    >>=-Keeps _ _ (settle_round-Keeps go code (state aggregate))
      (λ _. >>=-Keeps _ _ (close_round-Keeps code round revision now d) (λ _. λ db k. k))
      (save aggregate roles round revision db) (save-Keeps aggregate roles round revision db h)

commit_resolution-Keeps :
    (go : GoLibrary) (code : String) (round : ℕ) (now : Time) (roles : Roles) (d : DeadlineRow)
    (aggregate : Room)
    → Keeps (commit_resolution go code round now roles d aggregate)
unfolding commit_resolution
commit_resolution-Keeps go code round now roles d aggregate =
    row-Keeps {A = DeadlineResult} (room_row code) (external 0)
      (λ r. commit_revision go code round now roles d aggregate (suc r.revision))
      (λ r. commit_revision-Keeps go code round now roles d aggregate (suc r.revision))

finish_deadline-Keeps :
    (go : GoLibrary) (code : String) (round : ℕ) (now : Time) (roles : Roles) (d : DeadlineRow)
    (o : Option Outcome)
    → Keeps (finish_deadline go code round now roles d o)
unfolding finish_deadline
finish_deadline-Keeps go code round now roles d none db h =
    give_back_deadline-Keeps code round now d db h
finish_deadline-Keeps go code round now roles d (some (aggregate, none)) db h =
    commit_resolution-Keeps go code round now roles d aggregate db h
finish_deadline-Keeps go code round now roles d (some (aggregate, some e)) db h =
    if-IsLedger (is_passed_over e) (give_back_deadline code round now d db) (err e, db)
      (give_back_deadline-Keeps code round now d db h) (λ _. h)

with_deadline-IsLedger :
    (go : GoLibrary) (code : String) (round : ℕ) (now due_at : Time) (aggregate : Room)
    (roles : Roles) (found : Option DeadlineRow × Database)
    → IsLedger found.1
    → IsLedger (with_deadline go code round now due_at aggregate roles found).1
with_deadline-IsLedger go code round now due_at aggregate roles (none, db) h =
    give_back-Keeps code round due_at db h
with_deadline-IsLedger go code round now due_at aggregate roles (some d, db) h =
    finish_deadline-Keeps go code round now roles d
      (resolution code round now roles d.kind db aggregate) db h

process_claimed-Keeps :
    (go : GoLibrary) (now : Time) (d : DeadlineRow) → Keeps (process_claimed go now d)
unfolding process_claimed next_applicable_deadline
process_claimed-Keeps go now d db h =
    option-IsLedger {A = DeadlineResult} (room_row d.room_code db) _ _
      (cancel_deadline-IsLedger d.deadline_id now db h)
      (λ r.
        >>=-Keeps (load d.room_code) _ (load-Keeps d.room_code)
          (λ loaded. λ claimed k.
            with_deadline-IsLedger go d.room_code r.current_round now d.due_at loaded.0 loaded.1
              (next_applicable_deadline d.room_code r.current_round loaded.0 now claimed)
              (first_applicable-IsLedger d.room_code r.current_round loaded.0 now _ claimed k))
          db h)

process_candidate-Keeps :
    (go : GoLibrary) (now : Time) (d : DeadlineRow) → Keeps (process_candidate go now d)
unfolding process_candidate
process_candidate-Keeps go now d db h =
    if-IsLedger
      (is_round_active d.room_code d.round_number db
        && is_round_funded d.room_code d.round_number db)
      (process_claimed go now d (set_status d.room_code d.round_number active settling db)) _
      (process_claimed-Keeps go now d _
        (set_status-IsLedger d.room_code d.round_number active settling db h))
      (λ _. passed (is_round_active d.room_code d.round_number db))
  where
    passed : (b : Bool) → IsLedger (if b then db else cancel_deadline d.deadline_id now db)
    passed true = h
    passed false = cancel_deadline-IsLedger d.deadline_id now db h

pub process_next_deadline-Keeps :
    (go : GoLibrary) (now : Time) → Keeps (process_next_deadline go now)
unfolding process_next_deadline
process_next_deadline-Keeps go now = transaction-Keeps {A = DeadlineResult} _ (λ db h.
    option-IsLedger {A = DeadlineResult} (candidate now db.deadlines) (ok idle_result, db)
      (λ d. process_candidate go now d db) h (λ d. process_candidate-Keeps go now d db h))

insert_outbox-IsLedger :
    (code : String) (revision : ℕ) (db : Database)
    → IsLedger db
    → IsLedger (insert_outbox code revision db)
unfolding insert_outbox
insert_outbox-IsLedger code revision db h = same-IsLedger db _ refl refl h

pub add_outbox-Keeps : (code : String) (revision : ℕ) → Keeps (add_outbox code revision)
unfolding add_outbox
add_outbox-Keeps code revision db h =
    if-IsLedger (exists_where (is_revision code revision) db.outbox) (err (external 5), db)
      (ok tt, insert_outbox code revision db) h (λ _. insert_outbox-IsLedger code revision db h)

revision_of-Keeps : (code : String) → Keeps (revision_of code)
unfolding revision_of
revision_of-Keeps code =
    row-Keeps {A = ℕ} (room_row code) (external 0) (λ r db. (ok r.revision, db)) (λ r. λ db h. h)

settle_transition-Keeps :
    (go : GoLibrary) (hint : RoomHint) (transition : Transition) (aggregate : Room)
    → Keeps (settle_transition go hint transition aggregate)
unfolding settle_transition cancel_round
settle_transition-Keeps go hint resolve aggregate =
    >>=-Keeps _ _ (settle_round-Keeps go hint.room_code (state aggregate))
      (λ _. λ db h. same-IsLedger db (cancel_round hint db) refl refl h)
settle_transition-Keeps go hint advance aggregate =
    >>=-Keeps _ _ (λ db h. fund_round-Keeps go db.clock hint.room_code aggregate.round "" db h)
      (λ _. λ db h. set_status-IsLedger hint.room_code hint.round settling resolved db h)

claim_room_transition-IsLedger :
    (hint : RoomHint) (db : Database) → IsLedger db → IsLedger (claim_room_transition hint db).1
unfolding claim_room_transition set_status
claim_room_transition-IsLedger hint db h =
    same-IsLedger db (claim_room_transition hint db).1 (ground arith) (ground arith) h

module _ (go : GoLibrary) (is_bounded : String → ℕ → Bool) where
  reconcile_claimed-Keeps :
      (hint : RoomHint) (transition : Transition)
      → Keeps (reconcile_claimed go is_bounded hint transition)
  unfolding reconcile_claimed
  reconcile_claimed-Keeps hint transition = >>=-Keeps _ _ (load-Keeps hint.room_code) (λ loaded.
      >>=-Keeps _ _ (lift-Keeps (outcome (transition_of transition hint.round loaded.0)))
        (λ changed. >>=-Keeps _ _ (revision_of-Keeps hint.room_code) (λ revision.
          >>=-Keeps _ _ (save-Keeps changed loaded.1 loaded.0.round (suc revision)) (λ _.
            >>=-Keeps _ _ (settle_transition-Keeps go hint transition changed) (λ _. λ db h. h)))))

  announce-Keeps :
      (hint : RoomHint) (changed : Room × ℕ) → Keeps (announce go is_bounded hint changed)
  unfolding announce
  announce-Keeps hint (changed, revision) =
      >>=-Keeps _ _ (add_outbox-Keeps hint.room_code revision)
        (λ _. raise_if-Keeps (λ _. not (is_bounded hint.room_code changed.round)) (external 12))

  reconcile_claim-IsLedger :
      (hint : RoomHint) (db : Database) (claim : Option Transition × Database)
      → IsLedger db
      → IsLedger claim.1
      → IsLedger (reconcile_claim go is_bounded hint db claim).2
  reconcile_claim-IsLedger hint db (none, claimed) h k = h
  reconcile_claim-IsLedger hint db (some transition, claimed) h k =
      after (reconcile_claimed go is_bounded hint transition claimed)
        (reconcile_claimed-Keeps hint transition claimed k)
    where
      told :
          (r : Fallible (Unit {0}) × Database)
          → IsLedger r.1
          → IsLedger (announced go is_bounded db transition r).2
      told (ok _, db') l = l
      told (err e, db') l = h

      after :
          (r : Fallible (Room × ℕ) × Database)
          → IsLedger r.1
          → IsLedger (settled go is_bounded db hint transition r).2
      after (ok changed, db') l =
          told (announce go is_bounded hint changed db') (announce-Keeps hint changed db' l)
      after (err e, db') l = h

  pub reconcile_room-IsLedger :
      (hint : RoomHint) (db : Database)
      → IsLedger db
      → IsLedger (reconcile_room go is_bounded hint db).2
  unfolding reconcile_room
  reconcile_room-IsLedger hint db h =
      reconcile_claim-IsLedger hint db (claim_room_transition hint db) h
        (claim_room_transition-IsLedger hint db h)
