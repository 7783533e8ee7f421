-- ===== src/Postgres/Progress.antt =====
-- `ProcessNextDeadline` of backend/internal/room/adapter/postgres/deadlines.go leaves fewer due
-- deadlines, but for one case.
use rock_paper_money.Prelude.{
  Bool-cases, Option-cases, ◌==◌, nat_eq, bool_eq, string_eq, ℕ, suc, ◌<◌, String, ◌≡◌, refl, sym,
  ap, subst, ◌∙◌, ◌⊎◌, inl, inr, Bool, true, ◌&&◌, Option, none, some, List, [], ◌∷◌, arith,
}
use rock_paper_money.Postgres.Rows.{least_row-All, rows_where-All, exists-update_where}
use rock_paper_money.Postgres.{
  role_eq, status_eq, is_pending, RoomRow, DeadlineRow, Database, settled_transaction, active,
  settling,
}
use rock_paper_money.Postgres.Sql.{rows_where, update_where}
use rock_paper_money.Postgres.Aggregate.{seats_of, room_row, Roles, load, save}
use rock_paper_money.Postgres.Due.{
  due_count, IsLater, IsLater-refl, IsLater-trans, update_where-IsLater, due_count_drops,
  closed_deadline-is_due,
}
use rock_paper_money.Postgres.Deadlines.{
  due_before, is_due, candidate, is_round_active, is_round_funded, set_status, cancel_deadline,
  next_applicable_deadline, give_back, give_back_deadline, resolution, closed_deadline, close_round,
  commit_revision, commit_resolution, finish_deadline, with_deadline, process_claimed,
  process_candidate, process_next_deadline,
}
use rock_paper_money.Worker.Deadlines.{DeadlineResult}
use rock_paper_money.Room.Actions.{Outcome}
use rock_paper_money.Room.{Room, State, state}
use rock_paper_money.Postgres.Stuck.{IsStuck}
use rock_paper_money.Action.{Action, ◌>>=◌, >>=-ok_elim}
use rock_paper_money.Failure.{Fallible, ok, err}
use rock_paper_money.Prelude.Int.{int_eq}
use rock_paper_money.Game.{move_eq, result_eq}
use rock_paper_money.Application.{Time}
use rock_paper_money.Memory.{GoLibrary}
use rock_paper_money.Postgres.Wallets.{
  user_account_id, post_transaction, seat_owners, with_owners, record_settlement, pay_owners,
  settle_round,
}
use rock_paper_money.Postgres.Standing.{
  IsStanding, IsAfter, IsFewer, IsFound, cancel_deadline-IsFewer, next_applicable_deadline-IsFound,
  next_applicable_deadline-IsAfter,
}

-- `settleRound` writes no deadline.
with_owners-deadlines :
    (owners : List String) (k : String → String → Action Database (Unit {0})) (db : Database)
    → ((a b : String) → (k a b db).1.deadlines ≡ db.deadlines)
    → (with_owners owners k db).1.deadlines ≡ db.deadlines
with_owners-deadlines [] k db h = refl
with_owners-deadlines (a ∷ []) k db h = refl
with_owners-deadlines (a ∷ b ∷ []) k db h = h a b
with_owners-deadlines (a ∷ b ∷ c ∷ owners) k db h = refl

record_settlement-deadlines :
    (go : GoLibrary) (code : String) (st : State) (a b : String) (db : Database)
    → (record_settlement go code st a b db).deadlines ≡ db.deadlines
unfolding record_settlement post_transaction
record_settlement-deadlines go code st a b db = ground arith

settle_round-deadlines :
    (go : GoLibrary) (code : String) (st : State) (db : Database)
    → (settle_round go code st db).1.deadlines ≡ db.deadlines
unfolding settle_round pay_owners
settle_round-deadlines go code st db = ground (
  arith,
  with_owners-deadlines (seat_owners (seats_of code db)) (pay_owners go code st) db (λ a b.
      ground
        (arith, record_settlement-deadlines go code st (user_account_id a) (user_account_id b) db)),
)

module _ (now : Time) (start : Database) where
  -- A step that gives a result leaves fewer due.
  abbrev Drops : Fallible DeadlineResult × Database → Type 0
  Drops r = (result : DeadlineResult) (db : Database) → r ≡ (ok result, db) → IsFewer now start db

  give_back-Drops :
      (code : String) (round : ℕ) (due_at : Time) (db : Database)
      → IsFewer now start db
      → Drops (give_back code round due_at db)
  unfolding give_back set_status
  give_back-Drops code round due_at db h result db' p = ground (arith, p, h)

  give_back_deadline-Drops :
      (code : String) (round : ℕ) (d : DeadlineRow) (db : Database)
      → IsStanding now start d
      → IsAfter now start db
      → Drops (give_back_deadline code round now d db)
  unfolding give_back_deadline
  give_back_deadline-Drops code round d db h k =
      give_back-Drops code round d.due_at (cancel_deadline d.deadline_id now db)
        (cancel_deadline-IsFewer now start d db h k)

  -- The pending deadlines of a round are closed.
  closed-IsFewer :
      (code : String) (round id : ℕ) (d : DeadlineRow) (ds : List DeadlineRow)
      → d.room_code ≡ code
      → d.round_number ≡ round
      → IsStanding now start d
      → IsLater now start.deadlines ds
      → due_count now (
          update_where
            (λ (e : DeadlineRow).
              e.room_code == code && e.round_number == round && is_pending e.status)
            (closed_deadline id now)
            ds)
        < due_count now start.deadlines
  unfolding is_due
  closed-IsFewer code round id d ds here current h p =
      let test : DeadlineRow → Bool =
        λ e. e.room_code == code && e.round_number == round && is_pending e.status in
      let found : DeadlineRow → Bool =
        λ e. e.room_code == code && e.round_number == round && is_due now e in
      due_count_drops now found (λ e q. ground (arith, q))
        (IsLater-trans now p (
          update_where-IsLater now test (closed_deadline id now) (closed_deadline-is_due now id)
            ds))
        (h.1 found (ground (arith, h.0, here, current, string_eq.beq_iff d.room_code code)))
        (exists-update_where test found (closed_deadline id now) (λ e q. ground (arith, q))
          (λ e. ground arith) ds)

  commit_revision-Drops :
      (go : GoLibrary) (code : String) (round revision : ℕ) (roles : Roles) (d e : DeadlineRow)
      (aggregate : Room) (db : Database)
      → d.room_code ≡ code
      → d.round_number ≡ round
      → IsStanding now start d
      → IsAfter now start db
      → Drops (commit_revision go code round now roles e aggregate revision db)
  unfolding commit_revision save close_round ◌>>=◌
  commit_revision-Drops go code round revision roles d e aggregate db here current h p result db'
        q =
      let saved = save aggregate roles round revision db in
      let paid = settle_round go code (state aggregate) in
      >>=-ok_elim paid _ saved q (λ _ db1 r k.
        let done : close_round code round revision now e db1 ≡ db' = ground (arith, k) in
        subst (λ (x : Database). due_count now x.deadlines < due_count now start.deadlines) done
          (closed-IsFewer code round e.deadline_id d db1.deadlines here current h (
            subst (λ ds. IsLater now start.deadlines ds)
              (ground (arith, r, settle_round-deadlines go code (state aggregate) saved)) p)))

  commit_resolution-Drops :
      (go : GoLibrary) (code : String) (round : ℕ) (roles : Roles) (d e : DeadlineRow)
      (aggregate : Room) (db : Database)
      → d.room_code ≡ code
      → d.round_number ≡ round
      → IsStanding now start d
      → IsAfter now start db
      → Drops (commit_resolution go code round now roles e aggregate db)
  unfolding commit_resolution
  commit_resolution-Drops go code round roles d e aggregate db here current h p result db' q =
      elim (Option-cases (room_row code db)) [
        | inl missing ↦ absurd (ground (arith, q, missing))
        | inr (r, found) ↦
            commit_revision-Drops go code round (suc r.revision) roles d e aggregate db here current
              h p result db' (ground (arith, q, found))
      ]

  -- The deadline that was found, whatever its resolution says.
  finish_deadline-Drops :
      (go : GoLibrary) (code : String) (round : ℕ) (roles : Roles) (d e : DeadlineRow)
      (o : Option Outcome) (db : Database)
      → d.room_code ≡ code
      → d.round_number ≡ round
      → IsStanding now start d
      → IsStanding now start e
      → IsAfter now start db
      → Drops (finish_deadline go code round now roles e o db)
  unfolding finish_deadline
  finish_deadline-Drops go code round roles d e none db here current h k p =
      give_back_deadline-Drops code round e db k p
  finish_deadline-Drops go code round roles d e (some (aggregate, none)) db here current h k p =
      commit_resolution-Drops go code round roles d e aggregate db here current h p
  finish_deadline-Drops go code round roles d e (some (aggregate, some x)) db here current h k p =
      λ result db' q. give_back_deadline-Drops code round e db k p result db' (ground (arith, q))

  with_deadline-Drops :
      (go : GoLibrary) (code : String) (round : ℕ) (due_at : Time) (aggregate : Room)
      (roles : Roles) (d : DeadlineRow) (found : Option DeadlineRow × Database)
      → d.room_code ≡ code
      → d.round_number ≡ round
      → IsStanding now start d
      → IsFound now start code round aggregate found
      → IsAfter now start found.1
      → Drops (with_deadline go code round now due_at aggregate roles found)
  with_deadline-Drops go code round due_at aggregate roles d (none, db) here current h k p =
      give_back-Drops code round due_at db k
  with_deadline-Drops go code round due_at aggregate roles d (some e, db) here current h k p =
      finish_deadline-Drops go code round roles d e
        (resolution code round now roles e.kind db aggregate) db here current h k p

  load_keeps : (code : String) (db : Database) → (load code db).1 ≡ db
  unfolding load
  load_keeps code db = ground arith

  process_claimed-Drops :
      (go : GoLibrary) (d : DeadlineRow) (db : Database)
      → ((r : RoomRow) → room_row d.room_code db ≡ some r → r.current_round ≡ d.round_number)
      → IsStanding now start d
      → db.deadlines ≡ start.deadlines
      → Drops (process_claimed go now d db)
  unfolding process_claimed
  process_claimed-Drops go d db current h p result db' q =
      elim (Option-cases (room_row d.room_code db)) [
        | inl missing ↦
            let done : cancel_deadline d.deadline_id now db ≡ db' = ground (arith, q, missing) in
            subst (IsFewer now start) done (
              cancel_deadline-IsFewer now start d db h (
                subst (λ ds. IsLater now start.deadlines ds) (sym p)
                  (IsLater-refl now start.deadlines)))
        | inr (r, found) ↦
            >>=-ok_elim (load d.room_code) _ db (ground (arith, q, found)) (λ loaded db1 l k.
              let (aggregate, roles) = loaded in
              let same : db1 ≡ db = ground (arith, l, load_keeps d.room_code db) in
              let ds : db1.deadlines ≡ start.deadlines =
                ap (λ (x : Database). x.deadlines) same ∙ p in
              with_deadline-Drops go d.room_code r.current_round d.due_at aggregate roles d
                (next_applicable_deadline d.room_code r.current_round aggregate now db1) refl
                (sym (current r found)) h
                (next_applicable_deadline-IsFound now start d.room_code r.current_round aggregate d
                  db1 refl h ds)
                (next_applicable_deadline-IsAfter now start d.room_code r.current_round aggregate
                  db1 ds)
                result db' k)
      ]

active_current :
    (code : String) (round : ℕ) (db : Database) (r : RoomRow)
    → is_round_active code round db ≡ true
    → room_row code db ≡ some r
    → r.current_round ≡ round
unfolding is_round_active
active_current code round db r h found = ground (arith, h, found)

candidate-IsStanding :
    (now : Time) (db : Database) (d : DeadlineRow)
    → candidate now db.deadlines ≡ some d
    → IsStanding now db d
unfolding candidate
candidate-IsStanding now db d p =
    least_row-All (IsStanding now db) due_before (rows_where (is_due now) db.deadlines) d p
      (rows_where-All (IsStanding now db) (is_due now) db.deadlines (λ e stands q. (q, stands)))

process_candidate-Drops :
    (go : GoLibrary) (now : Time) (db : Database) (d : DeadlineRow)
    → candidate now db.deadlines ≡ some d
    → (result : DeadlineResult) (db' : Database) → process_candidate go now d db ≡ (ok result, db')
    → IsFewer now db db' ⊎ IsStuck now db
unfolding process_candidate set_status room_row
process_candidate-Drops go now db d first result db' q =
    let standing = candidate-IsStanding now db d first in
    elim (Bool-cases (is_round_active d.room_code d.round_number db)) [
      | inr idle ↦
          let done : cancel_deadline d.deadline_id now db ≡ db' = ground (arith, q, idle) in
          inl (
            subst (IsFewer now db) done
              (cancel_deadline-IsFewer now db d db standing (IsLater-refl now db.deadlines)))
      | inl is_active ↦ elim (Bool-cases (is_round_funded d.room_code d.round_number db)) [
        | inl is_funded ↦ inl (
            process_claimed-Drops now db go d
              (set_status d.room_code d.round_number active settling db)
              (λ r found. active_current d.room_code d.round_number db r is_active found) standing
              refl result db' (ground (arith, q, is_active, is_funded)))
        | inr unfunded ↦ inr (record {
          first = d;
          is_candidate = first;
          is_active = is_active;
          is_unfunded = unfunded;
        })
      ]
    ]

-- A deadline that is reported as processed leaves fewer pending deadlines due, unless the first due
-- deadline is that of an active round that has not been funded.
pub process_next_deadline-IsFewer :
    (go : GoLibrary) (now : Time) (db : Database) (result : DeadlineResult) (db' : Database)
    → process_next_deadline go now db ≡ (ok result, db')
    → result.processed ≡ true
    → (due_count now db'.deadlines < due_count now db.deadlines) ⊎ IsStuck now db
unfolding process_next_deadline
process_next_deadline-IsFewer go now db result db' q processed =
    elim (Option-cases (candidate now db.deadlines)) [
      | inl nothing ↦ absurd (ground (arith, q, nothing, processed))
      | inr (d, first) ↦
          process_candidate-Drops go now db d first result db'
            (committed (process_candidate go now d db) (ground (arith, q, first)))
    ]
  where
    committed :
        (r : Fallible DeadlineResult × Database)
        → settled_transaction db r ≡ (ok result, db')
        → r ≡ (ok result, db')
    committed (ok x, db1) p = p
    committed (err e, db1) p = absurd (ground (arith, p))
