-- ===== src/Postgres/Standing.antt =====
-- What the loop of `nextApplicableDeadline`, in
-- backend/internal/room/adapter/postgres/deadlines.go, leaves of the deadlines that were due.
use rock_paper_money.Prelude.{
  if◌then◌else◌, length, All, ◌==◌, nat_eq, bool_eq, string_eq, ℕ, ◌<◌, String, ◌≡◌, sym, subst,
  Bool, true, false, ◌&&◌, Option, none, some, List, [], ◌∷◌, arith,
}
use rock_paper_money.Postgres.Rows.{
  sorted_rows-All, rows_where-All, length-sorted_rows-rows_where, exists-update_where,
}
use rock_paper_money.Postgres.{role_eq, status_eq, DeadlineRow, Database}
use rock_paper_money.Postgres.Sql.{rows_where, exists_where, sorted_rows}
use rock_paper_money.Postgres.Due.{
  due_count, IsLater, IsLater-refl, IsLater-trans, update_where-IsLater, due_count-IsLater,
  due_count_drops, cancelled_at-is_due,
}
use rock_paper_money.Postgres.Deadlines.{
  due_before, is_due, cancel_deadline, is_applicable, first_applicable, next_applicable_deadline,
}
use rock_paper_money.Room.{Room}
use rock_paper_money.Prelude.Int.{int_eq}
use rock_paper_money.Game.{move_eq, result_eq}
use rock_paper_money.Application.{Time}
use rock_paper_money.Postgres.Connections.{cancelled_at}

module _ (now : Time) (start : Database) where
  -- A due deadline of the store that the step began on.
  abbrev pub IsStanding : DeadlineRow → Type 0
  IsStanding d =
      (is_due now d ≡ true)
      × ((t : DeadlineRow → Bool) → t d ≡ true → exists_where t start.deadlines ≡ true)

  abbrev pub IsAfter : Database → Type 0
  IsAfter db = IsLater now start.deadlines db.deadlines

  abbrev pub IsFewer : Database → Type 0
  IsFewer db = due_count now db.deadlines < due_count now start.deadlines

  cancel_deadline-IsAfter :
      (id : ℕ) (db : Database) → IsLater now db.deadlines (cancel_deadline id now db).deadlines
  unfolding cancel_deadline
  cancel_deadline-IsAfter id db =
      update_where-IsLater now (λ (d : DeadlineRow). d.deadline_id == id) (cancelled_at now)
        (cancelled_at-is_due now) db.deadlines

  pub cancel_deadline-IsFewer :
      (d : DeadlineRow) (db : Database)
      → IsStanding d
      → IsAfter db
      → IsFewer (cancel_deadline d.deadline_id now db)
  unfolding cancel_deadline
  cancel_deadline-IsFewer d db h k =
      let found : DeadlineRow → Bool = λ e. e.deadline_id == d.deadline_id && is_due now e in
      due_count_drops now found (λ e p. ground (arith, p))
        (IsLater-trans now k (cancel_deadline-IsAfter d.deadline_id db))
        (h.1 found (ground (arith, h.0)))
        (exists-update_where (λ (e : DeadlineRow). e.deadline_id == d.deadline_id) found
          (cancelled_at now) (λ e p. ground (arith, p))
          (λ e. ground (arith, cancelled_at-is_due now e)) db.deadlines)

  -- The loop of `nextApplicableDeadline`.
  module _ (code : String) (round : ℕ) (aggregate : Room) where
    abbrev Found : Type 0
    Found = Option DeadlineRow × Database

    pick-IsAfter :
        (b : Bool) (d : DeadlineRow) (db : Database) (rest : Found)
        → IsAfter db
        → IsAfter rest.1
        → IsAfter (if b then (some d, db) else rest).1
    pick-IsAfter true d db rest h k = h
    pick-IsAfter false d db rest h k = k

    first_applicable-IsAfter :
        (ds : List DeadlineRow) (db : Database)
        → IsAfter db
        → IsAfter (first_applicable code round aggregate now ds db).1
    unfolding first_applicable
    first_applicable-IsAfter [] db h = h
    first_applicable-IsAfter (d ∷ ds) db h =
        pick-IsAfter (is_applicable code round aggregate d db) d db
          (first_applicable code round aggregate now ds (cancel_deadline d.deadline_id now db)) h
          (first_applicable-IsAfter ds (cancel_deadline d.deadline_id now db)
            (IsLater-trans now h (cancel_deadline-IsAfter d.deadline_id db)))

    -- The row that the loop has found, or what it has done when it found none.
    abbrev pub IsFound : Found → Type 0
    IsFound (none, db) = IsFewer db
    IsFound (some d, db) = IsStanding d

    pick-IsFound :
        (b : Bool) (d : DeadlineRow) (db : Database) (rest : Found)
        → IsStanding d
        → IsFound rest
        → IsFound (if b then (some d, db) else rest)
    pick-IsFound true d db rest h k = h
    pick-IsFound false d db rest h k = k

    first_applicable-IsFound :
        (ds : List DeadlineRow) (db : Database)
        → All IsStanding ds
        → IsFewer db
        → IsFound (first_applicable code round aggregate now ds db)
    unfolding first_applicable
    first_applicable-IsFound [] db h k = k
    first_applicable-IsFound (d ∷ ds) db h k =
        let cancelled = cancel_deadline d.deadline_id now db in
        pick-IsFound (is_applicable code round aggregate d db) d db
          (first_applicable code round aggregate now ds cancelled) h.0
          (first_applicable-IsFound ds cancelled h.1
            (ground (arith, k, due_count-IsLater now (cancel_deadline-IsAfter d.deadline_id db))))

    -- The same from the store that the step began on, when there is a row to look at.
    first_applicable-nonempty :
        (ds : List DeadlineRow) (db : Database)
        → All IsStanding ds
        → 0 < length ds
        → IsAfter db
        → IsFound (first_applicable code round aggregate now ds db)
    unfolding first_applicable
    first_applicable-nonempty [] db h n k = absurd (omega (arith, n))
    first_applicable-nonempty (d ∷ ds) db h n k =
        let cancelled = cancel_deadline d.deadline_id now db in
        pick-IsFound (is_applicable code round aggregate d db) d db
          (first_applicable code round aggregate now ds cancelled) h.0
          (first_applicable-IsFound ds cancelled h.1 (cancel_deadline-IsFewer d db h.0 k))

  pub next_applicable_deadline-IsFound :
      (code : String) (round : ℕ) (aggregate : Room) (d : DeadlineRow) (db : Database)
      → d.room_code ≡ code
      → IsStanding d
      → db.deadlines ≡ start.deadlines
      → IsFound code round aggregate (next_applicable_deadline code round aggregate now db)
  unfolding next_applicable_deadline
  next_applicable_deadline-IsFound code round aggregate d db here h p =
      let test : DeadlineRow → Bool = λ e. e.room_code == code && is_due now e in
      first_applicable-nonempty code round aggregate
        (sorted_rows due_before (rows_where test db.deadlines)) db
        (sorted_rows-All IsStanding due_before (rows_where test db.deadlines) (
          rows_where-All IsStanding test db.deadlines (λ e stands q.
            (ground (arith, q), λ t r. subst (λ ds. exists_where t ds ≡ true) p (stands t r)))))
        (length-sorted_rows-rows_where due_before test db.deadlines (
          subst (λ ds. exists_where test ds ≡ true) (sym p)
            (h.1 test (ground (arith, h.0, here, string_eq.beq_iff d.room_code code)))))
        (subst (λ ds. IsLater now start.deadlines ds) (sym p) (IsLater-refl now start.deadlines))

  pub next_applicable_deadline-IsAfter :
      (code : String) (round : ℕ) (aggregate : Room) (db : Database)
      → db.deadlines ≡ start.deadlines
      → IsAfter (next_applicable_deadline code round aggregate now db).1
  unfolding next_applicable_deadline
  next_applicable_deadline-IsAfter code round aggregate db p =
      let test : DeadlineRow → Bool = λ e. e.room_code == code && is_due now e in
      first_applicable-IsAfter code round aggregate
        (sorted_rows due_before (rows_where test db.deadlines)) db
        (subst (λ ds. IsLater now start.deadlines ds) (sym p) (IsLater-refl now start.deadlines))
