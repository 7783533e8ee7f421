-- ===== src/Postgres/Due.antt =====
-- How the due deadlines of the Postgres store become fewer, for
-- backend/internal/room/adapter/postgres/deadlines.go: its statements change a row only so that it
-- is not pending any more.
use rock_paper_money.Prelude.{
  if◌then◌else◌, nat_eq, bool_eq, string_eq, ℕ, suc, ◌≤◌, ◌<◌, ◌≡◌, refl, Bool, true, false, List,
  [], ◌∷◌, arith,
}
use rock_paper_money.Prelude.Int.{int_eq}
use rock_paper_money.Application.{Time}
use rock_paper_money.Postgres.{role_eq, status_eq, DeadlineRow}
use rock_paper_money.Postgres.Sql.{exists_where, update_where}
use rock_paper_money.Postgres.Connections.{cancelled_at}
use rock_paper_money.Postgres.Deadlines.{is_due, closed_deadline}

unfoldable pub due_count : Time → List DeadlineRow → ℕ
due_count now [] = 0
due_count now (d ∷ ds) = if is_due now d then suc (due_count now ds) else due_count now ds

module _ (now : Time) where
  -- Row by row, a table after some statements: a row is the same or not due.
  pub data IsLater : List DeadlineRow → List DeadlineRow → Type 0 where
    end : IsLater [] []
    same : {d : DeadlineRow} {ds es : List DeadlineRow} → IsLater ds es → IsLater (d ∷ ds) (d ∷ es)
    past :
        {d e : DeadlineRow} {ds es : List DeadlineRow}
        → is_due now e ≡ false
        → IsLater ds es
        → IsLater (d ∷ ds) (e ∷ es)

  pub IsLater-refl : (ds : List DeadlineRow) → IsLater ds ds
  IsLater-refl [] = end
  IsLater-refl (d ∷ ds) = same (IsLater-refl ds)

  pub IsLater-trans : {ds es fs : List DeadlineRow} → IsLater ds es → IsLater es fs → IsLater ds fs
  IsLater-trans end end = end
  IsLater-trans (same h) (same k) = same (IsLater-trans h k)
  IsLater-trans (past p h) (same k) = past p (IsLater-trans h k)
  IsLater-trans (same h) (past p k) = past p (IsLater-trans h k)
  IsLater-trans (past p h) (past q k) = past q (IsLater-trans h k)

  updated-IsLater :
      (b : Bool) (d e : DeadlineRow) {ds es : List DeadlineRow}
      → is_due now e ≡ false
      → IsLater ds es
      → IsLater (d ∷ ds) ((if b then e else d) ∷ es)
  updated-IsLater true d e p h = past p h
  updated-IsLater false d e p h = same h

  -- An update that leaves no row due.
  pub update_where-IsLater :
      (test : DeadlineRow → Bool) (f : DeadlineRow → DeadlineRow)
      → ((d : DeadlineRow) → is_due now (f d) ≡ false)
      → (ds : List DeadlineRow) → IsLater ds (update_where test f ds)
  unfolding update_where
  update_where-IsLater test f h [] = end
  update_where-IsLater test f h (d ∷ ds) =
      updated-IsLater (test d) d (f d) (h d) (update_where-IsLater test f h ds)

  pub due_count-IsLater :
      {ds es : List DeadlineRow} → IsLater ds es → due_count now es ≤ due_count now ds
  unfolding due_count
  due_count-IsLater end = ground arith
  due_count-IsLater (same {d} {ds} {es} k) = ground (arith, due_count-IsLater k)
  due_count-IsLater (past {d} {e} {ds} {es} p k) = ground (arith, due_count-IsLater k)

  -- A condition on due rows alone.
  module _ (test : DeadlineRow → Bool)
      (on_due : (d : DeadlineRow) → test d ≡ true → is_due now d ≡ true) where
    pub exists_where-IsLater :
        {ds es : List DeadlineRow}
        → IsLater ds es
        → exists_where test ds ≡ false
        → exists_where test es ≡ false
    unfolding exists_where
    exists_where-IsLater end h = h
    exists_where-IsLater (same {d} {ds} {es} k) h = ground (arith, exists_where-IsLater k)
    exists_where-IsLater (past {d} {e} {ds} {es} p k) h =
        ground (arith, exists_where-IsLater k, on_due e)

    -- Fewer rows are due when the condition held of one and holds of none.
    pub due_count_drops :
        {ds es : List DeadlineRow}
        → IsLater ds es
        → exists_where test ds ≡ true
        → exists_where test es ≡ false
        → due_count now es < due_count now ds
    unfolding due_count exists_where
    due_count_drops end h n = absurd (ground (arith, h))
    due_count_drops (same {d} {ds} {es} k) h n = ground (arith, due_count_drops k)
    due_count_drops (past {d} {e} {ds} {es} p k) h n =
        ground (arith, due_count_drops k, due_count-IsLater k, on_due d)

  pub cancelled_at-is_due : (d : DeadlineRow) → is_due now (cancelled_at now d) ≡ false
  unfolding is_due
  cancelled_at-is_due d = refl

  pub closed_deadline-is_due :
      (id : ℕ) (d : DeadlineRow) → is_due now (closed_deadline id now d) ≡ false
  unfolding is_due
  closed_deadline-is_due id d = ground arith
