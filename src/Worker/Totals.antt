-- ===== src/Worker/Totals.antt =====
-- A run of the deadline worker ends, and its report adds up, backend/internal/worker/deadlines.go.
use rock_paper_money.Prelude.{
  if◌then◌else◌, nat_eq, string_eq, bool_eq, ℕ, zero, suc, ◌+◌, ◌≤◌, ◌<◌, ◌≡◌, refl, ◌⊎◌, inl, inr,
  Bool, true, false, Option, none, some, [], ◌∷◌, arith,
}
use rock_paper_money.Prelude.Int.{int_eq}
use rock_paper_money.Failure.{Error}
use rock_paper_money.Application.{Time}
use rock_paper_money.Worker.Outbox.{Run}
use rock_paper_money.Worker.Deadlines.{
  DeadlineResult, DeadlinePort, DeadlineRunReport, count_deadline, process_deadlines,
  clean_deadlines, reaped, run_reaped, run_once,
}

-- Every processed deadline settled a round or had nothing to do, and a stale claim is one of them.
abbrev pub IsBalanced : DeadlineRunReport → Type 0
IsBalanced report =
    (report.processed_deadlines ≡ report.settled_rounds + report.noop_deadlines)
    × (report.stale_claims ≤ report.processed_deadlines)

count_deadline-IsBalanced :
    (now : Time) (result : DeadlineResult) (report : DeadlineRunReport)
    → IsBalanced report
    → IsBalanced (count_deadline now result report)
unfolding count_deadline
count_deadline-IsBalanced now result report h = ground arith

-- What the loop finds: `IsStuck` is a store whose first deadline is processed without end.
module _ {S : Type 0} (port : DeadlinePort S) (now : Time) (IsStuck : S → Type 0) where
  -- A processed deadline leaves fewer due, or the store is stuck.
  abbrev pub Consumes : (S → ℕ) → Type 0
  Consumes due =
      (s : S)
      → (port.process_next_deadline now s).0.processed ≡ true
      → (due (port.process_next_deadline now s).2 < due s) ⊎ IsStuck s

  -- The loop comes to a store that is stuck.
  pub data Sticks : S → Type 0 where
    here : {s : S} → IsStuck s → Sticks s
    there :
        {s : S}
        → (port.process_next_deadline now s).1 ≡ none
        → (port.process_next_deadline now s).0.processed ≡ true
        → Sticks (port.process_next_deadline now s).2
        → Sticks s

  -- The fuel was enough, and the report adds up.
  abbrev pub Ends : Option (Run DeadlineRunReport S) → Type 0
  Ends o = (r : Run DeadlineRunReport S) × (o ≡ some r) × IsBalanced r.0

  -- One round of the loop, whatever the store answered.
  round-Ends :
      (e : Option Error) (processed : Bool) (report : DeadlineRunReport) (s : S)
      (rest : Option (Run DeadlineRunReport S)) (X : Type 0)
      → IsBalanced report
      → (e ≡ none → processed ≡ true → Ends rest ⊎ X)
      → Ends (elim e [
        | some x ↦ some (report, x ∷ [], s)
        | none ↦ if processed then rest else some (report, [], s)
      ])
        ⊎ X
  round-Ends (some x) processed report s rest X h k = inl ((report, x ∷ [], s), refl, h)
  round-Ends none true report s rest X h k = k refl refl
  round-Ends none false report s rest X h k = inl ((report, [], s), refl, h)

  process_deadlines-Ends :
      (due : S → ℕ)
      → Consumes due
      → (fuel : ℕ) (report : DeadlineRunReport) (s : S) → due s < fuel
      → IsBalanced report
      → Ends (process_deadlines port now fuel report s) ⊎ Sticks s
  unfolding process_deadlines
  process_deadlines-Ends due consumes zero report s enough h = absurd (omega (arith, enough))
  process_deadlines-Ends due consumes (suc fuel) report s enough h =
      let (result, e, s') = port.process_next_deadline now s in
      let next = count_deadline now result report in
      round-Ends e result.processed report s' (process_deadlines port now fuel next s') (Sticks s) h
        (λ done p. elim (consumes s p) [
          | inr stuck ↦ inr (here stuck)
          | inl fewer ↦
              elim (process_deadlines-Ends due consumes fuel next s' (omega (arith, fewer, enough))
                (count_deadline-IsBalanced now result report h)) [
                  | inl ends ↦ inl ends
                  | inr sticks ↦ inr (there done p sticks)
                ]
        ])

  clean_deadlines-IsBalanced :
      (r : Run DeadlineRunReport S) → IsBalanced r.0 → IsBalanced (clean_deadlines port now r).0
  unfolding clean_deadlines
  clean_deadlines-IsBalanced (report, e ∷ es, s) h = h
  clean_deadlines-IsBalanced (report, [], s) h = h

  run_reaped-Ends :
      (due : S → ℕ)
      → Consumes due
      → (fuel : ℕ) (r : ℕ × Option Error × S) → due r.2 < fuel
      → Ends (run_reaped port now fuel r) ⊎ Sticks r.2
  unfolding run_reaped
  run_reaped-Ends due consumes fuel (expired, some e, s) enough =
      inl ((reaped port now expired, e ∷ [], s), refl, ground arith)
  run_reaped-Ends due consumes fuel (expired, none, s) enough =
      elim (process_deadlines-Ends due consumes fuel (reaped port now expired) s enough
        (ground arith)) [
          | inl (r, p, h) ↦
              inl (clean_deadlines port now r, ground (arith, p), clean_deadlines-IsBalanced r h)
          | inr sticks ↦ inr sticks
        ]

  -- On more fuel than there are deadlines due after the reaping, a run ends with a report that adds
  -- up, or its loop comes to a store that is stuck.
  pub run_once-Ends :
      (due : S → ℕ)
      → Consumes due
      → (fuel : ℕ) (s : S) → due (port.reap_expired_connections now s).2 < fuel
      → Ends (run_once port now fuel s) ⊎ Sticks (port.reap_expired_connections now s).2
  unfolding run_once
  run_once-Ends due consumes fuel s enough =
      run_reaped-Ends due consumes fuel (port.reap_expired_connections now s) enough
