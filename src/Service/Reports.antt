-- ===== src/Service/Reports.antt =====
-- Problem reports, backend/internal/room/application/reports.go: a report is trimmed and checked
-- before a store that keeps reports gets it.
use rock_paper_money.Prelude.{
  ltb, ◌==◌, nat_eq, bool_eq, string_eq, ℕ, ◌≤◌, String, ◌≡◌, refl, subst, ◌∙◌, ◌≢◌, Bool, true,
  false, not, ◌||◌, Option, some, List, [], ◌∷◌, arith,
}
use rock_paper_money.Failure.{Error, invalid_report, external, ok}
use rock_paper_money.Action.{Action, or_raise, raise_if, ◌>>=◌, ◌>>◌, >>=-ok_elim}

pub record ProblemReport : Type 0 where
  pub account_id : String
  pub description : String
  pub section : String
  pub app_version : String

-- What the validation takes from Go's library: `strings.TrimSpace`, the number of runes of a text,
-- and whether it has a NUL.
pub record TextLibrary : Type 0 where
  pub trim_space : String → String
  pub rune_count : String → ℕ
  pub contains_nul : String → Bool

-- The sections that the client may name.
abbrev pub sections : List String
sections =
    "main_menu" ∷ "create_room" ∷ "join_room" ∷ "wallet" ∷ "waiting_room" ∷ "gameplay"
    ∷ "round_result" ∷ "next_round" ∷ "connection" ∷ "account" ∷ []

unfoldable pub is_one_of : String → List String → Bool
is_one_of s [] = false
is_one_of s (t ∷ ts) = s == t || is_one_of s ts

unfoldable pub is_unusable : TextLibrary → ProblemReport → Bool
is_unusable text report =
    report.account_id == ""
    || report.description == ""
    || ltb 5000 (text.rune_count report.description)
    || report.app_version == ""
    || ltb 64 (text.rune_count report.app_version)
    || text.contains_nul report.description
    || text.contains_nul report.app_version

abbrev pub trimmed : TextLibrary → ProblemReport → ProblemReport
trimmed text report = record report {
  description = text.trim_space report.description;
  app_version = text.trim_space report.app_version;
}

-- `CreateProblemReport`; a repository that is no `ReportStore` is `none`, and its error is not one
-- of the named ones.
unfoldable pub create_problem_report :
    {S : Type 0}
    → TextLibrary
    → Option (ProblemReport → Action S (Unit {0}))
    → ProblemReport
    → Action S (Unit {0})
unfolding is_unusable
create_problem_report text store report = do
  raise_if (is_unusable text (trimmed text report)) invalid_report
  raise_if (not (is_one_of report.section sections)) invalid_report
  save ← or_raise store (external 1)
  save (trimmed text report)

-- A report fit to be kept.
abbrev pub IsUsable : TextLibrary → ProblemReport → Type 0
IsUsable text report =
    (report.account_id ≢ "")
    × (report.description ≢ "")
    × (report.app_version ≢ "")
    × (text.rune_count report.description ≤ 5000)
    × (text.rune_count report.app_version ≤ 64)
    × (text.contains_nul report.description ≡ false)
    × (text.contains_nul report.app_version ≡ false)
    × (is_one_of report.section sections ≡ true)

used_IsUsable :
    (text : TextLibrary) (report : ProblemReport)
    → is_unusable text report ≡ false
    → is_one_of report.section sections ≡ true
    → IsUsable text report
unfolding is_unusable
used_IsUsable text report u k = ground (
  arith,
  u,
  k,
  string_eq.beq_iff report.account_id "",
  string_eq.beq_iff report.description "",
  string_eq.beq_iff report.app_version "",
)

raise_if-passes :
    {S : Type 0} (b : Bool) (e : Error) (s : S) (u : Unit {0}) (s' : S)
    → raise_if b e s ≡ (ok u, s')
    → (b ≡ false) × (s' ≡ s)
raise_if-passes true e s u s' h = absurd (ground arith)
raise_if-passes false e s u s' h = (refl, ground arith)

given_to :
    {S : Type 0} (save : ProblemReport → Action S (Unit {0})) (report : ProblemReport) (s s' : S)
    → (or_raise (some save) (external 1) >>= λ f. f report) s ≡ (ok tt, s')
    → save report s ≡ (ok tt, s')
unfolding ◌>>=◌
given_to save report s s' h = h

-- A report that is accepted has been given to the store trimmed, and the trimmed report is usable:
-- an account, a text and a version that are not empty, not too long and without a NUL, and a
-- section that the client may name.
pub create_problem_report-IsUsable :
    {S : Type 0} (text : TextLibrary) (save : ProblemReport → Action S (Unit {0}))
    (report : ProblemReport) (s s' : S)
    → create_problem_report text (some save) report s ≡ (ok tt, s')
    → IsUsable text (trimmed text report) × (save (trimmed text report) s ≡ (ok tt, s'))
unfolding create_problem_report
create_problem_report-IsUsable text save report s s' h = >>=-ok_elim _ _ s h (λ u s1 p h1.
    >>=-ok_elim _ _ s1 h1 (λ v s2 q h2.
      let (usable, same) =
        raise_if-passes (is_unusable text (trimmed text report)) invalid_report s u s1 p in
      let (known, same') =
        raise_if-passes (not (is_one_of report.section sections)) invalid_report s1 v s2 q in
      (
        used_IsUsable text (trimmed text report) usable (ground (arith, known)),
        subst (λ z. save (trimmed text report) z ≡ (ok tt, s')) (same' ∙ same)
            (given_to save (trimmed text report) s2 s' h2),
      )))
