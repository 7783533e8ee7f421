-- ===== src/Postgres/Claims.antt =====
-- A claimed record of the outbox belongs to one worker until its lease ends,
-- backend/internal/room/adapter/postgres/outbox.go.
use rock_paper_money.Prelude.{
  All, ◌==◌, nat_eq, bool_eq, string_eq, ℕ, zero, suc, String, ◌≡◌, refl, sym, ap, ◌∙◌, Bool, true,
  false, ◌&&◌, ◌||◌, List, [], ◌∷◌, arith,
}
use rock_paper_money.Prelude.Int.{ℤ, pos_part, ◌+ℤ◌, ltb_ℤ, int_eq}
use rock_paper_money.Failure.{ok}
use rock_paper_money.Game.{move_eq, result_eq}
use rock_paper_money.Application.{Time}
use rock_paper_money.Worker.Outbox.{OutboxRecord}
use rock_paper_money.Postgres.{role_eq, status_eq, OutboxRow, Database}
use rock_paper_money.Postgres.Sql.{rows_where, exists_where, update_where, sorted_rows}
use rock_paper_money.Postgres.Rows.{
  sorted_rows-All, rows_where-All, exists-update_where, exists_where-All,
}
use rock_paper_money.Postgres.Outbox.{
  is_claimable, attempt_before, limited, is_chosen, claimed_by, records_of, claim_outbox,
}

-- A worker holds a claim of the row with an identifier.
unfoldable pub holds : ℕ → List OutboxRecord → Bool
holds id [] = false
holds id (r ∷ rs) = r.id == id || holds id rs

holds-records_of :
    (id : ℕ) (token : String) (os : List OutboxRow)
    → holds id (records_of token os) ≡ is_chosen id os
unfolding holds records_of is_chosen exists_where
holds-records_of id token [] = refl
holds-records_of id token (o ∷ os) = ground (arith, holds-records_of id token os)

limited-All :
    (Q : OutboxRow → Type 0) (n : ℕ) (os : List OutboxRow) → All Q os → All Q (limited n os)
unfolding limited
limited-All Q zero os h = tt
limited-All Q (suc n) [] h = tt
limited-All Q (suc n) (o ∷ os) h = (h.0, limited-All Q n os h.1)

-- The rows that a claim would take at a time.
unfoldable pub chosen_rows : Time → ℤ → List OutboxRow → List OutboxRow
chosen_rows now limit outbox =
    limited (pos_part limit) (sorted_rows attempt_before (rows_where (is_claimable now) outbox))

abbrev is_claimable_id : Time → ℕ → OutboxRow → Bool
is_claimable_id now id o = o.outbox_id == id && is_claimable now o

-- A row that no claim may take is not taken.
is_chosen-chosen_rows :
    (now : Time) (limit : ℤ) (id : ℕ) (outbox : List OutboxRow)
    → exists_where (is_claimable_id now id) outbox ≡ false
    → is_chosen id (chosen_rows now limit outbox) ≡ false
unfolding is_chosen chosen_rows
is_chosen-chosen_rows now limit id outbox h =
    let Q : OutboxRow → Type 0 = λ o. (o.outbox_id == id) ≡ false in
    exists_where-All (λ (o : OutboxRow). o.outbox_id == id) (chosen_rows now limit outbox)
      (limited-All Q (pos_part limit)
        (sorted_rows attempt_before (rows_where (is_claimable now) outbox))
        (sorted_rows-All Q attempt_before (rows_where (is_claimable now) outbox) (
          rows_where-All Q (is_claimable now) outbox
            (λ o stands p. ground (arith, stands (is_claimable_id now id), p, h)))))

-- A chosen row is not claimable again before its lease ends.
claimed-unclaimable :
    (token : String) (now until : Time) (id : ℕ) (chosen outbox : List OutboxRow)
    → is_chosen id chosen ≡ true
    → ltb_ℤ now until ≡ true
    → exists_where (is_claimable_id now id) (
        update_where
          (λ (o : OutboxRow). is_chosen o.outbox_id chosen)
          (claimed_by token until)
          outbox)
      ≡ false
unfolding claimed_by is_claimable
claimed-unclaimable token now until id chosen outbox h early =
    exists-update_where (λ (o : OutboxRow). is_chosen o.outbox_id chosen) (is_claimable_id now id)
      (claimed_by token until) (λ o p. ground (arith, p, h, nat_eq.beq_iff o.outbox_id id))
      (λ o. ground (arith, early)) outbox

claim_outbox-records :
    (token : String) (now : Time) (limit lease : ℤ) (db db' : Database) (rs : List OutboxRecord)
    → claim_outbox token now limit lease db ≡ (ok rs, db')
    → (rs ≡ records_of token (chosen_rows now limit db.outbox))
      × (db'.outbox
          ≡ update_where
              (λ (o : OutboxRow). is_chosen o.outbox_id (chosen_rows now limit db.outbox))
              (claimed_by token (now +ℤ lease))
              db.outbox)
unfolding claim_outbox chosen_rows
claim_outbox-records token now limit lease db db' rs h = ground (arith, h)

-- After a claim of the outbox, a second claim at a time before the first one's lease ends takes
-- none of the records that the first has taken, whatever its token, its limit and its lease.
pub claim_outbox-Exclusive :
    (token token' : String) (now now' : Time) (limit limit' lease lease' : ℤ)
    (db db1 db2 : Database) (rs rs' : List OutboxRecord)
    → claim_outbox token now limit lease db ≡ (ok rs, db1)
    → ltb_ℤ now' (now +ℤ lease) ≡ true
    → claim_outbox token' now' limit' lease' db1 ≡ (ok rs', db2)
    → (id : ℕ) → holds id rs ≡ true
    → holds id rs' ≡ false
claim_outbox-Exclusive token token' now now' limit limit' lease lease' db db1 db2 rs rs' first early
      second id h =
    let (p, q) = claim_outbox-records token now limit lease db db1 rs first in
    let (r, _) = claim_outbox-records token' now' limit' lease' db1 db2 rs' second in
    let chosen = chosen_rows now limit db.outbox in
    let taken : is_chosen id chosen ≡ true =
      sym (holds-records_of id token chosen) ∙ ap (holds id) (sym p) ∙ h in
    let free : exists_where (is_claimable_id now' id) db1.outbox ≡ false =
      ap (exists_where (is_claimable_id now' id)) q
      ∙ claimed-unclaimable token now' (now +ℤ lease) id chosen db.outbox taken early in
    ap (holds id) r
    ∙ holds-records_of id token' (chosen_rows now' limit' db1.outbox)
    ∙ is_chosen-chosen_rows now' limit' id db1.outbox free
