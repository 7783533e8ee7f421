-- ===== src/Postgres/Ledger.antt =====
-- The double entry of the wallets of the Postgres store, for `fundRound`, `settleRound` and the
-- recharges of backend/internal/room/adapter/postgres.
use rock_paper_money.Game.{Result, move_eq, result_eq}
use rock_paper_money.Prelude.{
  if◌then◌else◌, Bool-cases, ◌==◌, nat_eq, bool_eq, string_eq, String, ◌≡◌, refl, sym, ap, ◌∙◌, inl,
  inr, Bool, true, ◌&&◌, List, [], ◌∷◌, ◌++◌, arith,
}
use rock_paper_money.Prelude.Int.{ℤ, ◌+ℤ◌, +ℤ_assoc, +ℤ_swap, +ℤ_comm, +ℤ_zero, int_eq, pos}
use rock_paper_money.Prelude.Dict.{Dict, insert, contains, lookup-insert}
use rock_paper_money.Postgres.{role_eq, status_eq, PostingRow, Database}
use rock_paper_money.Postgres.Wallets.{
  ensure_account, are_accounts, account_balance, Delta, apply_deltas, posted, has_transaction,
  post_transaction, settlement_effects,
}

-- What the postings say that an account holds.
unfoldable pub booked : String → List PostingRow → ℤ
booked x [] = pos 0
booked x (p ∷ ps) = if p.account_id == x then p.amount +ℤ booked x ps else booked x ps

-- The sum of the postings of a transaction.
unfoldable pub transaction_sum : String → List PostingRow → ℤ
transaction_sum key [] = pos 0
transaction_sum key (p ∷ ps) =
    if p.business_key == key then p.amount +ℤ transaction_sum key ps else transaction_sum key ps

-- Every balance is the sum of the account's postings, and every transaction sums up to nothing.
pub record IsLedger (db : Database) : Type 0 where
  pub is_booked : (x : String) → account_balance x db.accounts ≡ booked x db.postings
  pub is_balanced : (key : String) → transaction_sum key db.postings ≡ pos 0

unfoldable pub delta_of : String → List Delta → ℤ
delta_of x [] = pos 0
delta_of x ((account, amount) ∷ ds) =
    if account == x then amount +ℤ delta_of x ds else delta_of x ds

unfoldable pub delta_sum : List Delta → ℤ
delta_sum [] = pos 0
delta_sum ((account, amount) ∷ ds) = amount +ℤ delta_sum ds

-- The accounts of the deltas are there.
unfoldable pub are_known : List Delta → Dict String ℤ → Bool
are_known [] m = true
are_known ((account, amount) ∷ ds) m = contains account m && are_known ds m

booked-posted :
    (x key : String) (ds : List Delta) (ps : List PostingRow)
    → booked x (posted key ds ++ ps) ≡ delta_of x ds +ℤ booked x ps
unfolding booked posted delta_of
booked-posted x key [] ps = sym (+ℤ_zero (booked x ps))
booked-posted x key ((account, amount) ∷ ds) ps =
    ground (arith, booked-posted x key ds ps, +ℤ_assoc amount (delta_of x ds) (booked x ps))

transaction_sum-posted :
    (k key : String) (ds : List Delta) (ps : List PostingRow)
    → transaction_sum k (posted key ds ++ ps)
      ≡ (if key == k then delta_sum ds +ℤ transaction_sum k ps else transaction_sum k ps)
unfolding transaction_sum posted delta_sum
transaction_sum-posted k key [] ps = ground (arith, +ℤ_zero (transaction_sum k ps))
transaction_sum-posted k key ((account, amount) ∷ ds) ps = ground (
  arith,
  transaction_sum-posted k key ds ps,
  +ℤ_assoc amount (delta_sum ds) (transaction_sum k ps),
)

account_balance-insert :
    (x account : String) (v : ℤ) (m : Dict String ℤ)
    → account_balance x (insert account v m) ≡ (if account == x then v else account_balance x m)
account_balance-insert x account v m = ground (arith, lookup-insert account x v m)

are_known-insert :
    (account : String) (v : ℤ) (ds : List Delta) (m : Dict String ℤ)
    → are_known ds m ≡ true
    → are_known ds (insert account v m) ≡ true
unfolding are_known
are_known-insert account v [] m h = refl
are_known-insert account v ((a, amount) ∷ ds) m h =
    ground (arith, are_known-insert account v ds m, lookup-insert account a v m, h)

account_balance-apply_deltas :
    (x : String) (ds : List Delta) (m : Dict String ℤ)
    → are_known ds m ≡ true
    → account_balance x (apply_deltas ds m) ≡ delta_of x ds +ℤ account_balance x m
unfolding apply_deltas delta_of are_known
account_balance-apply_deltas x [] m h = sym (+ℤ_zero (account_balance x m))
account_balance-apply_deltas x ((account, amount) ∷ ds) m h =
    let m' = insert account (account_balance account m +ℤ amount) m in
    ground (
      arith,
      h,
      account_balance-apply_deltas x ds m',
      are_known-insert account (account_balance account m +ℤ amount) ds m,
      account_balance-insert x account (account_balance account m +ℤ amount) m,
      string_eq.beq_iff account x,
      +ℤ_assoc amount (delta_of x ds) (account_balance x m),
      +ℤ_swap (delta_of x ds) (account_balance account m) amount,
      +ℤ_swap amount (delta_of x ds) (account_balance account m),
      +ℤ_comm (account_balance account m) amount,
    )

-- New postings of known accounts that sum up to nothing, with their effect on the balances.
pub apply_deltas-IsLedger :
    (key : String) (ds : List Delta) (db db' : Database)
    → are_known ds db.accounts ≡ true
    → delta_sum ds ≡ pos 0
    → db'.accounts ≡ apply_deltas ds db.accounts
    → db'.postings ≡ posted key ds ++ db.postings
    → IsLedger db
    → IsLedger db'
apply_deltas-IsLedger key ds db db' known nothing p q h = record {
  is_booked = λ x.
      ap (account_balance x) p
      ∙ account_balance-apply_deltas x ds db.accounts known
      ∙ ap (λ v. delta_of x ds +ℤ v) (h.is_booked x)
      ∙ sym (booked-posted x key ds db.postings)
      ∙ sym (ap (booked x) q);
  is_balanced = λ k.
      ap (transaction_sum k) q
      ∙ transaction_sum-posted k key ds db.postings
      ∙ ground (arith, nothing, h.is_balanced k, +ℤ_zero (transaction_sum k db.postings));
}

-- A step that touches neither the balances nor the postings.
pub same-IsLedger :
    (db db' : Database)
    → db'.accounts ≡ db.accounts
    → db'.postings ≡ db.postings
    → IsLedger db
    → IsLedger db'
same-IsLedger db db' p q h = record {
  is_booked = λ x. ap (account_balance x) p ∙ h.is_booked x ∙ sym (ap (booked x) q);
  is_balanced = λ k. ap (transaction_sum k) q ∙ h.is_balanced k;
}

account_balance-ensure_account :
    (x account : String) (m : Dict String ℤ)
    → account_balance x (ensure_account account m) ≡ account_balance x m
unfolding ensure_account
account_balance-ensure_account x account m =
    ground (arith, lookup-insert account x (pos 0) m, string_eq.beq_iff account x)

pub ensure_account-IsLedger :
    (account : String) (db : Database)
    → IsLedger db
    → IsLedger (record db { accounts = ensure_account account db.accounts })
ensure_account-IsLedger account db h = record {
  is_booked = λ x. account_balance-ensure_account x account db.accounts ∙ h.is_booked x;
  is_balanced = h.is_balanced;
}

pub post_transaction-IsLedger :
    (key : String) (ds : List Delta) (db : Database)
    → are_known ds db.accounts ≡ true
    → delta_sum ds ≡ pos 0
    → IsLedger db
    → IsLedger (post_transaction key ds db)
unfolding post_transaction
post_transaction-IsLedger key ds db known nothing h =
    elim (Bool-cases (has_transaction key db.transactions)) [
      | inl done ↦ rw done h
      | inr new ↦ rw new (apply_deltas-IsLedger key ds db _ known nothing refl refl h)
    ]

-- The deltas of the three kinds of transactions sum up to nothing.
pub delta_sum-settlement_effects :
    (result : Result) (a b escrow : String)
    → delta_sum (settlement_effects result a b escrow).0 ≡ pos 0
unfolding settlement_effects delta_sum ◌+ℤ◌
delta_sum-settlement_effects result a b escrow = ground arith

pub are_known-settlement_effects :
    (result : Result) (a b escrow : String) (m : Dict String ℤ)
    → are_accounts m ("house" ∷ a ∷ b ∷ escrow ∷ []) ≡ true
    → are_known (settlement_effects result a b escrow).0 m ≡ true
unfolding settlement_effects are_known are_accounts
are_known-settlement_effects result a b escrow m h = ground (arith, h)
