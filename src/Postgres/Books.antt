-- ===== src/Postgres/Books.antt =====
-- The methods of the Postgres store keep its books, backend/internal/room/adapter/postgres.
use rock_paper_money.Failure.{Error, Fallible, ok, err}
use rock_paper_money.Prelude.{
  if◌then◌else◌, Bool-cases, ◌/=◌, nat_eq, bool_eq, string_eq, ℕ, String, ◌≡◌, refl, inl, inr, Bool,
  true, false, not, ◌||◌, Option, none, some, List, [], ◌∷◌, arith,
}
use rock_paper_money.Prelude.Int.{◌+ℤ◌, ltb_ℤ, int_eq, pos}
use rock_paper_money.Game.{move_eq, result_eq}
use rock_paper_money.Room.{State}
use rock_paper_money.Action.{Action, continue, ◌>>=◌}
use rock_paper_money.Application.{Time, round_stake}
use rock_paper_money.Memory.{GoLibrary}
use rock_paper_money.Postgres.{
  role_eq, status_eq, DeadlineKind, Database, settled_transaction, transaction, inactivity,
}
use rock_paper_money.Postgres.Aggregate.{seats_of, round_row}
use rock_paper_money.Postgres.Wallets.{
  user_account_id, escrow_account_id, stake_key, settlement_key, funded_inactivity_deadline,
  ensure_user_wallet, are_accounts, account_balance, has_transaction, post_transaction,
  add_deadline, ensure_round, is_funded_row, seat_owners, mark_funded, open_accounts, stake_deltas,
  stake_effects, stake_accounts, stake_owners, with_owners, fund_round, settlement_effects,
  is_recorded, record_settlement, pay_owners, settle_round,
}
use rock_paper_money.Postgres.Ledger.{
  IsLedger, delta_sum, are_known, apply_deltas-IsLedger, same-IsLedger, ensure_account-IsLedger,
  post_transaction-IsLedger, delta_sum-settlement_effects, are_known-settlement_effects,
}

module _ {A : Type 0} where
  -- The books after an action, whatever it returns.
  abbrev pub Keeps : Action Database A → Type 0
  Keeps m = (db : Database) → IsLedger db → IsLedger (m db).1

  pub if-IsLedger :
      (b : Bool) (r s : Fallible A × Database)
      → IsLedger r.1
      → (b ≡ false → IsLedger s.1)
      → IsLedger (if b then r else s).1
  if-IsLedger true r s h k = h
  if-IsLedger false r s h k = k refl

  pub option-IsLedger :
      {X : Type 0} (o : Option X) (r : Fallible A × Database) (f : X → Fallible A × Database)
      → IsLedger r.1
      → ((x : X) → IsLedger (f x).1)
      → IsLedger (elim o as (λ _. Fallible A × Database) [ none ↦ r | some x ↦ f x ]).1
  option-IsLedger none r f h k = h
  option-IsLedger (some x) r f h k = k x

  -- A method that needs a row, and its error where there is none.
  pub row-Keeps :
      {X : Type 0} (find : Database → Option X) (e : Error) (k : X → Action Database A)
      → ((x : X) → Keeps (k x))
      → Keeps (λ db. elim (find db) as (λ _. Fallible A × Database) [
        | none ↦ (err e, db)
        | some x ↦ k x db
      ])
  row-Keeps find e k keeps db h =
      option-IsLedger (find db) (err e, db) (λ x. k x db) h (λ x. keeps x db h)

  pub settled-IsLedger :
      (db : Database) (r : Fallible A × Database)
      → IsLedger db
      → IsLedger r.1
      → IsLedger (settled_transaction db r).1
  settled-IsLedger db (ok a, db') h k = k
  settled-IsLedger db (err e, db') h k = h

  pub transaction-Keeps : (m : Action Database A) → Keeps m → Keeps (transaction m)
  transaction-Keeps m keeps db h = settled-IsLedger db (m db) h (keeps db h)

module _ {A B : Type 0} where
  pub continue-IsLedger :
      (r : Fallible A × Database) (f : A → Action Database B)
      → IsLedger r.1
      → ((a : A) → Keeps (f a))
      → IsLedger (continue r.0 f r.1).1
  continue-IsLedger (ok a, db) f h k = k a db h
  continue-IsLedger (err e, db) f h k = h

  pub >>=-Keeps :
      (m : Action Database A) (f : A → Action Database B)
      → Keeps m
      → ((a : A) → Keeps (f a))
      → Keeps (m >>= f)
  unfolding ◌>>=◌
  >>=-Keeps m f keeps k db h = continue-IsLedger (m db) f (keeps db h) k

pub add_deadline-IsLedger :
    (code : String) (round : ℕ) (kind : DeadlineKind) (generation : ℕ) (due_at : Time)
    (db : Database)
    → IsLedger db
    → IsLedger (add_deadline code round kind generation due_at db)
unfolding add_deadline
add_deadline-IsLedger code round kind generation due_at db h =
    same-IsLedger db (add_deadline code round kind generation due_at db) (ground arith)
      (ground arith) h

ensure_round-IsLedger :
    (code : String) (round : ℕ) (db : Database)
    → IsLedger db
    → IsLedger (ensure_round code round db)
unfolding ensure_round
ensure_round-IsLedger code round db h =
    same-IsLedger db (ensure_round code round db) (ground arith) (ground arith) h

with_owners-Keeps :
    (owners : List String) (k : String → String → Action Database (Unit {0}))
    → ((a b : String) → Keeps (k a b))
    → Keeps (with_owners owners k)
with_owners-Keeps [] k keeps db h = h
with_owners-Keeps (a ∷ []) k keeps db h = h
with_owners-Keeps (a ∷ b ∷ []) k keeps db h = keeps a b db h
with_owners-Keeps (a ∷ b ∷ c ∷ owners) k keeps db h = h

open_accounts-IsLedger :
    (a b escrow : String) (db : Database) → IsLedger db → IsLedger (open_accounts a b escrow db)
unfolding open_accounts
open_accounts-IsLedger a b escrow db h =
    ensure_account-IsLedger escrow
      (record db { accounts = ensure_user_wallet b (ensure_user_wallet a db.accounts) })
      (ensure_account-IsLedger (user_account_id b)
        (record db { accounts = ensure_user_wallet a db.accounts })
        (ensure_account-IsLedger (user_account_id a) db h))

-- Both owners and the escrow are known when the stakes are paid.
stake_effects-IsLedger :
    (go : GoLibrary) (now : Time) (code : String) (round : ℕ) (a b : String) (db : Database)
    → are_accounts db.accounts (stake_accounts go code round a b) ≡ true
    → IsLedger db
    → IsLedger (stake_effects go now code round a b db)
unfolding stake_effects are_known delta_sum are_accounts ◌+ℤ◌
stake_effects-IsLedger go now code round a b db known h =
    let staked = post_transaction (stake_key go code round) (stake_deltas go code round a b) db in
    let marked : Database = record staked { rounds = mark_funded code round staked.rounds } in
    add_deadline-IsLedger code round inactivity round (now +ℤ funded_inactivity_deadline) marked (
      same-IsLedger staked marked refl refl (
        post_transaction-IsLedger (stake_key go code round) (stake_deltas go code round a b) db
          (ground (arith, known)) refl h))

stake_owners-Keeps :
    (go : GoLibrary) (now : Time) (code : String) (round : ℕ) (a b : String)
    → Keeps (stake_owners go now code round a b)
unfolding stake_owners
stake_owners-Keeps go now code round a b db h =
    let inserted = open_accounts a b (escrow_account_id go code round) db in
    let ledger = open_accounts-IsLedger a b (escrow_account_id go code round) db h in
    if-IsLedger (not (are_accounts inserted.accounts (stake_accounts go code round a b))) _ _ ledger
      (λ known.
        if-IsLedger
          (ltb_ℤ (account_balance (user_account_id a) inserted.accounts) round_stake
            || ltb_ℤ (account_balance (user_account_id b) inserted.accounts) round_stake)
          _ _ ledger
          (λ _.
            stake_effects-IsLedger go now code round a b inserted (ground (arith, known)) ledger))

pub fund_round-Keeps :
    (go : GoLibrary) (now : Time) (code : String) (round : ℕ) (joining : String)
    → Keeps (fund_round go now code round joining)
unfolding fund_round
fund_round-Keeps go now code round joining db h =
    let ensured = ensure_round-IsLedger code round db h in
    if-IsLedger (is_funded_row (round_row code round db)) _ _
      (add_deadline-IsLedger code round inactivity round _ _ ensured)
      (λ _.
        with_owners-Keeps _ (stake_owners go now code round) (stake_owners-Keeps go now code round)
          _ ensured)

record_settlement-IsLedger :
    (go : GoLibrary) (code : String) (st : State) (a b : String) (db : Database)
    → are_accounts db.accounts ("house" ∷ a ∷ b ∷ escrow_account_id go code st.round ∷ []) ≡ true
    → IsLedger db
    → IsLedger (record_settlement go code st a b db)
unfolding record_settlement
record_settlement-IsLedger go code st a b db known h =
    elim (Bool-cases (has_transaction (settlement_key go code st.round) db.transactions)) [
      | inl done ↦ rw done h
      | inr new ↦ rw new (
          apply_deltas-IsLedger (settlement_key go code st.round)
            (settlement_effects st.result a b (escrow_account_id go code st.round)).0 db _
            (are_known-settlement_effects st.result a b (escrow_account_id go code st.round)
              db.accounts known)
            (delta_sum-settlement_effects st.result a b (escrow_account_id go code st.round)) refl
            refl h)
    ]

pay_owners-Keeps :
    (go : GoLibrary) (code : String) (st : State) (a b : String) → Keeps (pay_owners go code st a b)
unfolding pay_owners
pay_owners-Keeps go code st a b db h =
    if-IsLedger
      (not (
        are_accounts db.accounts (
          "house"
          ∷ user_account_id a
          ∷ user_account_id b
          ∷ escrow_account_id go code st.round
          ∷ [])))
      _ _ h
      (λ known.
        if-IsLedger (account_balance (escrow_account_id go code st.round) db.accounts /= pos 100) _
          _ h
          (λ _.
            record_settlement-IsLedger go code st (user_account_id a) (user_account_id b) db
              (ground (arith, known)) h))

pub settle_round-Keeps :
    (go : GoLibrary) (code : String) (st : State) → Keeps (settle_round go code st)
unfolding settle_round
settle_round-Keeps go code st db h = if-IsLedger (is_recorded code st.round db.history) _ _ h (λ _.
    with_owners-Keeps (seat_owners (seats_of code db)) (pay_owners go code st)
      (pay_owners-Keeps go code st) db h)
