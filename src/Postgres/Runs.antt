-- ===== src/Postgres/Runs.antt =====
-- The books of the Postgres store over any sequence of its methods,
-- backend/internal/room/adapter/postgres.
use rock_paper_money.Action.{Action, pure, raise_if, lift, modify, ◌>>=◌}
use rock_paper_money.Failure.{
  Error, Fallible, ok, err, room_not_found, account_seated, duplicate_room, insufficient_funds,
  idempotency_conflict,
}
use rock_paper_money.Prelude.{
  ltb, if◌then◌else◌, Bool-cases, ◌==◌, nat_eq, bool_eq, string_eq, ℕ, suc, String, ◌≡◌, refl, sym,
  subst, inl, inr, Bool, true, false, not, ◌&&◌, Option, none, some, [], ◌∷◌, arith,
}
use rock_paper_money.Postgres.Wallets.{
  user_account_id, ensure_user_wallet, are_accounts, account_balance, has_transaction, fund_round,
  settle_round,
}
use rock_paper_money.Postgres.Ledger.{
  IsLedger, delta_sum, are_known, apply_deltas-IsLedger, same-IsLedger, ensure_account-IsLedger,
}
use rock_paper_money.Postgres.Books.{
  Keeps, if-IsLedger, option-IsLedger, row-Keeps, transaction-Keeps, >>=-Keeps, fund_round-Keeps,
  settle_round-Keeps,
}
use rock_paper_money.Postgres.Recharges.{
  minted, mint, ready_wallet, recharge_key, transaction_row, is_same_recharge, recharge,
}
use rock_paper_money.Postgres.Aggregate.{seat_of_role, seat_of_account, room_row, Roles, load, save}
use rock_paper_money.Room.{Room, state, first_id}
use rock_paper_money.Postgres.Repository.{
  outcome, Change, writer_of, write_room, write, created_rows, open_wallet, create_room, create,
  seat_guest, join_change, join_funded, settle_if_resolved, submit_change, submit_move_and_settle,
  next_round_change, request_next_round_and_fund, mutate,
}
use rock_paper_money.Prelude.Int.{
  ℤ, ◌+ℤ◌, ◌-ℤ◌, ltb_ℤ, +ℤ_parts, -ℤ_parts, eq_of_parts, int_eq, pos,
}
use rock_paper_money.Postgres.{role_eq, status_eq, Database, guest}
use rock_paper_money.Prelude.Dict.{is_some}
use rock_paper_money.Application.{Time, round_stake, PresenceWindow, Mutation, Snapshot}
use rock_paper_money.Room.Actions.{join, submit_move, request_next_round}
use rock_paper_money.Game.{Move, move_eq, result_eq}
use rock_paper_money.Memory.{GoLibrary}

pub load-Keeps : (code : String) → Keeps (load code)
unfolding load
load-Keeps code db h = subst IsLedger (sym (load_db code db)) h
  where
    load_db : (code : String) (db : Database) → (load code db).1 ≡ db
    load_db code db = ground arith

pub save-Keeps :
    (aggregate : Room) (roles : Roles) (previous revision : ℕ)
    → Keeps (modify (save aggregate roles previous revision))
unfolding save
save-Keeps aggregate roles previous revision db h = same-IsLedger db _ refl refl h

pub lift-Keeps : {A : Type 0} (r : Fallible A) → Keeps (lift r)
lift-Keeps r db h = h

writer_of-Keeps : (code : String) (digest : Option String) → Keeps (writer_of code digest)
unfolding writer_of
writer_of-Keeps code none db h = h
writer_of-Keeps code (some account) db h =
    option-IsLedger (seat_of_account code account db) _ _ h (λ s. h)

write_room-Keeps :
    (code : String) (revision : ℕ) (digest : Option String) (change : Change)
    → ((aggregate : Room) (player_id : String) → Keeps (change aggregate player_id))
    → Keeps (write_room code revision digest change)
unfolding write_room
write_room-Keeps code revision digest change keeps =
    >>=-Keeps (load code) _ (load-Keeps code) (λ loaded.
      >>=-Keeps (writer_of code digest) _ (writer_of-Keeps code digest) (λ player_id.
        >>=-Keeps (change loaded.0 player_id) _ (keeps loaded.0 player_id) (λ changed.
          >>=-Keeps (modify (save changed loaded.1 loaded.0.round (suc revision))) _
            (save-Keeps changed loaded.1 loaded.0.round (suc revision)) (λ _. λ db h. h))))

pub write-Keeps :
    (code : String) (digest : Option String) (change : Change)
    → ((aggregate : Room) (player_id : String) → Keeps (change aggregate player_id))
    → Keeps (write code digest change)
unfolding write
write-Keeps code digest change keeps = transaction-Keeps {A = Snapshot} _ (
    row-Keeps (room_row code) room_not_found (λ r. write_room code r.revision digest change)
      (λ r. write_room-Keeps code r.revision digest change keeps))

pub raise_if-Keeps : (test : Database → Bool) (e : Error) → Keeps (λ db. raise_if (test db) e db)
raise_if-Keeps test e db h = raised (test db)
  where
    raised : (b : Bool) → IsLedger (raise_if b e db).1
    raised true = h
    raised false = h

pub seat_guest-Keeps :
    (code player_id account : String) (window : PresenceWindow)
    → Keeps (modify (seat_guest code player_id account window))
unfolding seat_guest
seat_guest-Keeps code player_id account window db h = same-IsLedger db _ refl refl h

pub join_funded-Keeps :
    (go : GoLibrary) (now : Time) (code player_id account : String) (window : PresenceWindow)
    → Keeps (join_funded go now code player_id account window)
unfolding join_funded join_change
join_funded-Keeps go now code player_id account window =
    write-Keeps code none (join_change go now code player_id account window) (λ aggregate _.
      >>=-Keeps (lift (outcome (join player_id aggregate))) _
        (lift-Keeps (outcome (join player_id aggregate)))
        (λ joined.
          >>=-Keeps _ _
            (raise_if-Keeps (λ db. is_some (seat_of_account code account db)) account_seated)
            (λ _. >>=-Keeps _ _ (fund_round-Keeps go now code joined.round account) (λ _.
              >>=-Keeps _ _
                (raise_if-Keeps (λ db. is_some (seat_of_role code guest db)) account_seated)
                (λ _.
                  >>=-Keeps _ _ (seat_guest-Keeps code player_id account window)
                    (λ _. λ db h. h))))))

settle_if_resolved-Keeps :
    (go : GoLibrary) (code : String) (before after : Room)
    → Keeps (settle_if_resolved go code before after)
unfolding settle_if_resolved
settle_if_resolved-Keeps go code before after db h = choice (not before.resolved && after.resolved)
  where
    choice :
        (b : Bool) → IsLedger ((if b then settle_round go code (state after) else pure tt) db).1
    choice true = settle_round-Keeps go code (state after) db h
    choice false = h

pub submit_move_and_settle-Keeps :
    (go : GoLibrary) (now : Time) (code account : String) (move : Move)
    → Keeps (submit_move_and_settle go now code account move)
unfolding submit_move_and_settle submit_change
submit_move_and_settle-Keeps go now code account move =
    write-Keeps code (some account) (submit_change go now code move) (λ aggregate player_id.
      >>=-Keeps _ _ (fund_round-Keeps go now code aggregate.round "") (λ _.
        >>=-Keeps (lift (outcome (submit_move player_id move aggregate))) _
          (lift-Keeps (outcome (submit_move player_id move aggregate)))
          (λ moved.
            >>=-Keeps _ _ (settle_if_resolved-Keeps go code aggregate moved) (λ _. λ db h. h))))

pub request_next_round_and_fund-Keeps :
    (go : GoLibrary) (now : Time) (code account : String) (round : ℕ)
    → Keeps (request_next_round_and_fund go now code account round)
unfolding request_next_round_and_fund next_round_change
request_next_round_and_fund-Keeps go now code account round =
    write-Keeps code (some account) (next_round_change go now code round) (λ aggregate player_id.
      >>=-Keeps (lift (outcome (request_next_round player_id round aggregate))) _
        (lift-Keeps (outcome (request_next_round player_id round aggregate)))
        (λ asked.
          >>=-Keeps _ _ (funded (ltb aggregate.round asked.round) asked.round) (λ _. λ db h. h)))
  where
    funded : (b : Bool) (n : ℕ) → Keeps (if b then fund_round go now code n "" else pure tt)
    funded true n = fund_round-Keeps go now code n ""
    funded false n = λ db h. h

pub mutate-Keeps :
    (code account : String) (mutation : Mutation) → Keeps (mutate code account mutation)
unfolding mutate
mutate-Keeps code account mutation =
    write-Keeps code (some account) _
      (λ aggregate player_id. lift-Keeps (outcome (mutation player_id aggregate)))

open_wallet-Keeps : (account : String) → Keeps (modify (open_wallet account))
unfolding open_wallet
open_wallet-Keeps account db h = ensure_account-IsLedger (user_account_id account) db h

created_rows-Keeps :
    (code player_id account : String) → Keeps (modify (created_rows code player_id account))
unfolding created_rows
created_rows-Keeps code player_id account db h = same-IsLedger db _ refl refl h

pub create_room-Keeps :
    (aggregate : Room) (account : String) → Keeps (create_room aggregate account)
unfolding create_room
create_room-Keeps aggregate account = >>=-Keeps _ _ (open_wallet-Keeps account) (λ _.
    >>=-Keeps _ _
      (raise_if-Keeps
        (λ db. ltb_ℤ (account_balance (user_account_id account) db.accounts) round_stake)
        insufficient_funds)
      (λ _.
        >>=-Keeps _ _ (raise_if-Keeps (λ db. is_some (room_row aggregate.code db)) duplicate_room)
          (λ _. created_rows-Keeps aggregate.code (first_id aggregate.players) account)))

pub create-Keeps : (aggregate : Room) (account : String) → Keeps (create aggregate account)
unfolding create
create-Keeps aggregate account =
    transaction-Keeps {A = Snapshot} _
      (>>=-Keeps _ _ (create_room-Keeps aggregate account) (λ _. λ db h. h))

-- A recharge of known accounts.
pub mint-IsLedger :
    (business_key account : String) (amount : ℤ) (db : Database)
    → are_accounts db.accounts ("mint" ∷ user_account_id account ∷ []) ≡ true
    → IsLedger db
    → IsLedger (mint business_key account amount db).1
unfolding mint are_known delta_sum are_accounts
mint-IsLedger business_key account amount db known h =
    if-IsLedger (has_transaction business_key db.transactions) _ _ h (λ _.
      if-IsLedger (amount == pos 0) _ _ h (λ _.
        apply_deltas-IsLedger business_key (minted amount (user_account_id account)) db _
          (ground (arith, known)) (opposite amount) refl refl h))
  where
    opposite : (v : ℤ) → (pos 0 -ℤ v) +ℤ (v +ℤ pos 0) ≡ pos 0
    opposite v =
        eq_of_parts ((pos 0 -ℤ v) +ℤ (v +ℤ pos 0)) (pos 0) (
          omega (arith, -ℤ_parts (pos 0) v, +ℤ_parts (pos 0 -ℤ v) (v +ℤ pos 0), +ℤ_parts v (pos 0)))

-- The wallet of the account and the mint are known behind the lock.
pub ready_wallet-Keeps :
    {A : Type 0} (account : String) (k : Action Database A)
    → ((db : Database)
        → are_accounts db.accounts ("mint" ∷ user_account_id account ∷ []) ≡ true
        → IsLedger db
        → IsLedger (k db).1)
    → Keeps (ready_wallet account >>= λ _. k)
unfolding ◌>>=◌ ready_wallet
ready_wallet-Keeps account k keeps db h =
    let ensured : Database = record db { accounts = ensure_user_wallet account db.accounts } in
    elim (Bool-cases (are_accounts ensured.accounts ("mint" ∷ user_account_id account ∷ []))) [
      | inl known ↦
          rw known (keeps ensured known (ensure_account-IsLedger (user_account_id account) db h))
      | inr unknown ↦ rw unknown h
    ]

pub recharge-Keeps :
    (account : String) (amount : ℤ) (key : String) → Keeps (recharge account amount key)
unfolding recharge
recharge-Keeps account amount key = transaction-Keeps {A = ℤ} _ (
    ready_wallet-Keeps account _ (λ db known h.
      option-IsLedger {A = ℤ} (transaction_row (recharge_key account key) db)
        (mint (recharge_key account key) account amount db)
        (λ t.
          if is_same_recharge account amount t.recharge
          then (ok (account_balance (user_account_id account) db.accounts), db)
          else (err idempotency_conflict, db))
        (mint-IsLedger (recharge_key account key) account amount db known h)
        (λ t. if-IsLedger (is_same_recharge account amount t.recharge) _ _ h (λ _. h))))
