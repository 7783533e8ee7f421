-- ===== src/Postgres/Repository.antt =====
-- The methods of `Repository` in backend/internal/room/adapter/postgres/repository.go that the rooms
-- and the wallets are played through. The credential digest is not used there: a seat is its
-- account's.
use rock_paper_money.Postgres.Wallets.{
  user_account_id, ensure_account, ensure_user_wallet, account_balance, fund_round, settle_round,
}
use rock_paper_money.Action.{Action, pure, raise_if, lift, modify, ◌>>=◌, ◌>>◌}
use rock_paper_money.Prelude.Dict.{is_some}
use rock_paper_money.Prelude.{
  ltb, if◌then◌else◌, ◌==◌, nat_eq, bool_eq, string_eq, ℕ, suc, String, false, not, ◌&&◌, Option,
  none, some, List, [], ◌∷◌, ◌++◌,
}
use rock_paper_money.Prelude.Int.{ℤ, ltb_ℤ, int_eq, pos}
use rock_paper_money.Failure.{
  Fallible, ok, err, insufficient_funds, duplicate_room, room_not_found, unauthorized,
  account_seated,
}
use rock_paper_money.Game.{Move, move_eq, result_eq}
use rock_paper_money.Room.{Room, state, first_id}
use rock_paper_money.Room.Actions.{Outcome, join, submit_move, request_next_round}
use rock_paper_money.Application.{Time, round_stake, Snapshot, PresenceWindow, Mutation}
use rock_paper_money.Memory.{GoLibrary}
use rock_paper_money.Postgres.{
  role_eq, status_eq, SeatRow, PresenceRow, Database, transaction, host, guest, active,
}
use rock_paper_money.Postgres.Aggregate.{
  seats_of, seat_of_role, seat_of_account, room_row, load, save,
}

-- A call on the aggregate: the room after it, or its error.
abbrev pub outcome : Outcome → Fallible Room
outcome (r, none) = ok r
outcome (r, some e) = err e

abbrev pub Change : Type 0
Change = Room → String → Action Database Room

-- The seat that a write is for: with no digest there is none.
unfoldable pub writer_of : String → Option String → Action Database String
unfolding seat_of_account
writer_of code none db = (ok "", db)
writer_of code (some auth_user_id) db = elim (seat_of_account code auth_user_id db) [
  | none ↦ (err unauthorized, db)
  | some s ↦ (ok s.player_id, db)
]

-- `write` behind the row of the room.
unfoldable pub write_room : String → ℕ → Option String → Change → Action Database Snapshot
unfolding load writer_of save
write_room code revision digest change = do
  (aggregate, roles) ← load code
  player_id ← writer_of code digest
  changed ← change aggregate player_id
  modify (save changed roles aggregate.round (suc revision))
  pure (record { state = state changed; revision = suc revision; presence = [] })

unfoldable pub write : String → Option String → Change → Action Database Snapshot
unfolding room_row write_room
write code digest change = transaction (λ db. elim (room_row code db) [
  | none ↦ (err room_not_found, db)
  | some room ↦ write_room code room.revision digest change db
])

-- The rows of a new room with its host.
unfoldable pub created_rows : String → String → String → Database → Database
created_rows code player_id auth_user_id db = record db {
  rooms =
      db.rooms ++ record { code = code; is_closed = false; current_round = 1; revision = 1 } ∷ [];
  rounds =
      db.rounds
      ++ record {
        room_code = code;
        number = 1;
        result = none;
        forfeited_role = none;
        funded = false;
        status = active;
      }
        ∷ [];
  seats =
      db.seats
      ++ record {
        room_code = code;
        role = host;
        player_id = player_id;
        auth_user_id = auth_user_id;
        wins = pos 0;
      }
        ∷ [];
}

unfoldable pub open_wallet : String → Database → Database
unfolding ensure_account
open_wallet auth_user_id db = record db { accounts = ensure_user_wallet auth_user_id db.accounts }

-- What `Create` and `CreateCommand` do alike.
unfoldable pub create_room : Room → String → Action Database (Unit {0})
unfolding open_wallet room_row created_rows
create_room aggregate auth_user_id = do
  modify (open_wallet auth_user_id)
  λ db.
      raise_if (ltb_ℤ (account_balance (user_account_id auth_user_id) db.accounts) round_stake)
        insufficient_funds db
  λ db. raise_if (is_some (room_row aggregate.code db)) duplicate_room db
  modify (created_rows aggregate.code (first_id aggregate.players) auth_user_id)

unfoldable pub create : Room → String → Action Database Snapshot
unfolding create_room
create aggregate auth_user_id = transaction (do
  create_room aggregate auth_user_id
  pure (record { state = state aggregate; revision = 1; presence = [] }))

-- `INSERT INTO room_presence … ON CONFLICT DO UPDATE` of `JoinFunded`, one seat at a time.
unfoldable pub join_presence :
    String → String → PresenceWindow → List PresenceRow → List PresenceRow
join_presence code player_id window [] =
    record {
      room_code = code;
      player_id = player_id;
      generation = 1;
      deadline = window.deadline;
      refreshed_at = window.observed_at;
      present = false;
    }
    ∷ []
join_presence code player_id window (p ∷ ps) =
    if p.room_code == code && p.player_id == player_id
    then record p {
      generation = suc p.generation;
      deadline = window.deadline;
      refreshed_at = window.observed_at;
    }
      ∷ ps
    else p ∷ join_presence code player_id window ps

unfoldable pub join_presences :
    String → PresenceWindow → List SeatRow → List PresenceRow → List PresenceRow
unfolding join_presence
join_presences code window [] presence = presence
join_presences code window (s ∷ ss) presence =
    join_presences code window ss (join_presence code s.player_id window presence)

unfoldable pub seat_guest : String → String → String → PresenceWindow → Database → Database
unfolding seats_of join_presences
seat_guest code player_id auth_user_id window db =
    let seated = record db {
      seats =
          db.seats
          ++ record {
            room_code = code;
            role = guest;
            player_id = player_id;
            auth_user_id = auth_user_id;
            wins = pos 0;
          }
            ∷ [];
    } in
    record seated { presence = join_presences code window (seats_of code seated) seated.presence }

-- The change that `JoinFunded` writes.
unfoldable pub join_change : GoLibrary → Time → String → String → String → PresenceWindow → Change
unfolding seat_of_account fund_round seat_guest seat_of_role
join_change go now code player_id auth_user_id window aggregate _ = do
  joined ← lift (outcome (join player_id aggregate))
  λ db. raise_if (is_some (seat_of_account code auth_user_id db)) account_seated db
  fund_round go now code joined.round auth_user_id
  λ db. raise_if (is_some (seat_of_role code guest db)) account_seated db
  modify (seat_guest code player_id auth_user_id window)
  pure joined

unfoldable pub join_funded :
    GoLibrary → Time → String → String → String → PresenceWindow → Action Database Snapshot
unfolding write join_change
join_funded go now code player_id auth_user_id window =
    write code none (join_change go now code player_id auth_user_id window)

-- The settlement of a change that has resolved the round.
unfoldable pub settle_if_resolved : GoLibrary → String → Room → Room → Action Database (Unit {0})
unfolding settle_round
settle_if_resolved go code before after =
    if not before.resolved && after.resolved then settle_round go code (state after) else pure tt

unfoldable pub submit_change : GoLibrary → Time → String → Move → Change
unfolding fund_round settle_if_resolved
submit_change go now code move aggregate player_id = do
  fund_round go now code aggregate.round ""
  moved ← lift (outcome (submit_move player_id move aggregate))
  settle_if_resolved go code aggregate moved
  pure moved

unfoldable pub submit_move_and_settle :
    GoLibrary → Time → String → String → Move → Action Database Snapshot
unfolding write submit_change
submit_move_and_settle go now code auth_user_id move =
    write code (some auth_user_id) (submit_change go now code move)

unfoldable pub next_round_change : GoLibrary → Time → String → ℕ → Change
unfolding fund_round
next_round_change go now code round aggregate player_id = do
  asked ← lift (outcome (request_next_round player_id round aggregate))
  (if ltb aggregate.round asked.round then fund_round go now code asked.round "" else pure tt)
  pure asked

unfoldable pub request_next_round_and_fund :
    GoLibrary → Time → String → String → ℕ → Action Database Snapshot
unfolding write next_round_change
request_next_round_and_fund go now code auth_user_id round =
    write code (some auth_user_id) (next_round_change go now code round)

unfoldable pub mutate : String → String → Mutation → Action Database Snapshot
unfolding write
mutate code auth_user_id mutation =
    write code (some auth_user_id)
      (λ aggregate player_id. lift (outcome (mutation player_id aggregate)))

unfoldable pub snapshot : String → Action Database Snapshot
unfolding room_row load
snapshot code = transaction (λ db. elim (room_row code db) [
  | none ↦ (err room_not_found, db)
  | some room ↦
      (do
        (aggregate, _) ← load code
        pure (record { state = state aggregate; revision = room.revision; presence = [] }))
        db
])

unfoldable pub balance : String → Action Database ℤ
unfolding ensure_account
balance auth_user_id db =
    let ensured = ensure_user_wallet auth_user_id db.accounts in
    (ok (account_balance (user_account_id auth_user_id) ensured), record db { accounts = ensured })
