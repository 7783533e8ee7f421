-- ===== src/Memory/Handlers.antt =====
-- The methods of backend/internal/room/adapter/memory/repository.go that create a room, seat a
-- player, play and read: `Create`, `JoinFunded`, `SubmitMoveAndSettle`, `RequestNextRoundAndFund`,
-- `Mutate`, `Snapshot`, `SnapshotForAccount`, `Authenticate`, `Balance`, `Recharge`, `Analytics`.
-- `go` is what they take from Go's library, `now` the clock that `settleRound` reads.
use mathlib.Core.Option
use rock_paper_money.Prelude.{
  ltb, if◌then◌else◌, Eq, ◌==◌, ◌/=◌, nat_eq, string_eq, bool_eq, ℕ, ◌+◌, ◌%◌, ◌^◌, String, concat,
  Bool, true, false, not, ◌&&◌, ◌||◌, none, some, List, [], ◌∷◌,
}
use rock_paper_money.Prelude.Dict.{Dict, get_or, lookup, insert, contains}
use rock_paper_money.Prelude.Int.{ℤ, ltb_ℤ, int_eq, max_int64, sub64}
use rock_paper_money.Failure.{
  Fallible, duplicate_player, duplicate_room, unauthorized, account_seated, insufficient_funds,
  invalid_coin_amount, idempotency_conflict, ok, err,
}
use rock_paper_money.Game.{Move, move_eq, result_eq}
use rock_paper_money.Room.{Room, Player, State, restore, persistence_state, state}
use rock_paper_money.Room.Actions.{Outcome, join, submit_move, request_next_round}
use rock_paper_money.Action.{Action, pure, lift, gets, or_raise, modify, raise_if, ◌>>=◌, ◌>>◌}
use rock_paper_money.Application.{
  Time, Digest, round_stake, Snapshot, Analytics, PresenceLease, PresenceWindow, Mutation,
}
use rock_paper_money.Memory.{
  MemoryPresence, StoredRoom, Repository, Wallets, balance_of, ensure_wallet, credit, GoLibrary,
  is_funded, fund_round, settle_round, room, changed, player_for_account, authenticate,
}

-- A step on the wallets alone.
abbrev pub with_wallets : {A : Type 0} → Action Wallets A → Action Repository A
with_wallets m r = let (x, w) = m r.wallets in (x, record r { wallets = w })

-- The room of an action on a working copy, which an error discards.
abbrev pub performed : Outcome → Fallible Room
performed (r, none) = ok r
performed (r, some e) = err e

-- The loops over the values of a map.
unfoldable pub has_value : {V : Type 0} ⦃e : Eq V⦄ → V → Dict String V → Bool
has_value v [] = false
has_value v ((k, w) ∷ m) = w == v || has_value v m

abbrev pub first_player : State → String
first_player s = elim s.players [ [] ↦ "" | p ∷ _ ↦ p.id ]

abbrev pub snapshot_of : StoredRoom → Snapshot
snapshot_of stored = record { state = state stored.room; revision = stored.revision; presence = [] }

unfoldable pub create : Room → Digest → String → Action Repository Snapshot
create aggregate digest auth_user_id = do
  let s = state aggregate
  modify (λ r. record r { wallets = ensure_wallet auth_user_id r.wallets })
  balance ← gets (λ r. balance_of auth_user_id r.wallets)
  raise_if (ltb_ℤ balance round_stake) insufficient_funds
  taken ← gets (λ r. contains s.code r.rooms)
  raise_if taken duplicate_room
  stored ← lift (restore (persistence_state aggregate))
  modify (λ r. record r {
    rooms =
        insert s.code
          (record {
            room = stored;
            revision = 1;
            credentials = (first_player s, digest) ∷ [];
            owners = (first_player s, auth_user_id) ∷ [];
            presence = [];
            funded = [];
          })
          r.rooms;
  })
  pure (record { state = s; revision = 1; presence = [] })

-- The loop of `JoinFunded` that gives every player a lease.
unfoldable pub grant_leases :
    String
    → ℕ
    → PresenceWindow
    → List Player
    → Dict String MemoryPresence
    → List PresenceLease × Dict String MemoryPresence
grant_leases code round window [] presence = ([], presence)
grant_leases code round window (p ∷ ps) presence =
    let generation =
      (get_or (Option.map (λ (m : MemoryPresence). m.generation) (lookup p.id presence)) 0 + 1)
      % 2 ^ 64 in
    let (leases, presence') = grant_leases code round window ps (
      insert p.id
        (record {
          generation = generation;
          refreshed_at = window.observed_at;
          deadline = window.deadline;
        })
        presence) in
    (
      record {
        room_code = code;
        player_id = p.id;
        round = round;
        generation = generation;
        deadline = window.deadline;
        evaluate_at = window.evaluate_at;
        proof_after = window.proof_after;
        active = true;
      }
          ∷ leases,
      presence',
    )

unfoldable pub join_funded :
    GoLibrary
    → String
    → String
    → Digest
    → String
    → PresenceWindow
    → Action Repository (Snapshot × List PresenceLease)
join_funded go code player_id digest auth_user_id window = do
  stored ← room code
  raise_if (has_value digest stored.credentials) duplicate_player
  raise_if (has_value auth_user_id stored.owners) account_seated
  restored ← lift (restore (persistence_state stored.room))
  working ← lift (performed (join player_id restored))
  modify (λ r. record r { wallets = ensure_wallet auth_user_id r.wallets })
  funded ← with_wallets (fund_round go stored code (state working).round auth_user_id)
  let s = state working
  let granted = grant_leases code s.round window s.players stored.presence
  snapshot ← changed code (record funded {
    room = working;
    credentials = insert player_id digest stored.credentials;
    owners = insert player_id auth_user_id stored.owners;
    presence = granted.1;
  })
  pure (snapshot, granted.0)

-- The seat of the account that calls.
abbrev pub seat_or_raise : StoredRoom → Digest → String → Action Repository String
seat_or_raise stored digest auth_user_id =
    or_raise (authenticate stored.credentials stored.owners digest auth_user_id) unauthorized

-- `if !stored.funded[round] { fundRound }`
abbrev pub fund_if : Bool → GoLibrary → StoredRoom → String → ℕ → Action Repository StoredRoom
fund_if due go stored code round =
    let funding : Action Repository StoredRoom =
      with_wallets (fund_round go stored code round "") in
    if due then funding else pure stored

unfoldable pub submit_move_and_settle :
    GoLibrary → Time → String → Digest → String → Move → Action Repository Snapshot
submit_move_and_settle go now code digest auth_user_id move = do
  stored ← room code
  player_id ← seat_or_raise stored digest auth_user_id
  restored ← lift (restore (persistence_state stored.room))
  working ← lift (performed (submit_move player_id move restored))
  funded ←
      fund_if (not (is_funded (state working).round stored)) go stored code (state working).round
  modify (λ r.
      if not (state restored).resolved && (state working).resolved
      then settle_round go funded code (state working) now r
      else r)
  changed code (record funded { room = working })

unfoldable pub request_next_round_and_fund :
    GoLibrary → String → Digest → String → ℕ → Action Repository Snapshot
request_next_round_and_fund go code digest auth_user_id round = do
  stored ← room code
  player_id ← seat_or_raise stored digest auth_user_id
  restored ← lift (restore (persistence_state stored.room))
  working ← lift (performed (request_next_round player_id round restored))
  funded ←
      fund_if (ltb (state restored).round (state working).round) go stored code
        (state working).round
  changed code (record funded { room = working })

unfoldable pub mutate : String → Digest → String → Mutation → Action Repository Snapshot
mutate code digest auth_user_id mutation = do
  stored ← room code
  player_id ← seat_or_raise stored digest auth_user_id
  restored ← lift (restore (persistence_state stored.room))
  working ← lift (performed (mutation player_id restored))
  changed code (record stored { room = working })

unfoldable pub snapshot : String → Action Repository Snapshot
snapshot code = do stored ← room code; pure (snapshot_of stored)

unfoldable pub snapshot_for_account : String → String → Action Repository Snapshot
snapshot_for_account code account_id = do
  stored ← room code
  raise_if (player_for_account stored.owners account_id == "") unauthorized
  pure (snapshot_of stored)

-- `Authenticate`: the snapshot and the role of the caller.
unfoldable pub authenticate_seat : String → Digest → String → Action Repository (Snapshot × String)
authenticate_seat code digest auth_user_id = do
  stored ← room code
  id ← seat_or_raise stored digest auth_user_id
  pure (snapshot_of stored, if first_player (state stored.room) == id then "host" else "guest")

unfoldable pub balance : String → Action Repository ℤ
balance auth_user_id = do
  modify (λ r. record r { wallets = ensure_wallet auth_user_id r.wallets })
  gets (λ r. balance_of auth_user_id r.wallets)

-- `Recharge` of a key that is new to it.
recharge_new : String → ℤ → String → Action Repository ℤ
recharge_new auth_user_id amount business_key = do
  modify (λ r. record r { wallets = ensure_wallet auth_user_id r.wallets })
  before ← gets (λ r. balance_of auth_user_id r.wallets)
  raise_if (ltb_ℤ (sub64 max_int64 before) amount) invalid_coin_amount
  modify (λ r. record r {
    wallets = credit auth_user_id amount r.wallets;
    recharges = insert business_key (record { owner = auth_user_id; amount = amount }) r.recharges;
  })
  gets (λ r. balance_of auth_user_id r.wallets)

unfoldable pub recharge : String → ℤ → String → Action Repository ℤ
unfolding recharge_new
recharge auth_user_id amount key r =
    let business_key = concat auth_user_id (concat ":" key) in
    elim (lookup business_key r.recharges) [
      | none ↦ recharge_new auth_user_id amount business_key r
      | some previous ↦
          if previous.owner /= auth_user_id || previous.amount /= amount
          then (err idempotency_conflict, r)
          else (ok (balance_of auth_user_id r.wallets), r)
    ]

unfoldable pub analytics : Action Repository Analytics
analytics =
    gets (λ r. record { total_house_earnings = balance_of "house" r.wallets; rounds = r.history })
