-- ===== src/Memory/Tests.antt =====
-- The store at concrete wallets and rooms.
use rock_paper_money.Prelude.{
  if◌then◌else◌, ◌==◌, nat_eq, string_eq, bool_eq, String, ◌≡◌, refl, ◌≢◌, true, false, none, [],
  ◌∷◌, arith,
}
use rock_paper_money.Prelude.Dict.{lookup, insert, clone}
use rock_paper_money.Prelude.Int.{ℤ, pos_part, ◌+ℤ◌, ◌-ℤ◌, int_eq, wrap64, pos}
use rock_paper_money.Failure.{round_not_resolved, unauthorized, ok}
use rock_paper_money.Game.{move_eq, result_eq, rock, unset, player_two_wins}
use rock_paper_money.Room.{
  PersistedPlayer, Room, State, check_players, check_moves, check_requests, check_outcome, restore,
  persistence_state, state,
}
use rock_paper_money.Room.Actions.{request_next_round}
use rock_paper_money.Action.{pure, raise, ◌>>=◌}
use rock_paper_money.Application.{Command, CommandResult}
use rock_paper_money.Memory.{
  StoredRoom, Repository, Wallets, ensure_wallet, credit, debit, GoLibrary, escrow_key, is_funded,
  owners_of, check_stakes, take_stakes, charge_owners, fund_round, played_round, settle_round, room,
  player_for_account, authenticate,
}
use rock_paper_money.Memory.Coins.{supply, IsSound}
use rock_paper_money.Memory.Funding.{Funds, fund_round-Funds}
use rock_paper_money.Memory.Settling.{Pays, settle_round-Pays}
use rock_paper_money.Memory.Handlers.{submit_move_and_settle, request_next_round_and_fund, recharge}
use rock_paper_money.Memory.Commands.{execute_command}
use rock_paper_money.Memory.Idempotent.{second_answer, execute_command_once}
use rock_paper_money.Memory.Atomic.{
  IsUntouched, submit_move_and_settle-IsUntouched, request_next_round_and_fund-IsUntouched,
}

-- Decimal digits of the rounds that are played here, and a digest by length of the tests' texts.
abbrev go : GoLibrary
go = record {
  format_uint = λ n. if n == 1 then "1" else "2";
  sha256 = λ s. if s == "h" then 1 else 2;
}

abbrev host_player : PersistedPlayer
host_player = record { id = "h"; wins = pos 0 }

abbrev guest_player : PersistedPlayer
guest_player = record { id = "g"; wins = pos 0 }

abbrev playing : Room
playing = record {
  code = "R";
  players = host_player ∷ guest_player ∷ [];
  moves = [];
  resolved = false;
  result = unset;
  forfeited_player_id = "";
  round = 1;
  next_round_requests = [];
  closed = false;
}

abbrev stored_room : StoredRoom
stored_room = record {
  room = playing;
  revision = 4;
  credentials = [];
  owners = ("h", "ann") ∷ ("g", "bob") ∷ [];
  presence = [];
  funded = [];
}

abbrev purses : Wallets
purses = ("house", pos 0) ∷ ("ann", pos 120) ∷ ("bob", pos 60) ∷ []

-- The purses with the stakes of a round in the escrow.
abbrev staked : Wallets
staked = ("house", pos 0) ∷ ("ann", pos 70) ∷ ("bob", pos 10) ∷ ("escrow:R:1", pos 100) ∷ []

abbrev store : Repository
store = record {
  rooms = ("R", stored_room) ∷ [];
  events = record { rooms = []; next = 0 };
  wallets = purses;
  recharges = [];
  history = [];
  receipts = [];
}

purses-IsSound : IsSound purses
unfolding supply
purses-IsSound = record { solvent = (refl, (refl, (refl, tt))); bounded = omega arith }

staked-IsSound : IsSound staked
unfolding supply
staked-IsSound = record { solvent = (refl, (refl, (refl, (refl, tt)))); bounded = omega arith }

differ : (a b : String) → (a == b) ≡ false → a ≢ b
differ a b h = ground (arith, string_eq.beq_iff a b)

funding_moves :
    fund_round go stored_room "R" 1 "" purses
    ≡ (ok (record stored_room { funded = (1, true) ∷ [] }), staked)
unfolding fund_round charge_owners is_funded owners_of state check_stakes take_stakes debit insert
    lookup escrow_key wrap64 ◌-ℤ◌
funding_moves = refl

fund_round-Funds_example :
    Funds go "R" 1 "ann" "bob" stored_room purses (fund_round go stored_room "R" 1 "" purses)
unfolding owners_of state lookup is_funded escrow_key
fund_round-Funds_example =
    fund_round-Funds go stored_room "R" 1 "" "ann" "bob" purses purses-IsSound refl
      (differ _ _ refl) (differ _ _ refl) (differ _ _ refl) refl refl

-- The view of the resolved round that is settled.
abbrev settled_view : State
settled_view = state (record playing { resolved = true; result = player_two_wins })

settle_round-Pays_example :
    Pays player_two_wins "ann" "bob"
      (escrow_key go "R" 1)
      staked
      (settle_round go stored_room "R" settled_view
        (pos 9)
        (record store { wallets = staked })).wallets
    × ((settle_round go stored_room "R" settled_view
          (pos 9)
          (record store { wallets = staked })).history
        ≡ played_round "R" settled_view (pos 9) ∷ [])
    × ((settle_round go stored_room "R" settled_view
          (pos 9)
          (record store { wallets = staked })).rooms
        ≡ store.rooms)
unfolding owners_of state lookup escrow_key
settle_round-Pays_example =
    settle_round-Pays go stored_room "R" "ann" "bob" settled_view (pos 9)
      (record store { wallets = staked }) staked-IsSound refl (differ _ _ refl) (differ _ _ refl)
      (differ _ _ refl) (differ _ _ refl) (differ _ _ refl) (differ _ _ refl) refl

abbrev recharge_of : String → ℤ → Command
recharge_of key amount = record {
  key = key;
  operation = "wallet.recharge";
  request_hash = pos_part amount;
  response_status = 200;
}

abbrev recharged : CommandResult
recharged = record { snapshot = none; leases = []; balance = pos 125; replayed = false }

abbrev after_recharge : Repository
after_recharge = record store {
  wallets = ("house", pos 0) ∷ ("ann", pos 125) ∷ ("bob", pos 60) ∷ [];
  recharges = ("ann:k", record { owner = "ann"; amount = pos 5 }) ∷ [];
  receipts =
      ("k", record { account_id = "ann"; command = recharge_of "k" (pos 5); result = recharged })
      ∷ [];
}

recharge_runs :
    execute_command "ann"
      (recharge_of "k" (pos 5))
      (do
        b ← recharge "ann" (pos 5) "k"
        pure (record { snapshot = none; leases = []; balance = b; replayed = false }))
      store
    ≡ (ok recharged, after_recharge)
unfolding execute_command recharge ◌>>=◌ lookup insert ensure_wallet credit wrap64 ◌+ℤ◌ ◌-ℤ◌
recharge_runs = refl

execute_command_once_example :
    execute_command "ann" (recharge_of "k" (pos 6)) (raise unauthorized) after_recharge ≡ (
      second_answer "ann" (recharge_of "k" (pos 5)) recharged "ann" (recharge_of "k" (pos 6)),
      after_recharge,
    )
unfolding lookup
execute_command_once_example =
    execute_command_once "ann" (recharge_of "k" (pos 5))
      (do
        b ← recharge "ann" (pos 5) "k"
        pure (record { snapshot = none; leases = []; balance = b; replayed = false }))
      store after_recharge recharged "ann" (recharge_of "k" (pos 6)) (raise unauthorized) refl
      recharge_runs refl

submit_move_and_settle-IsUntouched_example :
    IsUntouched store (submit_move_and_settle go (pos 0) "R" 0 "eve" rock store).1
unfolding submit_move_and_settle room authenticate player_for_account lookup ◌>>=◌
submit_move_and_settle-IsUntouched_example =
    submit_move_and_settle-IsUntouched go "R" 0 "eve" store unauthorized (pos 0) rock refl

request_next_round_and_fund-IsUntouched_example :
    IsUntouched store (request_next_round_and_fund go "R" 0 "ann" 1 store).1
unfolding request_next_round_and_fund room authenticate player_for_account lookup restore
    check_players check_moves check_requests check_outcome persistence_state clone insert
    request_next_round ◌>>=◌
request_next_round_and_fund-IsUntouched_example =
    request_next_round_and_fund-IsUntouched go "R" 0 "ann" store round_not_resolved 1 refl
