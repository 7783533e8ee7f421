-- ===== src/Service/Tests.antt =====
-- Witnesses: a repository whose state is the number of its calls, which refuses the first one, and
-- the memory repository.
use rock_paper_money.Prelude.{
  nat_beq, if◌then◌else◌, nat_eq, bool_eq, string_eq, ℕ, ◌+◌, ◌≡◌, refl, false, none, some, [],
}
use rock_paper_money.Prelude.Int.{◌+ℤ◌, ◌-ℤ◌, int_eq, wrap64, pos}
use rock_paper_money.Prelude.Dict.{lookup, insert}
use rock_paper_money.Failure.{duplicate_room, duplicate_player, ok, err}
use rock_paper_money.Game.{move_eq, result_eq, unset}
use rock_paper_money.Room.{State, new}
use rock_paper_money.Action.{Action, pure, ◌>>=◌}
use rock_paper_money.Application.{Snapshot, Credentials}
use rock_paper_money.Memory
use rock_paper_money.Memory.{Repository, GoLibrary, ensure_wallet, credit}
use rock_paper_money.Memory.Handlers.{recharge as stored_recharge}
use rock_paper_money.Memory.Commands.{execute_command, recharge_command}
use rock_paper_money.Service.{
  Service, RepositoryPort, Library, create, join, recharge, attempts, try_create, try_join,
  identity, presence_window, new_command, recharge_checked, command_response_status,
}
use rock_paper_money.Service.Store.{memory_port, memory_commands, PresenceConfig, new_service}
use rock_paper_money.Service.Retry.{IsCreated, create-IsCreated, IsJoined, join-IsJoined}
use Prim.Native.String.{len}
use rock_paper_money.Service.Reports.{
  ProblemReport, TextLibrary, is_one_of, is_unusable, trimmed, create_problem_report, IsUsable,
  create_problem_report-IsUsable,
}
use rock_paper_money.Service.Wallet.{recharge_twice}

abbrev library : Library
library = record {
  digest_token = λ _. 7;
  hash_meaning = λ _. ok 5;
  trim_space = λ s. s;
  contains_any = λ _ _. false;
}

abbrev empty_state : State
empty_state = record {
  code = "C";
  players = [];
  ready = false;
  resolved = false;
  round = 1;
  closed = false;
  moves = [];
  result = unset;
  forfeit = false;
}

abbrev view : Snapshot
view = record { state = empty_state; revision = 1; presence = [] }

abbrev port : RepositoryPort ℕ
port = record {
  create = λ _ _ _ n. if nat_beq n 0 then (err duplicate_room, 1) else (ok view, n + 1);
  join_funded =
      λ _ _ _ _ _ n. if nat_beq n 0 then (err duplicate_player, 1) else (ok (view, []), n + 1);
  submit_move_and_settle = λ _ _ _ _. pure view;
  request_next_round_and_fund = λ _ _ _ _. pure view;
  mutate = λ _ _ _ _. pure view;
  snapshot = λ _. pure view;
  authenticate = λ _ _ _. pure (view, "p");
  refresh_presence = λ _ _ _ _. pure [];
  forfeit_expired = λ _ _. pure (view, false);
  balance = λ _. pure (pos 80);
  recharge = λ _ _ _. pure (pos 80);
  analytics = pure (record { total_house_earnings = pos 0; rounds = [] });
}

abbrev config : PresenceConfig
config = record { now = pos 10; grace_period = pos 0; heartbeat_interval = pos 0 }

abbrev service : Service ℕ
service = new_service port none library (pure "C") (pure "t") (pure "p") config

abbrev credentials : Credentials
credentials = record { room_code = "C"; player_token = "t" }

created : create service "ann" 0 ≡ (ok credentials, 2)
unfolding create new_service attempts try_create identity new ◌>>=◌
created = refl

create-IsCreated_example : IsCreated service "ann" credentials 2
create-IsCreated_example = create-IsCreated service "ann" 0 credentials 2 created

joined : join service "C" "ann" 0 ≡ (ok credentials, 2)
unfolding join new_service attempts try_join identity presence_window ◌>>=◌
joined = refl

join-IsJoined_example : IsJoined service "C" "ann" credentials 2
join-IsJoined_example = join-IsJoined service "C" "ann" 0 credentials 2 joined

abbrev go : GoLibrary
go = record { format_uint = λ _. "1"; sha256 = λ _. 9 }

abbrev store : Repository
store = Memory.new

abbrev memory_service : Service Repository
memory_service =
    new_service (memory_port go (pos 0)) (some (memory_commands go (pos 0))) library (pure "C")
      (pure "t") (pure "p") config

abbrev recharged_store : Repository
recharged_store = (recharge memory_service "ann" (pos 5) "k" store).1

memory_service-commands : memory_service.commands ≡ some (memory_commands go (pos 0))
unfolding new_service
memory_service-commands = refl

no_receipt : lookup "k" store.receipts ≡ none
unfolding Memory.new lookup
no_receipt = refl

recharged : recharge memory_service "ann" (pos 5) "k" store ≡ (ok (pos 5), recharged_store)
unfolding recharge recharge_checked new_service new_command command_response_status recharge_command
    execute_command stored_recharge Memory.new ensure_wallet credit lookup insert wrap64 ◌+ℤ◌ ◌-ℤ◌
    ◌>>=◌
recharged = refl

recharge_twice_example :
    recharge memory_service "ann" (pos 5) "k" recharged_store ≡ (ok (pos 5), recharged_store)
recharge_twice_example =
    recharge_twice go (pos 0) memory_service memory_service-commands "ann" (pos 5) "k" store (pos 5)
      recharged_store no_receipt recharged

abbrev texts : TextLibrary
texts = record { trim_space = λ s. s; rune_count = len; contains_nul = λ _. false }

abbrev problem : ProblemReport
problem = record {
  account_id = "ann";
  description = "stuck";
  section = "gameplay";
  app_version = "1.2";
}

abbrev save_report : ProblemReport → Action ℕ (Unit {0})
save_report _ n = (ok tt, n + 1)

reported : create_problem_report texts (some save_report) problem 3 ≡ (ok tt, 4)
unfolding create_problem_report is_unusable is_one_of ◌>>=◌
reported = refl

create_problem_report-IsUsable_example :
    IsUsable texts (trimmed texts problem) × (save_report (trimmed texts problem) 3 ≡ (ok tt, 4))
create_problem_report-IsUsable_example =
    create_problem_report-IsUsable texts save_report problem 3 4 reported
