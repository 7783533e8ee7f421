-- ===== src/Service/Store.antt =====
-- The service over the memory repository, as the server and the tests of
-- backend/internal/room/application build it: the ports that
-- backend/internal/room/adapter/memory/repository.go implements, and the construction of the
-- service with its defaults (`NewServiceWithPresenceConfig`).
use rock_paper_money.Prelude.{if◌then◌else◌, ◌==◌, nat_eq, string_eq, bool_eq, String, Option}
use rock_paper_money.Prelude.Int.{ℤ, int_eq, pos}
use rock_paper_money.Action.{Action, pure}
use rock_paper_money.Application.{Time}
use rock_paper_money.Memory.{Repository, GoLibrary}
use rock_paper_money.Memory.Handlers.{
  create, join_funded, submit_move_and_settle, request_next_round_and_fund, mutate, snapshot,
  snapshot_for_account, authenticate_seat, balance, recharge, analytics,
}
use rock_paper_money.Memory.Presence.{refresh_presence, forfeit_expired}
use rock_paper_money.Memory.Commands.{
  create_command, join_command, submit_move_command, request_next_round_command, mutate_command,
  recharge_command,
}
use rock_paper_money.Service.{RepositoryPort, CommandPort, Library, Service}

abbrev pub memory_port : GoLibrary → Time → RepositoryPort Repository
memory_port go t = record {
  create = create;
  join_funded = join_funded go;
  submit_move_and_settle = submit_move_and_settle go t;
  request_next_round_and_fund = request_next_round_and_fund go;
  mutate = mutate;
  snapshot = snapshot;
  authenticate = authenticate_seat;
  refresh_presence = refresh_presence;
  forfeit_expired = forfeit_expired go t;
  balance = balance;
  recharge = recharge;
  analytics = analytics;
}

abbrev pub memory_commands : GoLibrary → Time → CommandPort Repository
memory_commands go t = record {
  create_command = create_command go;
  join_command = join_command go;
  submit_move_command = submit_move_command go t;
  request_next_round_command = request_next_round_command go;
  mutate_command = mutate_command;
  recharge_command = recharge_command;
  snapshot_for_account = snapshot_for_account;
}

-- `DefaultPresenceGracePeriod` and `PresenceHeartbeatInterval`: ten and three seconds.
abbrev pub default_grace_period : ℤ
default_grace_period = pos 10000000000

abbrev pub default_heartbeat_interval : ℤ
default_heartbeat_interval = pos 3000000000

-- The fields of `PresenceConfig` that the service reads.
pub record PresenceConfig : Type 0 where
  pub now : Time
  pub grace_period : ℤ
  pub heartbeat_interval : ℤ

-- `NewServiceWithPresenceConfig`: a zero period is the default one. The code, token and player
-- generators are the given ones.
unfoldable pub new_service :
    {S : Type 0}
    → RepositoryPort S
    → Option (CommandPort S)
    → Library
    → Action S String
    → Action S String
    → Action S String
    → PresenceConfig
    → Service S
new_service repository commands library code token player_id config = record {
  repository = repository;
  commands = commands;
  generate_code = code;
  generate_token = token;
  generate_player_id = player_id;
  now = pure config.now;
  grace_period = if config.grace_period == pos 0 then default_grace_period else config.grace_period;
  heartbeat_interval =
      if config.heartbeat_interval == pos 0
      then default_heartbeat_interval
      else config.heartbeat_interval;
  library = library;
}
