-- ===== src/Postgres/Reads.antt =====
-- What is read from the Postgres store: `LoadRoom` and `AuthorizeRoom` of
-- backend/internal/room/adapter/postgres/realtime.go, `Authenticate` and `Analytics` of repository.go
-- beside it. The order of the rooms' codes is a parameter.
use rock_paper_money.Prelude.{
  ltb, ◌==◌, nat_eq, bool_eq, string_eq, ℕ, zero, suc, String, Bool, false, ◌&&◌, ◌||◌, Option,
  none, some, List, [], ◌∷◌,
}
use rock_paper_money.Prelude.Int.{ltb_ℤ, int_eq}
use rock_paper_money.Prelude.Dict.{Dict, lookup}
use rock_paper_money.Failure.{Fallible, ok, err, external, room_not_found, unauthorized}
use rock_paper_money.Game.{move_eq, result_eq}
use rock_paper_money.Room.{state}
use rock_paper_money.Action.{Action, pure, ◌>>=◌}
use rock_paper_money.Application.{Snapshot, PlayedRound, Analytics}
use rock_paper_money.Postgres.{
  Role, role_eq, status_eq, SeatRow, PresenceRow, HistoryRow, Database, transaction, host, guest,
}
use rock_paper_money.Postgres.Sql.{sorted_rows}
use rock_paper_money.Postgres.Aggregate.{room_row, seat_of_account, seats_of, load}
use rock_paper_money.Postgres.Connections.{presence_row}

abbrev pub role_name : Role → String
role_name host = "host"
role_name guest = "guest"

abbrev pub is_present : Option PresenceRow → Bool
is_present none = false
is_present (some p) = p.present

-- `loadPresence`: for each seat, by its role.
unfoldable pub load_presence : String → List SeatRow → Database → Dict String Bool
unfolding presence_row
load_presence code [] db = []
load_presence code (s ∷ ss) db =
    (role_name s.role, is_present (presence_row code s.player_id db)) ∷ load_presence code ss db

unfoldable pub load_room : String → Action Database Snapshot
unfolding room_row load seats_of load_presence
load_room code = transaction (λ db. elim (room_row code db) [
  | none ↦ (err room_not_found, db)
  | some r ↦
      (do
        (aggregate, _) ← load code
        pure (record {
          state = state aggregate;
          revision = r.revision;
          presence = load_presence code (seats_of code db) db;
        }))
        db
])

unfoldable pub authorize_room : String → String → Database → Fallible Role
unfolding seat_of_account
authorize_room code account_id db = elim (seat_of_account code account_id db) [
  | none ↦ err unauthorized
  | some s ↦ ok s.role
]

unfoldable pub authenticate : String → String → Action Database (Snapshot × Role)
unfolding room_row seat_of_account load
authenticate code auth_user_id = transaction (λ db. elim (room_row code db) [
  | none ↦ (err room_not_found, db)
  | some r ↦ elim (seat_of_account code auth_user_id db) [
    | none ↦ (err unauthorized, db)
    | some s ↦
        (do
          (aggregate, _) ← load code
          pure (record { state = state aggregate; revision = r.revision; presence = [] }, s.role))
          db
  ]
])

abbrev pub played_of : HistoryRow → PlayedRound
played_of h = record {
  room_code = h.room_code;
  round = h.round_number;
  result = h.result;
  winner_role = elim h.winner_role [ none ↦ "" | some role ↦ role_name role ];
  forfeit = h.forfeited;
  house_earnings = h.house_earnings;
  resolved_at = h.resolved_at;
}

-- The first lines of the history, as they are read.
unfoldable pub first_played : ℕ → List HistoryRow → List PlayedRound
first_played zero hs = []
first_played (suc n) [] = []
first_played (suc n) (h ∷ hs) = played_of h ∷ first_played n hs

module _ (code_before : String → String → Bool) where
  -- `ORDER BY resolved_at DESC, room_code, round_number DESC`
  unfoldable pub played_before : HistoryRow → HistoryRow → Bool
  played_before h k =
      ltb_ℤ k.resolved_at h.resolved_at
      || k.resolved_at == h.resolved_at
        && (code_before h.room_code k.room_code
            || h.room_code == k.room_code && ltb k.round_number h.round_number)

  unfoldable pub analytics : Database → Fallible Analytics
  unfolding sorted_rows played_before first_played
  analytics db = elim (lookup "house" db.accounts) [
    | none ↦ err (external 0)
    | some earnings ↦ ok (record {
      total_house_earnings = earnings;
      rounds = first_played 500 (sorted_rows played_before db.history);
    })
  ]
