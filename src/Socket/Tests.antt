-- ===== src/Socket/Tests.antt =====
-- A socket whose session has been logged out, and the frame of an open round.
use rock_paper_money.Prelude.{
  if◌then◌else◌, ◌==◌, nat_eq, bool_eq, string_eq, ◌≡◌, refl, true, false, ◌||◌, none, some, [],
  ◌∷◌,
}
use rock_paper_money.Prelude.Int.{◌+ℤ◌, int_eq, pos}
use rock_paper_money.Game.{move_eq, result_eq, rock, unset, player_one_wins}
use rock_paper_money.Application.{Time, Snapshot}
use rock_paper_money.Postgres.{Database}
use rock_paper_money.Postgres.Sql.{row_where, exists_where, update_where}
use rock_paper_money.Auth.{
  Session, session_idle_limit, has_digest, is_usable, seen, use_session, revoked, revoke_session,
  TokenLibrary, session_digest, authenticate, revoke, validate_csrf,
}
use rock_paper_money.Auth.Requests.{
  Request, validate_origin, is_csrf_valid, validate_mutation, TextLibrary, delete,
}
use rock_paper_money.Auth.Handlers.{Response, Serving, logout}
use rock_paper_money.Auth.Lifetime.{run, uses}
use rock_paper_money.Socket.{snapshot_frame}
use rock_paper_money.Socket.Serve.{
  Socket, serve_event, is_silent, logout_silences, snapshot_frame_hides, snapshot_waits,
}

-- The digest of a text by its kind.
abbrev tokens : TokenLibrary
tokens = record {
  is_token = λ s. s == "token" || s == "csrf";
  digest_token = λ s. if s == "token" then 1 else 2;
}

abbrev text : TextLibrary
text = record {
  cut = λ s. if s == "Bearer t" then some ("Bearer", "t") else none;
  is_bearer = λ s. s == "Bearer";
  has_space = λ s. false;
  is_api_path = λ s. s == "/api/session";
  header_names = λ s. s ∷ [];
}

abbrev serving : Serving
serving = record {
  tokens = tokens;
  text = text;
  verify = λ t. some "alice";
  allowed_origin = "https://play";
  now = pos 20;
  fresh_token = some "token";
  fresh_csrf = some "csrf";
}

abbrev alice : Time → Session
alice at = record {
  digest = 1;
  csrf_digest = 2;
  account_id = "alice";
  created_at = pos 10;
  last_seen_at = at;
  idle_expires_at = at +ℤ session_idle_limit;
  absolute_expires_at = pos 2592000000000010;
  revoked_at = none;
}

abbrev leaving : Request
leaving = record {
  path = "/api/session";
  method = delete;
  origins = "https://play" ∷ [];
  csrf_headers = "csrf" ∷ [];
  authorizations = [];
  session_cookie = some "token";
  csrf_cookie = some "csrf";
  requested_methods = [];
  requested_headers = [];
}

abbrev left_response : Response
left_response = record { status = 204; issued = none; csrf_header = none; expires_cookies = true }

abbrev store : Database
store = record {
  rooms = [];
  rounds = [];
  seats = [];
  moves = [];
  requests = [];
  presence = [];
  connections = [];
  deadlines = [];
  next_deadline = 1;
  outbox = [];
  next_outbox = 1;
  accounts = [];
  transactions = [];
  postings = [];
  history = [];
  sessions = [];
  receipts = [];
  clock = pos 5;
}

abbrev socket : Socket
socket = record {
  token = "token";
  admitted = alice (pos 15);
  role = "host";
  connection_id = "a";
  lease_duration = pos 60;
}

abbrev snapshot : Snapshot
snapshot = record {
  state = record {
    code = "R";
    players = [];
    ready = true;
    resolved = false;
    round = 1;
    closed = false;
    moves = [];
    result = unset;
    forfeit = false;
  };
  revision = 3;
  presence = [];
}

-- The session is used once more before the snapshot is there.
logout_silences_example :
    is_silent tokens socket
      (serve_event tokens socket (snapshot_waits (pos 30) (pos 31) snapshot true) (record {
        sessions = run tokens (uses "token" (pos 25) ∷ []) (revoked (pos 20) (alice (pos 20)) ∷ []);
        store = store;
      })).0
    ≡ true
unfolding logout authenticate session_digest use_session is_usable has_digest seen row_where
    exists_where update_where validate_mutation validate_origin is_csrf_valid validate_csrf revoke
    revoke_session ◌+ℤ◌
logout_silences_example =
    logout_silences serving leaving (alice (pos 15) ∷ []) (revoked (pos 20) (alice (pos 20)) ∷ [])
      left_response socket (uses "token" (pos 25) ∷ [])
      (snapshot_waits (pos 30) (pos 31) snapshot true) store refl refl refl (refl, tt)

snapshot_frame_hides_example :
    snapshot_frame
      (record snapshot {
        state = record snapshot.state {
          moves = record { player_id = "h"; move = rock } ∷ [];
          result = player_one_wins;
        };
      })
      "alice"
      "host"
    ≡ snapshot_frame snapshot "alice" "host"
snapshot_frame_hides_example =
    snapshot_frame_hides snapshot (record { player_id = "h"; move = rock } ∷ []) player_one_wins
      "alice" "host" refl
