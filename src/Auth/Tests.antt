-- ===== src/Auth/Tests.antt =====
-- Sessions of one browser, from its login to its logout.
use rock_paper_money.Auth.Guards.{IsLoggedOut, logout-IsLoggedOut, cors-IsExact}
use rock_paper_money.Prelude.{
  if◌then◌else◌, ◌==◌, nat_eq, bool_eq, string_eq, String, ◌≡◌, refl, true, false, ◌||◌, none, some,
  List, [], ◌∷◌,
}
use rock_paper_money.Prelude.Int.{◌+ℤ◌, ◌≤ℤ◌, ltb_ℤ, int_eq, pos}
use rock_paper_money.Application.{Time}
use rock_paper_money.Postgres.Sql.{row_where, exists_where, update_where}
use rock_paper_money.Auth.{
  Session, session_idle_limit, session_absolute_limit, has_digest, create_session, is_usable, seen,
  use_session, revoked, revoke_session, TokenLibrary, session_digest, create, authenticate, revoke,
  validate_csrf, invalid_session, refused,
}
use rock_paper_money.Auth.Requests.{
  Request, validate_origin, is_csrf_valid, validate_mutation, TextLibrary, cors, delete,
}
use rock_paper_money.Auth.Handlers.{Response, Serving, logout}
use rock_paper_money.Auth.Lifetime.{
  SessionCall, performed, run, authenticate-IsFresh, creates, uses,
}
use rock_paper_money.Auth.Revoked.{revoke-IsFinal}

-- The digest of a text by its kind.
abbrev tokens : TokenLibrary
tokens = record {
  is_token = λ s. s == "token" || s == "csrf";
  digest_token = λ s. if s == "token" then 1 else 2;
}

abbrev text : TextLibrary
text = record {
  cut = λ s. if s == "Bearer t" then some ("Bearer", "t") else none;
  is_bearer = λ s. s == "Bearer";
  has_space = λ s. false;
  is_api_path = λ s. s == "/api/session";
  header_names = λ s. s ∷ [];
}

abbrev serving : Serving
serving = record {
  tokens = tokens;
  text = text;
  verify = λ t. some "alice";
  allowed_origin = "https://play";
  now = pos 20;
  fresh_token = some "token";
  fresh_csrf = some "csrf";
}

-- Created at 10, used at 15.
abbrev calls : List SessionCall
calls = creates (some "token") (some "csrf") (pos 10) "alice" ∷ uses "token" (pos 15) ∷ []

abbrev alice : Time → Session
alice at = record {
  digest = 1;
  csrf_digest = 2;
  account_id = "alice";
  created_at = pos 10;
  last_seen_at = at;
  idle_expires_at = at +ℤ session_idle_limit;
  absolute_expires_at = pos 2592000000000010;
  revoked_at = none;
}

authenticate-IsFresh_example :
    (ltb_ℤ (pos 20) ((alice (pos 20)).created_at +ℤ session_absolute_limit) ≡ true)
    × ((alice (pos 20)).idle_expires_at ≤ℤ pos 20 +ℤ session_idle_limit)
    × ((alice (pos 20)).idle_expires_at ≤ℤ (alice (pos 20)).created_at +ℤ session_absolute_limit)
unfolding run performed create create_session authenticate session_digest use_session is_usable
    has_digest seen row_where exists_where update_where ◌+ℤ◌
authenticate-IsFresh_example =
    authenticate-IsFresh tokens calls "token" (pos 20) (alice (pos 20)) (alice (pos 20) ∷ []) refl

revoke-IsFinal_example :
    (authenticate tokens "token"
      (pos 30)
      (run tokens (uses "token" (pos 25) ∷ []) (revoked (pos 20) (alice (pos 15)) ∷ []))).0
    ≡ refused invalid_session
unfolding revoke session_digest revoke_session has_digest exists_where update_where
revoke-IsFinal_example =
    revoke-IsFinal tokens "token" (pos 20) (pos 30) (alice (pos 15) ∷ [])
      (revoked (pos 20) (alice (pos 15)) ∷ []) (uses "token" (pos 25) ∷ []) refl (refl, tt)

abbrev leaving : Request
leaving = record {
  path = "/api/session";
  method = delete;
  origins = "https://play" ∷ [];
  csrf_headers = "csrf" ∷ [];
  authorizations = [];
  session_cookie = some "token";
  csrf_cookie = some "csrf";
  requested_methods = [];
  requested_headers = [];
}

abbrev left_response : Response
left_response = record { status = 204; issued = none; csrf_header = none; expires_cookies = true }

logout-IsLoggedOut_example :
    (token : String) × IsLoggedOut serving leaving token
      (alice (pos 15) ∷ [])
      (revoked (pos 20) (alice (pos 20)) ∷ [])
unfolding logout authenticate session_digest use_session is_usable has_digest seen row_where
    exists_where update_where validate_mutation validate_origin is_csrf_valid validate_csrf revoke
    revoke_session ◌+ℤ◌
logout-IsLoggedOut_example =
    logout-IsLoggedOut serving leaving (alice (pos 15) ∷ [])
      (revoked (pos 20) (alice (pos 20)) ∷ []) left_response refl refl

cors-IsExact_example :
    (serving.allowed_origin ≡ "https://play") × (leaving.origins ≡ "https://play" ∷ [])
unfolding cors validate_origin
cors-IsExact_example = cors-IsExact text "https://play" serving.allowed_origin leaving refl
