-- ===== src/Auth/Handlers.antt =====
-- `sessionHTTPHandler` of backend/internal/auth/http.go. The verifier of external account tokens is
-- a parameter: it gives the subject of a token.
use rock_paper_money.Prelude.{
  if◌then◌else◌, ◌==◌, ◌/=◌, nat_eq, bool_eq, string_eq, ℕ, String, Bool, true, false, not, ◌&&◌,
  Option, none, some,
}
use rock_paper_money.Application.{Time}
use rock_paper_money.Auth.{
  Checked, Session, SessionCredentials, Sessions, TokenLibrary, create, authenticate, revoke,
  validate_csrf, invalid_session, accepted, refused,
}
use rock_paper_money.Auth.Requests.{
  Method, Request, validate_origin, validate_mutation, TextLibrary, bearer_token, is_origin_valid,
  post, delete,
}

-- The answer: its status, and the cookies of a new session.
pub record Response : Type 0 where
  pub status : ℕ
  pub issued : Option SessionCredentials
  pub csrf_header : Option String
  pub expires_cookies : Bool

abbrev pub answered : ℕ → Response
answered status = record {
  status = status;
  issued = none;
  csrf_header = none;
  expires_cookies = false;
}

-- What a request is served with: the clock's time, and the tokens that the generator would give.
pub record Serving : Type 0 where
  pub tokens : TokenLibrary
  pub text : TextLibrary
  pub verify : String → Option String
  pub allowed_origin : String
  pub now : Time
  pub fresh_token : Option String
  pub fresh_csrf : Option String

-- The cookie of a text that is not empty.
abbrev pub cookie_value : Option String → Option String
cookie_value none = none
cookie_value (some value) = if value == "" then none else some value

module _ (h : Serving) where
  abbrev pub issued_response : Checked SessionCredentials × Sessions → Response × Sessions
  issued_response (refused e, sessions) = (answered 500, sessions)
  issued_response (accepted c, sessions) = (
    record {
      status = 204;
      issued = some c;
      csrf_header = some c.csrf_token;
      expires_cookies = false;
    },
    sessions,
  )

  unfoldable pub issue : String → Sessions → Response × Sessions
  unfolding create
  issue subject sessions =
      issued_response (create h.tokens h.fresh_token h.fresh_csrf h.now subject sessions)

  -- The session of the cookie goes on when it is the subject's and the CSRF cookie is its own.
  abbrev pub kept_csrf : String → Request → Session → Option String
  kept_csrf subject r s = elim r.csrf_cookie [
    | none ↦ none
    | some csrf ↦
        if s.account_id == subject && validate_csrf h.tokens s csrf then some csrf else none
  ]

  abbrev pub after_revoke : String → Checked (Unit {0}) × Sessions → Response × Sessions
  after_revoke subject (refused e, sessions) = (answered 500, sessions)
  after_revoke subject (accepted _, sessions) = issue subject sessions

  -- `bootstrap` with a cookie of an earlier session.
  abbrev pub renew : String → Request → String → Checked Session × Sessions → Response × Sessions
  renew subject r cookie (refused invalid_session, sessions) = issue subject sessions
  renew subject r cookie (refused e, sessions) = (answered 500, sessions)
  renew subject r cookie (accepted s, sessions) = elim (kept_csrf subject r s) [
    | some csrf ↦ (
      record { status = 204; issued = none; csrf_header = some csrf; expires_cookies = false },
      sessions,
    )
    | none ↦ after_revoke subject (revoke h.tokens cookie h.now sessions)
  ]

  -- The subject of the bearer token, if it is verified.
  unfoldable pub subject_of : Request → Option String
  unfolding bearer_token
  subject_of r = elim (bearer_token h.text r.authorizations) [
    | none ↦ none
    | some token ↦ cookie_value (h.verify token)
  ]

  unfoldable pub bootstrap : Request → Sessions → Response × Sessions
  unfolding subject_of validate_origin issue authenticate
  bootstrap r sessions =
      if not (is_origin_valid (validate_origin h.allowed_origin r))
      then (answered 403, sessions)
      else elim (subject_of r) [
        | none ↦ (answered 401, sessions)
        | some subject ↦ elim (cookie_value r.session_cookie) [
          | none ↦ issue subject sessions
          | some cookie ↦ renew subject r cookie (authenticate h.tokens cookie h.now sessions)
        ]
      ]

  abbrev pub after_logout : Checked (Unit {0}) × Sessions → Response × Sessions
  after_logout (refused e, sessions) = (answered 401, sessions)
  after_logout (accepted _, sessions) =
      (record { status = 204; issued = none; csrf_header = none; expires_cookies = true }, sessions)

  abbrev pub leave : Request → String → Checked Session × Sessions → Response × Sessions
  leave r cookie (refused e, sessions) = (answered 401, sessions)
  leave r cookie (accepted s, sessions) =
      if is_origin_valid (validate_mutation h.tokens h.allowed_origin r s)
      then after_logout (revoke h.tokens cookie h.now sessions)
      else (answered 403, sessions)

  abbrev pub logout_cookie : Request → Option String → Sessions → Response × Sessions
  logout_cookie r none sessions = (answered 401, sessions)
  logout_cookie r (some cookie) sessions =
      leave r cookie (authenticate h.tokens cookie h.now sessions)

  unfoldable pub logout : Request → Sessions → Response × Sessions
  unfolding authenticate validate_mutation revoke
  logout r sessions = logout_cookie r (cookie_value r.session_cookie) sessions

  abbrev pub by_method : Method → Request → Sessions → Response × Sessions
  by_method post r sessions = bootstrap r sessions
  by_method delete r sessions = logout r sessions
  by_method _ r sessions = (answered 405, sessions)

  unfoldable pub serve_http : Request → Sessions → Response × Sessions
  unfolding bootstrap logout
  serve_http r sessions =
      if r.path /= "/api/session" then (answered 404, sessions) else by_method r.method r sessions
