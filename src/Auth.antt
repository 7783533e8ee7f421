-- ===== src/Auth.antt =====
-- Browser sessions, backend/internal/auth: the service of session.go over the statements of
-- postgres.go. `web_sessions` is the list of its rows. A database that can not be reached is not
-- modelled.
pub mod Requests
pub mod Handlers
pub mod Lifetime
pub mod Revoked
pub mod Guards
mod Tests
use rock_paper_money.Prelude.{
  ltb, leb, nat_beq, if◌then◌else◌, nat_beq_iff, Bool-cases, Option-cases, length, length-append,
  All, Eq, ◌==◌, ◌/=◌, nat_eq, bool_beq, bool_beq_iff, bool_eq, string_eq, ==_refl, ==_of_eq,
  ==_of_ne, ==_sym, Eq-cases, ℕ, zero, suc, ◌+◌, ◌-◌, ◌*◌, ◌/◌, ◌%◌, ◌^◌, ◌≤◌, ◌<◌, String, concat,
  ◌≡◌, refl, sym, ap, subst, ◌∙◌, ◌≢◌, ◌↔◌, ◌⊎◌, inl, inr, Bool, true, false, not, ◌&&◌, ◌||◌,
  Option, none, some, List, [], ◌∷◌, ◌++◌, map, arith,
}
use rock_paper_money.Prelude.Int.{
  ℤ, pos_part, neg_part, sub_ℕ, ◌+ℤ◌, ◌-ℤ◌, ◌≤ℤ◌, ltb_ℤ, leb_ℤ, +ℤ_parts, -ℤ_parts, eq_of_parts,
  +ℤ_assoc, +ℤ_swap, +ℤ_comm, +ℤ_zero, int_laws, inc_int, ℤ_beq, ℤ_beq_iff, int_eq, max_int64,
  wrap64, add64, sub64, sub64_pos, add64_pos, pos, negsuc,
}
use rock_paper_money.Prelude.Dict.{is_some}
use rock_paper_money.Application.{Time, Digest}
use rock_paper_money.Postgres.Sql.{
  rows_where, row_where, exists_where, update_where, delete_where, least_of, least_row, insert_row,
  sorted_rows,
}

-- `ErrInvalidSession`, `ErrForbidden`, and an error of the random generator or of the database.
pub data AuthError : Type 0 where
  invalid_session forbidden failed : AuthError

pub data Checked {ℓ} (A : Type ℓ) : Type ℓ where
  accepted : A → Checked A
  refused : AuthError → Checked A

pub record Session : Type 0 where
  pub digest : Digest
  pub csrf_digest : Digest
  pub account_id : String
  pub created_at : Time
  pub last_seen_at : Time
  pub idle_expires_at : Time
  pub absolute_expires_at : Time
  pub revoked_at : Option Time

pub record SessionCredentials : Type 0 where
  pub token : String
  pub csrf_token : String
  pub absolute_expires_at : Time

-- `SessionIdleLimit`, a day, and `SessionAbsoluteLimit`, thirty days.
abbrev pub session_idle_limit : ℤ
session_idle_limit = pos 86400000000000

abbrev pub session_absolute_limit : ℤ
session_absolute_limit = pos 2592000000000000

abbrev pub Sessions : Type 0
Sessions = List Session

unfoldable pub has_digest : Digest → Session → Bool
has_digest digest s = s.digest == digest

-- `session_digest` is the primary key.
unfoldable pub create_session : Session → Sessions → Checked (Unit {0}) × Sessions
unfolding has_digest
create_session s sessions =
    if exists_where (has_digest s.digest) sessions
    then (refused failed, sessions)
    else (accepted tt, sessions ++ s ∷ [])

-- `revoked_at IS NULL AND idle_expires_at>$2 AND absolute_expires_at>$2`
unfoldable pub is_usable : Digest → Time → Session → Bool
unfolding has_digest
is_usable digest now s =
    has_digest digest s
    && not (is_some s.revoked_at)
    && ltb_ℤ now s.idle_expires_at
    && ltb_ℤ now s.absolute_expires_at

-- `LEAST`
abbrev pub least : Time → Time → Time
least a b = if leb_ℤ a b then a else b

unfoldable pub seen : Time → Time → Session → Session
seen now idle_expires_at s = record s {
  last_seen_at = now;
  idle_expires_at = least idle_expires_at s.absolute_expires_at;
}

unfoldable pub use_session : Digest → Time → Time → Sessions → Checked Session × Sessions
unfolding is_usable seen row_where update_where
use_session digest now idle_expires_at sessions = elim (row_where (is_usable digest now) sessions) [
  | none ↦ (refused invalid_session, sessions)
  | some s ↦ (
    accepted (seen now idle_expires_at s),
    update_where (is_usable digest now) (seen now idle_expires_at) sessions,
  )
]

-- `revoked_at=COALESCE(revoked_at,$2)`
unfoldable pub revoked : Time → Session → Session
revoked at s = record s {
  revoked_at = elim s.revoked_at [ none ↦ some at | some earlier ↦ some earlier ];
}

unfoldable pub revoke_session : Digest → Time → Sessions → Checked (Unit {0}) × Sessions
unfolding has_digest revoked exists_where update_where
revoke_session digest at sessions =
    if exists_where (has_digest digest) sessions
    then (accepted tt, update_where (has_digest digest) (revoked at) sessions)
    else (refused invalid_session, sessions)

unfoldable pub is_expired : Time → Session → Bool
is_expired now s =
    is_some s.revoked_at || leb_ℤ s.idle_expires_at now || leb_ℤ s.absolute_expires_at now

unfoldable pub delete_expired_sessions : Time → Sessions → ℕ × Sessions
unfolding is_expired rows_where delete_where
delete_expired_sessions now sessions =
    (length (rows_where (is_expired now) sessions), delete_where (is_expired now) sessions)

-- What the service takes from Go's libraries: whether a text is the base64 of thirty-two bytes, and
-- SHA-256.
pub record TokenLibrary : Type 0 where
  pub is_token : String → Bool
  pub digest_token : String → Digest

module _ (go : TokenLibrary) where
  unfoldable pub session_digest : String → Option Digest
  session_digest token = if go.is_token token then some (go.digest_token token) else none

  abbrev pub new_session : String → String → String → Time → Session
  new_session token csrf_token account_id now = record {
    digest = go.digest_token token;
    csrf_digest = go.digest_token csrf_token;
    account_id = account_id;
    created_at = now;
    last_seen_at = now;
    idle_expires_at = now +ℤ session_idle_limit;
    absolute_expires_at = now +ℤ session_absolute_limit;
    revoked_at = none;
  }

  abbrev pub created :
      String → String → Time → Checked (Unit {0}) × Sessions → Checked SessionCredentials × Sessions
  created token csrf_token now (refused e, sessions) = (refused e, sessions)
  created token csrf_token now (accepted _, sessions) = (
    accepted (record {
      token = token;
      csrf_token = csrf_token;
      absolute_expires_at = now +ℤ session_absolute_limit;
    }),
    sessions,
  )

  -- `Create`. The tokens are what the generator gives; it may give none.
  unfoldable pub create :
      Option String
      → Option String
      → Time
      → String
      → Sessions
      → Checked SessionCredentials × Sessions
  unfolding create_session
  create none _ now account_id sessions = (refused failed, sessions)
  create (some token) none now account_id sessions = (refused failed, sessions)
  create (some token) (some csrf_token) now account_id sessions =
      created token csrf_token now
        (create_session (new_session token csrf_token account_id now) sessions)

  unfoldable pub authenticate : String → Time → Sessions → Checked Session × Sessions
  unfolding session_digest use_session
  authenticate token now sessions = elim (session_digest token) [
    | none ↦ (refused invalid_session, sessions)
    | some digest ↦ use_session digest now (now +ℤ session_idle_limit) sessions
  ]

  unfoldable pub revoke : String → Time → Sessions → Checked (Unit {0}) × Sessions
  unfolding session_digest revoke_session
  revoke token now sessions = elim (session_digest token) [
    | none ↦ (refused invalid_session, sessions)
    | some digest ↦ revoke_session digest now sessions
  ]

  unfoldable pub cleanup : Time → Sessions → ℕ × Sessions
  unfolding delete_expired_sessions
  cleanup now sessions = delete_expired_sessions now sessions

  unfoldable pub validate_csrf : Session → String → Bool
  unfolding session_digest
  validate_csrf s token = elim (session_digest token) [
    | none ↦ false
    | some digest ↦ digest == s.csrf_digest
  ]
