-- ===== src/Auth/Guards.antt =====
-- What the handlers of backend/internal/auth/http.go and cors.go ask of a request.
use rock_paper_money.Auth.Revoked.{IsOut, revoke-IsOut}
use rock_paper_money.Auth.Handlers.{Response, Serving, cookie_value, after_logout, leave, logout}
use rock_paper_money.Auth.Requests.{
  Request, is_only, validate_origin, is_csrf_valid, validate_mutation, TextLibrary, is_origin_valid,
  CorsAnswer, cors, handed_on_shared, preflight_shared,
}
use rock_paper_money.Prelude.Int.{int_eq}
use rock_paper_money.Prelude.{
  Bool-cases, Option-cases, ap, refl, nat_eq, bool_eq, string_eq, String, ◌≡◌, inl, inr, true,
  Option, none, some, List, [], ◌∷◌, arith,
}
use rock_paper_money.Auth.{
  Checked, Session, Sessions, TokenLibrary, authenticate, revoke, accepted, refused,
}

is_only-singleton : (value : String) (vs : List String) → is_only value vs ≡ true → vs ≡ value ∷ []
is_only-singleton value [] h = absurd (ground (arith, h))
is_only-singleton value (v ∷ []) h = ground (arith, h, string_eq.beq_iff v value)
is_only-singleton value (v ∷ w ∷ vs) h = absurd (ground (arith, h))

validate_origin-IsExact :
    (allowed_origin : String) (r : Request)
    → is_origin_valid (validate_origin allowed_origin r) ≡ true
    → r.origins ≡ allowed_origin ∷ []
unfolding validate_origin
validate_origin-IsExact allowed_origin r p =
    is_only-singleton allowed_origin r.origins (ground (arith, p))

-- A mutation needs the exact origin, once, and the CSRF token of the session.
validate_mutation-IsExact :
    (go : TokenLibrary) (allowed_origin : String) (r : Request) (s : Session)
    → is_origin_valid (validate_mutation go allowed_origin r s) ≡ true
    → (r.origins ≡ allowed_origin ∷ []) × (is_csrf_valid go s r.csrf_headers ≡ true)
unfolding validate_mutation validate_origin
validate_mutation-IsExact go allowed_origin r s p =
    (is_only-singleton allowed_origin r.origins (ground (arith, p)), ground (arith, p))

cookie_value-some :
    (cookie : Option String) (token : String)
    → cookie_value cookie ≡ some token
    → cookie ≡ some token
cookie_value-some none token h = absurd (ground (arith, h))
cookie_value-some (some c) token h = ground (arith, h)

module _ (h : Serving) where
  after_logout-revoked :
      (outcome : Checked (Unit {0}) × Sessions) (response : Response) (sessions : Sessions)
      → after_logout h outcome ≡ (response, sessions)
      → response.status ≡ 204
      → outcome ≡ (accepted tt, sessions)
  after_logout-revoked (refused e, after) response sessions p q = absurd (ground (arith, p, q))
  after_logout-revoked (accepted _, after) response sessions p q = ground (arith, p)

  -- What a logout has seen to when it answers 204.
  pub record IsLoggedOut (r : Request) (token : String) (before sessions : Sessions) : Type 0 where
    pub from_cookie : r.session_cookie ≡ some token
    pub same_origin : r.origins ≡ h.allowed_origin ∷ []
    pub known : Session
    pub is_known : (authenticate h.tokens token h.now before).0 ≡ accepted known
    pub same_csrf : is_csrf_valid h.tokens known r.csrf_headers ≡ true
    pub is_out : IsOut (h.tokens.digest_token token) sessions

  leave-IsLoggedOut :
      (r : Request) (token : String) (start : Sessions) (c : Checked Session × Sessions)
      (response : Response) (sessions : Sessions)
      → authenticate h.tokens token h.now start ≡ c
      → r.session_cookie ≡ some token
      → leave h r token c ≡ (response, sessions)
      → response.status ≡ 204
      → IsLoggedOut r token start sessions
  leave-IsLoggedOut r token start (refused e, before) response sessions known cookie p q =
      absurd (ground (arith, p, q))
  leave-IsLoggedOut r token start (accepted s, before) response sessions known cookie p q =
      elim (Bool-cases (is_origin_valid (validate_mutation h.tokens h.allowed_origin r s))) [
        | inr bad ↦ absurd (ground (arith, p, q, bad))
        | inl good ↦
            (let (origin, csrf) = validate_mutation-IsExact h.tokens h.allowed_origin r s good in
              record {
                from_cookie = cookie;
                same_origin = origin;
                known = s;
                is_known = ap (λ (c : Checked Session × Sessions). c.0) known;
                same_csrf = csrf;
                is_out = revoke-IsOut h.tokens token h.now before sessions (
                    after_logout-revoked (revoke h.tokens token h.now before) response sessions
                      (ground (arith, p, good)) q);
              })
      ]

  -- A logout that answers 204 came with the allowed origin as its only one and with a CSRF header
  -- that fits the session which the token of its cookie authenticates, and it leaves no session of
  -- that token that is not revoked.
  pub logout-IsLoggedOut :
      (r : Request) (sessions sessions' : Sessions) (response : Response)
      → logout h r sessions ≡ (response, sessions')
      → response.status ≡ 204
      → (token : String) × IsLoggedOut r token sessions sessions'
  unfolding logout
  logout-IsLoggedOut r sessions sessions' response p q =
      elim (Option-cases (cookie_value r.session_cookie)) [
        | inl missing ↦ absurd (ground (arith, p, q, missing))
        | inr (token, found) ↦ (
          token,
          leave-IsLoggedOut r token sessions (authenticate h.tokens token h.now sessions) response
              sessions' refl (cookie_value-some r.session_cookie token found)
              (ground (arith, p, found)) q,
        )
      ]

-- The origin that may read the answer.
abbrev pub shared_with : CorsAnswer → Option String
shared_with (handed_on_shared origin) = some origin
shared_with (preflight_shared origin) = some origin
shared_with _ = none

-- An answer is shared with an origin only if that is the allowed one and the request came from it
-- alone.
pub cors-IsExact :
    (go : TextLibrary) (allowed_origin origin : String) (r : Request)
    → shared_with (cors go allowed_origin r) ≡ some origin
    → (origin ≡ allowed_origin) × (r.origins ≡ allowed_origin ∷ [])
unfolding cors
cors-IsExact go allowed_origin origin r p =
    (ground (arith, p), validate_origin-IsExact allowed_origin r (ground (arith, p)))
