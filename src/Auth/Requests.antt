-- ===== src/Auth/Requests.antt =====
-- What a request must bring, backend/internal/auth/http.go and cors.go: `ValidateOrigin`,
-- `ValidateMutation`, `bearerToken` and `CORS`. A request is the headers and cookies that they read.
use rock_paper_money.Prelude.{
  if◌then◌else◌, ◌==◌, nat_eq, bool_eq, string_eq, String, Bool, true, false, not, ◌&&◌, ◌||◌,
  Option, none, some, List, [], ◌∷◌,
}
use rock_paper_money.Auth.{
  Checked, Session, TokenLibrary, validate_csrf, forbidden, accepted, refused,
}

pub data Method : Type 0 where
  get head post delete options : Method
  other_method : String → Method

pub record Request : Type 0 where
  pub path : String
  pub method : Method
  pub origins : List String
  pub csrf_headers : List String
  pub authorizations : List String
  pub session_cookie : Option String
  pub csrf_cookie : Option String
  pub requested_methods : List Method
  pub requested_headers : List String

abbrev pub is_only : String → List String → Bool
is_only value (v ∷ []) = v == value
is_only value _ = false

unfoldable pub validate_origin : String → Request → Checked (Unit {0})
validate_origin allowed_origin r =
    if is_only allowed_origin r.origins then accepted tt else refused forbidden

-- The one CSRF header is that of the session.
unfoldable pub is_csrf_valid : TokenLibrary → Session → List String → Bool
unfolding validate_csrf
is_csrf_valid go s (token ∷ []) = validate_csrf go s token
is_csrf_valid go s _ = false

abbrev pub and_then : Checked (Unit {0}) → Checked (Unit {0}) → Checked (Unit {0})
and_then (refused e) c = refused e
and_then (accepted _) c = c

unfoldable pub validate_mutation : TokenLibrary → String → Request → Session → Checked (Unit {0})
unfolding validate_origin is_csrf_valid
validate_mutation go allowed_origin r s =
    and_then (validate_origin allowed_origin r)
      (if is_csrf_valid go s r.csrf_headers then accepted tt else refused forbidden)

-- What `bearerToken` and `CORS` take from Go's strings: `Cut` at a space, `EqualFold` with "Bearer",
-- the test for white space in a text, the prefix "/api/", and the names in a list of headers, each
-- trimmed and in lower case.
pub record TextLibrary : Type 0 where
  pub cut : String → Option (String × String)
  pub is_bearer : String → Bool
  pub has_space : String → Bool
  pub is_api_path : String → Bool
  pub header_names : String → List String

abbrev pub token_of : TextLibrary → Option (String × String) → Option String
token_of go none = none
token_of go (some (scheme, token)) =
    if not (go.is_bearer scheme) || token == "" || go.has_space token then none else some token

unfoldable pub bearer_token : TextLibrary → List String → Option String
bearer_token go (value ∷ []) = token_of go (go.cut value)
bearer_token go _ = none

abbrev pub cors_method : Method → Bool
cors_method get = true
cors_method head = true
cors_method post = true
cors_method delete = true
cors_method _ = false

abbrev pub cors_header : String → Bool
cors_header name =
    name == "authorization"
    || name == "content-type"
    || name == "x-csrf-token"
    || name == "idempotency-key"

unfoldable pub cors_names : List String → Bool
cors_names [] = true
cors_names (name ∷ names) = cors_header name && cors_names names

unfoldable pub cors_headers : TextLibrary → List String → Bool
unfolding cors_names
cors_headers go [] = true
cors_headers go (value ∷ values) = cors_names (go.header_names value) && cors_headers go values

abbrev pub is_preflight : Method → Bool
is_preflight options = true
is_preflight _ = false

-- One method is asked for, and it is one of the four.
abbrev pub is_method_allowed : List Method → Bool
is_method_allowed (m ∷ []) = cors_method m
is_method_allowed _ = false

abbrev pub is_origin_valid : Checked (Unit {0}) → Bool
is_origin_valid (accepted _) = true
is_origin_valid (refused e) = false

abbrev pub has_no_origin : List String → Bool
has_no_origin [] = true
has_no_origin (_ ∷ _) = false

-- What `CORS` does with a request: hand it on, with or without the headers that let the origin read
-- the answer, answer a preflight itself, or refuse it.
pub data CorsAnswer : Type 0 where
  handed_on : CorsAnswer
  handed_on_shared : String → CorsAnswer
  preflight_shared : String → CorsAnswer
  cors_forbidden : CorsAnswer

unfoldable pub cors : TextLibrary → String → Request → CorsAnswer
unfolding validate_origin cors_headers
cors go allowed_origin r =
    if not (go.is_api_path r.path)
    then handed_on
    else if has_no_origin r.origins && not (is_preflight r.method)
    then handed_on
    else if not (is_origin_valid (validate_origin allowed_origin r))
    then cors_forbidden
    else if not (is_preflight r.method)
    then handed_on_shared allowed_origin
    else if is_method_allowed r.requested_methods && cors_headers go r.requested_headers
    then preflight_shared allowed_origin
    else cors_forbidden
