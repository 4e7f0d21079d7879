-- ===== src/Http.antt =====
-- apps/api/internal/httpapi/handler.go and errors.go: how an error becomes a response. Every error
-- that leaves an operation passes through `classify`. What is only logged is left out, so an
-- APIError is without its cause; its Details, which nothing sets, are left out too.
pub mod Security
pub mod Contexts
pub mod Cookies
pub mod Sessions
pub mod SignIn
pub mod Google
use warp_work.Base.{
  ℕ, Bool, true, false, Option, none, some, Text, codes, ◌++◌, ◌==◌, if◌then◌else◌,
}
use warp_work.Base.Result.{Result, ok, err}
use warp_work.Base.Act.{Act}
use warp_work.Auth.{AuthError}
use warp_work.Contexts.{ContextError, invalid}

-- APIError: a status, a code for machines and a message for the caller.
pub record ApiError : Type 0 where
  pub status : ℕ
  pub code : Text
  pub message : Text

-- What an operation, or ogen in front of it, fails with: an APIError, ErrNoSession,
-- ht.ErrNotImplemented, an error of a service, ogen's refusal of a request with a status and a text
-- of its own, and ogen's SecurityError around what the security scheme failed with.
pub data Fault : Type 0 where
  api : ApiError → Fault
  no_session not_implemented : Fault
  auth : AuthError → Fault
  contexts : ContextError → Fault
  rejected : ℕ → Text → Fault
  unsatisfied : Fault
  security : Fault → Fault

-- errors.As with an APIError.
unfoldable pub as_api_error : Fault → Option ApiError
as_api_error (api e) = some e
as_api_error (security f) = as_api_error f
as_api_error f = none

-- errors.Is(err, ErrNoSession) || isSecurityError(err)
unfoldable pub is_unauthenticated : Fault → Bool
is_unauthenticated no_session = true
is_unauthenticated (security f) = true
is_unauthenticated f = false

unfoldable pub code_for_status : ℕ → Text
code_for_status status =
    if status == 401
    then codes "unauthenticated"
    else if status == 404
    then codes "not_found"
    else if status == 400
    then codes "bad_request"
    else if status == 405
    then codes "method_not_allowed"
    else if status == 413
    then codes "payload_too_large"
    else codes "error"

abbrev pub unauthenticated : ApiError
unauthenticated = record {
  status = 401;
  code = codes "unauthenticated";
  message = codes "this endpoint requires a session; sign in at /api/v1/auth/google/start";
}

abbrev pub internal : ApiError
internal = record { status = 500; code = codes "internal"; message = codes "internal error" }

-- `error_text` is what err.Error() prints.
module _ (error_text : Fault → Text) where
  -- The cases of classify after the first two.
  unfoldable pub classify_other : Fault → ApiError
  unfolding code_for_status
  classify_other not_implemented = record {
    status = 501;
    code = codes "not_implemented";
    message = codes "this operation is described by the API contract but is not implemented yet";
  }
  classify_other (contexts invalid) = record {
    status = 422;
    code = codes "invalid";
    message = error_text (contexts invalid);
  }
  classify_other (rejected status text) = record {
    status = status;
    code = code_for_status status;
    message = text;
  }
  classify_other f = internal

  unfoldable pub classify : Fault → ApiError
  unfolding as_api_error is_unauthenticated classify_other
  classify f = elim (as_api_error f) [
    | some e ↦ e
    | none ↦ if is_unauthenticated f then unauthenticated else classify_other f
  ]

-- An error that reaches the outer router: an echo.HTTPError, with its message if that is a text, or
-- any other.
pub data OuterFault : Type 0 where
  echo : ℕ → Option Text → OuterFault
  fault : Fault → OuterFault

module _ (error_text : Fault → Text) (status_text : ℕ → Text) where
  -- The cases of translate after that of an APIError.
  unfoldable pub translate_other : Fault → ApiError
  translate_other (contexts invalid) = record {
    status = 422;
    code = codes "invalid";
    message = error_text (contexts invalid);
  }
  translate_other f = internal

  -- translate; `status_text` is http.StatusText.
  unfoldable pub translate : OuterFault → ApiError
  unfolding code_for_status as_api_error translate_other
  translate (echo status message) = record {
    status = status;
    code = code_for_status status;
    message = elim message [ none ↦ status_text status | some text ↦ text ];
  }
  translate (fault f) = elim (as_api_error f) [ some e ↦ e | none ↦ translate_other f ]

-- A response: its status, the headers Set-Cookie, Location and Retry-After, and its body.
pub record Response (B : Type 0) : Type 0 where
  pub status : ℕ
  pub set_cookie : Option Text
  pub location : Option Text
  pub retry_after : Option ℕ
  pub body : B

-- ErrorEnvelope, with a code and a message, or what the operation answers with.
pub data Body (A : Type 0) : Type 0 where
  error : Text → Text → Body A
  content : A → Body A
  empty : Body A

module _ {A : Type 0} where
  abbrev pub replies : ℕ → Body A → Response (Body A)
  replies status body = record {
    status = status;
    set_cookie = none;
    location = none;
    retry_after = none;
    body = body;
  }

  -- The status that the generated encoder gives the error that the operation returns.
  abbrev pub refusal : ℕ → Text → Text → Response (Body A)
  refusal status code message = replies status (error code message)

  -- NewError: the envelope of an APIError.
  unfoldable pub error_response : ApiError → Response (Body A)
  error_response e = refusal e.status e.code e.message

  -- What is sent: the operation's response, or its error's.
  unfoldable pub respond : (Fault → Text) → Result Fault (Response (Body A)) → Response (Body A)
  unfolding classify error_response
  respond error_text (ok r) = r
  respond error_text (err f) = error_response (classify error_text f)

-- An operation over the tables `D`.
abbrev pub Operation : Type 0 → Type 0 → Type 0
Operation W A = Act Fault W (Response (Body A))

module _ {A : Type 0} where
  -- notFoundHandler
  abbrev pub not_found_response : Response (Body A)
  not_found_response =
      refusal 404 (codes "not_found") (codes "no such endpoint; see /docs for the API contract")

  -- methodNotAllowedHandler, apart from its header Allow.
  abbrev pub method_not_allowed_response : Text → Response (Body A)
  method_not_allowed_response allowed =
      refusal 405 (codes "method_not_allowed") (codes "this endpoint accepts " ++ allowed)
