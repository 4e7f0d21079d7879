-- ===== src/Http/Security.antt =====
-- apps/api/internal/httpapi/security.go, and the generated code that calls it before an operation
-- that requires a session (oas_security_gen.go, oas_handlers_gen.go).
use warp_work.Base.{ℕ, Option, none, some, Text}
use warp_work.Base.Act.{Act, pure, fail, wrapping, ◌>>=◌}
use warp_work.Store.{World}
use warp_work.Store.Auth.{AuthDb}
use warp_work.Auth
use warp_work.Auth.{AuthError, Platform}
use warp_work.Auth.Sessions.{Principal, authenticate_principal}
use warp_work.Http.{Fault, no_session, auth, unsatisfied, security, Operation}

-- What the context of a request carries.
pub record Requester : Type 0 where
  pub principal : Principal
  pub token : Text

unfoldable pub session_fault : AuthError → Fault
session_fault Auth.no_session = no_session
session_fault e = auth e

module _ (p : Platform) where
  -- HandleSessionCookie
  unfoldable pub handle_session_cookie : Text → ℕ → Act Fault (World AuthDb) Requester
  unfolding session_fault
  handle_session_cookie token now = do
    principal ← wrapping session_fault (authenticate_principal p token now)
    pure (record { principal = principal; token = token })

  -- The generated handler: without the cookie the requirement is not satisfied, and what the
  -- scheme fails with is wrapped.
  unfoldable pub secured :
      {A : Type 0}
      → Option Text
      → ℕ
      → (Option Requester → Operation (World AuthDb) A)
      → Operation (World AuthDb) A
  unfolding handle_session_cookie
  secured none now operation = fail (security unsatisfied)
  secured (some token) now operation = do
    requester ← wrapping security (handle_session_cookie token now)
    operation (some requester)
