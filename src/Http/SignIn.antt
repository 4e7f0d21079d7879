-- ===== src/Http/SignIn.antt =====
-- apps/api/internal/httpapi/auth.go: registration and sign-in with a password. The service reads
-- the clock before the handler does: `now`, then `later`.
pub mod Answers
use warp_work.Base.{ℕ, true, Option, none, some, Text, codes}
use warp_work.Base.Result.{Result, ok, err}
use warp_work.Base.Act.{Act, pure, fail, attempt, wrapping, ◌>>=◌}
use warp_work.Store.{World}
use warp_work.Store.Auth.{AuthDb}
use warp_work.Auth.{
  AuthError, bad_credentials, email_taken, invalid_input, locked, Platform, Config, SignInContext,
  Session, retry_after,
}
use warp_work.Auth.Register
use warp_work.Auth.Register.{RegisterParams}
use warp_work.Auth.Sessions.{profile}
use warp_work.Auth.SignIn.{sign_in_with_password}
use warp_work.Http.{
  Fault, ApiError, api, auth, Body, content, error, Response, replies, refusal, Operation,
}
use warp_work.Http.Cookies.{Web, session_cookie}
use warp_work.Http.Sessions.{CurrentSession, to_api_user}

module _ (p : Platform) (c : Config) (web : Web) where
  -- currentSession
  unfoldable pub current_session : Session → Act Fault (World AuthDb) CurrentSession
  unfolding to_api_user
  current_session s = do
    row ← wrapping auth (profile p s.user_id)
    pure (record {
      user = to_api_user row;
      session = some (record {
        id = s.id;
        issued_at = s.issued_at;
        last_seen_at = s.issued_at;
        expires_at = s.expires_at;
        is_current = true;
        provider_kind = none;
        user_agent = none;
        ip = none;
      });
    })

  -- The response to a sign-in that succeeded.
  unfoldable pub signed_in : ℕ → ℕ → Session → Operation (World AuthDb) CurrentSession
  unfolding current_session session_cookie
  signed_in status later s = do
    current ← current_session s
    pure (record (replies status (content current)) {
      set_cookie = some (web.cookie_text (session_cookie web s.token s.expires_at later));
    })

  unfoldable pub register_answer :
      ℕ → Result AuthError Session → Operation (World AuthDb) CurrentSession
  unfolding signed_in
  register_answer later (ok s) = signed_in 201 later s
  register_answer later (err email_taken) =
      pure (refusal 409 (codes "email_taken") (codes "an account with that email already exists"))
  register_answer later (err invalid_input) = fail (
      api (record {
        status = 400;
        code = codes "bad_request";
        message = web.error_text (auth invalid_input);
      }))
  register_answer later (err e) = fail (auth e)

  -- Register
  unfoldable pub register :
      RegisterParams → ℕ → ℕ → SignInContext → Operation (World AuthDb) CurrentSession
  unfolding register_answer
  register req now later sc = do
    session ← attempt (Register.register p c req now sc)
    register_answer later session

  unfoldable pub login_answer :
      ℕ → Result AuthError Session → Operation (World AuthDb) CurrentSession
  unfolding signed_in
  login_answer later (ok s) = signed_in 200 later s
  login_answer later (err bad_credentials) =
      pure (refusal 401 (codes "unauthenticated") (codes "email or password is incorrect"))
  login_answer later (err (locked until)) =
      pure
        (record (refusal 429 (codes "locked") (codes "too many failed attempts; try again later")) {
          retry_after = some (retry_after until later);
        })
  login_answer later (err e) = fail (auth e)

  -- Login
  unfoldable pub login :
      Text → Text → ℕ → ℕ → SignInContext → Operation (World AuthDb) CurrentSession
  unfolding login_answer
  login email password now later sc = do
    session ← attempt (sign_in_with_password p c email password now sc)
    login_answer later session
