-- ===== src/Http/SignIn/Answers.antt =====
-- What a sign-in with a password answers, and what its cookie does.
use warp_work.Base.{
  ℕ, Option, ◌*◌, ◌-◌, ◌/◌, ◌+◌, ◌<◌, ◌≤◌, ◌≡◌, refl, ap, ◌∙◌, subst, sym, some, none, Text, codes,
  arith,
}
use warp_work.Base.Result.{ok, err}
use warp_work.Store.{World, IsUp, run}
use warp_work.Store.Auth.{AuthDb}
use warp_work.Store.Auth.Accounts.{get_user_profile}
use warp_work.Store.Auth.Credentials.{Credential, max_smallint}
use warp_work.Store.Auth.Sessions.{SessionRow}
use warp_work.Auth.{
  Platform, Config, SignInContext, Session, bad_credentials, locked, second, retry_after,
}
use warp_work.Auth.Password.{mismatch, verify_password}
use warp_work.Auth.Token.Opening.{IsUsable, authenticate_usable}
use warp_work.Auth.Sessions.{profile, authenticate}
use warp_work.Auth.SignIn.{sign_in_with_password, lock_in_force}
use warp_work.Auth.SignIn.Guessing.{sign_in_indistinct}
use warp_work.Auth.SignIn.Lockout.{credential_of, later, sign_in_unknown}
use warp_work.Auth.SignIn.Success.{sign_in-IsUsable}
use warp_work.Http.{Body, Response, Operation, refusal}
use warp_work.Http.Security.{Requester, secured}
use warp_work.Http.Cookies.{Web, session_cookie}
use warp_work.Http.Sessions.{CurrentSession}
use warp_work.Http.Sessions.Ending.{requester_of, secured_admitted}
use warp_work.Http.SignIn.{current_session, signed_in, login_answer, login}

abbrev pub incorrect : Response (Body CurrentSession)
incorrect = refusal 401 (codes "unauthenticated") (codes "email or password is incorrect")

module _ (p : Platform) (c : Config) (web : Web) where
  login-incorrect :
      (email password : Text) (now at : ℕ) (sc : SignInContext) (w : World AuthDb)
      → (sign_in_with_password p c email password now sc w).0 ≡ err bad_credentials
      → (login p c web email password now at sc w).0 ≡ ok incorrect
  unfolding login login_answer
  login-incorrect email password now at sc w e = rw e refl

  -- Where both calls reach the database and the policy's limit fits its column, Login answers a
  -- wrong password at a registered address, not locked and with failures left, and any password at
  -- an address that nobody registered, by the same response.
  pub login_indistinct :
      (email unknown : Text) (w : World AuthDb) (cred : Credential) (password other : Text)
      (now at : ℕ) (sc : SignInContext)
      → IsUp p.env w
      → IsUp p.env (later w)
      → credential_of p c unknown w ≡ none
      → credential_of p c email w ≡ some cred
      → lock_in_force cred.locked_until now ≡ none
      → verify_password p.argon2 password cred.hash ≡ err mismatch
      → cred.failed_attempts + 1 < c.policy.max_failed_attempts
      → c.policy.max_failed_attempts ≤ max_smallint
      → ((login p c web email password now at sc w).0 ≡ ok incorrect)
        × ((login p c web unknown other now at sc w).0 ≡ ok incorrect)
  login_indistinct email unknown w cred password other now at sc up up' u e l v below fits =
      let refused = ap (λ r. r.0) (sign_in_unknown p c unknown w other now sc up u) in
      (
        login-incorrect email password now at sc w (
            sign_in_indistinct p c sc email unknown w cred password other now up up' u e l v below
              fits
            ∙ refused),
        login-incorrect unknown other now at sc w refused,
      )

  db-signed_in :
      (status at : ℕ) (s : Session) (w : World AuthDb)
      → (signed_in p c web status at s w).1.db ≡ w.db
  unfolding signed_in current_session profile run get_user_profile
  db-signed_in status at s w = ground arith

  signed_in_cookie :
      (status at : ℕ) (s : Session) (r : Response (Body CurrentSession)) (w : World AuthDb)
      → (signed_in p c web status at s w).0 ≡ ok r
      → (r.status ≡ status)
        × (r.set_cookie ≡ some (web.cookie_text (session_cookie web s.token s.expires_at at)))
  unfolding signed_in current_session profile run get_user_profile
  signed_in_cookie status at s r w e = ground arith

  login-signed_in :
      (email password : Text) (now at : ℕ) (sc : SignInContext) (w : World AuthDb) (s : Session)
      → (sign_in_with_password p c email password now sc w).0 ≡ ok s
      → login p c web email password now at sc w
        ≡ signed_in p c web 200 at s (sign_in_with_password p c email password now sc w).1
  unfolding login login_answer
  login-signed_in email password now at sc w s e = rw e refl

  -- A Login for which SignInWithPassword succeeded, and which answered, answered 200 with the
  -- session's cookie, and a later request with that cookie's token, before the session expires, is
  -- let in to every operation as the session's user, if its lookup reaches the database.
  pub secured-login :
      {A : Type 0} (email password : Text) (now at t : ℕ) (sc : SignInContext) (w : World AuthDb)
      (s : Session) (r : Response (Body CurrentSession))
      (operation : Option Requester → Operation (World AuthDb) A)
      → (sign_in_with_password p c email password now sc w).0 ≡ ok s
      → (login p c web email password now at sc w).0 ≡ ok r
      → IsUp p.env (login p c web email password now at sc w).1
      → t < s.expires_at
      → let w' : World AuthDb = (login p c web email password now at sc w).1 in
        (r.status ≡ 200)
        × (r.set_cookie ≡ some (web.cookie_text (session_cookie web s.token s.expires_at at)))
        × (row : SessionRow) × (row.0.id ≡ s.id)
        × (row.0.user_id ≡ s.user_id)
        × (secured p (some s.token) t operation w'
            ≡ operation (some (requester_of p s.token row)) (authenticate p s.token t w').1)
  secured-login email password now at t sc w s r operation e q up h =
      let same = login-signed_in email password now at sc w s e in
      let (status, cookie) = signed_in_cookie 200 at s r _ (rw same at q) in
      let usable =
        subst (IsUsable p s) (sym (ap (λ r. r.1.db) same ∙ db-signed_in 200 at s _))
          (sign_in-IsUsable p c email password now sc w s e) in
      let (row, admitted, id, user) = authenticate_usable p c s _ t usable up h in
      (status, cookie, row, id, user, secured_admitted p s.token t operation _ row admitted)

  retry_after_bounds :
      (until at : ℕ)
      → (until ≤ at + retry_after until at * second + second / 2)
        × (retry_after until at * second ≤ until - at + second / 2)
  unfolding retry_after
  retry_after_bounds until at = ground arith

  -- Where a sign-in is refused by a lock, Login answers 429 with a Retry-After that is within half
  -- a second of the time that the lock still lasts.
  pub login_locked :
      (email password : Text) (now at until : ℕ) (sc : SignInContext) (w : World AuthDb)
      → (sign_in_with_password p c email password now sc w).0 ≡ err (locked until)
      → (r : Response (Body CurrentSession)) × (n : ℕ) × ((login p c web email password now at sc
            w).0
          ≡ ok r)
        × (r.status ≡ 429)
        × (r.retry_after ≡ some n)
        × (until ≤ at + n * second + second / 2)
        × (n * second ≤ until - at + second / 2)
  unfolding login login_answer retry_after
  login_locked email password now at until sc w e =
      let (late, early) = retry_after_bounds until at in
      rw e (_, retry_after until at, refl, refl, refl, late, early)
