-- ===== src/Http/Sessions/Ending.antt =====
-- What a request is answered by once its session ended, or when its session cannot be looked up.
use warp_work.Base.{ℕ, Option, ◌≡◌, refl, true, some, none, Text, arith, inl, inr}
use warp_work.Base.Result.{Result-cases, ok, err}
use warp_work.Store.{World, IsUp, unavailable, run}
use warp_work.Store.Auth.{AuthDb}
use warp_work.Store.Auth.Sessions.{SessionRow}
use warp_work.Auth
use warp_work.Auth.{AuthError, database, Platform}
use warp_work.Auth.Sessions
use warp_work.Auth.Sessions.{no_rows_as, provider_kind_text, authenticate, authenticate_principal}
use warp_work.Auth.Sessions.Ending.{authenticate-sign_out}
use warp_work.Http.{
  Fault, security, unauthenticated, Body, Response, Operation, respond, error_response, classify,
  as_api_error, is_unauthenticated,
}
use warp_work.Http.Security.{secured, handle_session_cookie, session_fault, Requester}
use warp_work.Http.Cookies.{Web}
use warp_work.Http.Sessions.{sign_out}

module _ (p : Platform) where
  secured_failed :
      {A : Type 0} (token : Text) (now : ℕ)
      (operation : Option Requester → Operation (World AuthDb) A) (w : World AuthDb) (e : AuthError)
      → (authenticate p token now w).0 ≡ err e
      → (secured p (some token) now operation w).0 ≡ err (security (session_fault e))
  unfolding secured handle_session_cookie authenticate_principal
  secured_failed token now operation w e q = rw q refl

  not_api : (e : AuthError) → as_api_error (session_fault e) ≡ none
  unfolding as_api_error session_fault
  not_api e = ground arith

  classify-security :
      (error_text : Fault → Text) (f : Fault)
      → as_api_error f ≡ none
      → classify error_text (security f) ≡ unauthenticated
  unfolding classify as_api_error is_unauthenticated
  classify-security error_text f h = rw (h, classify) refl

  -- Whatever the reason is for which the session does not resolve.
  respond-secured :
      {A : Type 0} (web : Web) (token : Text) (now : ℕ)
      (operation : Option Requester → Operation (World AuthDb) A) (w : World AuthDb) (e : AuthError)
      → (authenticate p token now w).0 ≡ err e
      → respond web.error_text (secured p (some token) now operation w).0
        ≡ error_response unauthenticated
  respond-secured web token now operation w e q =
      rw (secured_failed token now operation w e q)
        (unfold respond in rw (classify-security web.error_text (session_fault e) (not_api e)) refl)

  authenticate_unreached :
      (token : Text) (now : ℕ) (w : World AuthDb)
      → p.env.down w.calls ≡ true
      → (authenticate p token now w).0 ≡ err (database unavailable)
  unfolding authenticate run no_rows_as
  authenticate_unreached token now w h = ground arith

  -- A request with a session cookie for which the database is not reached is answered 401, as one
  -- without a session.
  pub respond-secured_unreached :
      {A : Type 0} (web : Web) (token : Text) (now : ℕ)
      (operation : Option Requester → Operation (World AuthDb) A) (w : World AuthDb)
      → p.env.down w.calls ≡ true
      → respond web.error_text (secured p (some token) now operation w).0
        ≡ error_response unauthenticated
  respond-secured_unreached web token now operation w h =
      respond-secured web token now operation w (database unavailable)
        (authenticate_unreached token now w h)

  abbrev pub requester_of : Text → SessionRow → Requester
  requester_of token row = record {
    principal = record {
      user_id = row.0.user_id;
      session_id = row.0.id;
      provider_kind = provider_kind_text row.1;
    };
    token = token;
  }

  pub secured_admitted :
      {A : Type 0} (token : Text) (now : ℕ)
      (operation : Option Requester → Operation (World AuthDb) A) (w : World AuthDb)
      (row : SessionRow)
      → (authenticate p token now w).0 ≡ ok row
      → secured p (some token) now operation w
        ≡ operation (some (requester_of token row)) (authenticate p token now w).1
  unfolding secured handle_session_cookie authenticate_principal
  secured_admitted token now operation w row e = rw e refl

  sign_out-IsUp :
      (token : Text) (t : ℕ) (w : World AuthDb)
      → (Sessions.sign_out p token t w).0 ≡ ok tt
      → IsUp p.env w
  unfolding Sessions.sign_out run
  sign_out-IsUp token t w e = ground arith

  -- The operation, once the request was let in.
  sign_out_ended :
      (web : Web) (token : Text) (now later : ℕ) (row : SessionRow) (r : Response (Body (Unit {0})))
      (w : World AuthDb)
      → (sign_out p web now (some (requester_of token row)) w).0 ≡ ok r
      → IsUp p.env (sign_out p web now (some (requester_of token row)) w).1
      → (authenticate p token later (sign_out p web now (some (requester_of token row)) w).1).0
        ≡ err Auth.no_session
  unfolding sign_out
  sign_out_ended web token now later row r w e up =
      elim (Result-cases (Sessions.sign_out p token now w).0) [
        | inl (done, q) ↦
            rw q
              (authenticate-sign_out p token now later w (sign_out-IsUp token now w q)
                (rw q at up)).1
        | inr (fault, q) ↦ absurd (cc (rw q at e))
      ]

  -- After a request to sign out that was answered, every operation answers a later request with
  -- the same cookie, if its lookup reaches the database, that it is not authenticated.
  pub secured-sign_out :
      {A : Type 0} (web : Web) (token : Text) (now later : ℕ)
      (operation : Option Requester → Operation (World AuthDb) A) (r : Response (Body (Unit {0})))
      (w : World AuthDb)
      → (secured p (some token) now (sign_out p web now) w).0 ≡ ok r
      → IsUp p.env (secured p (some token) now (sign_out p web now) w).1
      → respond web.error_text
          (secured p
            (some token)
            later
            operation
            (secured p (some token) now (sign_out p web now) w).1).0
        ≡ error_response unauthenticated
  secured-sign_out web token now later operation r w e up =
      elim (Result-cases (authenticate p token now w).0) [
        | inl (row, q) ↦
            let same = secured_admitted token now (sign_out p web now) w row q in
            let ended =
              sign_out_ended web token now later row r (authenticate p token now w).1 (rw same at e)
                (rw same at up) in
            rw same (respond-secured web token later operation _ Auth.no_session ended)
        | inr (fault, q) ↦
            absurd (cc (rw (secured_failed token now (sign_out p web now) w fault q) at e))
      ]
