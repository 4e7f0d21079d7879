-- ===== src/Http/Google.antt =====
-- apps/api/internal/httpapi/auth_google.go: sign-in with Google, and the cookie that keeps the
-- state of one attempt.
pub mod Flow
use warp_work.Base.{
  ℕ, ◌+◌, ◌*◌, ◌∷◌, [], ◌||◌, pos, negsuc, Bool, true, false, ◌/◌, Option, none, some, Text, codes,
  text_eq, ◌++◌, if◌then◌else◌,
}
use warp_work.Base.Result.{Result, ok, err}
use warp_work.Base.Act.{pure, fail, lift, attempt, wrapping, ◌>>=◌}
use warp_work.Codec.Base64
use warp_work.Store.{World}
use warp_work.Store.Auth.{AuthDb}
use warp_work.Auth.{
  AuthError, provider_not_configured, state_mismatch, no_email_from_provider, email_taken, Platform,
  Config, SignInContext, Session, minute, second,
}
use warp_work.Auth.Federated
use warp_work.Auth.Federated.{Google, FlowState}
use warp_work.Http.{Fault, ApiError, api, Body, empty, Response, replies, refusal, Operation}
use warp_work.Http.Cookies.{Cookie, Web, session_cookie}

abbrev pub no_flow : FlowState
no_flow = record { state = []; nonce = []; return_to = [] }

abbrev pub oauth_cookie_ttl : ℕ
oauth_cookie_ttl = 10 * minute

-- errNoOAuthFlow is `none`.
unfoldable pub oauth_flow_from : Option FlowState → Option FlowState
oauth_flow_from none = none
oauth_flow_from (some flow) = if text_eq flow.state [] then none else some flow

unfoldable pub flow_return_to : Option FlowState → Text
flow_return_to none = codes "/"
flow_return_to (some flow) = if text_eq flow.return_to [] then codes "/" else flow.return_to

abbrev pub sign_in_expired : Response (Body (Unit {0}))
sign_in_expired =
    refusal 401 (codes "sign_in_expired")
      (codes "this sign-in attempt is no longer valid; start again")

unfoldable pub google_error : AuthError → Fault
google_error provider_not_configured = api (record {
  status = 501;
  code = codes "provider_not_configured";
  message =
      codes
        "Google sign-in is not configured on this server; set GOOGLE_CLIENT_ID, GOOGLE_CLIENT_SECRET and GOOGLE_REDIRECT_URL";
})
google_error e = api (record {
  status = 502;
  code = codes "provider_unavailable";
  message = codes "could not complete sign-in with Google";
})

module _ (web : Web) where
  -- withOAuthFlow: what the context of a request carries, by the value of its cookie `warp_oauth`.
  unfoldable pub with_oauth_flow : Option Text → Option FlowState
  with_oauth_flow none = none
  with_oauth_flow (some value) =
      if text_eq value []
      then none
      else elim (Base64.decode false true value) [ none ↦ none | some raw ↦ web.unmarshal raw ]

  unfoldable pub oauth_cookie : FlowState → ℕ → Cookie
  oauth_cookie flow now = record {
    name = codes "warp_oauth";
    value = Base64.encode true (web.marshal flow);
    path = codes "/api/v1/auth";
    expires = now + oauth_cookie_ttl;
    max_age = pos (oauth_cookie_ttl / second);
    http_only = true;
    secure = web.is_production;
  }

  unfoldable pub expired_oauth_cookie : Cookie
  unfolding oauth_cookie
  expired_oauth_cookie = record (oauth_cookie no_flow 0) {
    value = [];
    max_age = negsuc 0;
    expires = 0;
  }

  unfoldable pub complete_answer :
      FlowState → ℕ → Result AuthError Session → Result Fault (Response (Body (Unit {0})))
  unfolding google_error session_cookie expired_oauth_cookie
  complete_answer flow later (ok s) = ok (record (replies 302 empty) {
    location = some flow.return_to;
    set_cookie = some (
        web.cookie_text (session_cookie web s.token s.expires_at later)
        ++ codes ", "
        ++ web.cookie_text expired_oauth_cookie);
  })
  complete_answer flow later (err state_mismatch) = ok sign_in_expired
  complete_answer flow later (err no_email_from_provider) = ok (
      refusal 401 (codes "no_email_from_provider")
        (codes "Google returned no email address, so there is nothing to create an account with"))
  complete_answer flow later (err email_taken) = ok (
      refusal 401 (codes "email_taken") (
        codes
          "an account with that email already exists; sign in with it and link Google from settings"))
  complete_answer flow later (err e) = err (google_error e)

module _ (p : Platform) (c : Config) (web : Web) (google : Option Google) where
  -- StartGoogleSignIn
  unfoldable pub start_google_sign_in : Option Text → ℕ → Operation (World AuthDb) (Unit {0})
  unfolding google_error oauth_cookie
  start_google_sign_in return_to now = do
    (target, flow) ← wrapping google_error (
        Federated.start_google_sign_in p google
          (elim return_to [ none ↦ codes "/" | some v ↦ if text_eq v [] then codes "/" else v ]))
    pure (record (replies 302 empty) {
      location = some target;
      set_cookie = some (web.cookie_text (oauth_cookie web flow now));
    })

  -- What CompleteGoogleSignIn does where the consent screen was not declined.
  unfoldable pub complete_flow :
      Option FlowState → Text → Text → ℕ → ℕ → SignInContext → Operation (World AuthDb) (Unit {0})
  unfolding complete_answer
  complete_flow none code state now later sc = pure sign_in_expired
  complete_flow (some flow) code state now later sc = do
    session ← attempt (Federated.complete_google_sign_in p c google code state flow now sc)
    lift (complete_answer web flow later session)

  -- CompleteGoogleSignIn; `declined` is its parameter `error`, and `carried` what the context of
  -- the request carries.
  unfoldable pub complete_google_sign_in :
      Option Text
      → Text
      → Text
      → Option FlowState
      → ℕ
      → ℕ
      → SignInContext
      → Operation (World AuthDb) (Unit {0})
  unfolding oauth_flow_from flow_return_to expired_oauth_cookie complete_flow
  complete_google_sign_in (some reason) code state carried now later sc =
      pure (record (replies 302 empty) {
        location = some (
            web.with_query (flow_return_to (oauth_flow_from carried)) (codes "auth_error")
              (codes "declined"));
        set_cookie = some (web.cookie_text (expired_oauth_cookie web));
      })
  complete_google_sign_in none code state carried now later sc =
      complete_flow (oauth_flow_from carried) code state now later sc
