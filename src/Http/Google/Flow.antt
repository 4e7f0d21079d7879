-- ===== src/Http/Google/Flow.antt =====
-- The cookie of one attempt, and the callbacks that do not match it.
use warp_work.Base.{
  ◌||◌, ℕ, Bool, text_eq_ne, ◌≡◌, ◌≢◌, refl, some, none, true, false, [], ◌∷◌, Text, text_eq,
}
use warp_work.Base.Result.{Result, ok}
use warp_work.Codec.Base64
use warp_work.Codec.Base64.RoundTrip.{AreBytes, decode-encode}
use warp_work.Store.{World}
use warp_work.Store.Auth.{AuthDb}
use warp_work.Auth.{Platform, Config, SignInContext}
use warp_work.Auth.Federated
use warp_work.Auth.Federated.{Google, FlowState, configured}
use warp_work.Http.{Fault, Body, Response}
use warp_work.Http.Cookies.{Web}
use warp_work.Http.Google.{
  oauth_flow_from, with_oauth_flow, oauth_cookie, complete_google_sign_in, complete_flow,
  complete_answer, sign_in_expired,
}

or_last : (a b : Bool) → (a || b || true) ≡ true
or_last true b = refl
or_last false true = refl
or_last false false = refl

encode_blank : (url : Bool) (bs : Text) → bs ≢ [] → text_eq (Base64.encode url bs) [] ≡ false
unfolding Base64.encode
encode_blank url [] h = absurd (h refl)
encode_blank url (a ∷ []) h = refl
encode_blank url (a ∷ b ∷ []) h = refl
encode_blank url (a ∷ b ∷ d ∷ rest) h = refl

module _ (web : Web) where
  -- Where the JSON of a sign-in attempt is bytes, not empty, and is read back as it was written, a
  -- callback with the value of the cookie that StartGoogleSignIn sets finds the attempt, if its
  -- state is not empty.
  pub oauth_flow_from-oauth_cookie :
      (flow : FlowState) (now : ℕ)
      → AreBytes (web.marshal flow)
      → web.marshal flow ≢ []
      → web.unmarshal (web.marshal flow) ≡ some flow
      → flow.state ≢ []
      → oauth_flow_from (with_oauth_flow web (some (oauth_cookie web flow now).value)) ≡ some flow
  unfolding with_oauth_flow oauth_cookie oauth_flow_from
  oauth_flow_from-oauth_cookie flow now bytes full json state =
      rw
        (
          decode-encode false true (web.marshal flow) bytes,
          json,
          encode_blank true (web.marshal flow) full,
          text_eq_ne flow.state [] state,
        )
        refl

module _ (p : Platform) (c : Config) (web : Web) (g : Google) where
  abbrev pub stale : World AuthDb → Result Fault (Response (Body (Unit {0}))) × World AuthDb
  stale w = (ok sign_in_expired, w)

  -- Where Google is configured, a callback without the cookie of an attempt and one whose state is
  -- not the attempt's are answered by the same response, and nothing is written.
  pub complete_google_sign_in_expired :
      (code state : Text) (flow : FlowState) (now later : ℕ) (sc : SignInContext) (w : World AuthDb)
      → configured g.config ≡ true
      → flow.state ≢ []
      → flow.state ≢ state
      → (complete_google_sign_in p c web (some g) none code state none now later sc w ≡ stale w)
        × (complete_google_sign_in p c web (some g) none code state (some flow) now later sc w
            ≡ stale w)
  unfolding complete_google_sign_in oauth_flow_from complete_flow complete_answer
      Federated.complete_google_sign_in
  complete_google_sign_in_expired code state flow now later sc w set full other = (
    refl,
    rw
        (
          text_eq_ne flow.state [] full,
          set,
          text_eq_ne flow.state state other,
          or_last (text_eq flow.state []) (text_eq state []),
        )
        refl,
  )
