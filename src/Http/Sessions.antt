-- ===== src/Http/Sessions.antt =====
-- apps/api/internal/httpapi/auth_sessions.go: the operations on sessions and sign-in methods.
pub mod Ending
pub mod Current
use warp_work.Base.{
  ℕ, Bool, Option, none, some, List, [], ◌∷◌, map, Text, codes, text_eq, find, ◌==◌, if◌then◌else◌,
}
use warp_work.Base.Result.{Result, ok, err}
use warp_work.Base.Act.{pure, fail, lift, attempt, wrapping, ◌>>=◌, ◌>>◌}
use warp_work.Store.{World}
use warp_work.Store.Auth.{AuthDb, UserProfile}
use warp_work.Auth
use warp_work.Auth.{AuthError, last_provider, Platform}
use warp_work.Auth.Sessions
use warp_work.Auth.Sessions.{SessionSummary, ProviderSummary, profile}
use warp_work.Http.{
  Fault, no_session, auth, Body, content, empty, Response, replies, refusal, Operation,
}
use warp_work.Http.Security.{Requester}
use warp_work.Http.Cookies.{Web, expired_session_cookie}

-- api.SignedInUser
pub record SignedInUser : Type 0 where
  pub id : ℕ
  pub email : Text
  pub display_name : Text
  pub timezone : Text

-- api.Session
pub record SessionView : Type 0 where
  pub id : ℕ
  pub issued_at : ℕ
  pub last_seen_at : ℕ
  pub expires_at : ℕ
  pub is_current : Bool
  pub provider_kind : Option Text
  pub user_agent : Option Text
  pub ip : Option Text

-- api.CurrentSession; without a session it is the zero api.Session.
pub record CurrentSession : Type 0 where
  pub user : SignedInUser
  pub session : Option SessionView

-- api.LinkedProvider
pub record LinkedProvider : Type 0 where
  pub id : ℕ
  pub kind : Text
  pub is_primary : Bool
  pub linked_at : ℕ
  pub email : Option Text
  pub last_login_at : Option ℕ

-- A text that is not empty.
abbrev pub not_blank : Text → Option Text
not_blank [] = none
not_blank (c ∷ s) = some (c ∷ s)

unfoldable pub to_api_user : UserProfile → SignedInUser
to_api_user row = record {
  id = row.user_id;
  email = row.email;
  display_name = row.display_name;
  timezone = row.timezone;
}

unfoldable pub to_api_session : ℕ → SessionSummary → SessionView
to_api_session current_id s = record {
  id = s.id;
  issued_at = s.issued_at;
  last_seen_at = s.last_seen_at;
  expires_at = s.expires_at;
  is_current = s.id == current_id;
  provider_kind = not_blank s.provider_kind;
  user_agent = not_blank s.user_agent;
  ip = s.ip;
}

unfoldable pub linked_provider : ProviderSummary → LinkedProvider
linked_provider p = record {
  id = p.id;
  kind = p.kind;
  is_primary = p.is_primary;
  linked_at = p.linked_at;
  email = not_blank p.email;
  last_login_at = p.last_login_at;
}

-- The session of the list that the request came by.
unfoldable pub find_current : ℕ → List SessionSummary → Option SessionView
unfolding to_api_session
find_current current_id sessions = elim (find (λ s. s.id == current_id) sessions) [
  | none ↦ none
  | some s ↦ some (to_api_session current_id s)
]

-- The switches over the service's error.
unfoldable pub revoke_answer :
    Result AuthError (Unit {0}) → Result Fault (Response (Body (Unit {0})))
revoke_answer (ok _) = ok (replies 204 empty)
revoke_answer (err Auth.not_found) = ok (refusal 404 (codes "not_found") (codes "no such session"))
revoke_answer (err e) = err (auth e)

unfoldable pub unlink_answer :
    Result AuthError (Unit {0}) → Result Fault (Response (Body (Unit {0})))
unlink_answer (ok _) = ok (replies 204 empty)
unlink_answer (err last_provider) = ok (
    refusal 409 (codes "last_sign_in_method")
      (codes "this is the only way to sign in that is left; link another one before removing it"))
unlink_answer (err Auth.not_found) =
    ok (refusal 404 (codes "not_found") (codes "no such sign-in method"))
unlink_answer (err e) = err (auth e)

module _ (p : Platform) (web : Web) where
  -- GetCurrentSession
  unfoldable pub get_current_session :
      ℕ → Option Requester → Operation (World AuthDb) CurrentSession
  unfolding to_api_user find_current
  get_current_session now none = fail no_session
  get_current_session now (some r) = do
    row ← wrapping auth (profile p r.principal.user_id)
    sessions ← wrapping auth (Sessions.list_sessions p r.principal.user_id now)
    pure (
        replies 200 (
          content (record {
            user = to_api_user row;
            session = find_current r.principal.session_id sessions;
          })))

  -- SignOut
  unfoldable pub sign_out : ℕ → Option Requester → Operation (World AuthDb) (Unit {0})
  unfolding expired_session_cookie
  sign_out now none = fail no_session
  sign_out now (some r) = do
    wrapping auth (Sessions.sign_out p r.token now)
    pure (record (replies 204 (empty)) {
      set_cookie = some (web.cookie_text (expired_session_cookie web now));
    })

  -- ListSessions
  unfoldable pub list_sessions : ℕ → Option Requester → Operation (World AuthDb) (List SessionView)
  unfolding to_api_session
  list_sessions now none = fail no_session
  list_sessions now (some r) = do
    sessions ← wrapping auth (Sessions.list_sessions p r.principal.user_id now)
    pure (replies 200 (content (map (to_api_session r.principal.session_id) sessions)))

  -- RevokeSession
  unfoldable pub revoke_session : ℕ → ℕ → Option Requester → Operation (World AuthDb) (Unit {0})
  unfolding revoke_answer
  revoke_session session_id now none = fail no_session
  revoke_session session_id now (some r) = do
    gone ← attempt (Sessions.revoke_session p r.principal.user_id session_id now)
    lift (revoke_answer gone)

  -- ListAuthProviders
  unfoldable pub list_auth_providers :
      Option Requester → Operation (World AuthDb) (List LinkedProvider)
  unfolding linked_provider
  list_auth_providers none = fail no_session
  list_auth_providers (some r) = do
    providers ← wrapping auth (Sessions.list_providers p r.principal.user_id)
    pure (replies 200 (content (map linked_provider providers)))

  -- UnlinkAuthProvider
  unfoldable pub unlink_auth_provider : ℕ → Option Requester → Operation (World AuthDb) (Unit {0})
  unfolding unlink_answer
  unlink_auth_provider provider_id none = fail no_session
  unlink_auth_provider provider_id (some r) = do
    gone ← attempt (Sessions.unlink_provider p r.principal.user_id provider_id)
    lift (unlink_answer gone)
