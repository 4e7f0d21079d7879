-- ===== src/Store/Auth/Sessions.antt =====
-- internal/store/auth.sql.go: the sessions.
use warp_work.Base.{
  ℕ, Bool, true, false, not, ◌&&◌, ◌||◌, Option, none, some, List, ◌∷◌, map, Text, text_eq, any,
  find, keep, change, tally, sort_by, ltb, leb, ◌==◌, if◌then◌else◌,
}
use warp_work.Base.Result.{ok, err}
use warp_work.Codec.Utf8.{valid_utf8}
use warp_work.Store.{
  Query, unique_violation, check_violation, foreign_key_violation, invalid_text, auth_sessions_pkey,
  auth_sessions_user, auth_sessions_provider, token_hash_unique, expires_after_issue,
}
use warp_work.Store.Auth.{AuthDb, AuthSession, Kind}
use warp_work.Store.Auth.Accounts.{one}

-- The parameters of CreateAuthSession.
pub record NewSession : Type 0 where
  pub id : ℕ
  pub user_id : ℕ
  pub auth_provider_id : Option ℕ
  pub token_hash : Text
  pub expires_at : ℕ
  pub user_agent : Text
  pub ip : Option Text

abbrev pub session_row : NewSession → ℕ → AuthSession
session_row arg at = record {
  id = arg.id;
  user_id = arg.user_id;
  auth_provider_id = arg.auth_provider_id;
  token_hash = arg.token_hash;
  issued_at = at;
  last_seen_at = at;
  expires_at = arg.expires_at;
  revoked_at = none;
  user_agent = arg.user_agent;
  ip = arg.ip;
}

unfoldable pub provider_exists : AuthDb → Option ℕ → Bool
provider_exists db none = true
provider_exists db (some id) = any (λ p. p.id == id) db.providers

unfoldable pub create_auth_session : NewSession → Query AuthDb AuthSession
unfolding provider_exists
create_auth_session arg at db =
    if not (valid_utf8 arg.user_agent)
    then (err invalid_text, db)
    else if leb arg.expires_at at
    then (err (check_violation expires_after_issue), db)
    else if any (λ s. s.id == arg.id) db.sessions
    then (err (unique_violation auth_sessions_pkey), db)
    else if any (λ s. text_eq s.token_hash arg.token_hash) db.sessions
    then (err (unique_violation token_hash_unique), db)
    else if not (any (λ u. u.id == arg.user_id) db.users)
    then (err (foreign_key_violation auth_sessions_user), db)
    else if not (provider_exists db arg.auth_provider_id)
    then (err (foreign_key_violation auth_sessions_provider), db)
    else (ok (session_row arg at), record db { sessions = session_row arg at ∷ db.sessions })

-- revoked_at IS NULL AND expires_at > now
unfoldable pub is_live : ℕ → AuthSession → Bool
is_live now s = elim s.revoked_at [ none ↦ ltb now s.expires_at | some _ ↦ false ]

-- A session beside the kind of the provider that it came by, of the LEFT JOIN.
abbrev pub SessionRow : Type 0
SessionRow = AuthSession × Option Kind

unfoldable pub provider_kind : AuthDb → AuthSession → Option Kind
provider_kind db s = elim s.auth_provider_id [
  | none ↦ none
  | some id ↦ elim (find (λ p. p.id == id) db.providers) [ none ↦ none | some p ↦ some p.kind ]
]

unfoldable pub is_live_token : Text → ℕ → AuthSession → Bool
unfolding is_live
is_live_token token_hash now s = text_eq s.token_hash token_hash && is_live now s

abbrev pub find_live : Text → ℕ → List AuthSession → Option AuthSession
find_live token_hash now = find (is_live_token token_hash now)

unfoldable pub live_session_by_token_hash : Text → ℕ → Query AuthDb SessionRow
unfolding is_live_token
live_session_by_token_hash token_hash now at db = elim (find_live token_hash now db.sessions) [
  | none ↦ (one none, db)
  | some s ↦ (ok (s, provider_kind db s), db)
]

abbrev pub touch : ℕ → AuthSession → AuthSession
touch t s = record s { last_seen_at = t }

unfoldable pub touch_auth_session : ℕ → ℕ → Query AuthDb (Unit {0})
touch_auth_session id last_seen_at at db =
    (ok tt, record db { sessions = change (λ s. s.id == id) (touch last_seen_at) db.sessions })

-- ORDER BY last_seen_at DESC
unfoldable pub list_live_sessions : ℕ → ℕ → Query AuthDb (List SessionRow)
unfolding is_live provider_kind
list_live_sessions user_id now at db = (
  ok (
      map (λ s. (s, provider_kind db s))
        (sort_by (λ a b. ltb b.last_seen_at a.last_seen_at)
          (keep (λ s. s.user_id == user_id && is_live now s) db.sessions))),
  db,
)

abbrev pub end : ℕ → AuthSession → AuthSession
end t s = record s { revoked_at = some t }

-- COALESCE(revoked_at, t)
abbrev pub revoke : ℕ → AuthSession → AuthSession
revoke t s = record s { revoked_at = elim s.revoked_at [ none ↦ some t | some r ↦ some r ] }

unfoldable pub is_session_of : ℕ → ℕ → AuthSession → Bool
is_session_of session_id user_id s = s.id == session_id && s.user_id == user_id

unfoldable pub revoke_session_by_id : ℕ → ℕ → ℕ → Query AuthDb ℕ
unfolding is_session_of
revoke_session_by_id session_id user_id revoked_at at db = (
  ok (tally (is_session_of session_id user_id) db.sessions),
  record db {
    sessions = change (is_session_of session_id user_id) (revoke revoked_at) db.sessions;
  },
)

unfoldable pub is_unrevoked_token : Text → AuthSession → Bool
is_unrevoked_token token_hash s =
    text_eq s.token_hash token_hash && (elim s.revoked_at [ none ↦ true | some _ ↦ false ])

unfoldable pub revoke_session_by_token_hash : Text → ℕ → Query AuthDb ℕ
unfolding is_unrevoked_token
revoke_session_by_token_hash token_hash revoked_at at db = (
  ok (tally (is_unrevoked_token token_hash) db.sessions),
  record db { sessions = change (is_unrevoked_token token_hash) (end revoked_at) db.sessions },
)

-- What SweepExpiredSessions deletes.
unfoldable pub is_swept : ℕ → AuthSession → Bool
is_swept cutoff s =
    ltb s.expires_at cutoff || (elim s.revoked_at [ none ↦ false | some r ↦ ltb r cutoff ])

unfoldable pub sweep_expired_sessions : ℕ → Query AuthDb ℕ
unfolding is_swept
sweep_expired_sessions cutoff at db = (
  ok (tally (is_swept cutoff) db.sessions),
  record db { sessions = keep (λ s. not (is_swept cutoff s)) db.sessions },
)
