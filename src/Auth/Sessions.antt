-- ===== src/Auth/Sessions.antt =====
-- internal/auth/sessions.go, and Authenticate and Profile of auth.go: sessions and sign-in methods
-- as the owner manages them.
pub mod Ending
pub mod Unlinking
pub mod Spec
pub mod Refinement
use warp_work.Base.{
  ℕ, ◌-◌, Bool, true, false, Option, none, some, List, [], ◌∷◌, map, Text, codes, ◌==◌,
  if◌then◌else◌,
}
use warp_work.Base.Result.{Result, ok, err}
use warp_work.Base.Act.{Act, pure, fail, lift, attempt, wrapping, ◌>>=◌, ◌>>◌}
use warp_work.Store.{World, DbError, no_rows, restrict_violation, run}
use warp_work.Store.Auth.{
  AuthDb, AuthSession, AuthProvider, UserProfile, Kind, google, zalo, facebook, passkey, password,
}
use warp_work.Store.Auth.Accounts.{get_user_profile, list_auth_providers, delete_auth_provider}
use warp_work.Store.Auth.Sessions.{
  SessionRow, live_session_by_token_hash, touch_auth_session, list_live_sessions,
  revoke_session_by_id, revoke_session_by_token_hash, sweep_expired_sessions,
}
use warp_work.Auth.{AuthError, no_session, not_found, last_provider, database, Platform}
use warp_work.Auth.Token.{Auth, hash_token}

pub record Principal : Type 0 where
  pub user_id : ℕ
  pub session_id : ℕ
  pub provider_kind : Text

pub record SessionSummary : Type 0 where
  pub id : ℕ
  pub provider_kind : Text
  pub issued_at : ℕ
  pub last_seen_at : ℕ
  pub expires_at : ℕ
  pub user_agent : Text
  pub ip : Option Text

pub record ProviderSummary : Type 0 where
  pub id : ℕ
  pub kind : Text
  pub email : Text
  pub is_primary : Bool
  pub linked_at : ℕ
  pub last_login_at : Option ℕ

-- The text of an enum's value.
abbrev pub kind_text : Kind → Text
kind_text google = codes "google"
kind_text zalo = codes "zalo"
kind_text facebook = codes "facebook"
kind_text passkey = codes "passkey"
kind_text password = codes "password"

-- providerKind
abbrev pub provider_kind_text : Option Kind → Text
provider_kind_text none = []
provider_kind_text (some k) = kind_text k

unfoldable pub session_summary : SessionRow → SessionSummary
session_summary (s, kind) = record {
  id = s.id;
  provider_kind = provider_kind_text kind;
  issued_at = s.issued_at;
  last_seen_at = s.last_seen_at;
  expires_at = s.expires_at;
  user_agent = s.user_agent;
  ip = s.ip;
}

unfoldable pub provider_summary : AuthProvider → ProviderSummary
provider_summary r = record {
  id = r.id;
  kind = kind_text r.kind;
  email = elim r.email [ none ↦ [] | some e ↦ e ];
  is_primary = r.is_primary;
  linked_at = r.linked_at;
  last_login_at = r.last_login_at;
}

-- pgx.ErrNoRows is the outcome `no_session`; any other error is a fault.
unfoldable pub no_rows_as : AuthError → DbError → AuthError
no_rows_as outcome no_rows = outcome
no_rows_as outcome e = database e

-- The trigger's SQLSTATE is the outcome `last_provider`.
unfoldable pub unlink_error : DbError → AuthError
unlink_error restrict_violation = last_provider
unlink_error e = database e

module _ (p : Platform) where
  -- Authenticate; an error of the touch is dropped.
  unfoldable pub authenticate : Text → ℕ → Auth SessionRow
  unfolding no_rows_as hash_token
  authenticate token now = do
    row ←
        wrapping (no_rows_as no_session)
          (run p.env (live_session_by_token_hash (hash_token p token) now))
    attempt (run p.env (touch_auth_session row.0.id now))
    pure row

  unfoldable pub authenticate_principal : Text → ℕ → Auth Principal
  unfolding authenticate
  authenticate_principal token now = do
    row ← authenticate token now
    pure (record {
      user_id = row.0.user_id;
      session_id = row.0.id;
      provider_kind = provider_kind_text row.1;
    })

  unfoldable pub profile : ℕ → Auth UserProfile
  profile user_id = wrapping database (run p.env (get_user_profile user_id))

  unfoldable pub list_sessions : ℕ → ℕ → Auth (List SessionSummary)
  unfolding session_summary
  list_sessions user_id now = do
    rows ← wrapping database (run p.env (list_live_sessions user_id now))
    pure (map session_summary rows)

  unfoldable pub revoke_session : ℕ → ℕ → ℕ → Auth (Unit {0})
  revoke_session user_id session_id now = do
    n ← wrapping database (run p.env (revoke_session_by_id session_id user_id now))
    if n == 0 then fail not_found else pure tt

  unfoldable pub sign_out : Text → ℕ → Auth (Unit {0})
  unfolding hash_token
  sign_out token now = do
    wrapping database (run p.env (revoke_session_by_token_hash (hash_token p token) now))
    pure tt

  unfoldable pub list_providers : ℕ → Auth (List ProviderSummary)
  unfolding provider_summary
  list_providers user_id = do
    rows ← wrapping database (run p.env (list_auth_providers user_id))
    pure (map provider_summary rows)

  unfoldable pub unlink_provider : ℕ → ℕ → Auth (Unit {0})
  unfolding unlink_error
  unlink_provider user_id provider_id = do
    n ← wrapping unlink_error (run p.env (delete_auth_provider provider_id user_id))
    if n == 0 then fail not_found else pure tt

  -- A cutoff before 1970 is 1970.
  unfoldable pub sweep_expired : ℕ → ℕ → Auth ℕ
  sweep_expired grace now = wrapping database (run p.env (sweep_expired_sessions (now - grace)))
