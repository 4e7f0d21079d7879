-- ===== src/Auth/Token.antt =====
-- internal/auth: NewToken and HashToken of session.go, truncate and openSession of auth.go.
pub mod Opening
use warp_work.Base.{ℕ, ◌*◌, true, Option, none, some, Text, length, take, leb, if◌then◌else◌}
use warp_work.Base.Result.{Result, ok, err}
use warp_work.Base.Act.{Act, pure, fail, lift, wrapping, ◌>>=◌}
use warp_work.Codec.Base64
use warp_work.Store.{Env, World, run, new_v7, rand_read}
use warp_work.Store.Auth.{AuthDb, AuthSession}
use warp_work.Store.Auth.Sessions.{NewSession, create_auth_session}
use warp_work.Auth.{
  AuthError, database, no_token, no_uuid, Platform, Config, Policy, SignInContext, Session,
  expires_at,
}

-- What the service's operations are.
abbrev pub Auth : Type 0 → Type 0
Auth = Act AuthError (World AuthDb)

abbrev pub token_bytes : ℕ
token_bytes = 32

-- HashToken
unfoldable pub hash_token : Platform → Text → Text
hash_token p token = p.sha256 token

-- NewToken's token, from what rand.Read gave; its hash is `hash_token` of it.
unfoldable pub token_of : Option Text → Result AuthError Text
token_of none = err no_token
token_of (some raw) = ok (Base64.encode true raw)

unfoldable pub uuid_of : Option ℕ → Result AuthError ℕ
uuid_of none = err no_uuid
uuid_of (some id) = ok id

-- A Go string cut after `max` bytes.
unfoldable pub truncate : Text → ℕ → Text
truncate s max = if leb (length s) max then s else take max s

abbrev pub max_user_agent : ℕ
max_user_agent = 512

module _ (p : Platform) (c : Config) where
  unfoldable pub new_session : ℕ → Option ℕ → ℕ → SignInContext → Text → ℕ → NewSession
  new_session user_id provider_id now sc token id = record {
    id = id;
    user_id = user_id;
    auth_provider_id = provider_id;
    token_hash = hash_token p token;
    expires_at = expires_at c.policy now;
    user_agent = truncate sc.user_agent max_user_agent;
    ip = sc.ip;
  }

  abbrev pub session_of : Text → AuthSession → Session
  session_of token row = record {
    token = token;
    id = row.id;
    user_id = row.user_id;
    issued_at = row.issued_at;
    expires_at = row.expires_at;
  }

  -- openSession
  unfoldable pub open_session :
      ℕ → Option ℕ → ℕ → SignInContext → Act AuthError (World AuthDb) Session
  open_session user_id provider_id now sc = do
    raw ← rand_read p.env token_bytes
    token ← lift (token_of raw)
    v7 ← new_v7 p.env
    id ← lift (uuid_of v7)
    row ←
        wrapping database
          (run p.env (create_auth_session (new_session user_id provider_id now sc token id)))
    pure (session_of token row)
