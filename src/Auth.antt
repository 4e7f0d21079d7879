-- ===== src/Auth.antt =====
-- internal/auth: proving who the owner is. This file holds what its parts share: the errors, the
-- policy of session.go, the configuration, and what the transport says of a request.
pub mod Password
pub mod Token
pub mod SignIn
pub mod Register
pub mod Sessions
pub mod Federated
use warp_work.Base.{
  ℕ, ◌+◌, ◌*◌, ◌-◌, ◌/◌, ◌%◌, Bool, Option, none, some, Text, ltb, leb, if◌then◌else◌,
}
use warp_work.Strings
use warp_work.Strings.{Unicode}
use warp_work.Store.{Env, DbError}
use warp_work.Auth.Password.{Argon2, PasswordParams, PasswordError, default_password_params}

-- The errors that a caller tells apart, and the faults that it passes on. A wrapped error
-- (`fmt.Errorf` with %w) is the error that it wraps.
pub data AuthError : Type 0 where
  bad_credentials no_session email_taken invalid_input not_found last_provider : AuthError
  provider_not_configured state_mismatch no_email_from_provider : AuthError
  locked : ℕ → AuthError
  database : DbError → AuthError
  password_fault : PasswordError → AuthError
  no_token no_uuid provider_fault : AuthError

-- Durations and times are in whole microseconds, the grain of a timestamptz: what the clock gives
-- below that, which pgx drops from every time it stores, is left out.
abbrev pub second : ℕ
second = 1000000

abbrev pub minute : ℕ
minute = 60 * second

abbrev pub hour : ℕ
hour = 60 * minute

pub record Policy : Type 0 where
  pub ttl : ℕ
  pub max_failed_attempts : ℕ
  pub lock_duration : ℕ

abbrev pub default_policy : Policy
default_policy = record {
  ttl = 30 * 24 * hour;
  max_failed_attempts = 10;
  lock_duration = 15 * minute;
}

unfoldable pub expires_at : Policy → ℕ → ℕ
expires_at p now = now + p.ttl

unfoldable pub locked_until : Policy → ℕ → ℕ
locked_until p now = now + p.lock_duration

-- LockoutError.RetryAfter: whole seconds, rounded half up, never negative.
unfoldable pub retry_after : ℕ → ℕ → ℕ
retry_after until now = if leb until now then 0 else (until - now + second / 2) / second

-- What the service rests on beyond the store: tables, argon2, SHA-256 and the environment.
pub record Platform : Type 0 where
  pub unicode : Unicode
  pub argon2 : Argon2
  pub sha256 : Text → Text
  pub env : Env

-- The fields of Service that are configuration.
pub record Config : Type 0 where
  pub policy : Policy
  pub params : PasswordParams

abbrev pub default_config : Config
default_config = record { policy = default_policy; params = default_password_params }

-- SignInContext; the user agent is its bytes.
pub record SignInContext : Type 0 where
  pub user_agent : Text
  pub ip : Option Text

-- Session: what a sign-in produces.
pub record Session : Type 0 where
  pub token : Text
  pub id : ℕ
  pub user_id : ℕ
  pub issued_at : ℕ
  pub expires_at : ℕ

unfoldable pub normalise_email : Unicode → Text → Text
normalise_email u email = Strings.to_lower u (Strings.trim_space email)
