-- ===== src/Auth/SignIn.antt =====
-- internal/auth/auth.go: SignInWithPassword and what it calls. The work that it spends on the dummy
-- hash, for an address that is not registered, has no effect but the time it takes.
pub mod Lockout
pub mod Guessing
pub mod Success
use warp_work.Base.{ℕ, Bool, true, false, Option, none, some, Text, ltb, if◌then◌else◌}
use warp_work.Base.Result.{Result, ok, err}
use warp_work.Base.Act.{Act, pure, fail, lift, attempt, wrapping, ◌>>=◌, ◌>>◌}
use warp_work.Store.{Env, World, DbError, no_rows, run, rand_read}
use warp_work.Store.Auth.{AuthDb}
use warp_work.Store.Auth.Accounts.{mark_provider_used, update_password_hash}
use warp_work.Store.Auth.Credentials.{
  Credential, get_password_credential, record_failed_login, clear_failed_logins,
}
use warp_work.Auth.{
  AuthError, bad_credentials, locked, database, password_fault, Platform, Config, Policy,
  SignInContext, Session, locked_until, normalise_email,
}
use warp_work.Auth.Password.{
  PasswordError, mismatch, malformed, no_randomness, panics, hash_password, verify_password,
  needs_rehash,
}
use warp_work.Auth.Token.{Auth, open_session}

-- The lock of a credential, where it is still in force.
unfoldable pub lock_in_force : Option ℕ → ℕ → Option ℕ
lock_in_force none now = none
lock_in_force (some until) now = if ltb now until then some until else none

module _ (p : Platform) (c : Config) where
  unfoldable pub refuse : Option ℕ → AuthError
  refuse none = bad_credentials
  refuse (some until) = locked until

  -- recordFailure: its error.
  unfoldable pub record_failure : ℕ → ℕ → Auth Session
  record_failure provider_id now = do
    (attempts, lock) ← wrapping database (
        run p.env (
          record_failed_login provider_id c.policy.max_failed_attempts (locked_until c.policy now)))
    fail (refuse (lock_in_force lock now))

  -- The upgraded hash is stored, and an error of that is dropped.
  unfoldable pub store_upgrade : ℕ → Result PasswordError Text → Auth (Unit {0})
  store_upgrade provider_id (err panics) = fail (password_fault panics)
  store_upgrade provider_id (err _) = pure tt
  store_upgrade provider_id (ok upgraded) = do
    attempt (run p.env (update_password_hash provider_id upgraded))
    pure tt

  unfoldable pub rehash : Credential → Text → Auth (Unit {0})
  rehash cred password =
      if needs_rehash cred.hash c.params
      then (do
        salt ← rand_read p.env c.params.salt_length
        store_upgrade cred.provider_id (hash_password p.argon2 salt password c.params))
      else pure tt

  -- What follows a password that is right.
  unfoldable pub admit : Credential → Text → ℕ → SignInContext → Auth Session
  admit cred password now sc = do
    wrapping database (run p.env (clear_failed_logins cred.provider_id))
    rehash cred password
    wrapping database (run p.env (mark_provider_used cred.provider_id now))
    open_session p c cred.user_id (some cred.provider_id) now sc

  unfoldable pub verified :
      Result PasswordError (Unit {0}) → Credential → Text → ℕ → SignInContext → Auth Session
  verified (ok _) cred password now sc = admit cred password now sc
  verified (err mismatch) cred password now sc = record_failure cred.provider_id now
  verified (err e) cred password now sc = fail (password_fault e)

  -- The lock is looked at before the password.
  unfoldable pub check_credential : Credential → Text → ℕ → SignInContext → Auth Session
  check_credential cred password now sc = elim (lock_in_force cred.locked_until now) [
    | some until ↦ fail (locked until)
    | none ↦ verified (verify_password p.argon2 password cred.hash) cred password now sc
  ]

  unfoldable pub found : Result DbError Credential → Text → ℕ → SignInContext → Auth Session
  found (err no_rows) password now sc = fail bad_credentials
  found (err e) password now sc = fail (database e)
  found (ok cred) password now sc = check_credential cred password now sc

  -- SignInWithPassword
  unfoldable pub sign_in_with_password : Text → Text → ℕ → SignInContext → Auth Session
  sign_in_with_password email password now sc = do
    credential ← attempt (run p.env (get_password_credential (normalise_email p.unicode email)))
    found credential password now sc
