-- ===== src/Auth/Register.antt =====
-- internal/auth/auth.go: Register.
pub mod Outcome
use warp_work.Base.{
  ℕ, Bool, true, false, ◌||◌, Option, none, some, [], Text, text_eq, if◌then◌else◌,
}
use warp_work.Base.Result.{Result, ok, err}
use warp_work.Base.Act.{Act, pure, fail, lift, attempt, wrapping, ◌>>=◌, ◌>>◌}
use warp_work.Strings
use warp_work.Store.{World, DbError, unavailable, unique_violation, run, new_v7, rand_read, in_tx}
use warp_work.Store.Auth.{AuthDb, password}
use warp_work.Store.Auth.Accounts.{
  create_user, create_user_profile, create_auth_provider, create_auth_password,
}
use warp_work.Auth.{
  AuthError, email_taken, invalid_input, database, password_fault, Platform, Config, SignInContext,
  Session, normalise_email,
}
use warp_work.Auth.Password.{PasswordError, hash_password}
use warp_work.Auth.Token.{Auth, open_session, uuid_of}

pub record RegisterParams : Type 0 where
  pub email : Text
  pub password : Text
  pub display_name : Text

unfoldable pub hashed : Result PasswordError Text → Result AuthError Text
hashed (ok h) = ok h
hashed (err e) = err (password_fault e)

-- isUniqueViolation, which looks at the SQLSTATE and not at the constraint.
unfoldable pub or_email_taken : AuthError → AuthError
or_email_taken (database (unique_violation _)) = email_taken
or_email_taken e = e

module _ (p : Platform) (c : Config) where
  -- The function that Register runs in one transaction, on the normalised email and name.
  unfoldable pub create_account : Text → Text → Text → ℕ → SignInContext → Auth Session
  create_account email display_name secret now sc = do
    salt ← rand_read p.env c.params.salt_length
    hash ← lift (hashed (hash_password p.argon2 salt secret c.params))
    v7 ← new_v7 p.env
    user_id ← lift (uuid_of v7)
    v7 ← new_v7 p.env
    provider_id ← lift (uuid_of v7)
    wrapping database (run p.env (create_user user_id))
    wrapping database (run p.env (create_user_profile p.unicode user_id email display_name))
    wrapping database (
        run p.env (
          create_auth_provider (record {
            id = provider_id;
            user_id = user_id;
            kind = password;
            subject = email;
            email = some email;
            is_primary = true;
          })))
    wrapping database (run p.env (create_auth_password provider_id hash))
    open_session p c user_id (some provider_id) now sc

  unfoldable pub register : RegisterParams → ℕ → SignInContext → Auth Session
  register arg now sc =
      let email = normalise_email p.unicode arg.email in
      let display_name = Strings.trim_space arg.display_name in
      if text_eq email [] || text_eq display_name []
      then fail invalid_input
      else wrapping or_email_taken (
          in_tx p.env (database unavailable)
            (create_account email display_name arg.password now sc))
