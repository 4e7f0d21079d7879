-- ===== src/Auth/SignIn/Lockout.antt =====
-- Wrong passwords, the count of them, and the lock.
use warp_work.Base.{ℕ, suc, ◌+◌, ◌<◌, ◌≤◌, ◌≡◌, ◌∙◌, Option, none, some, Text, arith}
use warp_work.Base.Result.{err}
use warp_work.Store.{World, IsUp, run_up}
use warp_work.Store.Auth.{AuthDb}
use warp_work.Store.Auth.Credentials.{
  Credential, find_credential, get_password_credential, record_failed_login, set_password,
  count_failure, max_smallint,
}
use warp_work.Store.Auth.Counting.{with_failure, record_failed_login_lem}
use warp_work.Auth.{
  bad_credentials, locked, Platform, Config, SignInContext, normalise_email, locked_until,
}
use warp_work.Auth.Password.{mismatch, verify_password}
use warp_work.Auth.SignIn.{
  sign_in_with_password, check_credential, record_failure, verified, found, lock_in_force, refuse,
}

abbrev pub later : World AuthDb → World AuthDb
later w = record w { calls = suc w.calls }

module _ (p : Platform) (c : Config) (email : Text) where
  abbrev pub credential_of : World AuthDb → Option Credential
  credential_of w = find_credential (normalise_email p.unicode email) w.db

  -- What the service sees of the credential.
  sign_in-found :
      (w : World AuthDb) (cred : Credential) (password : Text) (now : ℕ) (sc : SignInContext)
      → IsUp p.env w
      → credential_of w ≡ some cred
      → sign_in_with_password p c email password now sc w
        ≡ check_credential p c cred password now sc (later w)
  unfolding sign_in_with_password get_password_credential found
  sign_in-found w cred password now sc up e =
      ground (arith, run_up p.env (get_password_credential (normalise_email p.unicode email)) w)

  -- An address without a password identity gets the answer of a wrong password, and nothing is
  -- written.
  pub sign_in_unknown :
      (w : World AuthDb) (password : Text) (now : ℕ) (sc : SignInContext)
      → IsUp p.env w
      → credential_of w ≡ none
      → sign_in_with_password p c email password now sc w ≡ (err bad_credentials, later w)
  unfolding sign_in_with_password get_password_credential found
  sign_in_unknown w password now sc up e =
      ground (arith, run_up p.env (get_password_credential (normalise_email p.unicode email)) w)

  -- Where the call reaches the database and a lock is in force, every password at the address is
  -- refused by the lock, the right one too, and nothing is written.
  pub sign_in_locked :
      (w : World AuthDb) (cred : Credential) (until : ℕ) (password : Text) (now : ℕ)
      (sc : SignInContext)
      → IsUp p.env w
      → credential_of w ≡ some cred
      → cred.locked_until ≡ some until
      → now < until
      → sign_in_with_password p c email password now sc w ≡ (err (locked until), later w)
  sign_in_locked w cred until password now sc up e l h =
      sign_in-found w cred password now sc up e
      ∙ unfold check_credential lock_in_force in rw l (ground arith)

  -- What the database holds after a wrong password.
  abbrev pub failed_once : ℕ → Credential → World AuthDb → World AuthDb
  failed_once now cred w = record {
    db =
        set_password cred.provider_id
          (count_failure c.policy.max_failed_attempts (locked_until c.policy now)) w.db;
    calls = suc (suc w.calls);
  }

  abbrev pub next : ℕ → Credential → Credential
  next now = with_failure c.policy.max_failed_attempts (locked_until c.policy now)

  -- The count that one more failure makes fits its column.
  abbrev pub HasRoom : Credential → Type 0
  HasRoom cred = cred.failed_attempts + 1 ≤ max_smallint

  record_failure_lem :
      (w : World AuthDb) (cred : Credential) (now : ℕ)
      → IsUp p.env w
      → credential_of w ≡ some cred
      → HasRoom cred
      → record_failure p c cred.provider_id now w ≡ (
        err (refuse p c (lock_in_force (next now cred).locked_until now)),
        record {
          db =
              set_password cred.provider_id
                (count_failure c.policy.max_failed_attempts (locked_until c.policy now))
                w.db;
          calls = suc w.calls;
        },
      )
  unfolding record_failure
  record_failure_lem w cred now up e room =
      let max = c.policy.max_failed_attempts in
      let until = locked_until c.policy now in
      ground (
        arith,
        run_up p.env (record_failed_login cred.provider_id max until) w,
        record_failed_login_lem _ max until (p.env.db_now w.calls) w.db cred e room,
      )

  -- A wrong password is counted, and refused with the lock if the count reaches the limit.
  pub sign_in_wrong :
      (w : World AuthDb) (cred : Credential) (password : Text) (now : ℕ) (sc : SignInContext)
      → IsUp p.env w
      → IsUp p.env (later w)
      → credential_of w ≡ some cred
      → lock_in_force cred.locked_until now ≡ none
      → verify_password p.argon2 password cred.hash ≡ err mismatch
      → HasRoom cred
      → sign_in_with_password p c email password now sc w ≡ (
        err (refuse p c (lock_in_force (next now cred).locked_until now)),
        failed_once now cred w,
      )
  sign_in_wrong w cred password now sc up up' e l v room =
      sign_in-found w cred password now sc up e
      ∙ unfold check_credential verified in
        rw (l, check_credential, v) (record_failure_lem (later w) cred now up' e room)
