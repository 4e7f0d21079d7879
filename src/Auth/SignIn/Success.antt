-- ===== src/Auth/SignIn/Success.antt =====
-- What a successful password sign-in means, and what it gives.
use warp_work.Base.{ℕ, ◌<◌, ◌≡◌, refl, none, some, Text, arith, Option-cases, inl, inr}
use warp_work.Base.Result.{Result, ok, err}
use warp_work.Base.Act.Laws.{Ensures, Ensures-bind, Ensures-fail, Ensures-if}
use warp_work.Store.{World, DbError, no_rows, IsUp, run}
use warp_work.Store.Auth.{AuthDb}
use warp_work.Store.Auth.Sessions.{SessionRow}
use warp_work.Store.Auth.Credentials.{Credential, find_credential, get_password_credential}
use warp_work.Auth.{Platform, Config, SignInContext, Session}
use warp_work.Auth.Password.{PasswordError, mismatch, verify_password}
use warp_work.Auth.Token.Opening.{
  Opens, open_session-Opens, IsUsable, IsUsable-of_Opens, authenticate_usable,
}
use warp_work.Auth.Sessions.{authenticate}
use warp_work.Auth.SignIn.Lockout.{credential_of}
use warp_work.Auth.SignIn.{
  sign_in_with_password, check_credential, record_failure, admit, verified, found, lock_in_force,
}

module _ (p : Platform) (c : Config) where
  ruleset success = (Ensures-bind, Ensures-fail, Ensures-if, open_session-Opens)

  admit-Opens :
      (cred : Credential) (password : Text) (now : ℕ) (sc : SignInContext)
      → Ensures (λ s w. Opens p cred.user_id s w.db) (admit p c cred password now sc)
  unfolding admit
  admit-Opens cred password now sc = search (Ensures-bind, open_session-Opens) depth 8

  no_session_of_failure :
      (provider_id now : ℕ) → Ensures (λ s w. ⊥) (record_failure p c provider_id now)
  unfolding record_failure
  no_session_of_failure provider_id now = search (Ensures-bind, Ensures-fail)

  -- What a session says of the sign-in that it came from.
  abbrev pub Admits : Credential → Text → ℕ → Session → World AuthDb → Type 0
  Admits cred password now s w =
      (lock_in_force cred.locked_until now ≡ none)
      × (verify_password p.argon2 password cred.hash ≡ ok tt)
      × Opens p cred.user_id s w.db

  verified-Opens :
      (r : Result PasswordError (Unit {0})) (cred : Credential) (password : Text) (now : ℕ)
      (sc : SignInContext) (w : World AuthDb) (s : Session)
      → (verified p c r cred password now sc w).0 ≡ ok s
      → (r ≡ ok tt) × Opens p cred.user_id s (verified p c r cred password now sc w).1.db
  unfolding verified
  verified-Opens (ok tt) cred password now sc w s q =
      (refl, (admit-Opens cred password now sc).at w s q)
  verified-Opens (err mismatch) cred password now sc w s q =
      absurd ((no_session_of_failure cred.provider_id now).at w s q)
  verified-Opens (err _) cred password now sc w s q = cc

  check_credential-Admits :
      (cred : Credential) (password : Text) (now : ℕ) (sc : SignInContext)
      → Ensures (Admits cred password now) (check_credential p c cred password now sc)
  unfolding check_credential
  check_credential-Admits cred password now sc = record {
    at = λ w s q. elim (Option-cases (lock_in_force cred.locked_until now)) [
      | inr (until, l) ↦ cc (rw (l, check_credential) at q)
      | inl l ↦
          let (v, o) = verified-Opens _ cred password now sc w s (rw (l, check_credential) at q) in
          (l, v, rw (l, check_credential) o)
    ];
  }

  found-Admits :
      (r : Result DbError Credential) (password : Text) (now : ℕ) (sc : SignInContext)
      (w : World AuthDb) (s : Session)
      → (found p c r password now sc w).0 ≡ ok s
      → (cred : Credential) × (r ≡ ok cred)
        × Admits cred password now s (found p c r password now sc w).1
  unfolding found
  found-Admits (ok cred) password now sc w s q =
      (cred, refl, (check_credential-Admits cred password now sc).at w s q)
  found-Admits (err no_rows) password now sc w s q = cc
  found-Admits (err _) password now sc w s q = cc

  credential-run :
      (email : Text) (w : World AuthDb) (cred : Credential)
      → (run p.env (get_password_credential email) w).0 ≡ ok cred
      → find_credential email w.db ≡ some cred
  unfolding run get_password_credential
  credential-run email w cred q = ground arith

  -- Whoever is signed in with a password gave the password of the address's credential, which was
  -- not locked at the time, and the session is that credential's user's.
  pub sign_in_sound :
      (email password : Text) (now : ℕ) (sc : SignInContext) (w : World AuthDb) (s : Session)
      → (sign_in_with_password p c email password now sc w).0 ≡ ok s
      → (cred : Credential) × (credential_of p c email w ≡ some cred)
        × (lock_in_force cred.locked_until now ≡ none)
        × (verify_password p.argon2 password cred.hash ≡ ok tt)
        × (s.user_id ≡ cred.user_id)
  unfolding sign_in_with_password
  sign_in_sound email password now sc w s q =
      let (cred, r, a) = found-Admits _ password now sc _ s q in
      (cred, credential-run _ w cred r, a.0, a.1, a.2.of_user)

  pub sign_in-IsUsable :
      (email password : Text) (now : ℕ) (sc : SignInContext) (w : World AuthDb) (s : Session)
      → (sign_in_with_password p c email password now sc w).0 ≡ ok s
      → IsUsable p s (sign_in_with_password p c email password now sc w).1.db
  unfolding sign_in_with_password
  sign_in-IsUsable email password now sc w s q =
      let (cred, r, a) = found-Admits _ password now sc _ s q in
      IsUsable-of_Opens p c cred.user_id s _ a.2

  -- After a password sign-in that succeeded, the session's token lets its bearer in, as the
  -- session's id and user, at every time before the session expires, if the call reaches the
  -- database.
  pub authenticate-sign_in :
      (email password : Text) (now later : ℕ) (sc : SignInContext) (w : World AuthDb) (s : Session)
      → (sign_in_with_password p c email password now sc w).0 ≡ ok s
      → IsUp p.env (sign_in_with_password p c email password now sc w).1
      → later < s.expires_at
      → (row : SessionRow) × ((authenticate p s.token later
            (sign_in_with_password p c email password now sc w).1).0
          ≡ ok row)
        × (row.0.id ≡ s.id)
        × (row.0.user_id ≡ s.user_id)
  authenticate-sign_in email password now later sc w s q up h =
      authenticate_usable p c s _ later (sign_in-IsUsable email password now sc w s q) up h
