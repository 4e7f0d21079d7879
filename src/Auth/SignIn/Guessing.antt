-- ===== src/Auth/SignIn/Guessing.antt =====
-- Guessing a password: what the answers tell, and how many guesses there are.
use warp_work.Base.{
  ℕ, ◌+◌, ◌<◌, ◌≤◌, ◌≡◌, refl, ap, ◌∙◌, false, none, some, List, [], ◌∷◌, Text, All, length, arith,
}
use warp_work.Base.Result.{err}
use warp_work.Store.{World, IsUp}
use warp_work.Store.Auth.{AuthDb}
use warp_work.Store.Auth.Credentials.{Credential, max_smallint}
use warp_work.Store.Auth.Counting.{find_credential-count_failure}
use warp_work.Auth.{locked, Platform, Config, SignInContext, locked_until, normalise_email}
use warp_work.Auth.Password.{mismatch, verify_password}
use warp_work.Auth.SignIn.{sign_in_with_password, lock_in_force, refuse}
use warp_work.Auth.SignIn.Lockout.{
  later, next, failed_once, credential_of, sign_in_unknown, sign_in_wrong, sign_in_locked,
}

module _ (p : Platform) (c : Config) (sc : SignInContext) where
  -- Where both calls reach the database and the policy's limit fits its column, a wrong password
  -- at a registered address, not locked and with failures left, is answered as any password at an
  -- address that nobody registered.
  pub sign_in_indistinct :
      (email unknown : Text) (w : World AuthDb) (cred : Credential) (password other : Text)
      (now : ℕ)
      → IsUp p.env w
      → IsUp p.env (later w)
      → credential_of p c unknown w ≡ none
      → credential_of p c email w ≡ some cred
      → lock_in_force cred.locked_until now ≡ none
      → verify_password p.argon2 password cred.hash ≡ err mismatch
      → cred.failed_attempts + 1 < c.policy.max_failed_attempts
      → c.policy.max_failed_attempts ≤ max_smallint
      → (sign_in_with_password p c email password now sc w).0
        ≡ (sign_in_with_password p c unknown other now sc w).0
  unfolding refuse
  sign_in_indistinct email unknown w cred password other now up up' u e l v below fits =
      rw
        (
          sign_in_wrong p c email w cred password now sc up up' e l v (omega arith),
          sign_in_unknown p c unknown w other now sc up u,
        )
        (ground arith)

  -- Attempts at one address, one after the other: each a password and a time.
  pub guess : Text → List (Text × ℕ) → World AuthDb → World AuthDb
  guess email [] w = w
  guess email ((password, now) ∷ rest) w =
      guess email rest (sign_in_with_password p c email password now sc w).1

  abbrev pub AreWrong : Credential → List (Text × ℕ) → Type 0
  AreWrong cred = All (λ a. verify_password p.argon2 a.0 cred.hash ≡ err mismatch)

  not_locked :
      (cred : Credential) (now : ℕ)
      → cred.locked_until ≡ none
      → lock_in_force cred.locked_until now ≡ none
  unfolding lock_in_force
  not_locked cred now l = rw l refl

  -- One guess below the limit.
  credential-sign_in :
      (email : Text) (w : World AuthDb) (cred : Credential) (password : Text) (now : ℕ)
      → ((n : ℕ) → p.env.down n ≡ false)
      → credential_of p c email w ≡ some cred
      → cred.locked_until ≡ none
      → verify_password p.argon2 password cred.hash ≡ err mismatch
      → cred.failed_attempts + 1 < c.policy.max_failed_attempts
      → c.policy.max_failed_attempts ≤ max_smallint
      → credential_of p c email (sign_in_with_password p c email password now sc w).1
        ≡ some (record cred { failed_attempts = cred.failed_attempts + 1 })
  credential-sign_in email w cred password now up e l v below fits =
      ap (λ r. credential_of p c email r.1)
        (sign_in_wrong p c email w cred password now sc (up _) (up _) e (not_locked cred now l) v
          (omega arith))
      ∙ find_credential-count_failure (normalise_email p.unicode email) c.policy.max_failed_attempts
          (locked_until c.policy now) w.db cred e
      ∙ ground arith

  -- Below the limit each guess is counted and nothing is locked.
  credential-guess :
      (email : Text) (attempts : List (Text × ℕ)) (w : World AuthDb) (cred : Credential)
      → ((n : ℕ) → p.env.down n ≡ false)
      → credential_of p c email w ≡ some cred
      → cred.locked_until ≡ none
      → AreWrong cred attempts
      → cred.failed_attempts + length attempts < c.policy.max_failed_attempts
      → c.policy.max_failed_attempts ≤ max_smallint
      → credential_of p c email (guess email attempts w)
        ≡ some (record cred { failed_attempts = cred.failed_attempts + length attempts })
  unfolding guess
  credential-guess email [] w cred up e l v below fits = e ∙ ground arith
  credential-guess email ((password, now) ∷ rest) w cred up e l v below fits =
      credential-guess email rest (sign_in_with_password p c email password now sc w).1
        (record cred { failed_attempts = cred.failed_attempts + 1 }) up
        (credential-sign_in email w cred password now up e l v.0 (omega arith) fits) l v.1
        (omega arith) fits
      ∙ ground arith

  next_locks :
      (email : Text) (cred : Credential) (now : ℕ)
      → cred.failed_attempts + 1 ≡ c.policy.max_failed_attempts
      → (next p c email now cred).locked_until ≡ some (locked_until c.policy now)
  next_locks email cred now at = ground arith

  -- With a database that answers every call, a lock duration that is not zero and a limit that
  -- fits its column, wrong passwords up to the policy's limit lock a credential that has no lock:
  -- the guess that reaches the limit is answered by the lock, and until the lock ends every
  -- password at that address is refused by the same lock, the right one too.
  pub sign_in-guess :
      (email : Text) (attempts : List (Text × ℕ)) (w : World AuthDb) (cred : Credential)
      (last password : Text) (now afterwards : ℕ)
      → ((n : ℕ) → p.env.down n ≡ false)
      → credential_of p c email w ≡ some cred
      → cred.locked_until ≡ none
      → AreWrong cred ((last, now) ∷ attempts)
      → cred.failed_attempts + length attempts + 1 ≡ c.policy.max_failed_attempts
      → c.policy.max_failed_attempts ≤ max_smallint
      → now < locked_until c.policy now
      → afterwards < locked_until c.policy now
      → let guessed = sign_in_with_password p c email last now sc (guess email attempts w) in
        (guessed.0 ≡ err (locked (locked_until c.policy now)))
        × ((sign_in_with_password p c email password afterwards sc guessed.1).0
            ≡ err (locked (locked_until c.policy now)))
  sign_in-guess email attempts w cred last password now afterwards up e l v at fits locks before =
      let cred' : Credential = record cred {
        failed_attempts = cred.failed_attempts + length attempts;
      } in
      let w' : World AuthDb = guess email attempts w in
      let e' = credential-guess email attempts w cred up e l v.1 (omega arith) fits in
      let wrong =
        sign_in_wrong p c email w' cred' last now sc (up _) (up _) e' (not_locked cred' now l) v.0
          (omega arith) in
      let locks' = next_locks email cred' now at in
      rw wrong (
        unfold refuse lock_in_force in rw locks' (ground arith),
        ap (λ r. r.0)
            (sign_in_locked p c email (failed_once p c email now cred' w')
              (next p c email now cred') (locked_until c.policy now) password afterwards sc (up _)
              (find_credential-count_failure (normalise_email p.unicode email)
                c.policy.max_failed_attempts (locked_until c.policy now) w'.db cred' e')
              locks' before),
      )
