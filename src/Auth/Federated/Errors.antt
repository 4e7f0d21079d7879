-- ===== src/Auth/Federated/Errors.antt =====
-- What CompleteGoogleSignIn answers, and what it writes, when it fails.
use warp_work.Base.{ℕ, ◌≡◌, ◌≢◌, refl, Option, none, some, Text, arith}
use warp_work.Base.Result.{Result, ok, err}
use warp_work.Base.Act.Laws.{
  Raises, Raises-pure, Raises-fail, Raises-if, Raises-lift, Raises-attempt, Raises-wrapping,
  Raises-bind,
}
use warp_work.Store.{Env, World, DbError, no_rows, unavailable, new_v7, rand_read}
use warp_work.Store.Transactions.{
  NoneLost, in_tx-Raises, Restores, Restores-fail, Restores-if, Restores-lift, Restores-in_tx,
}
use warp_work.Store.Auth.{AuthDb, AuthProvider, UserProfile}
use warp_work.Auth.{
  AuthError, email_taken, provider_not_configured, state_mismatch, no_email_from_provider, database,
  Platform, Config, SignInContext,
}
use warp_work.Auth.Token.{open_session, uuid_of, token_of}
use warp_work.Auth.Federated.{
  Google, Identity, FlowState, verify, check_token, resolve_account_for, resolve_by_email,
  create_federated_account, sign_in_known, link_identity, by_subject, sign_in_identity,
  complete_google_sign_in,
}

-- The error is not the one that says that the email is taken.
abbrev NotTaken : AuthError → Type 0
NotTaken e = e ≢ email_taken

database-NotTaken : (x : DbError) → NotTaken (database x)
database-NotTaken x e = cc

uuid_of-NotTaken : (v : Option ℕ) (e : AuthError) → uuid_of v ≡ err e → NotTaken e
uuid_of-NotTaken none e q k = unfold uuid_of in cc
uuid_of-NotTaken (some i) e q k = unfold uuid_of in cc

token_of-NotTaken : (v : Option Text) (e : AuthError) → token_of v ≡ err e → NotTaken e
token_of-NotTaken v e q k = unfold token_of in ground arith

new_v7-NotTaken : (env : Env) → Raises {S = World AuthDb} NotTaken (new_v7 env)
new_v7-NotTaken env = record { at = λ w e q. cc }

rand_read-NotTaken : (env : Env) (n : ℕ) → Raises {S = World AuthDb} NotTaken (rand_read env n)
rand_read-NotTaken env n = record { at = λ w e q. cc }

no_email-NotTaken : NotTaken no_email_from_provider
no_email-NotTaken e = cc

ruleset not_taken = (
  no_email-NotTaken, Raises-pure, Raises-fail, Raises-if, Raises-lift, Raises-attempt,
  Raises-wrapping, Raises-bind, database-NotTaken, uuid_of-NotTaken, token_of-NotTaken,
  new_v7-NotTaken, rand_read-NotTaken,
)

module _ (p : Platform) (c : Config) where
  open_session-NotTaken :
      (user_id : ℕ) (provider_id : Option ℕ) (now : ℕ) (sc : SignInContext)
      → Raises NotTaken (open_session p c user_id provider_id now sc)
  unfolding open_session
  open_session-NotTaken user_id provider_id now sc = search not_taken depth 12

  create_federated_account-NotTaken :
      (identity : Identity) → Raises NotTaken (create_federated_account p identity)
  unfolding create_federated_account
  create_federated_account-NotTaken identity = search not_taken depth 12

  resolve_by_email-NotTaken :
      (identity : Identity) (r : Result DbError UserProfile)
      → Raises NotTaken (resolve_by_email p identity r)
  unfolding resolve_by_email
  resolve_by_email-NotTaken identity (ok profile) = search not_taken
  resolve_by_email-NotTaken identity (err no_rows) = create_federated_account-NotTaken identity
  resolve_by_email-NotTaken identity (err _) = search not_taken

  resolve_account_for-NotTaken :
      (identity : Identity) → Raises NotTaken (resolve_account_for p identity)
  unfolding resolve_account_for
  resolve_account_for-NotTaken identity =
      search (not_taken, resolve_by_email-NotTaken, create_federated_account-NotTaken) depth 8

  link_identity-NotTaken :
      (identity : Identity) (now : ℕ) (sc : SignInContext)
      → Raises NotTaken (link_identity p c identity now sc)
  unfolding link_identity
  link_identity-NotTaken identity now sc =
      search (not_taken, resolve_account_for-NotTaken, open_session-NotTaken) depth 16

  by_subject-NotTaken :
      (identity : Identity) (r : Result DbError AuthProvider) (now : ℕ) (sc : SignInContext)
      → Raises NotTaken (by_subject p c identity r now sc)
  unfolding by_subject sign_in_known
  by_subject-NotTaken identity (ok provider) now sc =
      search (not_taken, open_session-NotTaken) depth 8
  by_subject-NotTaken identity (err no_rows) now sc = link_identity-NotTaken identity now sc
  by_subject-NotTaken identity (err _) now sc = search not_taken

  sign_in_identity-NotTaken :
      (identity : Identity) (now : ℕ) (sc : SignInContext)
      → Raises NotTaken (sign_in_identity p c identity now sc)
  unfolding sign_in_identity
  sign_in_identity-NotTaken identity now sc = search (not_taken, by_subject-NotTaken) depth 8

  verify-NotTaken :
      (g : Google) (code nonce : Text) (e : AuthError) → verify p g code nonce ≡ err e → NotTaken e
  unfolding verify check_token
  verify-NotTaken g code nonce e q k = ground arith

  -- CompleteGoogleSignIn never answers that the email is taken.
  pub complete_google_sign_in-NotTaken :
      (g : Option Google) (code state : Text) (flow : FlowState) (now : ℕ) (sc : SignInContext)
      (w : World AuthDb)
      → (complete_google_sign_in p c g code state flow now sc w).0 ≢ err email_taken
  complete_google_sign_in-NotTaken g code state flow now sc w q = (raises g).at w email_taken q refl
    where
      raises :
          (g : Option Google)
          → Raises NotTaken (complete_google_sign_in p c g code state flow now sc)
      raises none =
          unfold complete_google_sign_in in (Raises-fail provider_not_configured (λ e. cc))
      raises (some g) =
          unfold complete_google_sign_in in
          Raises-if _ _ _ (Raises-fail provider_not_configured (λ e. cc)) (
            Raises-if _ _ _ (Raises-fail state_mismatch (λ e. cc)) (
              Raises-bind _ _ (Raises-lift _ (verify-NotTaken g code flow.nonce)) (λ i.
                in_tx-Raises p.env _ NotTaken (database-NotTaken unavailable) _
                  (sign_in_identity-NotTaken i now sc))))

  -- Where no commit takes effect unacknowledged, a sign-in with Google that fails, at whatever
  -- step, leaves the database as it was.
  pub db-complete_google_sign_in :
      (g : Option Google) (code state : Text) (flow : FlowState) (now : ℕ) (sc : SignInContext)
      (w : World AuthDb) (e : AuthError)
      → NoneLost p.env
      → (complete_google_sign_in p c g code state flow now sc w).0 ≡ err e
      → (complete_google_sign_in p c g code state flow now sc w).1.db ≡ w.db
  db-complete_google_sign_in g code state flow now sc w e n q = (restores g).at w e q
    where
      restores :
          (g : Option Google) → Restores (complete_google_sign_in p c g code state flow now sc)
      restores none = unfold complete_google_sign_in in Restores-fail provider_not_configured
      restores (some g) =
          unfold complete_google_sign_in in
          Restores-if _ _ _ (Restores-fail provider_not_configured) (
            Restores-if _ _ _ (Restores-fail state_mismatch)
              (Restores-lift _ _ (λ i. Restores-in_tx p.env _ _ n)))
