-- ===== src/Auth/Federated/Joining.antt =====
-- Whom an identity that Google shows belongs to.
use warp_work.Base.{
  ℕ, ◌&&◌, ◌≡◌, subst, sym, ◌∙◌, true, false, Option, none, some, Text, text_eq, find, arith, inl,
  inr, ◌⊎◌,
}
use warp_work.Base.Result.{Result, ok, err}
use warp_work.Base.Act.{◌>>=◌, ◌>>◌, pure, lift, wrapping, attempt}
use warp_work.Base.Act.Laws.{
  Ensures, Ensures-bind, Gives, Gives-bind, Gives-fail, Gives-if, Gives-call, Gives-Ensures,
}
use warp_work.Store.{World, DbError, no_rows, run, new_v7}
use warp_work.Store.Auth.{AuthDb, AuthProvider, UserProfile, google, kind_eq}
use warp_work.Store.Auth.Accounts.{
  create_user, create_user_profile, user_profile_by_email, same_email,
}
use warp_work.Auth.{AuthError, Platform, database}
use warp_work.Auth.Token.{Auth, uuid_of}
use warp_work.Auth.Federated.{
  Identity, display_name_for, resolve_account_for, resolve_by_email, create_federated_account,
}

-- The identity that a subject of Google is linked to.
abbrev pub linked : Text → AuthDb → Option AuthProvider
linked subject db = find (λ p. kind_eq p.kind google && text_eq p.subject subject) db.providers

module _ (p : Platform) where
  abbrev pub profile_of : Text → AuthDb → Option UserProfile
  profile_of email db = find (λ u. same_email p.unicode u.email email) db.profiles

  -- The environment made the id.
  abbrev pub IsMade : ℕ → Type 0
  IsMade id = (n : ℕ) × (p.env.new_v7 n ≡ some id)

  -- Whom an identity that is not linked belongs to: the owner of its address, which Google has
  -- verified, or somebody new.
  abbrev pub Joins : Identity → AuthDb → ℕ → Type 0
  Joins identity db user_id =
      ((identity.email_verified ≡ true)
        × ((u : UserProfile) × (profile_of identity.email db ≡ some u) × (user_id ≡ u.user_id)))
      ⊎ (((identity.email_verified ≡ false) ⊎ (profile_of identity.email db ≡ none))
          × IsMade user_id)

  abbrev pub Belongs : Identity → AuthDb → ℕ → Type 0
  Belongs identity db user_id =
      ((r : AuthProvider) × (linked identity.subject db ≡ some r) × (user_id ≡ r.user_id))
      ⊎ ((linked identity.subject db ≡ none) × Joins identity db user_id)

  uuid-made : (v : Option ℕ) (id : ℕ) → uuid_of v ≡ ok id → v ≡ some id
  unfolding uuid_of
  uuid-made none id q = cc
  uuid-made (some x) id q = ground arith

  is_id : (id : ℕ) → Ensures (λ a w. a ≡ id) (pure {E = AuthError} {S = World AuthDb} id)
  is_id id = record { at = λ w a q. ground arith }

  -- The writes of a new account.
  abbrev stored : Identity → ℕ → Auth ℕ
  stored identity user_id = do
    wrapping database (run p.env (create_user user_id))
    wrapping database (
        run p.env
          (create_user_profile p.unicode user_id identity.email (display_name_for identity)))
    pure user_id

  stored_id : (identity : Identity) (id : ℕ) → Ensures (λ a w. a ≡ id) (stored identity id)
  stored_id identity id = search (Ensures-bind, is_id) depth 12

  abbrev made : Identity → Option ℕ → Auth ℕ
  made identity v7 = do id ← lift (uuid_of v7); stored identity id

  -- A new account has an id that was just made.
  create_federated_account-IsMade :
      (identity : Identity) (w : World AuthDb)
      → Gives IsMade (create_federated_account p identity) w
  unfolding create_federated_account
  create_federated_account-IsMade identity w =
      Gives-bind (λ v. p.env.new_v7 w.calls ≡ v) (new_v7 p.env) (made identity) w
        (Gives-call (new_v7 p.env) w (λ v e. ground arith))
        (λ v e.
          Gives-bind IsMade (lift (uuid_of v)) (stored identity) _
            (Gives-call (lift (uuid_of v)) _ (λ id q. (w.calls, e ∙ uuid-made v id q)))
            (λ id h.
              Gives-Ensures {R = λ a t. a ≡ id} (stored identity id) _ (stored_id identity id)
                (λ a t o. subst IsMade (sym o) h)))

  resolve_by_email-Joins :
      (identity : Identity) (r : Result DbError UserProfile) (w w' : World AuthDb)
      → (run p.env (user_profile_by_email p.unicode identity.email) w).0 ≡ r
      → identity.email_verified ≡ true
      → Gives (Joins identity w.db) (resolve_by_email p identity r) w'
  unfolding resolve_by_email run user_profile_by_email
  resolve_by_email-Joins identity (ok profile) w w' e v =
      Gives-call _ w' (λ id q. inl (v, (profile, ground arith, ground arith)))
  resolve_by_email-Joins identity (err no_rows) w w' e v =
      Gives-call _ w'
        (λ id q. inr (inr (ground arith), (create_federated_account-IsMade identity w').at id q))
  resolve_by_email-Joins identity (err _) w w' e v = Gives-fail _ w'

  pub resolve_account_for-Joins :
      (identity : Identity) (w : World AuthDb)
      → Gives (Joins identity w.db) (resolve_account_for p identity) w
  unfolding resolve_account_for
  resolve_account_for-Joins identity w =
      Gives-if identity.email_verified _ _ w
        (λ v.
          Gives-bind (λ r. (run p.env (user_profile_by_email p.unicode identity.email) w).0 ≡ r)
            (attempt (run p.env (user_profile_by_email p.unicode identity.email))) _ w
            (Gives-call (attempt (run p.env (user_profile_by_email p.unicode identity.email))) w
              (λ r e. ground arith))
            (λ r e. resolve_by_email-Joins identity r w _ e v))
        (λ v.
          Gives-call _ w
            (λ id q. inr (inl v, (create_federated_account-IsMade identity w).at id q)))
