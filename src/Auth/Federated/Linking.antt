-- ===== src/Auth/Federated/Linking.antt =====
-- Whose session a sign-in with Google opens.
use warp_work.Base.{
  ℕ, suc, ◌||◌, not, ◌≡◌, subst, sym, Option, some, [], Text, text_eq→≡, text_eq, arith,
  Option-cases, inl, inr,
}
use warp_work.Base.Result.{Result, ok, err}
use warp_work.Base.Act.{fail, lift, attempt}
use warp_work.Base.Act.Laws.{
  Ensures, Ensures-bind, Gives, Gives-bind, Gives-skip, Gives-fail, Gives-if, Gives-call,
  Gives-Ensures,
}
use warp_work.Store.{World, DbError, no_rows, unavailable, run}
use warp_work.Store.Transactions.{returned-in_tx}
use warp_work.Store.Auth.{AuthDb, AuthProvider, google}
use warp_work.Store.Auth.Accounts.{provider_by_kind_subject}
use warp_work.Auth.{
  Platform, Config, SignInContext, Session, normalise_email, database, no_email_from_provider,
  provider_not_configured, state_mismatch,
}
use warp_work.Auth.Token.{open_session}
use warp_work.Auth.Token.Opening.{open_session-Opens}
use warp_work.Auth.Federated.{
  Google, Identity, IdToken, FlowState, configured, verify, check_token, resolve_account_for,
  sign_in_known, link_identity, by_subject, sign_in_identity, complete_google_sign_in,
}
use warp_work.Auth.Federated.Joining.{Joins, Belongs, resolve_account_for-Joins}

module _ (p : Platform) (c : Config) where
  -- The session opened is that of the user.
  open_session-user :
      (user_id : ℕ) (provider_id : Option ℕ) (now : ℕ) (sc : SignInContext)
      → Ensures (λ s t. s.user_id ≡ user_id) (open_session p c user_id provider_id now sc)
  open_session-user user_id provider_id now sc = record {
    at = λ w s q. ((open_session-Opens p c user_id provider_id now sc).at w s q).of_user;
  }

  link_identity-Joins :
      (identity : Identity) (now : ℕ) (sc : SignInContext) (w : World AuthDb)
      → Gives (λ s. Joins p identity w.db s.user_id) (link_identity p c identity now sc) w
  unfolding link_identity
  link_identity-Joins identity now sc w =
      Gives-if (text_eq identity.email []) (fail no_email_from_provider) _ w
        (λ e. Gives-fail no_email_from_provider w)
        (λ e.
          Gives-bind (Joins p identity w.db) (resolve_account_for p identity) _ w
            (resolve_account_for-Joins p identity w)
            (λ id joins.
              Gives-Ensures {R = λ s t. s.user_id ≡ id} _ _
                (search (Ensures-bind, open_session-user) depth 12)
                (λ s t o. subst (Joins p identity w.db) (sym o) joins)))

  by_subject-Belongs :
      (identity : Identity) (r : Result DbError AuthProvider) (now : ℕ) (sc : SignInContext)
      (w w' : World AuthDb)
      → (run p.env (provider_by_kind_subject google identity.subject) w).0 ≡ r
      → w'.db ≡ w.db
      → Gives (λ s. Belongs p identity w.db s.user_id) (by_subject p c identity r now sc) w'
  unfolding by_subject sign_in_known run provider_by_kind_subject
  by_subject-Belongs identity (ok provider) now sc w w' e d = Gives-skip _ _ _ (λ _ t.
      Gives-call _ t (λ s q. inl (
        provider,
        ground arith,
        (open_session-user provider.user_id (some provider.id) now sc).at t s q,
      )))
  by_subject-Belongs identity (err no_rows) now sc w w' e d = Gives-call _ w' (λ s q. inr (
    ground arith,
    subst (λ db. Joins p identity db s.user_id) d ((link_identity-Joins identity now sc w').at s q),
  ))
  by_subject-Belongs identity (err _) now sc w w' e d = Gives-fail _ w'

  sign_in_identity-Belongs :
      (identity : Identity) (now : ℕ) (sc : SignInContext) (w : World AuthDb)
      → Gives (λ s. Belongs p identity w.db s.user_id) (sign_in_identity p c identity now sc) w
  unfolding sign_in_identity
  sign_in_identity-Belongs identity now sc w =
      Gives-bind (λ r. (run p.env (provider_by_kind_subject google identity.subject) w).0 ≡ r)
        (attempt (run p.env (provider_by_kind_subject google identity.subject))) _ w
        (Gives-call (attempt (run p.env (provider_by_kind_subject google identity.subject))) w
          (λ r e. ground arith))
        (λ r e.
          by_subject-Belongs identity r now sc w _ e
            (unfold run provider_by_kind_subject in ground arith))

  -- The identity that an accepted token shows.
  abbrev pub identity_of : IdToken → Identity
  identity_of t = record {
    subject = t.subject;
    email = normalise_email p.unicode t.email;
    email_verified = t.email_verified;
    name = t.name;
  }

  checked_token :
      (nonce : Text) (t : IdToken) (i : Identity)
      → check_token p nonce t ≡ ok i
      → (t.nonce ≡ nonce) × (i ≡ identity_of t)
  unfolding check_token
  checked_token nonce t i q = (ground (arith, text_eq→≡ t.nonce nonce), ground arith)

  verified_token :
      (g : Google) (code nonce : Text) (i : Identity)
      → verify p g code nonce ≡ ok i
      → (t : IdToken) × (g.exchange code ≡ some t) × (t.nonce ≡ nonce) × (i ≡ identity_of t)
  unfolding verify
  verified_token g code nonce i q = elim (Option-cases (g.exchange code)) [
    | inl e ↦ ground arith
    | inr (t, e) ↦ let (n, same) = checked_token nonce t i (ground arith) in (t, e, n, same)
  ]

  -- A sign-in with Google that succeeds brought back the flow's state and is for a token that
  -- Google issued for the code, with the flow's nonce; its session's user is the one that the
  -- token's subject is linked to; else, where Google verified the email, the one whose profile has
  -- it; else, where it is not verified or no profile has it, one whose id the environment made.
  pub complete_google_sign_in_user :
      (g : Google) (code state : Text) (flow : FlowState) (now : ℕ) (sc : SignInContext)
      (w : World AuthDb) (s : Session)
      → (complete_google_sign_in p c (some g) code state flow now sc w).0 ≡ ok s
      → (t : IdToken) × (g.exchange code ≡ some t)
        × (t.nonce ≡ flow.nonce)
        × (flow.state ≡ state)
        × Belongs p (identity_of t) w.db s.user_id
  complete_google_sign_in_user g code state flow now sc w s q = checks.at s q
    where
      checks :
          Gives
            (λ s.
              (t : IdToken) × (g.exchange code ≡ some t)
              × (t.nonce ≡ flow.nonce)
              × (flow.state ≡ state)
              × Belongs p (identity_of t) w.db s.user_id)
            (complete_google_sign_in p c (some g) code state flow now sc)
            w
      checks =
          unfold complete_google_sign_in in
          Gives-if (not (configured g.config)) (fail provider_not_configured) _ w
            (λ e. Gives-fail provider_not_configured w)
            (λ e.
              Gives-if (text_eq flow.state [] || text_eq state [] || not (text_eq flow.state state))
                (fail state_mismatch) _ w (λ e. Gives-fail state_mismatch w)
                (λ e.
                  Gives-bind (λ i. verify p g code flow.nonce ≡ ok i)
                    (lift (verify p g code flow.nonce)) _ w
                    (Gives-call (lift (verify p g code flow.nonce)) w (λ i q. q))
                    (λ i v.
                      let (t, x, n, same) = verified_token g code flow.nonce i v in
                      Gives-call _ w (λ s q. (
                        t,
                        x,
                        n,
                        ground (arith, text_eq→≡ flow.state state),
                        subst (λ i. Belongs p i w.db s.user_id) same
                            ((sign_in_identity-Belongs i now sc
                                (record w { calls = suc w.calls })).at
                              s (returned-in_tx p.env (database unavailable) _ w s q)),
                      )))))
