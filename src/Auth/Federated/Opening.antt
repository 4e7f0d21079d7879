-- ===== src/Auth/Federated/Opening.antt =====
-- The session that a sign-in with Google opens.
use warp_work.Base.{ℕ, ◌<◌, ◌≡◌, Option, none, some, Text, ◌||◌, not, text_eq, []}
use warp_work.Base.Result.{Result, ok, err}
use warp_work.Base.Act.{fail, lift}
use warp_work.Base.Act.Laws.{Ensures, Ensures-bind, Ensures-if, Ensures-fail}
use warp_work.Store.{World, unavailable, IsUp, DbError, no_rows}
use warp_work.Store.Transactions.{in_tx-Ensures}
use warp_work.Store.Auth.{AuthDb, AuthProvider}
use warp_work.Store.Auth.Sessions.{SessionRow}
use warp_work.Auth.{
  database, provider_not_configured, state_mismatch, Platform, Config, SignInContext, Session,
}
use warp_work.Auth.Sessions.{authenticate}
use warp_work.Auth.Token.Opening.{IsUsable, open_session-IsUsable, authenticate_usable}
use warp_work.Auth.Federated.{
  Google, Identity, FlowState, configured, verify, link_identity, sign_in_known, by_subject,
  sign_in_identity, complete_google_sign_in,
}

module _ (p : Platform) (c : Config) where
  ruleset usable = (Ensures-bind, Ensures-if, Ensures-fail, open_session-IsUsable)

  by_subject-IsUsable :
      (identity : Identity) (r : Result DbError AuthProvider) (now : ℕ) (sc : SignInContext)
      → Ensures (λ s w. IsUsable p s w.db) (by_subject p c identity r now sc)
  unfolding by_subject sign_in_known link_identity
  by_subject-IsUsable identity (ok provider) now sc = search usable depth 12
  by_subject-IsUsable identity (err no_rows) now sc = search usable depth 24
  by_subject-IsUsable identity (err e) now sc = search usable

  sign_in_identity-IsUsable :
      (identity : Identity) (now : ℕ) (sc : SignInContext)
      → Ensures (λ s w. IsUsable p s w.db) (sign_in_identity p c identity now sc)
  unfolding sign_in_identity
  sign_in_identity-IsUsable identity now sc = search (Ensures-bind, by_subject-IsUsable)

  complete_google_sign_in-IsUsable :
      (g : Option Google) (code state : Text) (flow : FlowState) (now : ℕ) (sc : SignInContext)
      → Ensures (λ s w. IsUsable p s w.db) (complete_google_sign_in p c g code state flow now sc)
  unfolding complete_google_sign_in
  complete_google_sign_in-IsUsable none code state flow now sc =
      Ensures-fail provider_not_configured
  complete_google_sign_in-IsUsable (some g) code state flow now sc =
      Ensures-if (not (configured g.config)) (fail provider_not_configured) _
        (Ensures-fail provider_not_configured)
        (Ensures-if (text_eq flow.state [] || text_eq state [] || not (text_eq flow.state state))
          (fail state_mismatch) _ (Ensures-fail state_mismatch)
          (Ensures-bind (lift (verify p g code flow.nonce)) _ (λ i.
            in_tx-Ensures p.env (database unavailable) (λ s db. IsUsable p s db) _
              (sign_in_identity-IsUsable i now sc))))

  -- After a sign-in with Google that succeeded, the session's token lets its bearer in, as the
  -- session's id and user, at every time before the session expires, if the call reaches the
  -- database.
  pub authenticate-complete_google_sign_in :
      (g : Option Google) (code state : Text) (flow : FlowState) (now later : ℕ)
      (sc : SignInContext) (w : World AuthDb) (s : Session)
      → (complete_google_sign_in p c g code state flow now sc w).0 ≡ ok s
      → IsUp p.env (complete_google_sign_in p c g code state flow now sc w).1
      → later < s.expires_at
      → (row : SessionRow) × ((authenticate p s.token later
            (complete_google_sign_in p c g code state flow now sc w).1).0
          ≡ ok row)
        × (row.0.id ≡ s.id)
        × (row.0.user_id ≡ s.user_id)
  authenticate-complete_google_sign_in g code state flow now later sc w s q up h =
      authenticate_usable p c s _ later
        ((complete_google_sign_in-IsUsable g code state flow now sc).at w s q) up h
