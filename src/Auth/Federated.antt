-- ===== src/Auth/Federated.antt =====
-- internal/auth/federated.go and google.go: sign-in with Google. The exchange with Google
-- (discovery, the code for a token, the token's signature, issuer, audience and expiry) is the
-- parameter `Google`; what the program checks itself is here.
pub mod Errors
pub mod Joining
pub mod Linking
pub mod Opening
use warp_work.Base.{
  ℕ, Bool, true, false, not, ◌&&◌, ◌||◌, Option, none, some, List, [], ◌∷◌, Text, text_eq, ◌==◌,
  if◌then◌else◌,
}
use warp_work.Base.Result.{Result, ok, err}
use warp_work.Base.Act.{Act, pure, fail, lift, attempt, wrapping, ◌>>=◌, ◌>>◌}
use warp_work.Codec.Base64
use warp_work.Strings
use warp_work.Store.{World, DbError, no_rows, unavailable, run, new_v7, rand_read, in_tx}
use warp_work.Store.Auth.{AuthDb, AuthProvider, UserProfile, google}
use warp_work.Store.Auth.Accounts.{
  create_user, create_user_profile, create_auth_provider, mark_provider_used,
  provider_by_kind_subject, user_profile_by_email,
}
use warp_work.Auth.{
  AuthError, provider_not_configured, state_mismatch, no_email_from_provider, database, no_token,
  provider_fault, Platform, Config, SignInContext, Session, normalise_email,
}
use warp_work.Auth.Token.{Auth, open_session, uuid_of, token_of}

pub record GoogleConfig : Type 0 where
  pub client_id : Text
  pub client_secret : Text
  pub redirect_url : Text

unfoldable pub configured : GoogleConfig → Bool
configured c =
    not (text_eq c.client_id [])
    && not (text_eq c.client_secret [])
    && not (text_eq c.redirect_url [])

-- The claims of an ID token that the verifier accepted, with its nonce.
pub record IdToken : Type 0 where
  pub nonce : Text
  pub subject : Text
  pub email : Text
  pub email_verified : Bool
  pub name : Text

-- What Google and the libraries that talk to it do: the consent URL for a state and a nonce, and
-- the accepted ID token for a code; `none` is any of their errors.
pub record Google : Type 0 where
  pub config : GoogleConfig
  pub auth_code_url : Text → Text → Option Text
  pub exchange : Text → Option IdToken

pub record Identity : Type 0 where
  pub subject : Text
  pub email : Text
  pub email_verified : Bool
  pub name : Text

pub record FlowState : Type 0 where
  pub state : Text
  pub nonce : Text
  pub return_to : Text

-- The part before the first `@`, if there is one: strings.Cut.
unfoldable pub cut_at : ℕ → Text → Option Text
cut_at sep [] = none
cut_at sep (c ∷ s) =
    let rest = cut_at sep s in
    if c == sep then some [] else elim rest [ none ↦ none | some t ↦ some (c ∷ t) ]

unfoldable pub display_name_for : Identity → Text
unfolding cut_at
display_name_for identity =
    let name = Strings.trim_space identity.name in
    if not (text_eq name []) then name else elim (cut_at b'@' identity.email) [
      | none ↦ identity.email
      | some local ↦ if text_eq local [] then identity.email else local
    ]

module _ (p : Platform) where
  -- GoogleProvider.Verify, from the verified token on.
  unfoldable pub check_token : Text → IdToken → Result AuthError Identity
  check_token nonce t =
      if not (text_eq t.nonce nonce)
      then err state_mismatch
      else if text_eq t.subject []
      then err provider_fault
      else ok (record {
        subject = t.subject;
        email = normalise_email p.unicode t.email;
        email_verified = t.email_verified;
        name = t.name;
      })

  unfoldable pub verify : Google → Text → Text → Result AuthError Identity
  unfolding configured check_token
  verify g code nonce =
      if not (configured g.config)
      then err provider_not_configured
      else elim (g.exchange code) [ none ↦ err provider_fault | some t ↦ check_token nonce t ]

  -- NewFlowState, with randomToken for the state and the nonce.
  unfoldable pub new_flow_state : Text → Auth FlowState
  new_flow_state return_to = do
    raw ← rand_read p.env 24
    state ← lift (token_of raw)
    raw ← rand_read p.env 24
    nonce ← lift (token_of raw)
    pure (record {
      state = state;
      nonce = nonce;
      return_to = if text_eq return_to [] then b'/' ∷ [] else return_to;
    })

  unfoldable pub url_of : Option Text → Result AuthError Text
  url_of none = err provider_fault
  url_of (some url) = ok url

  -- StartGoogleSignIn; `none` is a service without Google.
  unfoldable pub start_google_sign_in : Option Google → Text → Auth (Text × FlowState)
  start_google_sign_in none return_to = fail provider_not_configured
  start_google_sign_in (some g) return_to =
      if not (configured g.config) then fail provider_not_configured else (do
        flow ← new_flow_state return_to
        url ← lift (url_of (g.auth_code_url flow.state flow.nonce))
        pure (url, flow))

  -- The third way: an account of its own.
  unfoldable pub create_federated_account : Identity → Auth ℕ
  create_federated_account identity = do
    v7 ← new_v7 p.env
    user_id ← lift (uuid_of v7)
    wrapping database (run p.env (create_user user_id))
    wrapping database (
        run p.env
          (create_user_profile p.unicode user_id identity.email (display_name_for identity)))
    pure user_id

  unfoldable pub resolve_by_email : Identity → Result DbError UserProfile → Auth ℕ
  resolve_by_email identity (ok profile) = pure profile.user_id
  resolve_by_email identity (err no_rows) = create_federated_account identity
  resolve_by_email identity (err e) = fail (database e)

  unfoldable pub resolve_account_for : Identity → Auth ℕ
  resolve_account_for identity =
      if identity.email_verified
      then (do
        profile ← attempt (run p.env (user_profile_by_email p.unicode identity.email))
        resolve_by_email identity profile)
      else create_federated_account identity

module _ (p : Platform) (c : Config) where
  -- The first way: the subject is linked already.
  unfoldable pub sign_in_known : AuthProvider → ℕ → SignInContext → Auth Session
  sign_in_known provider now sc = do
    wrapping database (run p.env (mark_provider_used provider.id now))
    open_session p c provider.user_id (some provider.id) now sc

  -- The others: the subject is linked to the account that it belongs to.
  unfoldable pub link_identity : Identity → ℕ → SignInContext → Auth Session
  link_identity identity now sc =
      if text_eq identity.email [] then fail no_email_from_provider else (do
        user_id ← resolve_account_for p identity
        v7 ← new_v7 p.env
        provider_id ← lift (uuid_of v7)
        wrapping database (
            run p.env (
              create_auth_provider (record {
                id = provider_id;
                user_id = user_id;
                kind = google;
                subject = identity.subject;
                email = some identity.email;
                is_primary = false;
              })))
        wrapping database (run p.env (mark_provider_used provider_id now))
        open_session p c user_id (some provider_id) now sc)

  unfoldable pub by_subject :
      Identity → Result DbError AuthProvider → ℕ → SignInContext → Auth Session
  by_subject identity (ok provider) now sc = sign_in_known provider now sc
  by_subject identity (err no_rows) now sc = link_identity identity now sc
  by_subject identity (err e) now sc = fail (database e)

  -- The function that CompleteGoogleSignIn runs in one transaction.
  unfoldable pub sign_in_identity : Identity → ℕ → SignInContext → Auth Session
  sign_in_identity identity now sc = do
    provider ← attempt (run p.env (provider_by_kind_subject google identity.subject))
    by_subject identity provider now sc

  unfoldable pub complete_google_sign_in :
      Option Google → Text → Text → FlowState → ℕ → SignInContext → Auth Session
  complete_google_sign_in none code state flow now sc = fail provider_not_configured
  complete_google_sign_in (some g) code state flow now sc =
      if not (configured g.config)
      then fail provider_not_configured
      else if text_eq flow.state [] || text_eq state [] || not (text_eq flow.state state)
      then fail state_mismatch
      else (do
        identity ← lift (verify p g code flow.nonce)
        in_tx p.env (database unavailable) (sign_in_identity identity now sc))
