-- ===== src/Auth/Register/Outcome.antt =====
-- What Register leaves behind: nothing where it fails, a session that can be used where it
-- succeeds.
use warp_work.Base.{ℕ, ◌<◌, ◌≡◌}
use warp_work.Base.Result.{ok, err}
use warp_work.Base.Act.{fail}
use warp_work.Base.Act.Laws.{Ensures, Ensures-bind, Ensures-if, Ensures-fail, Ensures-wrapping}
use warp_work.Strings
use warp_work.Store.{World, unavailable, IsUp}
use warp_work.Store.Transactions.{
  NoneLost, Restores-fail, Restores-if, Restores-wrapping, Restores-in_tx, in_tx-Ensures,
}
use warp_work.Store.Auth.{AuthDb}
use warp_work.Store.Auth.Sessions.{SessionRow}
use warp_work.Auth.{
  AuthError, invalid_input, database, Platform, Config, SignInContext, Session, normalise_email,
}
use warp_work.Auth.Sessions.{authenticate}
use warp_work.Auth.Token.Opening.{IsUsable, open_session-IsUsable, authenticate_usable}
use warp_work.Auth.Register.{RegisterParams, register, create_account, or_email_taken}

module _ (p : Platform) (c : Config) where
  -- Where no commit takes effect unacknowledged, a registration that fails, at whatever step,
  -- leaves the database as it was.
  pub db-register :
      (arg : RegisterParams) (now : ℕ) (sc : SignInContext) (w : World AuthDb) (e : AuthError)
      → NoneLost p.env
      → (register p c arg now sc w).0 ≡ err e
      → (register p c arg now sc w).1.db ≡ w.db
  unfolding register
  db-register arg now sc w e n q =
      (Restores-if _ (fail invalid_input) _ (Restores-fail invalid_input) (
          Restores-wrapping or_email_taken _ (
            Restores-in_tx p.env (database unavailable)
              (create_account p c (normalise_email p.unicode arg.email)
                (Strings.trim_space arg.display_name) arg.password now sc)
              n))).at
        w e q

  register-IsUsable :
      (arg : RegisterParams) (now : ℕ) (sc : SignInContext)
      → Ensures (λ s w. IsUsable p s w.db) (register p c arg now sc)
  unfolding register
  register-IsUsable arg now sc = Ensures-if _ (fail invalid_input) _ (Ensures-fail invalid_input) (
      Ensures-wrapping or_email_taken _ (
        in_tx-Ensures p.env (database unavailable) (λ s db. IsUsable p s db)
          (create_account p c (normalise_email p.unicode arg.email)
            (Strings.trim_space arg.display_name) arg.password now sc)
          (unfold create_account in search (Ensures-bind, open_session-IsUsable) depth 24)))

  -- After a registration that succeeded, the session's token lets its bearer in, as the session's
  -- id and user, at every time before the session expires, if the call reaches the database.
  pub authenticate-register :
      (arg : RegisterParams) (now later : ℕ) (sc : SignInContext) (w : World AuthDb) (s : Session)
      → (register p c arg now sc w).0 ≡ ok s
      → IsUp p.env (register p c arg now sc w).1
      → later < s.expires_at
      → (row : SessionRow) × ((authenticate p s.token later (register p c arg now sc w).1).0
          ≡ ok row)
        × (row.0.id ≡ s.id)
        × (row.0.user_id ≡ s.user_id)
  authenticate-register arg now later sc w s q up h =
      authenticate_usable p c s _ later ((register-IsUsable arg now sc).at w s q) up h
