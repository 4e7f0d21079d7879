-- ===== src/Auth/Sessions/Ending.antt =====
-- How sessions end: by signing out, by revoking, by expiry, and by the sweep.
use warp_work.Base.{
  ℕ, ◌<◌, ◌≤◌, ◌-◌, ◌≡◌, ◌≢◌, false, Option, none, some, Text, In, tally, arith, find_holds,
  change_none, find-In, find-change-some, find-change_other, text_eq→≡, ◌⊎◌,
}
use warp_work.Base.Result.{ok, err}
use warp_work.Store.{World, IsUp, run}
use warp_work.Store.Auth.{AuthDb, AuthSession}
use warp_work.Store.Auth.Sessions.{
  SessionRow, find_live, is_live_token, is_session_of, revoke, live_session_by_token_hash,
  revoke_session_by_token_hash, revoke_session_by_id, sweep_expired_sessions,
}
use warp_work.Store.Auth.Liveness.{find_live-end, find_live-end_ne, find_live-keep}
use warp_work.Auth.{no_session, not_found, Platform}
use warp_work.Auth.Token.{hash_token}
use warp_work.Auth.Sessions.{authenticate, sign_out, revoke_session, sweep_expired}

module _ (p : Platform) where
  abbrev pub live : Text → ℕ → World AuthDb → Option AuthSession
  live token now w = find_live (hash_token p token) now w.db.sessions

  -- A token is refused where no live session has its hash.
  authenticate_dead :
      (token : Text) (now : ℕ) (w : World AuthDb)
      → IsUp p.env w
      → live token now w ≡ none
      → (authenticate p token now w).0 ≡ err no_session
  unfolding authenticate run live_session_by_token_hash
  authenticate_dead token now w up e = ground arith

  -- A sign-out that reaches the database succeeds, and after it the token is refused as belonging
  -- to no session by a call that reaches the database, at any time and whatever sessions there
  -- are.
  pub authenticate-sign_out :
      (token : Text) (t now : ℕ) (w : World AuthDb)
      → IsUp p.env w
      → IsUp p.env (sign_out p token t w).1
      → ((sign_out p token t w).0 ≡ ok tt)
        × ((authenticate p token now (sign_out p token t w).1).0 ≡ err no_session)
  unfolding sign_out run revoke_session_by_token_hash
  authenticate-sign_out token t now w up up' = (
    ground arith,
    authenticate_dead token now (sign_out p token t w).1 up'
        (ground (arith, find_live-end (hash_token p token) now w.db.sessions t)),
  )

  -- A sign-out leaves the live session of every token with another hash as it was, whether it
  -- reaches the database or not.
  pub live-sign_out :
      (token other : Text) (t now : ℕ) (w : World AuthDb)
      → hash_token p other ≢ hash_token p token
      → live other now (sign_out p token t w).1 ≡ live other now w
  unfolding sign_out run revoke_session_by_token_hash
  live-sign_out token other t now w d =
      ground
        (arith, find_live-end_ne (hash_token p other) now w.db.sessions (hash_token p token) t d)

  pub live-authenticate :
      (token : Text) (now : ℕ) (w : World AuthDb) (row : SessionRow)
      → (authenticate p token now w).0 ≡ ok row
      → live token now w ≡ some row.0
  unfolding authenticate run live_session_by_token_hash
  live-authenticate token now w row e = ground arith

  -- Whoever is let in by a token presented one whose hash is that of a session of the table that
  -- is not revoked and has not expired.
  pub authenticate_sound :
      (token : Text) (now : ℕ) (w : World AuthDb) (row : SessionRow)
      → (authenticate p token now w).0 ≡ ok row
      → In row.0 w.db.sessions
        × (row.0.token_hash ≡ hash_token p token)
        × (row.0.revoked_at ≡ none)
        × (now < row.0.expires_at)
  unfolding is_live_token
  authenticate_sound token now w row e =
      let found = live-authenticate token now w row e in
      let holds = find_holds (is_live_token (hash_token p token) now) w.db.sessions row.0 found in
      (
        find-In _ w.db.sessions row.0 found,
        ground (arith, text_eq→≡ row.0.token_hash (hash_token p token)),
        ground arith,
        ground arith,
      )

  -- The sweep removes no session that a token finds at the time of the sweep or later.
  pub live-sweep_expired :
      (grace t now : ℕ) (token : Text) (w : World AuthDb)
      → t ≤ now
      → live token now (sweep_expired p grace t w).1 ≡ live token now w
  unfolding sweep_expired run sweep_expired_sessions
  live-sweep_expired grace t now token w h =
      ground (arith, find_live-keep (hash_token p token) now w.db.sessions (t - grace))

  -- Where the call reaches the database, revoking a session that the user does not have answers
  -- that it was not found and changes no row, and revoking one that the user has succeeds.
  pub revoke_session_outcome :
      (user_id session_id t : ℕ) (w : World AuthDb)
      → IsUp p.env w
      → let n = tally (is_session_of session_id user_id) w.db.sessions in
        let r = revoke_session p user_id session_id t w in
        ((n ≡ 0) × (r.0 ≡ err not_found) × (r.1.db ≡ w.db)) ⊎ ((n ≢ 0) × (r.0 ≡ ok tt))
  unfolding revoke_session run revoke_session_by_id
  revoke_session_outcome user_id session_id t w up =
      ground (arith, change_none (is_session_of session_id user_id) (revoke t) w.db.sessions)

  -- After a session was revoked by a call that reached the database, no token lets its bearer in
  -- by that session of that user, at any time.
  pub authenticate-revoke_session :
      (user_id session_id t now : ℕ) (token : Text) (w : World AuthDb) (row : SessionRow)
      → IsUp p.env w
      → (authenticate p token now (revoke_session p user_id session_id t w).1).0 ≡ ok row
      → is_session_of session_id user_id row.0 ≡ false
  authenticate-revoke_session user_id session_id t now token w row up e =
      (find-change-some (is_live_token (hash_token p token) now) (is_session_of session_id user_id)
        (revoke t) w.db.sessions row.0 (λ s h. unfold is_live_token in ground arith)
        (unfold revoke_session run revoke_session_by_id in
          (ground (
            arith,
            live-authenticate token now (revoke_session p user_id session_id t w).1 row e,
          )))).0

  -- Revoking a session leaves the live session of a token as it was where that is another session.
  pub live-revoke_session :
      (user_id session_id t now : ℕ) (token : Text) (w : World AuthDb) (s : AuthSession)
      → live token now w ≡ some s
      → is_session_of session_id user_id s ≡ false
      → live token now (revoke_session p user_id session_id t w).1 ≡ some s
  unfolding revoke_session run revoke_session_by_id
  live-revoke_session user_id session_id t now token w s found other = ground (
    arith,
    find-change_other (is_live_token (hash_token p token) now) (is_session_of session_id user_id)
        (revoke t) w.db.sessions s (λ x h. unfold is_live_token in ground arith) found other,
  )
