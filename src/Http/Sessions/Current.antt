-- ===== src/Http/Sessions/Current.antt =====
-- What GetCurrentSession says of the session that asks.
use warp_work.Base.{
  ℕ, suc, ◌≡◌, refl, sym, ap, subst, Bool, true, false, ◌&&◌, some, List, [], ◌∷◌, map, Text, In,
  any, find, find_of_any, find_holds, In-sort_by, In-keep, keep, change, change-In, ltb, ◌<◌, ◌==◌,
  arith, Option-cases, inl, inr,
}
use warp_work.Base.Result.{ok}
use warp_work.Store.{World, IsUp, run, run_up}
use warp_work.Store.Auth.{AuthDb, AuthSession, UserProfile}
use warp_work.Store.Auth.Accounts.{get_user_profile}
use warp_work.Store.Auth.Sessions.{
  SessionRow, is_live, provider_kind, touch, live_session_by_token_hash, touch_auth_session,
  list_live_sessions,
}
use warp_work.Auth.{Platform}
use warp_work.Auth.Sessions
use warp_work.Auth.Sessions.{SessionSummary, authenticate, profile, session_summary}
use warp_work.Auth.Sessions.Ending.{authenticate_sound, live-authenticate}
use warp_work.Http.{content, replies}
use warp_work.Http.Security.{secured}
use warp_work.Http.Cookies.{Web}
use warp_work.Http.Sessions.{
  SessionView, get_current_session, find_current, to_api_session, to_api_user,
}
use warp_work.Http.Sessions.Ending.{secured_admitted}

In-map : {A B : Type 0} (f : A → B) (x : A) (xs : List A) → In x xs → In (f x) (map f xs)
In-map f x [] h = absurd h
In-map f x (y ∷ ys) (inl e) = inl (ap f e)
In-map f x (y ∷ ys) (inr h) = inr (In-map f x ys h)

any-In : {A : Type 0} (q : A → Bool) (x : A) (xs : List A) → In x xs → q x ≡ true → any q xs ≡ true
any-In q x [] h e = absurd h
any-In q x (y ∷ ys) (inl same) e = ground arith
any-In q x (y ∷ ys) (inr h) e = ground (arith, any-In q x ys h e)

find_current-In :
    (id : ℕ) (s : SessionSummary) (xs : List SessionSummary)
    → In s xs
    → s.id ≡ id
    → (v : SessionView) × (find_current id xs ≡ some v) × (v.id ≡ id) × (v.is_current ≡ true)
unfolding find_current to_api_session
find_current-In id s xs i e = elim (Option-cases (find (λ s. s.id == id) xs)) [
  | inl q ↦
      absurd (find_of_any (λ s. s.id == id) xs (any-In (λ s. s.id == id) s xs i (ground arith)) q)
  | inr (found, q) ↦
      let h = find_holds (λ s. s.id == id) xs found q in
      (to_api_session id found, rw (q, find_current) refl, ground arith, ground arith)
]

module _ (p : Platform) where
  sessions-authenticate :
      (token : Text) (now : ℕ) (w : World AuthDb) (row : SessionRow)
      → ((n : ℕ) → p.env.down n ≡ false)
      → (authenticate p token now w).0 ≡ ok row
      → (authenticate p token now w).1.db.sessions
        ≡ change (λ s. s.id == row.0.id) (touch now) w.db.sessions
  unfolding authenticate run live_session_by_token_hash touch_auth_session
  sessions-authenticate token now w row up e =
      ground (arith, up w.calls, up (suc w.calls), live-authenticate p token now w row e)

  -- The row that the list shows.
  abbrev touched : ℕ → SessionRow → AuthSession
  touched now row = touch now row.0

  touched-In :
      (token : Text) (now later : ℕ) (w : World AuthDb) (row : SessionRow)
      → ((n : ℕ) → p.env.down n ≡ false)
      → (authenticate p token now w).0 ≡ ok row
      → later < row.0.expires_at
      → In (touched now row) (authenticate p token now w).1.db.sessions
        × (is_live later (touched now row) ≡ true)
  unfolding is_live
  touched-In token now later w row up e before =
      let (i, h, r, lasts) = authenticate_sound p token now w row e in
      (
        subst (In (touched now row)) (sym (sessions-authenticate token now w row up e)) (
            subst (λ s. In s (change (λ s. s.id == row.0.id) (touch now) w.db.sessions))
              (ground arith) (change-In (λ s. s.id == row.0.id) (touch now) row.0 w.db.sessions i)),
        rw r (ground arith),
      )

  listed :
      (user_id now : ℕ) (w : World AuthDb) (s : AuthSession)
      → IsUp p.env w
      → In s w.db.sessions
      → is_live now s ≡ true
      → s.user_id ≡ user_id
      → (xs : List SessionSummary) × ((Sessions.list_sessions p user_id now w).0 ≡ ok xs)
        × In (session_summary (s, provider_kind w.db s)) xs
  unfolding Sessions.list_sessions
  listed user_id now w s up i live own = rw (run_up p.env (list_live_sessions user_id now) w up) (
      unfold list_live_sessions in
      (
        _,
        refl,
        In-map session_summary (s, provider_kind w.db s) _
            (In-map (λ s. (s, provider_kind w.db s)) s _
              ((In-sort_by (λ a b. ltb b.last_seen_at a.last_seen_at) s
                  (keep (λ s. s.user_id == user_id && is_live now s) w.db.sessions)).1
                ((In-keep (λ s. s.user_id == user_id && is_live now s) s w.db.sessions).1
                  (i, ground arith)))),
      ))

  db-profile : (user_id : ℕ) (w : World AuthDb) → (profile p user_id w).1.db ≡ w.db
  unfolding profile run get_user_profile
  db-profile user_id w = ground arith

  -- With a database that answers every call, a request whose token is let in, whose session has
  -- not expired when the list of sessions is read either, and whose user's profile is found is
  -- answered by GetCurrentSession with 200, that profile, and the session that the token belongs
  -- to, marked as the current one.
  pub secured-get_current_session :
      (web : Web) (token : Text) (now later : ℕ) (row : SessionRow) (owner : UserProfile)
      (w : World AuthDb)
      → ((n : ℕ) → p.env.down n ≡ false)
      → (authenticate p token now w).0 ≡ ok row
      → (profile p row.0.user_id (authenticate p token now w).1).0 ≡ ok owner
      → later < row.0.expires_at
      → (v : SessionView) × ((secured p (some token) now (get_current_session p web later) w).0
          ≡ ok (replies 200 (content (record { user = to_api_user owner; session = some v }))))
        × (v.id ≡ row.0.id)
        × (v.is_current ≡ true)
  unfolding get_current_session
  secured-get_current_session web token now later row owner w up e o before =
      let w' : World AuthDb = (authenticate p token now w).1 in
      let read : World AuthDb = (profile p row.0.user_id w').1 in
      let (i, live) = touched-In token now later w row up e before in
      let same = db-profile row.0.user_id w' in
      let (xs, found, j) =
        listed row.0.user_id later read (touched now row) (up _)
          (subst (λ db. In (touched now row) db.sessions) (sym same) i) live refl in
      let (v, current, id, is) =
        find_current-In row.0.id
          (session_summary (touched now row, provider_kind read.db (touched now row))) xs j
          (unfold session_summary in refl) in
      (
        v,
        rw (secured_admitted p token now (get_current_session p web later) w row e)
            (rw o (rw found (rw current refl))),
        id,
        is,
      )
