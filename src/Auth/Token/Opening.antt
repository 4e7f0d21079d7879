-- ===== src/Auth/Token/Opening.antt =====
-- A session that was opened can be used: its token finds it.
use warp_work.Base.{
  ℕ, ◌<◌, ◌≡◌, refl, sym, subst, Option, some, List, ◌∷◌, Text, text_eq_self, arith, Bool-cases,
  inl, inr,
}
use warp_work.Base.Result.{ok, Result-cases}
use warp_work.Base.Act.{pure, wrapping, ◌>>=◌}
use warp_work.Base.Act.Laws.{Ensures, Ensures-bind}
use warp_work.Store.{World, IsUp, run}
use warp_work.Store.Auth.{AuthDb, AuthSession}
use warp_work.Store.Auth.Sessions.{
  NewSession, session_row, create_auth_session, find_live, is_live_token, SessionRow, provider_kind,
  live_session_by_token_hash,
}
use warp_work.Auth.{database, Platform, Config, SignInContext, Session}
use warp_work.Auth.Sessions.{authenticate}
use warp_work.Auth.Token.{Auth, hash_token, new_session, session_of, open_session}

module _ (p : Platform) where
  -- Until it expires the session's token finds a row of its id and user.
  pub record Opens (user_id : ℕ) (s : Session) (db : AuthDb) : Type 0 where
    pub of_user : s.user_id ≡ user_id
    pub row : AuthSession
    pub found :
        (now : ℕ) → now < s.expires_at → find_live (hash_token p s.token) now db.sessions ≡ some row
    pub row_id : row.id ≡ s.id
    pub row_user : row.user_id ≡ user_id

created :
    (arg : NewSession) (at : ℕ) (db : AuthDb) (row : AuthSession)
    → (create_auth_session arg at db).0 ≡ ok row
    → (row ≡ session_row arg at)
      × ((create_auth_session arg at db).1.sessions ≡ session_row arg at ∷ db.sessions)
unfolding create_auth_session
created arg at db row q = ground arith

found_first :
    (arg : NewSession) (at now : ℕ) (rest : List AuthSession)
    → now < arg.expires_at
    → find_live arg.token_hash now (session_row arg at ∷ rest) ≡ some (session_row arg at)
unfolding is_live_token
found_first arg at now rest h = ground (arith, text_eq_self arg.token_hash)

module _ (p : Platform) (c : Config) (user_id : ℕ) (provider_id : Option ℕ) (now : ℕ)
    (sc : SignInContext) (token : Text) (id : ℕ) where
  abbrev arg : NewSession
  arg = new_session p c user_id provider_id now sc token id

  -- The call that stores the session, and what is made of its row.
  abbrev store : Auth Session
  store = do
    row ← wrapping database (run p.env (create_auth_session arg))
    pure (session_of p c token row)

  -- The session that comes of the row in front.
  row-Opens :
      (at : ℕ) (rest : List AuthSession) (s : Session) (db : AuthDb)
      → s ≡ session_of p c token (session_row arg at)
      → db.sessions ≡ session_row arg at ∷ rest
      → Opens p user_id s db
  unfolding new_session
  row-Opens at rest s db e d = record {
    of_user = ground arith;
    row = session_row arg at;
    found = λ later h. rw (e, d) (found_first arg at later rest (rw e at h));
    row_id = ground arith;
    row_user = refl;
  }

  stored_Opens : Ensures (λ s w. Opens p user_id s w.db) store
  unfolding run
  stored_Opens = record {
    at = λ w s q. elim (Bool-cases (p.env.down w.calls)) [
      | inl d ↦ cc (rw (d, run) at q)
      | inr d ↦ elim (Result-cases (create_auth_session arg (p.env.db_now w.calls) w.db).0) [
        | inr (e, k) ↦ cc (rw (d, run, k) at q)
        | inl (row, k) ↦
            let made = created arg (p.env.db_now w.calls) w.db row k in
            row-Opens (p.env.db_now w.calls) w.db.sessions s _ (ground (arith, k, made.0))
              (ground (arith, made.1))
      ]
    ];
  }

module _ (p : Platform) (c : Config) (user_id : ℕ) (provider_id : Option ℕ) (now : ℕ)
    (sc : SignInContext) where
  pub open_session-Opens :
      Ensures (λ s w. Opens p user_id s w.db) (open_session p c user_id provider_id now sc)
  unfolding open_session
  open_session-Opens = search (Ensures-bind, stored_Opens) depth 8

-- The token of a session finds a row of its id and user, until it expires.
abbrev pub IsUsable : Platform → Session → AuthDb → Type 0
IsUsable p s db = Opens p s.user_id s db

module _ (p : Platform) (c : Config) where
  pub IsUsable-of_Opens :
      (user_id : ℕ) (s : Session) (db : AuthDb) → Opens p user_id s db → IsUsable p s db
  IsUsable-of_Opens user_id s db o = subst (λ u. Opens p u s db) (sym o.of_user) o

  pub open_session-IsUsable :
      (user_id : ℕ) (provider_id : Option ℕ) (now : ℕ) (sc : SignInContext)
      → Ensures (λ s w. IsUsable p s w.db) (open_session p c user_id provider_id now sc)
  open_session-IsUsable user_id provider_id now sc = record {
    at = λ w s q.
        IsUsable-of_Opens user_id s _
          ((open_session-Opens p c user_id provider_id now sc).at w s q);
  }

  -- A session that is usable lets its token in as its user, at a call that reaches the database.
  pub authenticate_usable :
      (s : Session) (w : World AuthDb) (now : ℕ)
      → IsUsable p s w.db
      → IsUp p.env w
      → now < s.expires_at
      → (row : SessionRow) × ((authenticate p s.token now w).0 ≡ ok row)
        × (row.0.id ≡ s.id)
        × (row.0.user_id ≡ s.user_id)
  unfolding authenticate run live_session_by_token_hash
  authenticate_usable s w now u up h =
      let found = u.found now h in
      ((u.row, provider_kind w.db u.row), ground (arith, found), u.row_id, u.row_user)
