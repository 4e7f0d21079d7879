-- ===== src/Worker.antt =====
-- apps/worker/internal/tasks: the queues' weights, and the task that sweeps sessions. The queue
-- itself is a library.
use warp_work.Base.{
  ℕ, ◌+◌, ◌-◌, ◌*◌, ◌≤◌, ◌≡◌, true, subst, ◌⊎◌, inl, inr, Option, Option-cases, none, keep, not,
  some, List, [], ◌∷◌, Text, codes, In, In-keep, arith,
}
use warp_work.Base.Result.{ok}
use warp_work.Base.Act.{pure, ◌>>◌}
use warp_work.Store.{World, IsUp, run}
use warp_work.Store.Auth.{AuthSession, AuthDb}
use warp_work.Store.Auth.Sessions.{is_swept, sweep_expired_sessions}
use warp_work.Auth.{Platform, hour}
use warp_work.Auth.Token.{Auth}
use warp_work.Auth.Sessions.{sweep_expired}

abbrev pub session_grace : ℕ
session_grace = 7 * 24 * hour

-- Weights
abbrev pub weights : List (Text × ℕ)
weights = (codes "interactive", 6) ∷ (codes "default", 3) ∷ (codes "backfill", 1) ∷ []

module _ (p : Platform) where
  -- SweepSessions; what it logs is left out.
  unfoldable pub sweep_sessions : ℕ → Auth (Unit {0})
  sweep_sessions now = do sweep_expired p session_grace now; pure tt

  sessions-sweep_sessions :
      (now : ℕ) (w : World AuthDb)
      → IsUp p.env w
      → (sweep_sessions now w).1.db.sessions
        ≡ keep (λ s. not (is_swept (now - session_grace) s)) w.db.sessions
  unfolding sweep_sessions sweep_expired run sweep_expired_sessions
  sessions-sweep_sessions now w up = ground arith

  sweep_sessions_ok : (now : ℕ) (w : World AuthDb) → IsUp p.env w → (sweep_sessions now w).0 ≡ ok tt
  unfolding sweep_sessions sweep_expired run sweep_expired_sessions
  sweep_sessions_ok now w up = ground arith

  -- Not so long ago, if ever.
  abbrev pub IsRecent : ℕ → Option ℕ → Type 0
  IsRecent now t = (t ≡ none) ⊎ ((r : ℕ) × (t ≡ some r) × (now ≤ r + session_grace))

  kept-IsRecent :
      (now : ℕ) (s : AuthSession)
      → not (is_swept (now - session_grace) s) ≡ true
      → (now ≤ s.expires_at + session_grace) × IsRecent now s.revoked_at
  unfolding is_swept
  kept-IsRecent now s e = elim (Option-cases s.revoked_at) [
    | inl q ↦ (ground arith, inl q)
    | inr (r, q) ↦ (ground arith, inr (r, q, ground arith))
  ]

  -- A sweep by the worker that reaches the database succeeds, and a session that is in the table
  -- afterwards was there before, and neither expired nor was revoked more than seven days ago:
  -- every session that ended is gone with the first such sweep.
  pub sweep_sessions_lem :
      (now : ℕ) (w : World AuthDb) (s : AuthSession)
      → IsUp p.env w
      → In s (sweep_sessions now w).1.db.sessions
      → ((sweep_sessions now w).0 ≡ ok tt)
        × In s w.db.sessions
        × (now ≤ s.expires_at + session_grace)
        × IsRecent now s.revoked_at
  sweep_sessions_lem now w s up i =
      let (j, e) =
        (In-keep (λ s. not (is_swept (now - session_grace) s)) s w.db.sessions).0
          (subst (In s) (sessions-sweep_sessions now w up) i) in
      let (late, recent) = kept-IsRecent now s e in (sweep_sessions_ok now w up, j, late, recent)
