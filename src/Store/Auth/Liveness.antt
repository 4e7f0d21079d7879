-- ===== src/Store/Auth/Liveness.antt =====
-- Which sessions a token still finds after the statements that end sessions.
use warp_work.Base.{
  ◌==◌, refl, ℕ, ◌≤◌, ◌≡◌, ◌≢◌, not, none, some, List, Text, keep, change, if◌then◌else◌, arith,
  find-change, find-change-none, find-change_keeps, find-keep, text_eq→≡,
}
use warp_work.Store.Auth.{AuthSession}
use warp_work.Store.Auth.Sessions.{
  find_live, is_live_token, is_unrevoked_token, is_swept, end, touch,
}

module _ (token : Text) (now : ℕ) (sessions : List AuthSession) where
  -- Signing a token out leaves no live session with it.
  pub find_live-end :
      (t : ℕ) → find_live token now (change (is_unrevoked_token token) (end t) sessions) ≡ none
  unfolding is_live_token is_unrevoked_token
  find_live-end t =
      find-change-none (is_live_token token now) (is_unrevoked_token token) (end t) sessions
        (λ s h. ground arith) (λ s h. ground arith)

  -- It leaves the sessions of other tokens.
  pub find_live-end_ne :
      (other : Text) (t : ℕ)
      → token ≢ other
      → find_live token now (change (is_unrevoked_token other) (end t) sessions)
        ≡ find_live token now sessions
  unfolding is_live_token is_unrevoked_token
  find_live-end_ne other t d =
      find-change (is_live_token token now) (is_unrevoked_token other) (end t) sessions
        (λ s h. ground arith)
        (λ s h. ground (arith, text_eq→≡ s.token_hash token, text_eq→≡ s.token_hash other))

  -- A sweep up to a time that has passed deletes no live session.
  pub find_live-keep :
      (cutoff : ℕ)
      → cutoff ≤ now
      → find_live token now (keep (λ s. not (is_swept cutoff s)) sessions)
        ≡ find_live token now sessions
  unfolding is_live_token is_swept
  find_live-keep cutoff h =
      find-keep (is_live_token token now) (λ s. not (is_swept cutoff s)) sessions
        (λ s k. ground arith)

  -- Touching a session changes when it was last seen, and not whether it is found.
  pub find_live-touch :
      (id t : ℕ)
      → find_live token now (change (λ s. s.id == id) (touch t) sessions)
        ≡ (elim (find_live token now sessions) [
          | none ↦ none
          | some s ↦ some (if s.id == id then touch t s else s)
        ])
  unfolding is_live_token
  find_live-touch id t =
      find-change_keeps (is_live_token token now) _ (touch t) sessions (λ s. refl)
