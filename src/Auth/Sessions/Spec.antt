-- ===== src/Auth/Sessions/Spec.antt =====
-- What a service of sessions promises, as a map from tokens' hashes to tickets, and what
-- the statements do to the table of sessions: Rows is which rows a command leaves, Keeping that the
-- promise is kept.
pub mod Rows
pub mod Keeping
use warp_work.Base.{
  ℕ, ◌≡◌, ◌≢◌, refl, sym, ap, subst, ◌∙◌, Bool, true, false, not, ◌&&◌, Option, none, some, List,
  Text, text_eq, text_eq→≡, text_eq_self, In, find, find-In, find_holds, find_only, find-none,
  find-none-In, keep, In-keep, change, In-change, change-In, ltb, ◌==◌, if◌then◌else◌, arith,
  Bool-cases, Option-cases, inl, inr,
}
use warp_work.Store.Auth.{AuthSession}
use warp_work.Store.Auth.Sessions.{is_unrevoked_token, is_session_of, is_swept, revoke, end}

-- What a token is good for.
pub record Ticket : Type 0 where
  pub id : ℕ
  pub user_id : ℕ
  pub expires_at : ℕ

abbrev pub Tickets : Type 0
Tickets = Text → Option Ticket

abbrev pub ticket_of : AuthSession → Ticket
ticket_of s = record { id = s.id; user_id = s.user_id; expires_at = s.expires_at }

-- The tickets of a table: its sessions that are not revoked.
unfoldable pub tickets : List AuthSession → Tickets
tickets sessions hash = elim (find (is_unrevoked_token hash) sessions) [
  | none ↦ none
  | some s ↦ some (ticket_of s)
]

-- The ticket, unless the test takes it away.
abbrev pub unless : (Ticket → Bool) → Option Ticket → Option Ticket
unless gone none = none
unless gone (some k) = if gone k then none else some k

-- Of a token's hash, of a user and a session's id, and of a time.
pub data Command : Type 0 where
  signs_out : Text → Command
  revokes : ℕ → ℕ → Command
  sweeps : ℕ → Command

-- What a command does to the tickets.
abbrev pub obey : Command → Tickets → Tickets
obey (signs_out token_hash) s hash = unless (λ k. text_eq hash token_hash) (s hash)
obey (revokes user_id session_id) s hash =
    unless (λ k. k.id == session_id && k.user_id == user_id) (s hash)
obey (sweeps cutoff) s hash = unless (λ k. ltb k.expires_at cutoff) (s hash)

-- What it does to the table, at a time.
abbrev pub perform : Command → ℕ → List AuthSession → List AuthSession
perform (signs_out token_hash) t sessions = change (is_unrevoked_token token_hash) (end t) sessions
perform (revokes user_id session_id) t sessions =
    change (is_session_of session_id user_id) (revoke t) sessions
perform (sweeps cutoff) t sessions = keep (λ s. not (is_swept cutoff s)) sessions

-- The constraint on token_hash.
abbrev pub IsKeyed : List AuthSession → Type 0
IsKeyed sessions =
    (a b : AuthSession) → In a sessions → In b sessions → a.token_hash ≡ b.token_hash → a ≡ b
