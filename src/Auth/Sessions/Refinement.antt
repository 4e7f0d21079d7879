-- ===== src/Auth/Sessions/Refinement.antt =====
-- The calls that end sessions, against the map of tickets.
use warp_work.Base.{
  ℕ, ◌-◌, ◌<◌, ◌≡◌, ◌↔◌, refl, sym, ap, subst, ◌∙◌, false, some, List, [], ◌∷◌, Text, find,
  find_only, find_holds, find-In, text_eq→≡, text_eq_self, some_injective, arith, Option-cases, inl,
  inr,
}
use warp_work.Base.Result.{ok}
use warp_work.Store.{World, run}
use warp_work.Store.Auth.{AuthDb, AuthSession}
use warp_work.Store.Auth.Sessions.{
  SessionRow, provider_kind, is_unrevoked_token, is_live_token, find_live,
  live_session_by_token_hash, revoke_session_by_id, revoke_session_by_token_hash,
  sweep_expired_sessions,
}
use warp_work.Auth.{Platform}
use warp_work.Auth.Token.{hash_token}
use warp_work.Auth.Sessions.{authenticate, sign_out, revoke_session, sweep_expired}
use warp_work.Auth.Sessions.Ending.{authenticate_sound}
use warp_work.Auth.Sessions.Spec.{
  Ticket, Tickets, ticket_of, tickets, Command, signs_out, revokes, sweeps, obey, perform, IsKeyed,
}
use warp_work.Auth.Sessions.Spec.Rows.{perform-IsKeyed}
use warp_work.Auth.Sessions.Spec.Keeping.{
  tickets-perform, tickets_found, tickets_missing, unrevoked_token, found_iff,
}

-- A call, at its time: a token, a user and a session's id, or a grace.
pub data Call : Type 0 where
  sign_out_call : Text → ℕ → Call
  revoke_call : ℕ → ℕ → ℕ → Call
  sweep_call : ℕ → ℕ → Call

module _ (p : Platform) where
  abbrev pub world_after : Call → World AuthDb → World AuthDb
  world_after (sign_out_call token t) w = (sign_out p token t w).1
  world_after (revoke_call user_id session_id t) w = (revoke_session p user_id session_id t w).1
  world_after (sweep_call grace t) w = (sweep_expired p grace t w).1

  abbrev pub world_after_all : List Call → World AuthDb → World AuthDb
  world_after_all [] w = w
  world_after_all (call ∷ calls) w = world_after_all calls (world_after call w)

  abbrev pub command_of : Call → Command
  command_of (sign_out_call token t) = signs_out (hash_token p token)
  command_of (revoke_call user_id session_id t) = revokes user_id session_id
  command_of (sweep_call grace t) = sweeps (t - grace)

  abbrev pub obey_all : List Call → Tickets → Tickets
  obey_all [] s = s
  obey_all (call ∷ calls) s = obey_all calls (obey (command_of call) s)

  abbrev time_of : Call → ℕ
  time_of (sign_out_call token t) = t
  time_of (revoke_call user_id session_id t) = t
  time_of (sweep_call grace t) = t

  sessions-world_after :
      (call : Call) (w : World AuthDb)
      → p.env.down w.calls ≡ false
      → (world_after call w).db.sessions ≡ perform (command_of call) (time_of call) w.db.sessions
  unfolding sign_out revoke_session sweep_expired run revoke_session_by_token_hash
      revoke_session_by_id sweep_expired_sessions
  sessions-world_after (sign_out_call token t) w up = ground arith
  sessions-world_after (revoke_call user_id session_id t) w up = ground arith
  sessions-world_after (sweep_call grace t) w up = ground arith

  obey-cong :
      (c : Command) (s s' : Tickets)
      → ((hash : Text) → s hash ≡ s' hash)
      → (hash : Text) → obey c s hash ≡ obey c s' hash
  obey-cong (signs_out token_hash) s s' same hash = rw (same hash) refl
  obey-cong (revokes user_id session_id) s s' same hash = rw (same hash) refl
  obey-cong (sweeps cutoff) s s' same hash = rw (same hash) refl

  obey_all-cong :
      (calls : List Call) (s s' : Tickets)
      → ((hash : Text) → s hash ≡ s' hash)
      → (hash : Text) → obey_all calls s hash ≡ obey_all calls s' hash
  obey_all-cong [] s s' same hash = same hash
  obey_all-cong (call ∷ calls) s s' same hash =
      obey_all-cong calls (obey (command_of call) s) (obey (command_of call) s')
        (obey-cong (command_of call) s s' same) hash

  tickets-world_after_all :
      (calls : List Call) (w : World AuthDb) (hash : Text)
      → ((n : ℕ) → p.env.down n ≡ false)
      → IsKeyed w.db.sessions
      → tickets (world_after_all calls w).db.sessions hash
        ≡ obey_all calls (tickets w.db.sessions) hash
  tickets-world_after_all [] w hash up keyed = refl
  tickets-world_after_all (call ∷ calls) w hash up keyed =
      let same = sessions-world_after call w (up _) in
      tickets-world_after_all calls (world_after call w) hash up (
        subst IsKeyed (sym same)
          (perform-IsKeyed (command_of call) (time_of call) w.db.sessions keyed))
      ∙ obey_all-cong calls _ _
          (λ h.
            ap (λ s. tickets s h) same
            ∙ tickets-perform (command_of call) (time_of call) w.db.sessions h keyed)
          hash

  live_found :
      (sessions : List AuthSession) (hash : Text) (now : ℕ) (s : AuthSession)
      → IsKeyed sessions
      → find (is_unrevoked_token hash) sessions ≡ some s
      → now < s.expires_at
      → find_live hash now sessions ≡ some s
  unfolding is_live_token
  live_found sessions hash now s keyed e h =
      let (same, r) = unrevoked_token hash s (find_holds (is_unrevoked_token hash) sessions s e) in
      find_only (is_live_token hash now) sessions s
        (λ b j k.
          keyed b s j (find-In (is_unrevoked_token hash) sessions s e)
            (ground (arith, text_eq→≡ b.token_hash hash)))
        (find-In (is_unrevoked_token hash) sessions s e)
        (rw (same, r) (ground (arith, text_eq_self hash)))

  authenticate_live :
      (token : Text) (now : ℕ) (w : World AuthDb) (s : AuthSession)
      → p.env.down w.calls ≡ false
      → find_live (hash_token p token) now w.db.sessions ≡ some s
      → (authenticate p token now w).0 ≡ ok (s, provider_kind w.db s)
  unfolding authenticate run live_session_by_token_hash
  authenticate_live token now w s up e = ground arith

  -- Who a token lets in is whom its ticket names, while it lasts.
  authenticate-tickets :
      (token : Text) (now : ℕ) (w : World AuthDb) (k : Ticket)
      → p.env.down w.calls ≡ false
      → IsKeyed w.db.sessions
      → ((tickets w.db.sessions (hash_token p token) ≡ some k) × (now < k.expires_at))
        ↔ ((row : SessionRow) × ((authenticate p token now w).0 ≡ ok row) × (ticket_of row.0 ≡ k))
  authenticate-tickets token now w k up keyed = (admitted, refused)
    where
      admitted :
          (tickets w.db.sessions (hash_token p token) ≡ some k) × (now < k.expires_at)
          → (row : SessionRow) × ((authenticate p token now w).0 ≡ ok row) × (ticket_of row.0 ≡ k)
      admitted (e, h) =
          elim (Option-cases (find (is_unrevoked_token (hash_token p token)) w.db.sessions)) [
            | inl q ↦ absurd (cc (tickets_missing w.db.sessions (hash_token p token) q, e))
            | inr (s, q) ↦
                let same : ticket_of s ≡ k =
                  some_injective (sym (tickets_found w.db.sessions (hash_token p token) s q) ∙ e) in
                (
                  (s, provider_kind w.db s),
                  authenticate_live token now w s up (
                      live_found w.db.sessions (hash_token p token) now s keyed q
                        (subst (λ k. now < k.expires_at) (sym same) h)),
                  same,
                )
          ]

      refused :
          (row : SessionRow) × ((authenticate p token now w).0 ≡ ok row) × (ticket_of row.0 ≡ k)
          → (tickets w.db.sessions (hash_token p token) ≡ some k) × (now < k.expires_at)
      refused (row, e, same) =
          let (i, h, r, lasts) = authenticate_sound p token now w row e in
          (
            tickets_found w.db.sessions (hash_token p token) row.0
                  (found_iff w.db.sessions (hash_token p token) row.0 keyed i h r)
                ∙ ap some same,
            subst (λ k. now < k.expires_at) same lasts,
          )

  IsKeyed-world_after_all :
      (calls : List Call) (w : World AuthDb)
      → ((n : ℕ) → p.env.down n ≡ false)
      → IsKeyed w.db.sessions
      → IsKeyed (world_after_all calls w).db.sessions
  IsKeyed-world_after_all [] w up keyed = keyed
  IsKeyed-world_after_all (call ∷ calls) w up keyed =
      IsKeyed-world_after_all calls (world_after call w) up (
        subst IsKeyed (sym (sessions-world_after call w (up _)))
          (perform-IsKeyed (command_of call) (time_of call) w.db.sessions keyed))

  -- With a database that answers every call and whose token hashes are unique, after any sequence
  -- of sign-outs, revocations and sweeps a token lets its bearer in exactly where the abstract map
  -- of tickets, on which a sign-out removes its token's ticket, a revocation the user's ticket
  -- with that id and a sweep those that expired before its cutoff, still has a ticket for it that
  -- has not expired; and it lets in the ticket's user.
  pub authenticate-world_after_all :
      (calls : List Call) (token : Text) (now : ℕ) (w : World AuthDb) (k : Ticket)
      → ((n : ℕ) → p.env.down n ≡ false)
      → IsKeyed w.db.sessions
      → ((obey_all calls (tickets w.db.sessions) (hash_token p token) ≡ some k)
          × (now < k.expires_at))
        ↔ ((row : SessionRow) × ((authenticate p token now (world_after_all calls w)).0 ≡ ok row)
            × (ticket_of row.0 ≡ k))
  authenticate-world_after_all calls token now w k up keyed =
      subst
        (λ t. ((t ≡ some k) × (now < k.expires_at)) ↔ (
          (row : SessionRow) × ((authenticate p token now (world_after_all calls w)).0 ≡ ok row)
          × (ticket_of row.0 ≡ k)))
        (tickets-world_after_all calls w (hash_token p token) up keyed)
        (authenticate-tickets token now (world_after_all calls w) k (up _)
          (IsKeyed-world_after_all calls w up keyed))
