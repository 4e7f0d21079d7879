-- ===== src/Auth/Sessions/Spec/Keeping.antt =====
-- The tickets of a table after a command are those that the command leaves.
use warp_work.Base.{
  ℕ, ◌≡◌, refl, sym, subst, ◌∙◌, true, none, some, List, Text, text_eq→≡, text_eq_self, In, find,
  find-In, find_holds, find_only, find-none, find-none-In, if◌then◌else◌, arith, Bool-cases,
  Option-cases, inl, inr,
}
use warp_work.Store.Auth.{AuthSession}
use warp_work.Store.Auth.Sessions.{is_unrevoked_token}
use warp_work.Auth.Sessions.Spec.{
  Tickets, ticket_of, tickets, Command, signs_out, revokes, sweeps, obey, perform, IsKeyed,
}
use warp_work.Auth.Sessions.Spec.Rows.{taken, perform-stays, stays-perform, perform-IsKeyed}

-- The session of a hash that is not revoked, if its hash is of one session only.
pub found_iff :
    (sessions : List AuthSession) (hash : Text) (s : AuthSession)
    → IsKeyed sessions
    → In s sessions
    → s.token_hash ≡ hash
    → s.revoked_at ≡ none
    → find (is_unrevoked_token hash) sessions ≡ some s
unfolding is_unrevoked_token
found_iff sessions hash s keyed i h r =
    find_only (is_unrevoked_token hash) sessions s
      (λ b j k. keyed b s j i (ground (arith, text_eq→≡ b.token_hash hash))) i
      (rw (h, r) (ground (arith, text_eq_self hash)))

pub unrevoked_token :
    (hash : Text) (s : AuthSession)
    → is_unrevoked_token hash s ≡ true
    → (s.token_hash ≡ hash) × (s.revoked_at ≡ none)
unfolding is_unrevoked_token
unrevoked_token hash s e = (text_eq→≡ s.token_hash hash (ground arith), ground arith)

-- A session is found after the command exactly if it was found before and is not taken away.
tickets_none :
    (c : Command) (t : ℕ) (sessions : List AuthSession) (hash : Text)
    → ((s : AuthSession) → In s sessions → is_unrevoked_token hash s ≡ true → taken c s ≡ true)
    → find (is_unrevoked_token hash) (perform c t sessions) ≡ none
tickets_none c t sessions hash h =
    find-none (is_unrevoked_token hash) (perform c t sessions) (λ b i.
      elim (Bool-cases (is_unrevoked_token hash b)) [
        | inr e ↦ e
        | inl e ↦
            let (k, r) = unrevoked_token hash b e in
            let (j, kept) = perform-stays c t sessions b i r in absurd (cc (h b j e, kept))
      ])

obey-none : (c : Command) (s : Tickets) (hash : Text) → s hash ≡ none → obey c s hash ≡ none
obey-none (signs_out token_hash) s hash e = rw e refl
obey-none (revokes user_id session_id) s hash e = rw e refl
obey-none (sweeps cutoff) s hash e = rw e refl

obey-some :
    (c : Command) (s : Tickets) (hash : Text) (row : AuthSession)
    → s hash ≡ some (ticket_of row)
    → row.token_hash ≡ hash
    → obey c s hash ≡ (if taken c row then none else some (ticket_of row))
unfolding taken
obey-some (signs_out token_hash) s hash row e h = rw (e, h) refl
obey-some (revokes user_id session_id) s hash row e h = rw e refl
obey-some (sweeps cutoff) s hash row e h = rw e refl

pub tickets_found :
    (sessions : List AuthSession) (hash : Text) (s : AuthSession)
    → find (is_unrevoked_token hash) sessions ≡ some s
    → tickets sessions hash ≡ some (ticket_of s)
unfolding tickets
tickets_found sessions hash s e = rw (e, tickets) refl

pub tickets_missing :
    (sessions : List AuthSession) (hash : Text)
    → find (is_unrevoked_token hash) sessions ≡ none
    → tickets sessions hash ≡ none
unfolding tickets
tickets_missing sessions hash e = rw (e, tickets) refl

pub tickets-perform :
    (c : Command) (t : ℕ) (sessions : List AuthSession) (hash : Text)
    → IsKeyed sessions
    → tickets (perform c t sessions) hash ≡ obey c (tickets sessions) hash
tickets-perform c t sessions hash keyed =
    elim (Option-cases (find (is_unrevoked_token hash) sessions)) [
      | inl e ↦
          tickets_missing _ hash (
            tickets_none c t sessions hash
              (λ s i h. absurd (cc (find-none-In (is_unrevoked_token hash) sessions s e i, h))))
          ∙ sym (obey-none c (tickets sessions) hash (tickets_missing sessions hash e))
      | inr (s, e) ↦
          let i = find-In (is_unrevoked_token hash) sessions s e in
          let (h, r) = unrevoked_token hash s (find_holds (is_unrevoked_token hash) sessions s e) in
          let obeyed = obey-some c (tickets sessions) hash s (tickets_found sessions hash s e) h in
          elim (Bool-cases (taken c s)) [
            | inl k ↦
                tickets_missing _ hash (
                  tickets_none c t sessions hash (λ b j q.
                    subst (λ x. taken c x ≡ true)
                      (keyed s b i j (h ∙ sym (unrevoked_token hash b q).0)) k))
                ∙ sym (rw k at obeyed)
            | inr k ↦
                tickets_found _ hash s (
                  found_iff (perform c t sessions) hash s (perform-IsKeyed c t sessions keyed)
                    (stays-perform c t sessions s i r k) h r)
                ∙ sym (rw k at obeyed)
          ]
    ]
