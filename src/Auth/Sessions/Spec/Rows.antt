-- ===== src/Auth/Sessions/Spec/Rows.antt =====
-- Which rows a command leaves.
use warp_work.Base.{
  ℕ, ◌≡◌, ◌≢◌, refl, sym, ap, subst, ◌∙◌, Bool, false, not, ◌&&◌, none, List, text_eq, In, In-keep,
  change, In-change, change-In, ltb, ◌==◌, if◌then◌else◌, arith, Bool-cases, inl, inr,
}
use warp_work.Store.Auth.{AuthSession}
use warp_work.Store.Auth.Sessions.{is_unrevoked_token, is_session_of, is_swept, revoke, end}
use warp_work.Auth.Sessions.Spec.{Command, signs_out, revokes, sweeps, perform, IsKeyed}

-- The session that a command takes away.
unfoldable pub taken : Command → AuthSession → Bool
taken (signs_out token_hash) s = text_eq s.token_hash token_hash
taken (revokes user_id session_id) s = s.id == session_id && s.user_id == user_id
taken (sweeps cutoff) s = ltb s.expires_at cutoff

-- A row that is not revoked is none of those that were changed.
unchanged :
    (q : AuthSession → Bool) (f : AuthSession → AuthSession) (b y : AuthSession)
    → ((f y).revoked_at ≢ none)
    → b ≡ (if q y then f y else y)
    → b.revoked_at ≡ none
    → (b ≡ y) × (q y ≡ false)
unchanged q f b y h e r = elim (Bool-cases (q y)) [
  | inl k ↦ absurd (h (ap (λ s. s.revoked_at) (sym (rw k at e)) ∙ r))
  | inr k ↦ (rw k at e, k)
]

module _ (sessions : List AuthSession) (q : AuthSession → Bool)
    (f : AuthSession → AuthSession) where
  change-stays :
      (b : AuthSession)
      → ((y : AuthSession) → (f y).revoked_at ≢ none)
      → In b (change q f sessions)
      → b.revoked_at ≡ none
      → In b sessions × (q b ≡ false)
  change-stays b h i r =
      let (y, j, e) = In-change q f b sessions i in
      let (same, k) = unchanged q f b y (h y) e r in
      (subst (λ s. In s sessions) (sym same) j, subst (λ s. q s ≡ false) (sym same) k)

  stays-change : (s : AuthSession) → In s sessions → q s ≡ false → In s (change q f sessions)
  stays-change s i k =
      subst (λ b. In b (change q f sessions)) (ground arith) (change-In q f s sessions i)

  change_hash :
      ((y : AuthSession) → (f y).token_hash ≡ y.token_hash)
      → (y : AuthSession) → (if q y then f y else y).token_hash ≡ y.token_hash
  change_hash h y = ground (arith, h y)

  change-IsKeyed :
      ((y : AuthSession) → (f y).token_hash ≡ y.token_hash)
      → IsKeyed sessions
      → IsKeyed (change q f sessions)
  change-IsKeyed h keyed a b i j e =
      let (x, i', d) = In-change q f a sessions i in
      let (y, j', d') = In-change q f b sessions j in
      let hash : x.token_hash ≡ y.token_hash =
        sym (change_hash h x)
        ∙ ap (λ s. s.token_hash) (sym d)
        ∙ e
        ∙ ap (λ s. s.token_hash) d'
        ∙ change_hash h y in
      d ∙ ap (λ s. if q s then f s else s) (keyed x y i' j' hash) ∙ sym d'

revoke_revoked : (t : ℕ) (y : AuthSession) → (revoke t y).revoked_at ≢ none
revoke_revoked t y e = ground arith

pub perform-stays :
    (c : Command) (t : ℕ) (sessions : List AuthSession) (b : AuthSession)
    → In b (perform c t sessions)
    → b.revoked_at ≡ none
    → In b sessions × (taken c b ≡ false)
unfolding taken is_unrevoked_token is_session_of is_swept
perform-stays (signs_out token_hash) t sessions b i r =
    let (j, k) = change-stays sessions (is_unrevoked_token token_hash) (end t) b (λ y e. cc) i r in
    (j, ground arith)
perform-stays (revokes user_id session_id) t sessions b i r =
    change-stays sessions (is_session_of session_id user_id) (revoke t) b (revoke_revoked t) i r
perform-stays (sweeps cutoff) t sessions b i r =
    let (j, e) = (In-keep (λ s. not (is_swept cutoff s)) b sessions).0 i in (j, ground arith)

pub stays-perform :
    (c : Command) (t : ℕ) (sessions : List AuthSession) (s : AuthSession)
    → In s sessions
    → s.revoked_at ≡ none
    → taken c s ≡ false
    → In s (perform c t sessions)
unfolding taken is_unrevoked_token is_session_of is_swept
stays-perform (signs_out token_hash) t sessions s i r k =
    stays-change sessions (is_unrevoked_token token_hash) (end t) s i (ground arith)
stays-perform (revokes user_id session_id) t sessions s i r k =
    stays-change sessions (is_session_of session_id user_id) (revoke t) s i k
stays-perform (sweeps cutoff) t sessions s i r k =
    (In-keep (λ s. not (is_swept cutoff s)) s sessions).1 (i, ground arith)

pub perform-IsKeyed :
    (c : Command) (t : ℕ) (sessions : List AuthSession)
    → IsKeyed sessions
    → IsKeyed (perform c t sessions)
perform-IsKeyed (signs_out token_hash) t sessions keyed =
    change-IsKeyed sessions (is_unrevoked_token token_hash) (end t) (λ y. refl) keyed
perform-IsKeyed (revokes user_id session_id) t sessions keyed =
    change-IsKeyed sessions (is_session_of session_id user_id) (revoke t) (λ y. refl) keyed
perform-IsKeyed (sweeps cutoff) t sessions keyed = λ a b i j e.
    keyed a b ((In-keep (λ s. not (is_swept cutoff s)) a sessions).0 i).0
      ((In-keep (λ s. not (is_swept cutoff s)) b sessions).0 j).0 e
