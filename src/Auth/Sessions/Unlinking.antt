-- ===== src/Auth/Sessions/Unlinking.antt =====
-- Unlinking a way to sign in.
use warp_work.Base.{
  ℕ, ◌≡◌, refl, Bool, true, false, not, ◌&&◌, Option, some, List, [], ◌∷◌, any, keep, find,
  find_holds, ◌==◌, arith, Option-cases, Bool-cases, ◌∙◌, inl, inr,
}
use warp_work.Store.{World, run}
use warp_work.Store.Auth.{AuthDb, AuthProvider}
use warp_work.Store.Auth.Accounts.{is_last_provider, remove_provider, delete_auth_provider}
use warp_work.Auth.{Platform}
use warp_work.Auth.Sessions.{unlink_provider}

any-keep :
    {A : Type 0} (p q : A → Bool) (xs : List A) → any p (keep q xs) ≡ any (λ x. p x && q x) xs
any-keep p q [] = refl
any-keep p q (x ∷ xs) = ground (arith, any-keep p q xs)

abbrev pub has_user : ℕ → AuthDb → Bool
has_user user_id db = any (λ u. u.id == user_id) db.users

-- Whether the user has a way to sign in.
abbrev pub has_provider : ℕ → AuthDb → Bool
has_provider user_id db = any (λ q. q.user_id == user_id) db.providers

-- The user's row, the one that is asked for.
abbrev pub own_provider : ℕ → ℕ → AuthDb → Option AuthProvider
own_provider user_id id db = find (λ q. q.id == id && q.user_id == user_id) db.providers

module _ (p : Platform) (user_id id : ℕ) where
  has_provider-remove :
      (db : AuthDb) (old : AuthProvider)
      → own_provider user_id id db ≡ some old
      → is_last_provider db old ≡ false
      → has_user user_id db ≡ true
      → has_provider user_id (remove_provider id db) ≡ true
  unfolding is_last_provider remove_provider
  has_provider-remove db old e last u =
      let holds = find_holds (λ q. q.id == id && q.user_id == user_id) db.providers old e in
      let same_id : old.id ≡ id = ground arith in
      let same_user : old.user_id ≡ user_id = ground arith in
      any-keep (λ q. q.user_id == user_id) (λ q. not (q.id == id)) db.providers
      ∙ ground (arith, rw (same_id, same_user) at last)

  -- Whatever UnlinkProvider answers, and whether it reaches the database or not, a user who exists
  -- and has a way to sign in has one afterwards.
  pub has_provider-unlink_provider :
      (w : World AuthDb)
      → has_user user_id w.db ≡ true
      → has_provider user_id w.db ≡ true
      → has_provider user_id (unlink_provider p user_id id w).1.db ≡ true
  unfolding unlink_provider run delete_auth_provider
  has_provider-unlink_provider w u h = elim (Option-cases (own_provider user_id id w.db)) [
    | inl e ↦ ground arith
    | inr (old, e) ↦ elim (Bool-cases (is_last_provider w.db old)) [
      | inl l ↦ ground arith
      | inr l ↦ ground (arith, has_provider-remove w.db old e l u)
    ]
  ]
