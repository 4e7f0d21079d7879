-- ===== src/Contexts/Ownership.antt =====
-- An owner's calls and other owners' contexts.
use warp_work.Base.{ℕ, ◌≡◌, ◌≢◌, refl, ◌∙◌, Bool, true, List, [], ◌∷◌, keep, change, ◌==◌, arith}
use warp_work.Store.{Env, World}
use warp_work.Store.Contexts.{
  Context, ContextDb, NewContext, ContextChange, archived, changed, is_own, create_context,
  insert_context, archive_context, update_context,
}
use warp_work.Contexts.{CreateParams, create, update, archive}
use warp_work.Contexts.Statements.{
  Step, creates, updates, archives, Run, here, next, create-Moves, update-Moves, archive-Moves,
}

module _ (other : ℕ) where
  -- The contexts of an owner.
  abbrev pub of_owner : ContextDb → List Context
  of_owner db = keep (λ c. c.user_id == other) db.contexts

  abbrev pub owned_by : World ContextDb → List Context
  owned_by w = of_owner w.db

  keep-change :
      (f : Context → Context) (q : Context → Bool) (cs : List Context)
      → ((c : Context) → (f c).user_id ≡ c.user_id)
      → ((c : Context) → q c ≡ true → c.user_id ≢ other)
      → keep (λ c. c.user_id == other) (change q f cs) ≡ keep (λ c. c.user_id == other) cs
  keep-change f q [] h k = refl
  keep-change f q (c ∷ cs) h k = ground (arith, h c, k c, keep-change f q cs h k)

module _ (other user_id : ℕ) (d : other ≢ user_id) where
  own_differs : (id : ℕ) (c : Context) → is_own id user_id c ≡ true → c.user_id ≢ other
  unfolding is_own
  own_differs id c h e = ground arith

  of_owner-create_context :
      (arg : NewContext) (at : ℕ) (db : ContextDb)
      → arg.user_id ≡ user_id
      → of_owner other (create_context arg at db).1 ≡ of_owner other db
  unfolding create_context insert_context
  of_owner-create_context arg at db e = ground arith

  of_owner-update_context :
      (id : ℕ) (arg : ContextChange) (at : ℕ) (db : ContextDb)
      → of_owner other (update_context id user_id arg at db).1 ≡ of_owner other db
  unfolding update_context
  of_owner-update_context id arg at db = ground (
    arith,
    keep-change other (changed arg) (is_own id user_id) db.contexts (λ c. unfold changed in refl)
        (own_differs id),
  )

  of_owner-archive_context :
      (id at : ℕ) (db : ContextDb)
      → of_owner other (archive_context id user_id at db).1 ≡ of_owner other db
  unfolding archive_context
  of_owner-archive_context id at db = ground (
    arith,
    keep-change other archived (is_own id user_id) db.contexts (λ c. refl) (own_differs id),
  )

module _ (other : ℕ) where
  of_owner-Step :
      {user_id : ℕ} {a b : ContextDb}
      → other ≢ user_id
      → Step user_id a b
      → of_owner other b ≡ of_owner other a
  of_owner-Step {user_id} d (creates arg at db e) =
      of_owner-create_context other user_id d arg at db e
  of_owner-Step {user_id} d (updates id arg at db) =
      of_owner-update_context other user_id d id arg at db
  of_owner-Step {user_id} d (archives id at db) = of_owner-archive_context other user_id d id at db

  -- Statements of other users, in any order.
  of_owner-Run :
      {P : ℕ → Type 0} {a b : ContextDb}
      → ((user_id : ℕ) → P user_id → other ≢ user_id)
      → Run P a b
      → of_owner other b ≡ of_owner other a
  of_owner-Run h here = refl
  of_owner-Run h (next {user_id = user_id} p r s) = of_owner-Step (h user_id p) s ∙ of_owner-Run h r

module _ (env : Env) (other user_id : ℕ) (d : other ≢ user_id) where
  own_statements :
      {a b : ContextDb} → Run (λ u. u ≡ user_id) a b → of_owner other b ≡ of_owner other a
  own_statements = of_owner-Run other (λ u e q. d (q ∙ e))

  -- Whatever an owner creates, updates or archives, and whether the call succeeds or not, the
  -- contexts of every other owner stay as they were.
  pub owned_by-calls :
      (arg : CreateParams) (change : ContextChange) (id : ℕ) (w : World ContextDb)
      → (owned_by other (create env user_id arg w).1 ≡ owned_by other w)
        × (owned_by other (update env user_id id change w).1 ≡ owned_by other w)
        × (owned_by other (archive env user_id id w).1 ≡ owned_by other w)
  owned_by-calls arg change id w = (
    own_statements ((create-Moves env user_id arg).at w),
    own_statements ((update-Moves env user_id id change).at w),
    own_statements ((archive-Moves env user_id id).at w),
  )
