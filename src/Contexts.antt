-- ===== src/Contexts.antt =====
-- internal/contexts/contexts.go: the service of the life-area tree, over internal/store.
pub mod Ownership
pub mod Archiving
pub mod Forest
pub mod Statements
pub mod Listing
pub mod Depth
use warp_work.Base.{
  ℕ, zero, suc, Bool, true, false, not, ◌&&◌, ◌||◌, Option, none, some, List, [], Text, codes,
  text_eq, ltb, ◌==◌, if◌then◌else◌,
}
use warp_work.Base.Result.{Result, ok, err}
use warp_work.Base.Act.{Act, pure, fail, lift, attempt, wrapping, ◌>>=◌, ◌>>◌}
use warp_work.Store.{
  Env, World, DbError, Constraint, no_rows, unique_violation, check_violation, contexts_unique_slug,
  run, new_v7,
}
use warp_work.Store.Contexts.Tree.{is_descendant, list_contexts}
use warp_work.Store.Contexts.{
  Context, ContextDb, NewContext, ContextChange, is_token, create_context, get_context,
  count_live_children, archive_context, next_context_position, update_context,
}

-- The errors that a caller handles, ErrInvalid of internal/domain, and the faults.
pub data ContextError : Type 0 where
  slug_taken no_parent not_found self_parent cycle too_deep invalid no_uuid : ContextError
  live_children : ℕ → ContextError
  database : DbError → ContextError

abbrev pub Contexts : Type 0 → Type 0
Contexts = Act ContextError (World ContextDb)

-- ContextColor.Valid of internal/domain/context.go, which takes the empty colour too.
unfoldable pub valid_color : Option Text → Result ContextError (Unit {0})
valid_color none = ok tt
valid_color (some c) = if text_eq c [] || is_token c then ok tt else err invalid

-- CreateParams
pub record CreateParams : Type 0 where
  pub slug : Text
  pub name : Text
  pub parent_id : Option ℕ
  pub color : Option Text
  pub tone_profile : Option Text

-- pgx.ErrNoRows is the outcome; any other error is a fault.
unfoldable pub no_rows_as : ContextError → DbError → ContextError
no_rows_as outcome no_rows = outcome
no_rows_as outcome e = database e

-- isUniqueViolation, by the constraint's name.
unfoldable pub or_slug_taken : DbError → ContextError
or_slug_taken (unique_violation contexts_unique_slug) = slug_taken
or_slug_taken e = database e

-- isCheckViolation, whatever the constraint.
unfoldable pub or_too_deep : DbError → ContextError
or_too_deep no_rows = not_found
or_too_deep (check_violation _) = too_deep
or_too_deep e = database e

unfoldable pub uuid_of : Option ℕ → Result ContextError ℕ
uuid_of none = err no_uuid
uuid_of (some id) = ok id

unfoldable pub owned : ContextError → ℕ → Context → Result ContextError Context
owned outcome user_id c = if c.user_id == user_id then ok c else err outcome

module _ (env : Env) where
  -- GetContext, and whose the row is.
  unfoldable pub get_own : ContextError → ℕ → ℕ → Contexts Context
  get_own outcome user_id id = do
    row ← wrapping (no_rows_as outcome) (run env (get_context id))
    lift (owned outcome user_id row)

  -- Get
  unfoldable pub get : ℕ → ℕ → Contexts Context
  get user_id id = get_own not_found user_id id

  -- The check of the parent in Create.
  unfoldable pub check_parent : ℕ → Option ℕ → Contexts (Unit {0})
  check_parent user_id none = pure tt
  check_parent user_id (some parent_id) = do get_own no_parent user_id parent_id; pure tt

  -- Create
  unfoldable pub create : ℕ → CreateParams → Contexts Context
  create user_id p = do
    lift (valid_color p.color)
    check_parent user_id p.parent_id
    position ← wrapping database (run env (next_context_position user_id))
    v7 ← new_v7 env
    id ← lift (uuid_of v7)
    wrapping or_slug_taken (
        run env (
          create_context (record {
            id = id;
            user_id = user_id;
            parent_id = p.parent_id;
            slug = p.slug;
            name = p.name;
            color = p.color;
            active_hours = codes "{}";
            tone_profile = p.tone_profile;
            position = position;
          })))

  -- checkNewParent
  unfoldable pub check_new_parent : ℕ → ℕ → ℕ → Contexts (Unit {0})
  check_new_parent user_id id parent_id = if parent_id == id then fail self_parent else (do
    get_own no_parent user_id parent_id
    in_subtree ← wrapping database (run env (is_descendant parent_id id))
    if in_subtree then fail cycle else pure tt)

  -- checkNoLiveChildren
  unfoldable pub check_no_live_children : ℕ → Contexts (Unit {0})
  check_no_live_children id = do
    n ← wrapping database (run env (count_live_children id))
    if ltb 0 n then fail (live_children n) else pure tt

  unfoldable pub check_move : ℕ → ℕ → Bool → Option ℕ → Contexts (Unit {0})
  check_move user_id id true (some parent_id) = check_new_parent user_id id parent_id
  check_move user_id id set parent_id = pure tt

  unfoldable pub check_archiving : ℕ → Option Bool → Contexts (Unit {0})
  check_archiving id (some true) = check_no_live_children id
  check_archiving id _ = pure tt

  -- Update; its parameters are those of the statement.
  unfoldable pub update : ℕ → ℕ → ContextChange → Contexts Context
  update user_id id p = do
    lift (if p.set_color then valid_color p.color else ok tt)
    get user_id id
    check_move user_id id p.set_parent_id p.parent_id
    check_archiving id p.is_archived
    wrapping or_too_deep (run env (update_context id user_id p))

  -- Archive
  unfoldable pub archive : ℕ → ℕ → Contexts (Unit {0})
  archive user_id id = do
    get user_id id
    check_no_live_children id
    wrapping (no_rows_as not_found) (run env (archive_context id user_id))
    pure tt

  -- List; `text_before` is the order of the database's collation.
  unfoldable pub list : (Text → Text → Bool) → ℕ → Bool → Contexts (List Context)
  list text_before user_id include_archived =
      wrapping database (run env (list_contexts text_before user_id include_archived))
