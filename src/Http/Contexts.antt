-- ===== src/Http/Contexts.antt =====
-- apps/api/internal/httpapi/contexts.go: the operations on contexts. A request has been decoded and
-- checked against the contract by then. The statuses are those of the generated encoders.
pub mod Answers
use warp_work.Base.{ℕ, Bool, true, false, Option, none, some, List, Text, codes, map, ◌++◌}
use warp_work.Base.Result.{Result, ok, err}
use warp_work.Base.Act.{pure, fail, lift, attempt, wrapping, ◌>>=◌}
use warp_work.Codec.Decimal.{decimal}
use warp_work.Store.{Env, World}
use warp_work.Store.Contexts.{Context, ContextDb, ContextChange}
use warp_work.Contexts
use warp_work.Contexts.{
  ContextError, slug_taken, no_parent, not_found, self_parent, cycle, too_deep, live_children,
  CreateParams, create, get, update, archive, list,
}
use warp_work.Http.{
  Fault, no_session, contexts, Body, content, empty, Response, replies, refusal, Operation,
}
use warp_work.Http.Security.{Requester}

-- A property of a request that may be left out, or be null.
pub data OptNil (A : Type 0) : Type 0 where
  unset null : OptNil A
  value : A → OptNil A

module _ {A : Type 0} where
  unfoldable pub is_set : OptNil A → Bool
  is_set unset = false
  is_set null = true
  is_set (value a) = true

  -- optNilString, optNilUUID, optNilColor
  unfoldable pub opt_nil : OptNil A → Option A
  opt_nil unset = none
  opt_nil null = none
  opt_nil (value a) = some a

pub record CreateContextRequest : Type 0 where
  pub slug : Text
  pub name : Text
  pub parent_id : OptNil ℕ
  pub color : OptNil Text
  pub tone_profile : Option Text

pub record UpdateContextRequest : Type 0 where
  pub name : Option Text
  pub is_archived : Option Bool
  pub color : OptNil Text
  pub parent_id : OptNil ℕ
  pub tone_profile : OptNil Text

-- api.Context
pub record ContextView : Type 0 where
  pub id : ℕ
  pub slug : Text
  pub name : Text
  pub position : ℕ
  pub is_archived : Bool
  pub created_at : ℕ
  pub parent_id : Option ℕ
  pub color : Option Text
  pub tone_profile : Option Text

unfoldable pub context_response : Context → ContextView
context_response row = record {
  id = row.id;
  slug = row.slug;
  name = row.name;
  position = row.position;
  is_archived = row.is_archived;
  created_at = row.created_at;
  parent_id = row.parent_id;
  color = row.color;
  tone_profile = row.tone_profile;
}

-- LiveChildrenError.Error, and what the two operations add to it.
unfoldable pub live_children_text : ℕ → Text
live_children_text n =
    codes "context still has "
    ++ decimal n
    ++ codes " live child context(s)"
    ++ codes "; archive or move them first"

abbrev pub Answer : Type 0 → Type 0
Answer A = Result Fault (Response (Body A))

-- The switches over the service's error.
unfoldable pub create_answer : Result ContextError Context → Answer ContextView
unfolding context_response
create_answer (ok row) = ok (replies 201 (content (context_response row)))
create_answer (err slug_taken) = ok (
    refusal 409 (codes "slug_taken") (
      codes
        "a context with that slug already exists; slugs are what routing rules refer to, so they are not reused"))
create_answer (err no_parent) =
    ok (refusal 422 (codes "no_such_parent") (codes "the parent context does not exist"))
create_answer (err e) = err (contexts e)

unfoldable pub get_answer : Result ContextError Context → Answer ContextView
unfolding context_response
get_answer (ok row) = ok (replies 200 (content (context_response row)))
get_answer (err not_found) = ok (refusal 404 (codes "not_found") (codes "no such context"))
get_answer (err e) = err (contexts e)

unfoldable pub update_answer : Result ContextError Context → Answer ContextView
unfolding context_response live_children_text
update_answer (ok row) = ok (replies 200 (content (context_response row)))
update_answer (err not_found) = ok (refusal 404 (codes "not_found") (codes "no such context"))
update_answer (err no_parent) =
    ok (refusal 422 (codes "no_such_parent") (codes "the parent context does not exist"))
update_answer (err self_parent) =
    ok (refusal 422 (codes "self_parent") (codes "a context cannot be nested under itself"))
update_answer (err cycle) = ok (
    refusal 422 (codes "cycle") (
      codes
        "a context cannot be nested under one of its own descendants; move the descendant out first"))
update_answer (err too_deep) =
    ok (refusal 422 (codes "too_deep") (codes "contexts nest three levels deep at most"))
update_answer (err (live_children n)) =
    ok (refusal 422 (codes "live_children") (live_children_text n))
update_answer (err e) = err (contexts e)

unfoldable pub archive_answer : Result ContextError (Unit {0}) → Answer ContextView
unfolding live_children_text
archive_answer (ok _) = ok (replies 204 empty)
archive_answer (err not_found) = ok (refusal 404 (codes "not_found") (codes "no such context"))
archive_answer (err (live_children n)) =
    ok (refusal 409 (codes "live_children") (live_children_text n))
archive_answer (err e) = err (contexts e)

module _ (env : Env) where
  -- CreateContext
  unfoldable pub create_context :
      Option Requester → CreateContextRequest → Operation (World ContextDb) ContextView
  unfolding opt_nil create_answer
  create_context none req = fail no_session
  create_context (some r) req = do
    row ← attempt (
        create env r.principal.user_id (record {
          slug = req.slug;
          name = req.name;
          parent_id = opt_nil req.parent_id;
          color = opt_nil req.color;
          tone_profile = req.tone_profile;
        }))
    lift (create_answer row)

  -- ListContexts; `text_before` is the order of the database's collation.
  unfoldable pub list_contexts :
      (Text → Text → Bool)
      → Option Requester
      → Option Bool
      → Operation (World ContextDb) (List ContextView)
  unfolding context_response
  list_contexts text_before none include_archived = fail no_session
  list_contexts text_before (some r) include_archived = do
    rows ← wrapping contexts (
        list env text_before r.principal.user_id
          (elim include_archived [ none ↦ false | some b ↦ b ]))
    pure (replies 200 (content (map context_response rows)))

  -- GetContext
  unfoldable pub get_context : Option Requester → ℕ → Operation (World ContextDb) ContextView
  unfolding get_answer
  get_context none id = fail no_session
  get_context (some r) id = do row ← attempt (get env r.principal.user_id id); lift (get_answer row)

  -- UpdateContext
  unfoldable pub update_context :
      Option Requester → UpdateContextRequest → ℕ → Operation (World ContextDb) ContextView
  unfolding is_set opt_nil update_answer
  update_context none req id = fail no_session
  update_context (some r) req id = do
    row ← attempt (
        update env r.principal.user_id id (record {
          name = req.name;
          is_archived = req.is_archived;
          set_color = is_set req.color;
          color = opt_nil req.color;
          set_parent_id = is_set req.parent_id;
          parent_id = opt_nil req.parent_id;
          set_tone_profile = is_set req.tone_profile;
          tone_profile = opt_nil req.tone_profile;
        }))
    lift (update_answer row)

  -- ArchiveContext
  unfoldable pub archive_context : Option Requester → ℕ → Operation (World ContextDb) ContextView
  unfolding archive_answer
  archive_context none id = fail no_session
  archive_context (some r) id = do
    gone ← attempt (archive env r.principal.user_id id)
    lift (archive_answer gone)
