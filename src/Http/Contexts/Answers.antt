-- ===== src/Http/Contexts/Answers.antt =====
-- What the operations on contexts answer.
use warp_work.Base.{Text, ℕ, suc, ◌≡◌, refl, some, codes, if◌then◌else◌}
use warp_work.Base.Result.{ok, err}
use warp_work.Store.{Env, World, IsUp, check_violation, context_depth}
use warp_work.Store.Contexts.{Context, ContextDb, prevent_cycle}
use warp_work.Contexts.{CreateParams, valid_color, update}
use warp_work.Contexts.Archiving.{IsElsewhere, get_hidden, archive_hidden}
use warp_work.Contexts.Depth.{IsCreatable, create_too_deep}
use warp_work.Http.{
  as_api_error, is_unauthenticated, classify_other, Fault, Body, Response, refusal, respond,
  error_response, internal, classify,
}
use warp_work.Http.Security.{Requester}
use warp_work.Http.Contexts.{
  OptNil, unset, null, value, Answer, ContextView, UpdateContextRequest, CreateContextRequest,
  is_set, opt_nil, get_context, get_answer, update_answer, archive_answer, create_answer,
  update_context, archive_context, create_context,
}

abbrev pub no_such_context : Response (Body ContextView)
no_such_context = refusal 404 (codes "not_found") (codes "no such context")

color_checked :
    (c : OptNil Text)
    → valid_color (opt_nil c) ≡ ok tt
    → (if is_set c then valid_color (opt_nil c) else ok tt) ≡ ok tt
unfolding is_set opt_nil valid_color
color_checked unset v = refl
color_checked null v = refl
color_checked (value c) v = v

-- One look at the table, which changes nothing, and that answer.
abbrev pub finds_nothing : World ContextDb → Answer ContextView × World ContextDb
finds_nothing w = (ok no_such_context, record w { calls = suc w.calls })

module _ (env : Env) (r : Requester) where
  -- Where the call reaches the database and the colour is one the program knows, reading, changing
  -- and archiving a context that is somebody else's are answered exactly as for one that does not
  -- exist, by 404, and change nothing.
  pub answer_hidden :
      (req : UpdateContextRequest) (id : ℕ) (w : World ContextDb)
      → IsUp env w
      → IsElsewhere env r.principal.user_id id w
      → valid_color (opt_nil req.color) ≡ ok tt
      → (get_context env (some r) id w ≡ finds_nothing w)
        × (update_context env (some r) req id w ≡ finds_nothing w)
        × (archive_context env (some r) id w ≡ finds_nothing w)
  unfolding get_context update_context archive_context get_answer update_answer archive_answer
      update
  answer_hidden req id w up h v = (
    rw (get_hidden env r.principal.user_id id w up h) refl,
    rw (color_checked req.color v, get_hidden env r.principal.user_id id w up h) refl,
    rw (archive_hidden env r.principal.user_id id w up h) refl,
  )

  -- What the service is asked to create.
  abbrev pub asked : CreateContextRequest → CreateParams
  asked req = record {
    slug = req.slug;
    name = req.name;
    parent_id = opt_nil req.parent_id;
    color = opt_nil req.color;
    tone_profile = req.tone_profile;
  }

  -- With a database that answers every call, creating a context where every check but the depth of
  -- the tree lets it through is answered 500, as an internal error.
  pub respond-create_context :
      (error_text : Fault → Text) (req : CreateContextRequest) (parent id position : ℕ)
      (row : Context) (w : World ContextDb)
      → IsCreatable env r.principal.user_id (asked req) parent id position row w
      → prevent_cycle id (some parent) w.db ≡ err (check_violation context_depth)
      → respond error_text (create_context env (some r) req w).0 ≡ error_response internal
  unfolding create_context create_answer respond classify classify_other as_api_error
      is_unauthenticated
  respond-create_context error_text req parent id position row w h deep =
      rw (create_too_deep env r.principal.user_id (asked req) parent id position row w h deep) refl
