-- ===== src/Tests/Requests.antt =====
-- Requests on contexts and what they are answered.
use warp_work.Base.{◌≡◌, refl, none, some, [], ◌∷◌, codes}
use warp_work.Store.{World, Env, run}
use warp_work.Store.Auth.{password}
use warp_work.Store.Contexts.{Context, ContextDb}
use warp_work.Http.{Fault, Body, Response, respond, error_response, unauthenticated, internal}
use warp_work.Http.Security.{Requester}
use warp_work.Http.Sessions.Ending.{requester_of}
use warp_work.Http.Contexts.{
  UpdateContextRequest, CreateContextRequest, unset, value, get_context, update_context,
  archive_context, create_context,
}
use warp_work.Http.Contexts.Answers.{answer_hidden, finds_nothing, respond-create_context}
use warp_work.Tests.Fixtures.{platform, env, token, ana_session}
use warp_work.Tests.Contexts.{tree, work, client}
use warp_work.Tests.Http.{web}

abbrev ana : Requester
ana = requester_of platform token (ana_session, some password)

abbrev rename : UpdateContextRequest
rename = record {
  name = some (codes "Mine");
  is_archived = none;
  color = unset;
  parent_id = unset;
  tone_profile = unset;
}

answer_hidden_example :
    (get_context env (some ana) 3 tree ≡ finds_nothing tree)
    × (update_context env (some ana) rename 3 tree ≡ finds_nothing tree)
    × (archive_context env (some ana) 3 tree ≡ finds_nothing tree)
unfolding warp_work.Store.Contexts.find_context warp_work.Http.Contexts.opt_nil
    warp_work.Contexts.valid_color
answer_hidden_example = answer_hidden env ana rename 3 tree refl (λ c e. cc) refl

abbrev third : Context
third = record client { id = 5; parent_id = some 2; slug = codes "third" }

abbrev deep : World ContextDb
deep = record tree { db = record tree.db { contexts = third ∷ client ∷ work ∷ [] } }

abbrev fourth : CreateContextRequest
fourth = record {
  slug = codes "fourth";
  name = codes "Fourth";
  parent_id = value 5;
  color = unset;
  tone_profile = none;
}

respond-create_context_example :
    respond web.error_text (create_context env (some ana) fourth deep).0 ≡ error_response internal
unfolding warp_work.Contexts.valid_color warp_work.Http.Contexts.opt_nil
    warp_work.Store.Contexts.find_context warp_work.Store.Contexts.next_context_position
    warp_work.Store.Contexts.prevent_cycle
respond-create_context_example =
    respond-create_context env ana web.error_text fourth 5 1002 2 third deep
      (record {
        up = λ n. refl;
        color = refl;
        under = refl;
        found = refl;
        own = refl;
        free = refl;
        fresh = refl;
      })
      refl
