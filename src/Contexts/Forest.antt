-- ===== src/Contexts/Forest.antt =====
-- The tree of contexts under any calls.
use warp_work.Base.{ℕ}
use warp_work.Store.{Env, World}
use warp_work.Store.Contexts.{ContextDb, ContextChange}
use warp_work.Store.Contexts.Forest.{IsForest}
use warp_work.Store.Contexts.Forest.Statements.{
  create_context-IsForest, update_context-IsForest, archive_context-IsForest,
}
use warp_work.Contexts.{CreateParams, create, update, archive}
use warp_work.Contexts.Statements.{
  Step, creates, updates, archives, Run, here, next, create-Moves, update-Moves, archive-Moves,
}

Step-IsForest : {user_id : ℕ} {a b : ContextDb} → Step user_id a b → IsForest a → IsForest b
Step-IsForest (creates arg at db e) h = create_context-IsForest arg at db h
Step-IsForest (updates id arg at db) h = update_context-IsForest id _ arg at db h
Step-IsForest (archives id at db) h = archive_context-IsForest id _ at db h

-- Whatever statements of CreateContext, UpdateContext and ArchiveContext of any users run, in any
-- order, every context's chain of parents ends at a root afterwards if it did before: no cycle and
-- no parent that is missing.
pub Run-IsForest : {P : ℕ → Type 0} {a b : ContextDb} → Run P a b → IsForest a → IsForest b
Run-IsForest here h = h
Run-IsForest (next p r s) h = Step-IsForest s (Run-IsForest r h)

-- Creating, updating and archiving contexts, whether the call succeeds or fails, keeps every
-- context's chain of parents ending at a root.
pub IsForest-calls :
    (env : Env) (user_id : ℕ) (arg : CreateParams) (change : ContextChange) (id : ℕ)
    (w : World ContextDb)
    → IsForest w.db
    → IsForest (create env user_id arg w).1.db
      × IsForest (update env user_id id change w).1.db
      × IsForest (archive env user_id id w).1.db
IsForest-calls env user_id arg change id w h = (
  Run-IsForest ((create-Moves env user_id arg).at w) h,
  Run-IsForest ((update-Moves env user_id id change).at w) h,
  Run-IsForest ((archive-Moves env user_id id).at w) h,
)
