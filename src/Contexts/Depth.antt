-- ===== src/Contexts/Depth.antt =====
-- What the depth of the tree does to a call.
use warp_work.Base.{ℕ, suc, ◌≡◌, false, some, arith}
use warp_work.Base.Result.{ok, err}
use warp_work.Base.Act.{wrap_result}
use warp_work.Store.{Env, World, run, run_up, IsUp, check_violation, context_depth}
use warp_work.Store.Contexts.{
  Context, NewContext, ContextDb, find_context, prevent_cycle, next_context_position,
  create_context,
}
use warp_work.Contexts.{
  CreateParams, database, no_parent, valid_color, create, check_parent, uuid_of, or_slug_taken,
}
use warp_work.Contexts.Archiving.{get_own_found}

module _ (env : Env) (user_id : ℕ) where
  run_refused :
      (arg : NewContext) (w : World ContextDb)
      → IsUp env w
      → prevent_cycle arg.id arg.parent_id w.db ≡ err (check_violation context_depth)
      → wrap_result or_slug_taken (run env (create_context arg) w).0
        ≡ err (database (check_violation context_depth))
  unfolding run create_context or_slug_taken
  run_refused arg w up deep = ground arith

  -- A create under this parent is let through by every check but that of the depth.
  pub record IsCreatable (p : CreateParams) (parent id position : ℕ) (row : Context)
      (w : World ContextDb) : Type 0 where
    pub up : (n : ℕ) → env.down n ≡ false
    pub color : valid_color p.color ≡ ok tt
    pub under : p.parent_id ≡ some parent
    pub found : find_context parent w.db ≡ some row
    pub own : row.user_id ≡ user_id
    pub free : next_context_position user_id (env.db_now (suc w.calls)) w.db ≡ (ok position, w.db)
    pub fresh : env.new_v7 (suc (suc w.calls)) ≡ some id

  pub create_too_deep :
      (p : CreateParams) (parent id position : ℕ) (row : Context) (w : World ContextDb)
      → IsCreatable p parent id position row w
      → prevent_cycle id (some parent) w.db ≡ err (check_violation context_depth)
      → (create env user_id p w).0 ≡ err (database (check_violation context_depth))
  unfolding create check_parent uuid_of or_slug_taken
  create_too_deep p parent id position row w h deep =
      let w' : World ContextDb = record w { calls = suc w.calls } in
      rw (h.color, h.under)
        (rw (get_own_found env user_id parent no_parent w row (h.up _) h.found h.own) (
          rw (run_up env (next_context_position user_id) w' (h.up _), h.free, h.fresh)
            (run_refused _ _ (h.up _) deep)))
