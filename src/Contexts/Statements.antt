-- ===== src/Contexts/Statements.antt =====
-- The service's calls as sequences of the statements that write. Statements of several calls may
-- interleave in any order.
use warp_work.Base.{
  ℕ, ◌≡◌, refl, Bool, true, false, Option, none, some, sym, subst, arith, inl, inr,
}
use warp_work.Base.Result.{Result}
use warp_work.Base.Act.{pure, fail, lift, ◌>>=◌}
use warp_work.Base.Act.Moves.{
  Moves, Moves-pure, Moves-fail, Moves-lift, Moves-wrapping, Moves-if, Moves-bind,
}
use warp_work.Store.{Env, World, Query, run, db-run, new_v7}
use warp_work.Store.Contexts.{
  ContextDb, NewContext, ContextChange, create_context, get_context, count_live_children,
  archive_context, next_context_position, update_context,
}
use warp_work.Store.Contexts.Tree.{is_descendant}
use warp_work.Contexts.{
  Contexts, CreateParams, ContextError, create, update, archive, get, get_own, check_parent,
  check_new_parent, check_no_live_children, check_move, check_archiving,
}

-- A statement of a user's call, at any time of the database.
pub data Step : ℕ → ContextDb → ContextDb → Type 0 where
  creates :
      {user_id : ℕ} (arg : NewContext) (at : ℕ) (db : ContextDb)
      → arg.user_id ≡ user_id
      → Step user_id db (create_context arg at db).1
  updates :
      {user_id : ℕ} (id : ℕ) (arg : ContextChange) (at : ℕ) (db : ContextDb)
      → Step user_id db (update_context id user_id arg at db).1
  archives :
      {user_id : ℕ} (id at : ℕ) (db : ContextDb)
      → Step user_id db (archive_context id user_id at db).1

-- Statements one after the other, of the users that satisfy `P`.
pub data Run (P : ℕ → Type 0) : ContextDb → ContextDb → Type 0 where
  here : {db : ContextDb} → Run P db db
  next : {a b c : ContextDb} {user_id : ℕ} → P user_id → Run P a b → Step user_id b c → Run P a c

Run-trans : {P : ℕ → Type 0} {a b c : ContextDb} → Run P a b → Run P b c → Run P a c
Run-trans r here = r
Run-trans r (next p s t) = next p (Run-trans r s) t

module _ (user_id : ℕ) where
  -- The statements of one user.
  abbrev pub Runs : World ContextDb → World ContextDb → Type 0
  Runs w w' = Run (λ u. u ≡ user_id) w.db w'.db

  Runs-refl : (w : World ContextDb) → Runs w w
  Runs-refl w = here

  Runs-trans : (a b c : World ContextDb) → Runs a b → Runs b c → Runs a c
  Runs-trans a b c r s = Run-trans r s

module _ (env : Env) (user_id : ℕ) where
  run-Moves :
      {A : Type 0} (q : Query ContextDb A)
      → ((at : ℕ) (db : ContextDb) → Run (λ u. u ≡ user_id) db (q at db).1)
      → Moves (Runs user_id) (run env q)
  run-Moves q h = record {
    at = λ w. elim (db-run env q w) [
      | inl e ↦ subst (Run _ w.db) (sym e) here
      | inr e ↦ subst (Run _ w.db) (sym e) (h (env.db_now w.calls) w.db)
    ];
  }

  new_v7-Moves : Moves (Runs user_id) (new_v7 env {E = ContextError})
  new_v7-Moves = record { at = λ w. here }

  get_context-Moves : (id : ℕ) → Moves (Runs user_id) (run env (get_context id))
  get_context-Moves id = run-Moves _ (λ at db. unfold get_context in here)

  count_live_children-Moves : (id : ℕ) → Moves (Runs user_id) (run env (count_live_children id))
  count_live_children-Moves id = run-Moves _ (λ at db. unfold count_live_children in here)

  is_descendant-Moves : (a b : ℕ) → Moves (Runs user_id) (run env (is_descendant a b))
  is_descendant-Moves a b = run-Moves _ (λ at db. unfold is_descendant in here)

  next_context_position_reads :
      (id at : ℕ) (db : ContextDb) → (next_context_position id at db).1 ≡ db
  unfolding next_context_position
  next_context_position_reads id at db = ground arith

  next_context_position-Moves : (id : ℕ) → Moves (Runs user_id) (run env (next_context_position id))
  next_context_position-Moves id =
      run-Moves _ (λ at db. subst (Run _ db) (sym (next_context_position_reads id at db)) here)

  writes :
      {A : Type 0} (q : Query ContextDb A)
      → ((at : ℕ) (db : ContextDb) → Step user_id db (q at db).1)
      → Moves (Runs user_id) (run env q)
  writes q h = run-Moves q (λ at db. next refl here (h at db))

  create_context-Moves :
      (arg : NewContext)
      → arg.user_id ≡ user_id
      → Moves (Runs user_id) (run env (create_context arg))
  create_context-Moves arg e = writes (create_context arg) (λ at db. creates arg at db e)

  update_context-Moves :
      (id : ℕ) (arg : ContextChange)
      → Moves (Runs user_id) (run env (update_context id user_id arg))
  update_context-Moves id arg =
      writes (update_context id user_id arg) (λ at db. updates id arg at db)

  archive_context-Moves : (id : ℕ) → Moves (Runs user_id) (run env (archive_context id user_id))
  archive_context-Moves id = writes (archive_context id user_id) (λ at db. archives id at db)

  module _ {A : Type 0} where
    pure-Moves : (a : A) → Moves (Runs user_id) (pure {E = ContextError} a)
    pure-Moves = Moves-pure (Runs-refl user_id)

    fail-Moves : (e : ContextError) → Moves (Runs user_id) (fail {A = A} e)
    fail-Moves = Moves-fail (Runs-refl user_id)

    lift-Moves : (r : Result ContextError A) → Moves (Runs user_id) (lift r)
    lift-Moves = Moves-lift (Runs-refl user_id)

  bind-Moves :
      {A B : Type 0} (m : Contexts A) (f : A → Contexts B)
      → Moves (Runs user_id) m
      → ((a : A) → Moves (Runs user_id) (f a))
      → Moves (Runs user_id) (m >>= f)
  bind-Moves = Moves-bind (Runs-refl user_id) (Runs-trans user_id)

  ruleset statements = (
    pure-Moves, fail-Moves, lift-Moves, Moves-wrapping, Moves-if, bind-Moves, new_v7-Moves,
    get_context-Moves, count_live_children-Moves, is_descendant-Moves, next_context_position-Moves,
    create_context-Moves, update_context-Moves, archive_context-Moves,
  )

  get_own-Moves :
      (outcome : ContextError) (id : ℕ) → Moves (Runs user_id) (get_own env outcome user_id id)
  unfolding get_own
  get_own-Moves outcome id = search statements depth 8

  check_no_live_children-Moves : (id : ℕ) → Moves (Runs user_id) (check_no_live_children env id)
  unfolding check_no_live_children
  check_no_live_children-Moves id = search statements depth 8

  check_new_parent-Moves :
      (id parent_id : ℕ) → Moves (Runs user_id) (check_new_parent env user_id id parent_id)
  unfolding check_new_parent
  check_new_parent-Moves id parent_id = search (statements, get_own-Moves) depth 10

  check_move-Moves :
      (id : ℕ) (set : Bool) (parent_id : Option ℕ)
      → Moves (Runs user_id) (check_move env user_id id set parent_id)
  unfolding check_move
  check_move-Moves id true (some parent_id) = check_new_parent-Moves id parent_id
  check_move-Moves id true none = pure-Moves tt
  check_move-Moves id false parent_id = pure-Moves tt

  check_archiving-Moves :
      (id : ℕ) (archived : Option Bool) → Moves (Runs user_id) (check_archiving env id archived)
  unfolding check_archiving
  check_archiving-Moves id (some true) = check_no_live_children-Moves id
  check_archiving-Moves id (some false) = pure-Moves tt
  check_archiving-Moves id none = pure-Moves tt

  check_parent-Moves :
      (parent_id : Option ℕ) → Moves (Runs user_id) (check_parent env user_id parent_id)
  unfolding check_parent
  check_parent-Moves none = pure-Moves tt
  check_parent-Moves (some parent_id) = search (statements, get_own-Moves) depth 8

  ruleset checks = (
    get_own-Moves, check_no_live_children-Moves, check_move-Moves, check_archiving-Moves,
    check_parent-Moves,
  )

  pub create-Moves : (arg : CreateParams) → Moves (Runs user_id) (create env user_id arg)
  unfolding create
  create-Moves arg = search (statements, checks) depth 16

  pub update-Moves :
      (id : ℕ) (arg : ContextChange) → Moves (Runs user_id) (update env user_id id arg)
  unfolding update get
  update-Moves id arg = search (statements, checks) depth 16

  pub archive-Moves : (id : ℕ) → Moves (Runs user_id) (archive env user_id id)
  unfolding archive get
  archive-Moves id = search (statements, checks) depth 12
