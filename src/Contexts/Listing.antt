-- ===== src/Contexts/Listing.antt =====
-- What the list of an owner's contexts holds.
use warp_work.Base.{
  ℕ, ◌∷◌, [], ◌≡◌, ◌↔◌, ◌≢◌, refl, Bool, true, not, ◌&&◌, ◌||◌, none, List, Text, In, In-sort_by,
  In-keep, keep, find_of_any, any, ◌==◌, arith, Option-cases, inl, inr,
}
use warp_work.Base.Result.{ok}
use warp_work.Store.{Env, World, run_up, IsUp}
use warp_work.Store.Contexts.{Context, ContextDb, find_context}
use warp_work.Store.Contexts.Tree.{list_contexts, is_in_tree, path_before, path_of}
use warp_work.Store.Contexts.Forest.{IsForest}
use warp_work.Store.Contexts.Forest.Fuel.{ancestry-Rooted}
use warp_work.Contexts.{list}

-- The owner's contexts, without the archived ones where these are not asked for.
abbrev pub IsListed : ℕ → Bool → ContextDb → Context → Type 0
IsListed user_id include_archived db c =
    In c db.contexts × (c.user_id ≡ user_id) × ((include_archived || not c.is_archived) ≡ true)

any_id : (c : Context) (cs : List Context) → In c cs → any (λ x. x.id == c.id) cs ≡ true
any_id c [] h = absurd h
any_id c (x ∷ xs) h = ground (arith, any_id c xs)

find_context-In : (db : ContextDb) (c : Context) → In c db.contexts → find_context c.id db ≢ none
unfolding find_context
find_context-In db c h = find_of_any (λ x. x.id == c.id) db.contexts (any_id c db.contexts h)

is_in_tree-IsForest :
    (text_before : Text → Text → Bool) (db : ContextDb) (c : Context)
    → IsForest db
    → In c db.contexts
    → is_in_tree text_before db c ≡ true
is_in_tree-IsForest text_before db c f h = elim (Option-cases (find_context c.id db)) [
  | inl e ↦ absurd (find_context-In db c h e)
  | inr (row, e) ↦
      let (rows, e) = ancestry-Rooted db c.id (f c.id row.parent_id (ground arith)) in ground arith
]

-- Where every chain of parents ends at a root and the call reaches the database, List returns
-- exactly the owner's contexts, the archived ones only where they are asked for.
pub list-IsForest :
    (env : Env) (text_before : Text → Text → Bool) (user_id : ℕ) (include_archived : Bool)
    (w : World ContextDb)
    → IsUp env w
    → IsForest w.db
    → (rows : List Context) × ((list env text_before user_id include_archived w).0 ≡ ok rows)
      × ((c : Context) → In c rows ↔ IsListed user_id include_archived w.db c)
unfolding list
list-IsForest env text_before user_id include_archived w up f =
    rw (run_up env (list_contexts text_before user_id include_archived) w up) (
      unfold list_contexts in
      (
        _,
        refl,
        λ c. ground (
          arith,
          In-sort_by (before w.db) c (keep (passes w.db) w.db.contexts),
          In-keep (passes w.db) c w.db.contexts,
          is_in_tree-IsForest text_before w.db c f,
        ),
      ))
  where
    before : ContextDb → Context → Context → Bool
    before db a b = path_before text_before (path_of text_before db a) (path_of text_before db b)

    passes : ContextDb → Context → Bool
    passes db c =
        c.user_id == user_id
        && (include_archived || not c.is_archived)
        && is_in_tree text_before db c
