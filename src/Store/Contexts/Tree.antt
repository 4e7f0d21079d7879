-- ===== src/Store/Contexts/Tree.antt =====
-- internal/store/contexts.sql.go: the statements that read the view context_tree of db/migrations.
use warp_work.Base.{
  ℕ, zero, suc, Bool, true, false, not, ◌&&◌, ◌||◌, Option, none, some, List, [], ◌∷◌, ◌++◌, map,
  Text, length, keep, sort_by, contains, ltb, ◌==◌,
}
use warp_work.Base.Result.{ok}
use warp_work.Store.{Query}
use warp_work.Store.Contexts.{Context, ContextDb, find_context}

-- The rows from a root down to the row `id`, as context_tree walks them; a row that no root leads to
-- has none. A chain of rows is no longer than the table, which is the fuel.
unfoldable pub climb : ℕ → ContextDb → ℕ → Option (List Context)
unfolding find_context
climb zero db id = none
climb (suc fuel) db id = elim (find_context id db) [
  | none ↦ none
  | some c ↦ elim c.parent_id [
    | none ↦ some (c ∷ [])
    | some p ↦ elim (climb fuel db p) [ none ↦ none | some above ↦ some (above ++ c ∷ []) ]
  ]
]

unfoldable pub ancestry : ContextDb → ℕ → Option (List Context)
unfolding climb
ancestry db id = climb (length db.contexts) db id

unfoldable pub is_descendant : ℕ → ℕ → Query ContextDb Bool
unfolding ancestry
is_descendant candidate_id root_id at db = (
  ok (elim (ancestry db candidate_id) [
    | none ↦ false
    | some rows ↦ contains (map (λ c. c.id) rows) root_id
  ]),
  db,
)

-- `text_before` is the order of the database's collation.
module _ (text_before : Text → Text → Bool) where
  -- (position, name)
  unfoldable pub step_before : Context → Context → Bool
  step_before a b =
      ltb a.position b.position || (a.position == b.position && text_before a.name b.name)

  -- The order of sort_path: entry by entry, a path before the longer ones that it begins.
  unfoldable pub path_before : List Context → List Context → Bool
  unfolding step_before
  path_before xs [] = false
  path_before [] (y ∷ ys) = true
  path_before (x ∷ xs) (y ∷ ys) = step_before x y || (not (step_before y x) && path_before xs ys)

  abbrev pub path_of : ContextDb → Context → List Context
  path_of db c = elim (ancestry db c.id) [ none ↦ [] | some rows ↦ rows ]

  abbrev pub is_in_tree : ContextDb → Context → Bool
  is_in_tree db c = elim (ancestry db c.id) [ none ↦ false | some rows ↦ true ]

  unfoldable pub list_contexts : ℕ → Bool → Query ContextDb (List Context)
  unfolding path_before
  list_contexts user_id include_archived at db = (
    ok (
        sort_by (λ a b. path_before (path_of db a) (path_of db b))
          (keep
            (λ c.
              c.user_id == user_id && (include_archived || not c.is_archived) && is_in_tree db c)
            db.contexts)),
    db,
  )
