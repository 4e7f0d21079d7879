-- ===== src/Store/Contexts/Forest.antt =====
-- Chains of parents, and what the table of contexts is as a forest.
pub mod Statements
pub mod Walk
pub mod Fuel
use warp_work.Base.{
  ℕ, zero, suc, ◌≡◌, ◌≢◌, refl, sym, subst, ◌∙◌, true, false, Option, none, some, ◌==◌, arith,
  Bool-cases, Option-cases, inl, inr,
}
use warp_work.Base.Result.{ok}
use warp_work.Store.Contexts.{Context, ContextDb, find_context, parent_of, check_ancestors}

-- What the table says of an id: no such row, or a row with its parent.
abbrev pub link_of : Option Context → Option (Option ℕ)
link_of none = none
link_of (some c) = some c.parent_id

abbrev pub links : ContextDb → ℕ → Option (Option ℕ)
links db id = link_of (find_context id db)

-- The row's chain of parents ends at a root.
pub data Rooted (db : ContextDb) : ℕ → Type 0 where
  root : {id : ℕ} → links db id ≡ some none → Rooted db id
  under : {id : ℕ} (parent : ℕ) → links db id ≡ some (some parent) → Rooted db parent → Rooted db id

-- Every row's chain of parents ends at a root: none is missing, and none comes round to its start.
abbrev pub IsForest : ContextDb → Type 0
IsForest db = (id : ℕ) (parent : Option ℕ) → links db id ≡ some parent → Rooted db id

module _ (db db' : ContextDb) (moved : ℕ)
    (same : (x : ℕ) → x ≢ moved → links db' x ≡ links db x) where
  -- What the trigger lets through does not pass the row that moves, so it is in place afterwards.
  Rooted-check_ancestors :
      (left parent : ℕ)
      → Rooted db parent
      → check_ancestors moved db left (some parent) ≡ ok tt
      → Rooted db' parent
  unfolding check_ancestors
  Rooted-check_ancestors zero parent r q = ground arith
  Rooted-check_ancestors (suc left) parent (root e) q = root (same parent (λ m. ground arith) ∙ e)
  Rooted-check_ancestors (suc left) parent (under next e r) q =
      under next (same parent (λ m. ground arith) ∙ e)
        (Rooted-check_ancestors left next r (ground arith))

  or_moved : (id : ℕ) → Rooted db' moved → (id ≢ moved → Rooted db' id) → Rooted db' id
  or_moved id m h = elim (Bool-cases (id == moved)) [
    | inl e ↦ subst (Rooted db') (ground arith) m
    | inr e ↦ h (λ q. ground arith)
  ]

  -- Where the row that moved is in place, so are all that were.
  Rooted-moved : {id : ℕ} → Rooted db' moved → Rooted db id → Rooted db' id
  Rooted-moved {id} m (root e) = or_moved id m (λ d. root (same id d ∙ e))
  Rooted-moved {id} m (under next e r) =
      or_moved id m (λ d. under next (same id d ∙ e) (Rooted-moved m r))

  Rooted-link :
      (parent : Option ℕ) (left : ℕ)
      → IsForest db
      → links db' moved ≡ some parent
      → ((p : ℕ) → parent ≡ some p → links db p ≢ none)
      → check_ancestors moved db left parent ≡ ok tt
      → Rooted db' moved
  Rooted-link none left f e k q = root e
  Rooted-link (some p) left f e k q = elim (Option-cases (links db p)) [
    | inl missing ↦ absurd (k p refl missing)
    | inr (next, there) ↦ under p e (Rooted-check_ancestors left p (f p next there) q)
  ]

  -- A forest stays one where one row is linked to a parent that exists, if the trigger allows it.
  pub IsForest-link :
      (parent : Option ℕ) (left : ℕ)
      → IsForest db
      → links db' moved ≡ some parent
      → ((p : ℕ) → parent ≡ some p → links db p ≢ none)
      → check_ancestors moved db left parent ≡ ok tt
      → IsForest db'
  IsForest-link parent left f e k q id next there =
      let m = Rooted-link parent left f e k q in
      or_moved id m (λ d. Rooted-moved m (f id next (sym (same id d) ∙ there)))

-- A table that links every row as another does is a forest if that one is.
pub IsForest-same :
    (db db' : ContextDb) → ((x : ℕ) → links db' x ≡ links db x) → IsForest db → IsForest db'
IsForest-same db db' same f id next there = moved (f id next (sym (same id) ∙ there))
  where
    moved : {id : ℕ} → Rooted db id → Rooted db' id
    moved {id} (root e) = root (same id ∙ e)
    moved {id} (under p e r) = under p (same id ∙ e) (moved r)
