-- ===== src/Store/Contexts.antt =====
-- internal/store/contexts.sql.go: the rows of contexts, and the statements on them with the
-- constraints and the trigger contexts_check_cycle of db/migrations. Tree holds those that read the
-- view context_tree. The
-- column updated_at, which nothing here reads, is left out.
pub mod Tree
pub mod Forest
use warp_work.Base.{
  ℕ, zero, suc, Bool, true, false, not, ◌&&◌, ◌||◌, Option, none, some, List, [], ◌∷◌, ◌++◌, map,
  Text, codes, text_eq, length, any, find, keep, change, tally, sort_by, contains, ltb, leb, ◌==◌,
  if◌then◌else◌,
}
use warp_work.Base.Result.{Result, ok, err}
use warp_work.Store.{
  Query, DbError, unique_violation, check_violation, foreign_key_violation, value_out_of_range,
  contexts_pkey, contexts_user, contexts_parent, contexts_unique_slug, contexts_slug_format,
  contexts_color_token, context_cycle, context_depth,
}
use warp_work.Store.Auth.{User}
use warp_work.Store.Auth.Accounts.{one}

pub record Context : Type 0 where
  pub id : ℕ
  pub user_id : ℕ
  pub parent_id : Option ℕ
  pub slug : Text
  pub name : Text
  pub color : Option Text
  pub active_hours : Text
  pub tone_profile : Option Text
  pub position : ℕ
  pub is_archived : Bool
  pub created_at : ℕ

-- The tables users and contexts.
pub record ContextDb : Type 0 where
  pub users : List User
  pub contexts : List Context

unfoldable pub find_context : ℕ → ContextDb → Option Context
find_context id db = find (λ c. c.id == id) db.contexts

abbrev pub parent_of : Option Context → Option ℕ
parent_of none = none
parent_of (some c) = c.parent_id

-- The loop of contexts_prevent_cycle for the row `id`; at most `left` ancestors more may follow.
unfoldable pub check_ancestors : ℕ → ContextDb → ℕ → Option ℕ → Result DbError (Unit {0})
unfolding find_context
check_ancestors id db left none = ok tt
check_ancestors id db zero (some ancestor) =
    if ancestor == id
    then err (check_violation context_cycle)
    else err (check_violation context_depth)
check_ancestors id db (suc left) (some ancestor) =
    let rest = check_ancestors id db left (parent_of (find_context ancestor db)) in
    if ancestor == id then err (check_violation context_cycle) else rest

-- The trigger: at most two ancestors.
unfoldable pub prevent_cycle : ℕ → Option ℕ → ContextDb → Result DbError (Unit {0})
unfolding check_ancestors
prevent_cycle id parent_id db = check_ancestors id db 2 parent_id

abbrev pub color_tokens : List Text
color_tokens =
    codes "slate" ∷ codes "blue" ∷ codes "violet" ∷ codes "green" ∷ codes "teal" ∷ codes "rose" ∷ []

abbrev pub is_token : Text → Bool
is_token c = any (text_eq c) color_tokens

-- contexts_color_token
unfoldable pub is_color : Option Text → Bool
is_color none = true
is_color (some c) = is_token c

unfoldable pub is_slug_start : ℕ → Bool
is_slug_start c = (leb 97 c && leb c 122) || (leb 48 c && leb c 57)

unfoldable pub is_slug_rest : Text → Bool
unfolding is_slug_start
is_slug_rest [] = true
is_slug_rest (c ∷ s) = (is_slug_start c || c == b'_' || c == b'-') && is_slug_rest s

-- contexts_slug_format: ^[a-z0-9][a-z0-9_-]*$
unfoldable pub is_slug : Text → Bool
unfolding is_slug_start is_slug_rest
is_slug [] = false
is_slug (c ∷ s) = is_slug_start c && is_slug_rest s

-- The foreign key of parent_id.
unfoldable pub parent_exists : ContextDb → Option ℕ → Bool
parent_exists db none = true
parent_exists db (some id) = any (λ c. c.id == id) db.contexts

-- The parameters of CreateContext.
pub record NewContext : Type 0 where
  pub id : ℕ
  pub user_id : ℕ
  pub parent_id : Option ℕ
  pub slug : Text
  pub name : Text
  pub color : Option Text
  pub active_hours : Text
  pub tone_profile : Option Text
  pub position : ℕ

abbrev pub context_row : NewContext → ℕ → Context
context_row arg at = record {
  id = arg.id;
  user_id = arg.user_id;
  parent_id = arg.parent_id;
  slug = arg.slug;
  name = arg.name;
  color = arg.color;
  active_hours = arg.active_hours;
  tone_profile = arg.tone_profile;
  position = arg.position;
  is_archived = false;
  created_at = at;
}

-- The constraints of an insert, once the trigger has let it through.
unfoldable pub insert_context : NewContext → Query ContextDb Context
unfolding is_color is_slug parent_exists
insert_context arg at db =
    if not (is_color arg.color)
    then (err (check_violation contexts_color_token), db)
    else if not (is_slug arg.slug)
    then (err (check_violation contexts_slug_format), db)
    else if any (λ c. c.id == arg.id) db.contexts
    then (err (unique_violation contexts_pkey), db)
    else if any (λ c. c.user_id == arg.user_id && text_eq c.slug arg.slug) db.contexts
    then (err (unique_violation contexts_unique_slug), db)
    else if not (any (λ u. u.id == arg.user_id) db.users)
    then (err (foreign_key_violation contexts_user), db)
    else if not (parent_exists db arg.parent_id)
    then (err (foreign_key_violation contexts_parent), db)
    else (ok (context_row arg at), record db { contexts = context_row arg at ∷ db.contexts })

unfoldable pub create_context : NewContext → Query ContextDb Context
unfolding prevent_cycle insert_context
create_context arg at db = elim (prevent_cycle arg.id arg.parent_id db) [
  | err e ↦ (err e, db)
  | ok _ ↦ insert_context arg at db
]

unfoldable pub get_context : ℕ → Query ContextDb Context
unfolding find_context
get_context id at db = (one (find_context id db), db)

unfoldable pub count_live_children : ℕ → Query ContextDb ℕ
count_live_children parent_id at db = (
  ok (
      tally
        (λ c. (elim c.parent_id [ none ↦ false | some p ↦ p == parent_id ]) && not c.is_archived)
        db.contexts),
  db,
)

-- Its own row, of its owner.
unfoldable pub is_own : ℕ → ℕ → Context → Bool
is_own id user_id c = c.id == id && c.user_id == user_id

abbrev pub archived : Context → Context
archived c = record c { is_archived = true }

unfoldable pub archive_context : ℕ → ℕ → Query ContextDb Context
unfolding is_own
archive_context id user_id at db = elim (find (is_own id user_id) db.contexts) [
  | none ↦ (one none, db)
  | some c ↦
      (ok (archived c), record db { contexts = change (is_own id user_id) archived db.contexts })
]

-- An `integer` ends here.
abbrev pub max_integer : ℕ
max_integer = 2147483647

-- COALESCE(MAX(position) + 1, 0)
abbrev pub after_all : List Context → ℕ
after_all [] = 0
after_all (c ∷ cs) = let n = after_all cs in if ltb c.position n then n else suc c.position

unfoldable pub next_context_position : ℕ → Query ContextDb ℕ
next_context_position user_id at db =
    let n = after_all (keep (λ c. c.user_id == user_id) db.contexts) in
    if ltb max_integer n then (err value_out_of_range, db) else (ok n, db)

-- The parameters of UpdateContext: COALESCE keeps what is not given, and a flag tells a null that is
-- meant from one that is not.
pub record ContextChange : Type 0 where
  pub name : Option Text
  pub is_archived : Option Bool
  pub set_color : Bool
  pub color : Option Text
  pub set_parent_id : Bool
  pub parent_id : Option ℕ
  pub set_tone_profile : Bool
  pub tone_profile : Option Text

abbrev pub coalesce : {A : Type 0} → Option A → A → A
coalesce none a = a
coalesce (some b) a = b

unfoldable pub changed : ContextChange → Context → Context
changed arg c = record c {
  name = coalesce arg.name c.name;
  is_archived = coalesce arg.is_archived c.is_archived;
  color = if arg.set_color then arg.color else c.color;
  parent_id = if arg.set_parent_id then arg.parent_id else c.parent_id;
  tone_profile = if arg.set_tone_profile then arg.tone_profile else c.tone_profile;
}

-- The trigger fires also where parent_id keeps its value, since the statement names the column.
unfoldable pub update_context : ℕ → ℕ → ContextChange → Query ContextDb Context
unfolding is_own changed prevent_cycle is_color parent_exists
update_context id user_id arg at db = elim (find (is_own id user_id) db.contexts) [
  | none ↦ (one none, db)
  | some c ↦
      let c' = changed arg c in
      elim (prevent_cycle id c'.parent_id db) [
        | err e ↦ (err e, db)
        | ok _ ↦
            if not (is_color c'.color)
            then (err (check_violation contexts_color_token), db)
            else if not (parent_exists db c'.parent_id)
            then (err (foreign_key_violation contexts_parent), db)
            else (
              ok c',
              record db { contexts = change (is_own id user_id) (changed arg) db.contexts },
            )
      ]
]
