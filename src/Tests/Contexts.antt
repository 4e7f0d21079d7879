-- ===== src/Tests/Contexts.antt =====
-- The tree of contexts.
use warp_work.Base.{
  ◌≡◌, ◌≢◌, refl, false, true, none, some, [], ◌∷◌, codes, ◌⊎◌, ◌↔◌, List, In, Bool-cases, inl, inr,
  ◌==◌, arith,
}
use warp_work.Store.{World}
use warp_work.Store.Contexts.{
  Context, ContextDb, ContextChange, find_context, NewContext, create_context, archive_context,
}
use warp_work.Contexts.{CreateParams, create, update, archive, list}
use warp_work.Contexts.Ownership.{owned_by, owned_by-calls}
use warp_work.Contexts.Archiving.{IsArchived, IsRefused, IsHidden, archive_outcome}
use warp_work.Base.Result.{ok}
use warp_work.Store.Contexts.Tree.{climb, ancestry}
use warp_work.Store.Contexts.Forest.{IsForest, root, under}
use warp_work.Store.Contexts.Forest.Fuel.{Leads, climb-Rooted}
use warp_work.Contexts.Statements.{here, next, creates, archives}
use warp_work.Contexts.Forest.{Run-IsForest}
use warp_work.Contexts.Listing.{IsListed, list-IsForest}
use warp_work.Tests.Fixtures.{env}

abbrev pub work : Context
work = record {
  id = 1;
  user_id = 1;
  parent_id = none;
  slug = codes "work";
  name = codes "Work";
  color = some (codes "blue");
  active_hours = codes "{}";
  tone_profile = none;
  position = 0;
  is_archived = false;
  created_at = 50;
}

abbrev pub client : Context
client = record work {
  id = 2;
  parent_id = some 1;
  slug = codes "client";
  name = codes "Client";
  position = 1;
}

abbrev pub tree : World ContextDb
tree = record {
  db = record {
    users = record { id = 1; created_at = 50 } ∷ record { id = 9; created_at = 60 } ∷ [];
    contexts = client ∷ work ∷ record work { id = 3; user_id = 9 } ∷ [];
  };
  calls = 0;
}

archive_outcome_example :
    ((c : Context) × (find_context 1 tree.db ≡ some c)
      × (c.user_id ≡ 1)
      × (IsArchived env 1 1 tree c ⊎ IsRefused env 1 1 tree))
    ⊎ (((c : Context) → find_context 1 tree.db ≡ some c → c.user_id ≢ 1) × IsHidden env 1 1 tree)
archive_outcome_example = archive_outcome env 1 1 tree (λ n. refl)

abbrev home : CreateParams
home = record {
  slug = codes "home";
  name = codes "Home";
  parent_id = some 1;
  color = none;
  tone_profile = none;
}

abbrev to_top : ContextChange
to_top = record {
  name = none;
  is_archived = none;
  set_color = false;
  color = none;
  set_parent_id = true;
  parent_id = none;
  set_tone_profile = false;
  tone_profile = none;
}

owned_by-calls_example :
    (owned_by 9 (create env 1 home tree).1 ≡ owned_by 9 tree)
    × (owned_by 9 (update env 1 2 to_top tree).1 ≡ owned_by 9 tree)
    × (owned_by 9 (archive env 1 2 tree).1 ≡ owned_by 9 tree)
owned_by-calls_example = owned_by-calls env 9 1 (λ e. cc) home to_top 2 tree

abbrev new_home : NewContext
new_home = record {
  id = 4;
  user_id = 1;
  parent_id = some 1;
  slug = codes "home";
  name = codes "Home";
  color = none;
  active_hours = codes "{}";
  tone_profile = none;
  position = 2;
}

tree-IsForest : IsForest tree.db
unfolding find_context
tree-IsForest id parent e = elim (Bool-cases (id == 1)) [
  | inl one ↦ root (ground arith)
  | inr other ↦ elim (Bool-cases (id == 2)) [
    | inl two ↦ under 1 (ground arith) (root refl)
    | inr third ↦ root (ground arith)
  ]
]

Run-IsForest_example : IsForest (archive_context 2 1 70 (create_context new_home 60 tree.db).1).1
Run-IsForest_example =
    Run-IsForest {P = λ u. Unit {0}}
      (next tt (next tt here (creates {user_id = 1} new_home 60 tree.db refl))
        (archives {user_id = 1} 2 70 (create_context new_home 60 tree.db).1))
      tree-IsForest

list-IsForest_example :
    (rows : List Context) × ((list env (λ a b. false) 1 false tree).0 ≡ ok rows)
    × ((c : Context) → In c rows ↔ IsListed 1 false tree.db c)
list-IsForest_example = list-IsForest env (λ a b. false) 1 false tree refl tree-IsForest

climb-Rooted_example :
    (rows : List Context) × (climb 7 tree.db 2 ≡ some rows)
    × (ancestry tree.db 2 ≡ some rows)
    × Leads tree.db none rows 2
unfolding find_context
climb-Rooted_example = climb-Rooted tree.db 2 7 (under 1 refl (root refl)) (omega arith)
