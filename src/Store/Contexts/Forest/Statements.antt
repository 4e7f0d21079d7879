-- ===== src/Store/Contexts/Forest/Statements.antt =====
-- The statements on contexts, and the forest.
use warp_work.Base.{
  ℕ, ◌≡◌, ◌≢◌, refl, sym, ap, subst, ◌∙◌, Bool, true, false, none, some, ◌⊎◌, List, [], ◌∷◌, find,
  change, ◌==◌, arith, Bool-cases, Option-cases, inl, inr, if◌then◌else◌, some_injective,
  find_of_any, find-change, find-change_keeps,
}
use warp_work.Base.Result.{ok}
use warp_work.Store.Contexts.{
  Context, ContextDb, NewContext, ContextChange, context_row, find_context, is_own, archived,
  changed, parent_exists, prevent_cycle, insert_context, create_context, archive_context,
  update_context,
}
use warp_work.Store.Contexts.Forest.{links, link_of, IsForest, IsForest-link, IsForest-same}

-- A row of the table has links.
links-parent_exists :
    (db : ContextDb) (p : ℕ) → parent_exists db (some p) ≡ true → links db p ≢ none
unfolding parent_exists find_context
links-parent_exists db p h e = elim (Option-cases (find_context p db)) [
  | inl none_found ↦ find_of_any (λ c. c.id == p) db.contexts h none_found
  | inr (c, found) ↦ cc (rw found at e)
]

-- A change of the row of an id and an owner, which keeps ids.
links-change_other :
    (id user_id : ℕ) (f : Context → Context) (db : ContextDb) (x : ℕ)
    → ((c : Context) → (f c).id ≡ c.id)
    → x ≢ id
    → links (record db { contexts = change (is_own id user_id) f db.contexts }) x ≡ links db x
unfolding find_context is_own
links-change_other id user_id f db x h d = ap link_of (
    find-change (λ c. c.id == x) (is_own id user_id) f db.contexts (λ c o. ground (arith, h c))
      (λ c o. ground arith))

pub find-is_own :
    (id user_id : ℕ) (cs : List Context) (c : Context)
    → find (λ x. x.id == id) cs ≡ some c
    → c.user_id ≡ user_id
    → find (is_own id user_id) cs ≡ some c
unfolding is_own
find-is_own id user_id [] c e o = e
find-is_own id user_id (x ∷ xs) c e o = ground (arith, find-is_own id user_id xs c)

find-is_own-none :
    (id user_id : ℕ) (cs : List Context)
    → find (λ x. x.id == id) cs ≡ none
    → find (is_own id user_id) cs ≡ none
unfolding is_own
find-is_own-none id user_id [] e = refl
find-is_own-none id user_id (x ∷ xs) e = ground (arith, find-is_own-none id user_id xs)

-- The row itself, which is found changed if it is the owner's, and as it was otherwise.
links-change_self :
    (id user_id : ℕ) (f : Context → Context) (db : ContextDb) (c : Context)
    → ((c : Context) → (f c).id ≡ c.id)
    → find_context id db ≡ some c
    → links (record db { contexts = change (is_own id user_id) f db.contexts }) id
      ≡ some (if is_own id user_id c then f c else c).parent_id
unfolding find_context
links-change_self id user_id f db c h e =
    ap link_of (
      find-change_keeps (λ c. c.id == id) (is_own id user_id) f db.contexts
        (λ c. ground (arith, h c)))
    ∙ rw e refl

-- A change that keeps ids and parents.
links-change :
    (q : Context → Bool) (f : Context → Context) (db : ContextDb) (x : ℕ)
    → ((c : Context) → (f c).id ≡ c.id)
    → ((c : Context) → (f c).parent_id ≡ c.parent_id)
    → links (record db { contexts = change q f db.contexts }) x ≡ links db x
unfolding find_context
links-change q f db x h k =
    ap link_of (find-change_keeps (λ c. c.id == x) q f db.contexts (λ c. ground (arith, h c)))
    ∙ (elim (Option-cases (find (λ c. c.id == x) db.contexts)) [
      | inl e ↦ rw e refl
      | inr (c, e) ↦ rw e (ground (arith, k c))
    ])

module _ (id user_id : ℕ) (db : ContextDb) (h : IsForest db) where
  archived-IsForest :
      IsForest (record db { contexts = change (is_own id user_id) archived db.contexts })
  archived-IsForest =
      IsForest-same db _
        (λ x. links-change (is_own id user_id) archived db x (λ c. refl) (λ c. refl)) h

  module _ (arg : ContextChange) where
    abbrev after : ContextDb
    after = record db { contexts = change (is_own id user_id) (changed arg) db.contexts }

    links-after_other : (x : ℕ) → x ≢ id → links after x ≡ links db x
    links-after_other x d =
        links-change_other id user_id (changed arg) db x (λ c. unfold changed in refl) d

    -- Somebody else's row keeps its parent.
    foreign-IsForest :
        (c : Context) → find_context id db ≡ some c → is_own id user_id c ≡ false → IsForest after
    foreign-IsForest c e o =
        IsForest-same db after
          (λ x. elim (Bool-cases (x == id)) [
            | inr d ↦ links-after_other x (λ q. ground arith)
            | inl d ↦
                subst (λ x. links after x ≡ links db x) (ground arith)
                  (links-change_self id user_id (changed arg) db c (λ c. unfold changed in refl) e
                    ∙ rw (e, o) refl)
          ])
          h

    own-IsForest :
        (c : Context)
        → find_context id db ≡ some c
        → is_own id user_id c ≡ true
        → prevent_cycle id (changed arg c).parent_id db ≡ ok tt
        → parent_exists db (changed arg c).parent_id ≡ true
        → IsForest after
    own-IsForest c e o q k =
        IsForest-link db after id links-after_other (changed arg c).parent_id 2 h
          (links-change_self id user_id (changed arg) db c (λ c. unfold changed in refl) e
            ∙ rw o refl)
          (λ p there. links-parent_exists db p (rw there at k)) (unfold prevent_cycle in q)

    changed-IsForest_found :
        (c c' : Context)
        → find_context id db ≡ some c'
        → is_own id user_id c' ≡ true
        → find (is_own id user_id) db.contexts ≡ some c
        → prevent_cycle id (changed arg c).parent_id db ≡ ok tt
        → parent_exists db (changed arg c).parent_id ≡ true
        → IsForest after
    changed-IsForest_found c c' there o e q k =
        let same : c' ≡ c = some_injective (
          sym (
            find-is_own id user_id db.contexts c' (unfold find_context in there)
              (unfold is_own in ground arith))
          ∙ e) in
        own-IsForest c (there ∙ ap some same) (rw (← same) o) q k

    changed-IsForest :
        (c : Context)
        → find (is_own id user_id) db.contexts ≡ some c
        → prevent_cycle id (changed arg c).parent_id db ≡ ok tt
        → parent_exists db (changed arg c).parent_id ≡ true
        → IsForest after
    changed-IsForest c e q k = elim (Option-cases (find_context id db)) [
      | inl none_there ↦
          cc (find-is_own-none id user_id db.contexts (unfold find_context in none_there), e)
      | inr (c', there) ↦ elim (Bool-cases (is_own id user_id c')) [
        | inr o ↦ foreign-IsForest c' there o
        | inl o ↦ changed-IsForest_found c c' there o e q k
      ]
    ]

inserted-IsForest :
    (arg : NewContext) (at : ℕ) (db : ContextDb)
    → IsForest db
    → prevent_cycle arg.id arg.parent_id db ≡ ok tt
    → parent_exists db arg.parent_id ≡ true
    → IsForest (record db { contexts = context_row arg at ∷ db.contexts })
inserted-IsForest arg at db h q k =
    IsForest-link db (record db { contexts = context_row arg at ∷ db.contexts }) arg.id
      (λ x d. unfold find_context in ground arith) arg.parent_id 2 h
      (unfold find_context in ground arith) (λ p there. links-parent_exists db p (rw there at k))
      (unfold prevent_cycle in q)

-- What a statement that writes leaves behind.
create_context-cases :
    (arg : NewContext) (at : ℕ) (db : ContextDb)
    → ((create_context arg at db).1 ≡ db)
      ⊎ (((create_context arg at db).1 ≡ record db { contexts = context_row arg at ∷ db.contexts })
          × (prevent_cycle arg.id arg.parent_id db ≡ ok tt)
          × (parent_exists db arg.parent_id ≡ true))
unfolding create_context insert_context
create_context-cases arg at db = ground arith

updated-cases :
    (id user_id : ℕ) (arg : ContextChange) (at : ℕ) (db : ContextDb) (c : Context)
    → find (is_own id user_id) db.contexts ≡ some c
    → ((update_context id user_id arg at db).1 ≡ db)
      ⊎ (((update_context id user_id arg at db).1
            ≡ record db { contexts = change (is_own id user_id) (changed arg) db.contexts })
          × (prevent_cycle id (changed arg c).parent_id db ≡ ok tt)
          × (parent_exists db (changed arg c).parent_id ≡ true))
unfolding update_context
updated-cases id user_id arg at db c e = ground arith

update_context-cases :
    (id user_id : ℕ) (arg : ContextChange) (at : ℕ) (db : ContextDb)
    → ((update_context id user_id arg at db).1 ≡ db)
      ⊎ ((c : Context) × (find (is_own id user_id) db.contexts ≡ some c)
          × ((update_context id user_id arg at db).1
              ≡ record db { contexts = change (is_own id user_id) (changed arg) db.contexts })
          × (prevent_cycle id (changed arg c).parent_id db ≡ ok tt)
          × (parent_exists db (changed arg c).parent_id ≡ true))
unfolding update_context
update_context-cases id user_id arg at db =
    elim (Option-cases (find (is_own id user_id) db.contexts)) [
      | inl e ↦ inl (ground arith)
      | inr (c, e) ↦ elim (updated-cases id user_id arg at db c e) [
        | inl same ↦ inl same
        | inr (after, q, k) ↦ inr (c, e, after, q, k)
      ]
    ]

-- The three statements that write keep the forest, whatever they answer.
pub create_context-IsForest :
    (arg : NewContext) (at : ℕ) (db : ContextDb)
    → IsForest db
    → IsForest (create_context arg at db).1
create_context-IsForest arg at db h = elim (create_context-cases arg at db) [
  | inl e ↦ subst IsForest (sym e) h
  | inr (e, q, k) ↦ subst IsForest (sym e) (inserted-IsForest arg at db h q k)
]

pub update_context-IsForest :
    (id user_id : ℕ) (arg : ContextChange) (at : ℕ) (db : ContextDb)
    → IsForest db
    → IsForest (update_context id user_id arg at db).1
update_context-IsForest id user_id arg at db h = elim (update_context-cases id user_id arg at db) [
  | inl e ↦ subst IsForest (sym e) h
  | inr (c, found, e, q, k) ↦
      subst IsForest (sym e) (changed-IsForest id user_id db h arg c found q k)
]

pub archive_context-IsForest :
    (id user_id at : ℕ) (db : ContextDb)
    → IsForest db
    → IsForest (archive_context id user_id at db).1
unfolding archive_context
archive_context-IsForest id user_id at db h =
    elim (Option-cases (find (is_own id user_id) db.contexts)) [
      | inl e ↦ rw (e, archive_context) h
      | inr (c, e) ↦ rw (e, archive_context) (archived-IsForest id user_id db h)
    ]
