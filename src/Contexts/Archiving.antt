-- ===== src/Contexts/Archiving.antt =====
-- What an archived context was, and what it is afterwards.
use warp_work.Base.{
  ℕ, suc, ◌≡◌, ◌≢◌, refl, ap, ◌∙◌, false, not, ◌&&◌, none, some, ◌<◌, find_holds, find-change_keeps,
  change, tally, ltb, ◌==◌, arith, Option-cases, Bool-cases, inl, inr, ◌⊎◌,
}
use warp_work.Base.Result.{ok, err}
use warp_work.Store.{Env, World, run, IsUp}
use warp_work.Store.Contexts.{
  Context, ContextDb, archived, is_own, find_context, get_context, count_live_children,
  archive_context,
}
use warp_work.Store.Contexts.Forest.Statements.{find-is_own}
use warp_work.Contexts.{
  ContextError, not_found, live_children, archive, get, get_own, owned, no_rows_as,
  check_no_live_children,
}

-- How many contexts that are not archived have this one as their parent.
abbrev pub live_children_of : ℕ → ContextDb → ℕ
live_children_of id db =
    tally (λ c. (elim c.parent_id [ none ↦ false | some p ↦ p == id ]) && not c.is_archived)
      db.contexts

find_context-archived :
    (id user_id : ℕ) (db : ContextDb) (c : Context)
    → find_context id db ≡ some c
    → c.user_id ≡ user_id
    → find_context id (record db { contexts = change (is_own id user_id) archived db.contexts })
      ≡ some (archived c)
unfolding find_context is_own
find_context-archived id user_id db c e o =
    find-change_keeps (λ x. x.id == id) (is_own id user_id) archived db.contexts (λ x. refl)
    ∙ ground (arith, find_holds (λ x. x.id == id) db.contexts c e)

module _ (env : Env) (user_id id : ℕ) where
  abbrev pub tick : World ContextDb → World ContextDb
  tick w = record w { calls = suc w.calls }

  pub get_own_found :
      (outcome : ContextError) (w : World ContextDb) (c : Context)
      → IsUp env w
      → find_context id w.db ≡ some c
      → c.user_id ≡ user_id
      → get_own env outcome user_id id w ≡ (ok c, tick w)
  unfolding get_own run get_context owned
  get_own_found outcome w c up e o = ground arith

  get_found :
      (w : World ContextDb) (c : Context)
      → IsUp env w
      → find_context id w.db ≡ some c
      → c.user_id ≡ user_id
      → get env user_id id w ≡ (ok c, tick w)
  unfolding get
  get_found = get_own_found not_found

  no_live_children :
      (w : World ContextDb)
      → IsUp env w
      → live_children_of id w.db ≡ 0
      → check_no_live_children env id w ≡ (ok tt, tick w)
  unfolding check_no_live_children run count_live_children
  no_live_children w up e = ground arith

  archived_row :
      (w : World ContextDb) (c : Context)
      → IsUp env w
      → find_context id w.db ≡ some c
      → c.user_id ≡ user_id
      → ((run env (archive_context id user_id) w).0 ≡ ok (archived c))
        × ((run env (archive_context id user_id) w).1.db
            ≡ record w.db { contexts = change (is_own id user_id) archived w.db.contexts })
  unfolding run archive_context find_context
  archived_row w c up e o = ground (arith, find-is_own id user_id w.db.contexts c e o)

  archive_own :
      (w : World ContextDb) (c : Context)
      → ((n : ℕ) → env.down n ≡ false)
      → find_context id w.db ≡ some c
      → c.user_id ≡ user_id
      → live_children_of id w.db ≡ 0
      → ((archive env user_id id w).0 ≡ ok tt)
        × (find_context id (archive env user_id id w).1.db ≡ some (archived c))
  archive_own w c up e o none_live =
      let row = archived_row (tick (tick w)) c (up _) e o in
      unfold archive in
      rw (get_found w c (up _) e o, no_live_children (tick w) (up _) none_live)
        (
          ground (arith, row.0),
          ap (find_context id) (ground (arith, row.0, row.1))
              ∙ find_context-archived id user_id w.db c e o,
        )

  archive_refused :
      (w : World ContextDb) (c : Context)
      → ((n : ℕ) → env.down n ≡ false)
      → find_context id w.db ≡ some c
      → c.user_id ≡ user_id
      → 0 < live_children_of id w.db
      → archive env user_id id w ≡ (err (live_children (live_children_of id w.db)), tick (tick w))
  archive_refused w c up e o live =
      unfold archive in
      rw (get_found w c (up _) e o)
        (unfold check_no_live_children run count_live_children in ground (arith, up (suc w.calls)))

  -- No context of the owner's has the id: it is somebody else's, or nobody's.
  abbrev pub IsElsewhere : World ContextDb → Type 0
  IsElsewhere w = (c : Context) → find_context id w.db ≡ some c → c.user_id ≢ user_id

  pub get_hidden :
      (w : World ContextDb)
      → IsUp env w
      → IsElsewhere w
      → get env user_id id w ≡ (err not_found, tick w)
  unfolding get get_own run get_context owned no_rows_as
  get_hidden w up h = elim (Option-cases (find_context id w.db)) [
    | inl e ↦ ground arith
    | inr (c, e) ↦ ground (arith, h c e)
  ]

  pub archive_hidden :
      (w : World ContextDb)
      → IsUp env w
      → IsElsewhere w
      → archive env user_id id w ≡ (err not_found, tick w)
  unfolding archive
  archive_hidden w up h = rw (get_hidden w up h) refl

  abbrev pub IsArchived : World ContextDb → Context → Type 0
  IsArchived w c =
      (live_children_of id w.db ≡ 0)
      × ((archive env user_id id w).0 ≡ ok tt)
      × (find_context id (archive env user_id id w).1.db ≡ some (archived c))

  abbrev pub IsRefused : World ContextDb → Type 0
  IsRefused w =
      (0 < live_children_of id w.db)
      × ((archive env user_id id w).0 ≡ err (live_children (live_children_of id w.db)))
      × ((archive env user_id id w).1.db ≡ w.db)

  abbrev pub IsHidden : World ContextDb → Type 0
  IsHidden w =
      ((archive env user_id id w).0 ≡ err not_found) × ((archive env user_id id w).1.db ≡ w.db)

  own_outcome :
      (w : World ContextDb) (c : Context)
      → ((n : ℕ) → env.down n ≡ false)
      → find_context id w.db ≡ some c
      → c.user_id ≡ user_id
      → IsArchived w c ⊎ IsRefused w
  own_outcome w c up e o = elim (Bool-cases (ltb 0 (live_children_of id w.db))) [
    | inl l ↦
        let refused = archive_refused w c up e o (ground arith) in
        inr (ground arith, ap (λ r. r.0) refused, ap (λ r. r.1.db) refused)
    | inr l ↦ let done = archive_own w c up e o (ground arith) in inl (ground arith, done.0, done.1)
  ]

  -- With a database that answers every call, archiving has one of three outcomes: a context of the
  -- owner without live children is archived, and otherwise as it was; one with live children is
  -- refused with their number; one that is missing or somebody else's is not found; the last two
  -- leave the database as it was.
  pub archive_outcome :
      (w : World ContextDb)
      → ((n : ℕ) → env.down n ≡ false)
      → ((c : Context) × (find_context id w.db ≡ some c)
          × (c.user_id ≡ user_id)
          × (IsArchived w c ⊎ IsRefused w))
        ⊎ (((c : Context) → find_context id w.db ≡ some c → c.user_id ≢ user_id) × IsHidden w)
  archive_outcome w up = elim (Option-cases (find_context id w.db)) [
    | inl e ↦ hidden (λ c q. cc)
    | inr (c, e) ↦ elim (Bool-cases (c.user_id == user_id)) [
      | inl o ↦ inl (c, e, ground arith, own_outcome w c up e (ground arith))
      | inr o ↦ hidden (λ c' q. ground arith)
    ]
  ]
    where
      hidden :
          (h : (c : Context) → find_context id w.db ≡ some c → c.user_id ≢ user_id)
          → ((c : Context) × (find_context id w.db ≡ some c)
              × (c.user_id ≡ user_id)
              × (IsArchived w c ⊎ IsRefused w))
            ⊎ (((c : Context) → find_context id w.db ≡ some c → c.user_id ≢ user_id) × IsHidden w)
      hidden h =
          let same = archive_hidden w (up _) h in
          inr (h, (ap (λ r. r.0) same, ap (λ r. r.1.db) same))
