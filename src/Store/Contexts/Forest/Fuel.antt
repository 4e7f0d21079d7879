-- ===== src/Store/Contexts/Forest/Fuel.antt =====
-- The walk up to the root: the number of rows is fuel enough.
use warp_work.Base.{
  ℕ, zero, suc, ◌<◌, ◌≤◌, ◌≡◌, ◌≢◌, refl, sym, ap, subst, ◌∙◌, not, Option, none, some, List, [],
  ◌∷◌, ◌++◌, In, length, length-append_one, In-append_one, In-append_left, In-append_last,
  length-keep, ◌-◌, find_holds, find-In, keep, ◌==◌, arith, Option-cases, inl, inr,
}
use warp_work.Store.Contexts.{Context, ContextDb, find_context}
use warp_work.Store.Contexts.Tree.{climb, ancestry}
use warp_work.Store.Contexts.Forest.{links, Rooted, root, under}
use warp_work.Store.Contexts.Forest.Walk.{
  at_root, below, climb-Climbs, Climbs-climb, climb-plus, climb_unique, climb-exact,
}

-- The rows with another id: all of them but this one at least.
abbrev without : Context → List Context → List Context
without c = keep (λ x. not (x.id == c.id))

length-without : (c : Context) (xs : List Context) → In c xs → length (without c xs) < length xs
length-without c [] h = absurd h
length-without c (x ∷ xs) (inl e) = ground (arith, length-keep (λ x. not (x.id == c.id)) xs)
length-without c (x ∷ xs) (inr h) = ground (arith, length-without c xs h)

In-without : (c x : Context) (xs : List Context) → In x xs → x.id ≢ c.id → In x (without c xs)
In-without c x [] h d = absurd h
In-without c x (y ∷ ys) (inl e) d = ground arith
In-without c x (y ∷ ys) (inr h) d = ground (arith, In-without c x ys h d)

module _ (db : ContextDb) where
  -- A row met on the way has a walk of its own, which is no longer.
  found_id : (id : ℕ) (c : Context) → find_context id db ≡ some c → c.id ≡ id
  unfolding find_context
  found_id id c e = ground (arith, find_holds (λ c. c.id == id) db.contexts c e)

  -- A walk from the row's id that is no longer than `n` rows.
  abbrev HasWalk : ℕ → Context → Type 0
  HasWalk n x = (m : ℕ) × (rows : List Context) × (climb m db x.id ≡ some rows) × (length rows ≤ n)

  own_walk :
      (n id : ℕ) (rows : List Context) (c : Context)
      → climb n db id ≡ some rows
      → c.id ≡ id
      → HasWalk (length rows) c
  own_walk n id rows c e d = (n, rows, subst (λ i. climb n db i ≡ some rows) (sym d) e, omega arith)

  climb-HasWalk :
      (n id : ℕ) (rows : List Context) (x : Context)
      → climb n db id ≡ some rows
      → In x rows
      → HasWalk (length rows) x
  climb-HasWalk zero id rows x e i = unfold climb in cc
  climb-HasWalk (suc n) id rows x e i = elim (climb-Climbs db n id rows e) [
    | at_root c q k r ↦ own_walk (suc n) id rows x e (only c q (rw r at i))
    | below c p above q k t r ↦ elim (In-append_one x c above (rw r at i)) [
      | inr same ↦ own_walk (suc n) id rows x e (ap (λ c. c.id) same ∙ found_id id c q)
      | inl higher ↦
          let (m, found, walk, short) = climb-HasWalk n p above x t higher in
          (
            m,
            found,
            walk,
            subst (λ l. length found ≤ length l) (sym r) (longer found above c short),
          )
    ]
  ]
    where
      only : (c : Context) → find_context id db ≡ some c → In x (c ∷ []) → x.id ≡ id
      only c q (inl same) = ap (λ c. c.id) same ∙ found_id id c q
      only c q (inr h) = absurd h

      longer :
          (found above : List Context) (c : Context)
          → length found ≤ length above
          → length found ≤ length (above ++ c ∷ [])
      longer found above c h = rw (length-append_one above c) (omega arith)

  -- So no row is met twice.
  not_above :
      (n id p : ℕ) (c x : Context) (above : List Context)
      → climb (suc n) db id ≡ some (above ++ c ∷ [])
      → climb n db p ≡ some above
      → In x above
      → x.id ≢ id
  not_above n id p c x above e t i same =
      let (m, rows, walk, short) = climb-HasWalk n p above x t i in
      let again =
        climb_unique db m (suc n) id rows (above ++ c ∷ [])
          (subst (λ i. climb m db i ≡ some rows) same walk) e in
      absurd (omega (arith, short, length-append_one above c, ap length again))

  -- The rows of a walk that are all in a list are no more than that.
  climb-fits :
      (n id : ℕ) (rows ys : List Context)
      → climb n db id ≡ some rows
      → ((x : Context) → In x rows → In x ys)
      → length rows ≤ length ys
  climb-fits zero id rows ys e h = unfold climb in cc
  climb-fits (suc n) id rows ys e h = elim (climb-Climbs db n id rows e) [
    | at_root c q k r ↦
        let less = length-without c ys (h c (rw r (inl refl))) in
        subst (λ l. length l ≤ length ys) (sym r) (omega (arith, less))
    | below c p above q k t r ↦
        let less = length-without c ys (h c (rw r (In-append_last c above))) in
        let higher = climb-fits n p above (without c ys) t (λ x i.
          In-without c x ys (h x (rw r (In-append_left x c above i)))
            (λ d. not_above n id p c x above (rw r at e) t i (d ∙ found_id id c q))) in
        subst (λ l. length l ≤ length ys) (sym r)
          (omega (arith, less, higher, length-append_one above c))
  ]

  climb-In :
      (n id : ℕ) (rows : List Context) (x : Context)
      → climb n db id ≡ some rows
      → In x rows
      → In x db.contexts
  climb-In zero id rows x e i = unfold climb in cc
  climb-In (suc n) id rows x e i = elim (climb-Climbs db n id rows e) [
    | at_root c q k r ↦ last c q (rw r at i)
    | below c p above q k t r ↦ elim (In-append_one x c above (rw r at i)) [
      | inl higher ↦ climb-In n p above x t higher
      | inr same ↦ last c q (inl same)
    ]
  ]
    where
      last : (c : Context) → find_context id db ≡ some c → In x (c ∷ []) → In x db.contexts
      last c q (inl same) =
          subst (λ c. In c db.contexts) (sym same)
            (unfold find_context in find-In (λ c. c.id == id) db.contexts c q)
      last c q (inr h) = absurd h

  -- A row that some fuel finds the root for is one that the number of rows does.
  pub climb-ancestry :
      (n id : ℕ) (rows : List Context) → climb n db id ≡ some rows → ancestry db id ≡ some rows
  climb-ancestry n id rows e =
      let few = climb-fits n id rows db.contexts e (λ x i. climb-In n id rows x e i) in
      unfold ancestry in
      subst (λ k. climb k db id ≡ some rows) (omega (arith, few))
        (climb-plus db (length db.contexts - length rows) (length rows) id rows
          (climb-exact db n id rows e))

  climb_row :
      (id : ℕ) (link : Option ℕ)
      → links db id ≡ some link
      → (c : Context) × (find_context id db ≡ some c) × (c.parent_id ≡ link)
  climb_row id link e = elim (Option-cases (find_context id db)) [
    | inl q ↦ absurd (ground arith)
    | inr (c, q) ↦ (c, q, ground arith)
  ]

  Rooted-climb :
      {id : ℕ} → Rooted db id → (n : ℕ) × (rows : List Context) × (climb n db id ≡ some rows)
  Rooted-climb {id} (root e) =
      let (c, q, k) = climb_row id none e in
      (1, c ∷ [], Climbs-climb db 0 id (c ∷ []) (at_root c q k refl))
  Rooted-climb {id} (under p e r) =
      let (c, q, k) = climb_row id (some p) e in
      let (n, above, t) = Rooted-climb r in
      (suc n, above ++ c ∷ [], Climbs-climb db n id (above ++ c ∷ []) (below c p above q k t refl))

  pub ancestry-Rooted :
      (id : ℕ) → Rooted db id → (rows : List Context) × (ancestry db id ≡ some rows)
  ancestry-Rooted id r = let (n, rows, e) = Rooted-climb r in (rows, climb-ancestry n id rows e)

  pub climb-length :
      (id : ℕ) (rows : List Context) (n : ℕ)
      → ancestry db id ≡ some rows
      → length db.contexts ≤ n
      → climb n db id ≡ some rows
  unfolding ancestry
  climb-length id rows n e h =
      subst (λ k. climb k db id ≡ some rows) (omega (arith, h))
        (climb-plus db (n - length db.contexts) (length db.contexts) id rows e)

-- The rows lead from `link` down to `id`: each has the one before it as its parent, and the last
-- one has the id.
abbrev pub Leads : ContextDb → Option ℕ → List Context → ℕ → Type 0
Leads db link [] id = link ≡ some id
Leads db link (c ∷ cs) id =
    (c.parent_id ≡ link) × (find_context c.id db ≡ some c) × Leads db (some c.id) cs id

Leads-append :
    (db : ContextDb) (link : Option ℕ) (rows : List Context) (c : Context) (p id : ℕ)
    → Leads db link rows p
    → c.parent_id ≡ some p
    → find_context c.id db ≡ some c
    → c.id ≡ id
    → Leads db link (rows ++ c ∷ []) id
Leads-append db link [] c p id e k q d = (k ∙ sym e, q, ap some d)
Leads-append db link (x ∷ xs) c p id (e, f, rest) k q d =
    (e, f, Leads-append db (some x.id) xs c p id rest k q d)

module _ (db : ContextDb) where
  own_row : (id : ℕ) (c : Context) → find_context id db ≡ some c → find_context c.id db ≡ some c
  own_row id c q = subst (λ i. find_context i db ≡ some c) (sym (found_id db id c q)) q

  climb-Leads : (n id : ℕ) (rows : List Context) → climb n db id ≡ some rows → Leads db none rows id
  climb-Leads zero id rows e = unfold climb in cc
  climb-Leads (suc n) id rows e = elim (climb-Climbs db n id rows e) [
    | at_root c q k r ↦
        subst (λ l. Leads db none l id) (sym r) (k, own_row id c q, ap some (found_id db id c q))
    | below c p above q k t r ↦
        subst (λ l. Leads db none l id) (sym r)
          (Leads-append db none above c p id (climb-Leads n p above t) k (own_row id c q)
            (found_id db id c q))
  ]

-- The walk of context_tree from a context whose chain of parents ends at a root ends within as
-- many steps as the table has rows, and with any more, with the rows that lead from that root down
-- to it: the first has no parent, each other one's parent is the one before it, every one is the
-- table's row with its id, and the last is the context.
pub climb-Rooted :
    (db : ContextDb) (id fuel : ℕ)
    → Rooted db id
    → length db.contexts ≤ fuel
    → (rows : List Context) × (climb fuel db id ≡ some rows)
      × (ancestry db id ≡ some rows)
      × Leads db none rows id
climb-Rooted db id fuel r h =
    let (rows, e) = ancestry-Rooted db id r in
    let walk = climb-length db id rows fuel e h in (rows, walk, e, climb-Leads db fuel id rows walk)
