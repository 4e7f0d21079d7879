-- ===== src/Store/Contexts/Forest/Walk.antt =====
-- The walk up to the root, step by step: more fuel changes nothing, and it needs as much as it
-- finds rows.
use warp_work.Base.{
  ℕ, zero, suc, ◌+◌, ◌≡◌, refl, sym, subst, ◌∙◌, none, some, List, [], ◌∷◌, ◌++◌, length,
  some_injective, length-append_one, arith, Option-cases, inl, inr,
}
use warp_work.Store.Contexts.{Context, ContextDb, find_context}
use warp_work.Store.Contexts.Tree.{climb}

module _ (db : ContextDb) where
  -- One step of the walk.
  pub data Climbs (n id : ℕ) (rows : List Context) : Type 0 where
    at_root :
        (c : Context)
        → find_context id db ≡ some c
        → c.parent_id ≡ none
        → rows ≡ c ∷ []
        → Climbs n id rows
    below :
        (c : Context) (p : ℕ) (above : List Context)
        → find_context id db ≡ some c
        → c.parent_id ≡ some p
        → climb n db p ≡ some above
        → rows ≡ above ++ c ∷ []
        → Climbs n id rows

  pub climb-Climbs :
      (n id : ℕ) (rows : List Context) → climb (suc n) db id ≡ some rows → Climbs n id rows
  unfolding climb
  climb-Climbs n id rows e = elim (Option-cases (find_context id db)) [
    | inl q ↦ cc (rw (q, climb) at e)
    | inr (c, q) ↦ elim (Option-cases c.parent_id) [
      | inl k ↦ at_root c q k (ground arith)
      | inr (p, k) ↦ elim (Option-cases (climb n db p)) [
        | inl t ↦ absurd (ground arith)
        | inr (above, t) ↦ below c p above q k t (ground arith)
      ]
    ]
  ]

  pub Climbs-climb :
      (n id : ℕ) (rows : List Context) → Climbs n id rows → climb (suc n) db id ≡ some rows
  unfolding climb
  Climbs-climb n id rows (at_root c q k e) = ground arith
  Climbs-climb n id rows (below c p above q k t e) = ground arith

  -- More fuel gives the same rows.
  climb-more :
      (n id : ℕ) (rows : List Context) → climb n db id ≡ some rows → climb (suc n) db id ≡ some rows
  climb-more zero id rows e = unfold climb in cc
  climb-more (suc n) id rows e = elim (climb-Climbs n id rows e) [
    | at_root c q k r ↦ Climbs-climb (suc n) id rows (at_root c q k r)
    | below c p above q k t r ↦
        Climbs-climb (suc n) id rows (below c p above q k (climb-more n p above t) r)
  ]

  pub climb-plus :
      (k n id : ℕ) (rows : List Context)
      → climb n db id ≡ some rows
      → climb (k + n) db id ≡ some rows
  climb-plus zero n id rows e = subst (λ m. climb m db id ≡ some rows) (omega arith) e
  climb-plus (suc k) n id rows e =
      subst (λ m. climb m db id ≡ some rows) (omega arith)
        (climb-more (k + n) id rows (climb-plus k n id rows e))

  pub climb_unique :
      (n m id : ℕ) (rows rows' : List Context)
      → climb n db id ≡ some rows
      → climb m db id ≡ some rows'
      → rows ≡ rows'
  climb_unique n m id rows rows' e e' = some_injective (
      sym (climb-plus m n id rows e)
      ∙ subst (λ k. climb k db id ≡ some rows') (omega arith) (climb-plus n m id rows' e'))

  -- The walk takes as many steps as it finds rows.
  pub climb-exact :
      (n id : ℕ) (rows : List Context)
      → climb n db id ≡ some rows
      → climb (length rows) db id ≡ some rows
  climb-exact zero id rows e = unfold climb in cc
  climb-exact (suc n) id rows e = elim (climb-Climbs n id rows e) [
    | at_root c q k r ↦ rw r (Climbs-climb 0 id (c ∷ []) (at_root c q k refl))
    | below c p above q k t r ↦
        rw (r, length-append_one)
          (Climbs-climb (length above) id (above ++ c ∷ [])
            (below c p above q k (climb-exact n p above t) refl))
  ]
