-- ===== src/Domain/Routing/Assignments.antt =====
-- What MatchRules returns: which contexts, and each once.
use warp_work.Base.{
  ℕ, ◌≡◌, ◌↔◌, refl, sym, true, false, not, ◌||◌, List, [], ◌∷◌, map, ◌⊎◌, inl, inr, In, arith,
  Bool-cases, contains,
}
use warp_work.Strings.{Unicode}
use warp_work.Domain.Routing.{
  RoutingRule, SignalFacts, Assignment, insert, sort, matches, assign, match_rules,
}

In-insert : (a r : RoutingRule) (xs : List RoutingRule) → In a (insert r xs) → In a (r ∷ xs)
unfolding insert
In-insert a r [] h = h
In-insert a r (x ∷ xs) h = ground (arith, In-insert a r xs)

insert-In : (a r : RoutingRule) (xs : List RoutingRule) → In a (r ∷ xs) → In a (insert r xs)
unfolding insert
insert-In a r [] h = h
insert-In a r (x ∷ xs) h = ground (arith, insert-In a r xs)

In-sort : (a : RoutingRule) (xs : List RoutingRule) → In a (sort xs) → In a xs
unfolding sort
In-sort a [] h = h
In-sort a (x ∷ xs) h = elim (In-insert a x (sort xs) h) [
  | inl e ↦ inl e
  | inr i ↦ inr (In-sort a xs i)
]

sort-In : (a : RoutingRule) (xs : List RoutingRule) → In a xs → In a (sort xs)
unfolding sort
sort-In a (x ∷ xs) (inl e) = insert-In a x (sort xs) (inl e)
sort-In a (x ∷ xs) (inr i) = insert-In a x (sort xs) (inr (sort-In a xs i))
sort-In a [] h = absurd h

abbrev pub contexts_of : List Assignment → List ℕ
contexts_of = map (λ a. a.context_id)

-- No entry occurs twice.
abbrev pub Distinct : List ℕ → Type 0
Distinct [] = Unit
Distinct (c ∷ cs) = (In c cs → ⊥) × Distinct cs

-- The contexts of the list, none of them in `seen`, each once.
abbrev AreFresh : List ℕ → List ℕ → Type 0
AreFresh seen [] = Unit
AreFresh seen (c ∷ cs) = (contains seen c ≡ false) × AreFresh (c ∷ seen) cs

module _ (u : Unicode) (facts : SignalFacts) (signal_id : ℕ) where
  assign_sound :
      (seen : List ℕ) (rules : List RoutingRule) (c : ℕ)
      → In c (contexts_of (assign u facts signal_id seen rules))
      → (r : RoutingRule) × In r rules × (matches u r facts ≡ true) × (r.context_id ≡ c)
  unfolding assign
  assign_sound seen [] c h = absurd h
  assign_sound seen (r ∷ rs) c h =
      elim (Bool-cases (contains seen r.context_id || not (matches u r facts))) [
        | inl skip ↦
            let (q, i, m, k) = assign_sound seen rs c (rw (skip, assign) at h) in (q, inr i, m, k)
        | inr hit ↦ elim (first hit (rw (hit, assign) at h)) [
          | inl e ↦ (r, inl refl, ground arith, sym e)
          | inr i ↦ let (q, j, m, k) = assign_sound (r.context_id ∷ seen) rs c i in (q, inr j, m, k)
        ]
      ]
    where
      first :
          contains seen r.context_id || not (matches u r facts) ≡ false
          → In c (r.context_id ∷ contexts_of (assign u facts signal_id (r.context_id ∷ seen) rs))
          → (c ≡ r.context_id)
            ⊎ In c (contexts_of (assign u facts signal_id (r.context_id ∷ seen) rs))
      first e i = i

  assign_complete :
      (seen : List ℕ) (rules : List RoutingRule) (r : RoutingRule)
      → In r rules
      → matches u r facts ≡ true
      → (contains seen r.context_id ≡ true)
        ⊎ In r.context_id (contexts_of (assign u facts signal_id seen rules))
  unfolding assign
  assign_complete seen [] r h m = absurd h
  assign_complete seen (x ∷ xs) r (inl e) m = ground arith
  assign_complete seen (x ∷ xs) r (inr h) m =
      ground (arith, assign_complete seen xs r h m, assign_complete (x.context_id ∷ seen) xs r h m)

  assign-AreFresh :
      (seen : List ℕ) (rules : List RoutingRule)
      → AreFresh seen (contexts_of (assign u facts signal_id seen rules))
  unfolding assign
  assign-AreFresh seen [] = tt
  assign-AreFresh seen (r ∷ rs) =
      ground (arith, assign-AreFresh seen rs, assign-AreFresh (r.context_id ∷ seen) rs)

fresh-not-seen : (seen cs : List ℕ) (c : ℕ) → AreFresh seen cs → In c cs → contains seen c ≡ false
fresh-not-seen seen [] c f h = absurd h
fresh-not-seen seen (d ∷ ds) c f (inl e) = rw e f.0
fresh-not-seen seen (d ∷ ds) c f (inr h) = ground (arith, fresh-not-seen (d ∷ seen) ds c f.1 h)

AreFresh-Distinct : (seen cs : List ℕ) → AreFresh seen cs → Distinct cs
AreFresh-Distinct seen [] f = tt
AreFresh-Distinct seen (d ∷ ds) f =
    (λ h. ground (arith, fresh-not-seen (d ∷ seen) ds d f.1 h), AreFresh-Distinct (d ∷ seen) ds f.1)

module _ (u : Unicode) (facts : SignalFacts) (signal_id : ℕ) where
  -- A context is among those that the rules assign exactly when some rule of the list that matches
  -- the facts names it.
  pub match_rules_contexts :
      (rules : List RoutingRule) (c : ℕ)
      → In c (contexts_of (match_rules u facts signal_id rules))
        ↔ ((r : RoutingRule) × In r rules × (matches u r facts ≡ true) × (r.context_id ≡ c))
  unfolding match_rules
  match_rules_contexts rules c = (found, given)
    where
      found :
          In c (contexts_of (assign u facts signal_id [] (sort rules)))
          → (r : RoutingRule) × In r rules × (matches u r facts ≡ true) × (r.context_id ≡ c)
      found h =
          let (r, i, m, k) = assign_sound u facts signal_id [] (sort rules) c h in
          (r, In-sort r rules i, m, k)

      given :
          (r : RoutingRule) × In r rules × (matches u r facts ≡ true) × (r.context_id ≡ c)
          → In c (contexts_of (assign u facts signal_id [] (sort rules)))
      given (r, i, m, k) =
          rw (← k)
            (elim (assign_complete u facts signal_id [] (sort rules) r (sort-In r rules i) m) [
              | inl e ↦ cc
              | inr j ↦ j
            ])

  -- No context is assigned twice.
  pub match_rules-Distinct :
      (rules : List RoutingRule) → Distinct (contexts_of (match_rules u facts signal_id rules))
  unfolding match_rules
  match_rules-Distinct rules =
      AreFresh-Distinct [] _ (assign-AreFresh u facts signal_id [] (sort rules))
