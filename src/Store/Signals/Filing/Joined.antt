-- ===== src/Store/Signals/Filing/Joined.antt =====
-- What ListContextTimeline shows: the signals beside their filings.
use warp_work.Base.{
  ℕ, zero, suc, ◌≡◌, ◌↔◌, ◌≤◌, ◌∙◌, refl, sym, subst, ap, true, Bool, Option, some, none, List, [],
  ◌∷◌, In, take, keep, sort_by, insert_by, ltb, find, length, ◌⊎◌, In-keep, In-sort_by, length-keep,
  arith, inl, inr, ◌==◌,
}
use warp_work.Base.Result.{ok_injective, ok}
use warp_work.Store.Signals.{SignalRow}
use warp_work.Store.Signals.Filing.{
  SignalContext, FilingDb, joined, in_timeline, list_context_timeline,
}

take_all : {A : Type 0} (n : ℕ) (xs : List A) → length xs ≤ n → take n xs ≡ xs
take_all zero [] h = refl
take_all zero (x ∷ xs) h = absurd (ground arith)
take_all (suc n) [] h = refl
take_all (suc n) (x ∷ xs) h = ap (λ l. x ∷ l) (take_all n xs (ground arith))

module _ {A : Type 0} (before : A → A → Bool) where
  length-insert_by : (a : A) (xs : List A) → length (insert_by before a xs) ≡ suc (length xs)
  length-insert_by a [] = refl
  length-insert_by a (x ∷ xs) = ground (arith, length-insert_by a xs)

  length-sort_by : (xs : List A) → length (sort_by before xs) ≡ length xs
  length-sort_by [] = refl
  length-sort_by (x ∷ xs) = length-insert_by x (sort_by before xs) ∙ ap suc (length-sort_by xs)

length-joined : (ss : List SignalRow) (fs : List SignalContext) → length (joined ss fs) ≤ length fs
unfolding joined
length-joined ss [] = ground arith
length-joined ss (f ∷ fs) = ground (arith, length-joined ss fs)

-- An entry of what one filing adds.
In-add :
    (o : Option SignalRow) (rest : List (SignalRow × SignalContext)) (s : SignalRow)
    (f g : SignalContext)
    → In (s, f) (elim o [ none ↦ rest | some t ↦ (t, g) ∷ rest ])
      ↔ (((f ≡ g) × (o ≡ some s)) ⊎ In (s, f) rest)
In-add none rest s f g = (λ i. inr i, λ h. elim h [ inl e ↦ cc (e.1) | inr i ↦ i ])
In-add (some t) rest s f g = (
  λ i. elim i [ inl e ↦ inl (ap (λ r. r.1) e, ap (λ r. some r.0) (sym e)) | inr i ↦ inr i ],
  λ h. elim h [ inl e ↦ inl (ground arith) | inr i ↦ inr i ],
)

In-joined :
    (ss : List SignalRow) (fs : List SignalContext) (s : SignalRow) (f : SignalContext)
    → In (s, f) (joined ss fs) ↔ (In f fs × (find (λ s. s.id == f.signal_id) ss ≡ some s))
unfolding joined
In-joined ss [] s f = ground arith
In-joined ss (g ∷ fs) s f =
    let (out, back) = In-add (find (λ s. s.id == g.signal_id) ss) (joined ss fs) s f g in
    let (there, here) = In-joined ss fs s f in
    (
      λ i. elim (out i) [
        | inl (same, found) ↦
            (inl same, subst (λ h. find (λ s. s.id == h.signal_id) ss ≡ some s) (sym same) found)
        | inr i ↦ let (a, b) = there i in (inr a, b)
      ],
      λ h.
          let (i, found) = h in
          elim i [
            | inl same ↦
                back
                  (inl (same, subst (λ h. find (λ s. s.id == h.signal_id) ss ≡ some s) same found))
            | inr i ↦ back (inr (here (i, found)))
          ],
    )

-- With a limit of at least the number of filings, the timeline shows a signal beside a filing
-- exactly where the filing is the signal's, in one of the contexts, and the signal is earlier.
pub list_context_timeline_lem :
    (ids : List ℕ) (before n at : ℕ) (db : FilingDb) (rows : List (SignalRow × SignalContext))
    (s : SignalRow) (f : SignalContext)
    → (list_context_timeline ids before n at db).0 ≡ ok rows
    → length db.filings ≤ n
    → In (s, f) rows ↔ (
        In f db.filings
        × (find (λ s. s.id == f.signal_id) db.signals ≡ some s)
        × (in_timeline ids before (s, f) ≡ true))
unfolding list_context_timeline
list_context_timeline_lem ids before n at db rows s f e few =
    let order = λ (a : SignalRow × SignalContext) (b : SignalRow × SignalContext).
      ltb b.0.occurred_at a.0.occurred_at in
    let all = joined db.signals db.filings in
    let kept = keep (in_timeline ids before) all in
    let fits : length (sort_by order kept) ≤ n =
      subst (λ m. m ≤ n) (sym (length-sort_by order kept))
        (ground
          (arith, length-keep (in_timeline ids before) all, length-joined db.signals db.filings)) in
    let whole : rows ≡ sort_by order kept =
      ok_injective (sym e) ∙ take_all n (sort_by order kept) fits in
    let (k, k') = In-keep (in_timeline ids before) (s, f) all in
    let (o, o') = In-sort_by order (s, f) kept in
    let (j, j') = In-joined db.signals db.filings s f in
    (
      λ i. let (a, t) = k (o (subst (In (s, f)) whole i)) in let (b, c) = j a in (b, c, t),
      λ h. let (b, c, t) = h in subst (In (s, f)) (sym whole) (o' (k' (j' (b, c), t))),
    )
