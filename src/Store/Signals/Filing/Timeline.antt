-- ===== src/Store/Signals/Filing/Timeline.antt =====
-- What a filing puts on the timeline of its context.
use warp_work.Base.{
  ℕ, ◌≡◌, ◌≤◌, refl, sym, subst, true, false, some, List, ◌∷◌, In, ltb, contains, find, length, any,
  change, ◌&&◌, change-In, find-In, find_holds, find_of_any, arith, inl, inr, ◌==◌, ==_iff,
  if◌then◌else◌, Bool-cases, Option-cases,
}
use warp_work.Base.Result.{Result-cases, ok}
use warp_work.Store.Signals.{SignalRow}
use warp_work.Store.Signals.Filing.Rounding.{IsKept, stored_confidence-IsKept}
use warp_work.Store.Signals.Filing.{
  NewFiling, filing, stored_confidence, SignalContext, FilingDb, is_filing, refile, insert_filing,
  upsert_filing, assign_signal_context, in_timeline, list_context_timeline,
}
use warp_work.Store.Signals.Filing.Joined.{list_context_timeline_lem}

-- What a filing says, but for the time it was made.
abbrev Says : SignalContext → SignalContext → Type 0
Says arg f =
    (f.signal_id ≡ arg.signal_id)
    × (f.context_id ≡ arg.context_id)
    × (f.confidence ≡ arg.confidence)
    × (f.assigned_by ≡ arg.assigned_by)

-- The signals are as they were, and a filing says what was asked.
abbrev Filed : SignalContext → FilingDb → FilingDb → Type 0
Filed arg db after =
    (after.signals ≡ db.signals) × ((f : SignalContext) × In f after.filings × Says arg f)

upsert_there :
    (arg : SignalContext) (at : ℕ) (db : FilingDb)
    → any (is_filing arg.signal_id arg.context_id) db.filings ≡ true
    → (upsert_filing arg at db).1 ≡ record db {
      filings = change (is_filing arg.signal_id arg.context_id) (refile arg) db.filings;
    }
unfolding upsert_filing
upsert_there arg at db h = ground arith

upsert_new :
    (arg : SignalContext) (at : ℕ) (db : FilingDb)
    → any (is_filing arg.signal_id arg.context_id) db.filings ≡ false
    → (upsert_filing arg at db).0 ≡ ok tt
    → (upsert_filing arg at db).1 ≡ record db { filings = arg ∷ db.filings }
unfolding upsert_filing insert_filing
upsert_new arg at db h e = ground arith

is_filing_lem :
    (signal_id context_id : ℕ) (f : SignalContext)
    → is_filing signal_id context_id f ≡ true
    → (f.signal_id ≡ signal_id) × (f.context_id ≡ context_id)
unfolding is_filing
is_filing_lem signal_id context_id f h =
    ground (arith, ==_iff f.signal_id signal_id, ==_iff f.context_id context_id)

refiled :
    (arg : SignalContext) (db : FilingDb) (f : SignalContext)
    → find (is_filing arg.signal_id arg.context_id) db.filings ≡ some f
    → Filed arg db (record db {
      filings = change (is_filing arg.signal_id arg.context_id) (refile arg) db.filings;
    })
refiled arg db f found =
    let p = is_filing arg.signal_id arg.context_id in
    let passes = find_holds p db.filings f found in
    let (s, c) = is_filing_lem arg.signal_id arg.context_id f passes in
    let there = change-In p (refile arg) f db.filings (find-In p db.filings f found) in
    (
      refl,
      (
        refile arg f,
        subst (λ b. In (if b then refile arg f else f) (change p (refile arg) db.filings)) passes
            there,
        (s, c, refl, refl),
      ),
    )

upsert_filing_filed :
    (arg : SignalContext) (at : ℕ) (db : FilingDb)
    → (upsert_filing arg at db).0 ≡ ok tt
    → Filed arg db (upsert_filing arg at db).1
upsert_filing_filed arg at db e =
    let p = is_filing arg.signal_id arg.context_id in
    elim (Bool-cases (any p db.filings)) [
      | inr new ↦
          subst (Filed arg db) (sym (upsert_new arg at db new e))
            (refl, (arg, inl refl, (refl, refl, refl, refl)))
      | inl known ↦ elim (Option-cases (find p db.filings)) [
        | inl missing ↦ absurd (find_of_any p db.filings known missing)
        | inr (f, found) ↦
            subst (Filed arg db) (sym (upsert_there arg at db known)) (refiled arg db f found)
      ]
    ]

assigned_kept :
    (arg : NewFiling) (at : ℕ) (db : FilingDb) (kept : ℕ)
    → (assign_signal_context arg at db).0 ≡ ok tt
    → stored_confidence arg.confidence ≡ ok kept
    → assign_signal_context arg at db ≡ upsert_filing (filing arg kept) at db
unfolding assign_signal_context
assigned_kept arg at db kept e k = ground arith

assigned :
    (arg : NewFiling) (at : ℕ) (db : FilingDb)
    → (assign_signal_context arg at db).0 ≡ ok tt
    → (kept : ℕ) × (stored_confidence arg.confidence ≡ ok kept)
      × ((upsert_filing (filing arg kept) at db).0 ≡ ok tt)
      × (assign_signal_context arg at db ≡ upsert_filing (filing arg kept) at db)
unfolding assign_signal_context
assigned arg at db e = elim (Result-cases (stored_confidence arg.confidence)) [
  | inl (kept, k) ↦ (
    kept,
    k,
    subst (λ out. out.0 ≡ ok tt) (assigned_kept arg at db kept e k) e,
    assigned_kept arg at db kept e k,
  )
  | inr (fault, k) ↦ absurd (ground arith)
]

-- The filing says what was asked, with the confidence that the column keeps of it.
abbrev pub Keeps : NewFiling → SignalContext → Type 0
Keeps arg f =
    (f.signal_id ≡ arg.signal_id)
    × (f.context_id ≡ arg.context_id)
    × IsKept arg.confidence f.confidence
    × (f.assigned_by ≡ arg.assigned_by)

-- After an AssignSignalContext that succeeded, whether it filed the signal or changed a filing,
-- ListContextTimeline of contexts among which is the filing's, before a time after the signal's
-- and with a limit of at least the number of filings, shows the signal with that filing's source
-- and its confidence to the nearest thousandth: a half is rounded up, it lies between 0 and 1, and
-- is 0 where the one given is below 0.
pub list_context_timeline-assign :
    (arg : NewFiling) (ids : List ℕ) (before n at later : ℕ) (db : FilingDb)
    (rows : List (SignalRow × SignalContext)) (s : SignalRow)
    → (assign_signal_context arg at db).0 ≡ ok tt
    → (list_context_timeline ids before n later (assign_signal_context arg at db).1).0 ≡ ok rows
    → length (assign_signal_context arg at db).1.filings ≤ n
    → find (λ s. s.id == arg.signal_id) db.signals ≡ some s
    → contains ids arg.context_id ≡ true
    → ltb s.occurred_at before ≡ true
    → (f : SignalContext) × In (s, f) rows × Keeps arg f
unfolding in_timeline
list_context_timeline-assign arg ids before n at later db rows s e listed few found own early =
    let after = (assign_signal_context arg at db).1 in
    let (kept, k, upserted, same) = assigned arg at db e in
    let (signals, filed) =
      subst (λ out. Filed (filing arg kept) db out.1) (sym same)
        (upsert_filing_filed (filing arg kept) at db upserted) in
    let (f, there, says) = filed in
    let (x, c, q, a) = says in
    let here : find (λ s. s.id == f.signal_id) after.signals ≡ some s = rw (signals, x) found in
    let shown : contains ids f.context_id && ltb s.occurred_at before ≡ true = rw (c, own) early in
    (
      f,
      (list_context_timeline_lem ids before n later after rows s f listed few).1
          (there, here, shown),
      (
        x,
        c,
        subst (IsKept arg.confidence) (sym q) (stored_confidence-IsKept arg.confidence kept k),
        a,
      ),
    )
