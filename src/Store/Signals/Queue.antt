-- ===== src/Store/Signals/Queue.antt =====
-- The queue of the router: what ListUnroutedSignals returns.
use warp_work.Base.{
  ℕ, zero, suc, ◌≡◌, ◌≢◌, ◌↔◌, sym, subst, true, some, none, List, [], ◌∷◌, In, take, keep, sort_by,
  ltb, contains, In-keep, In-sort_by, In-change, change, arith, inl, inr, ◌==◌, ==_iff, Bool-cases,
}
use warp_work.Base.Result.{ok_injective, ok}
use warp_work.Store.Signals.{
  SignalRow, SignalDb, is_unrouted, list_unrouted_signals, mark, mark_signal_processed,
}
use warp_work.Store.Signals.Keeping.{mark_signal_processed_lem}

In-take : {A : Type 0} (n : ℕ) (x : A) (xs : List A) → In x (take n xs) → In x xs
In-take zero x xs i = absurd i
In-take (suc n) x [] i = i
In-take (suc n) x (y ∷ ys) (inl e) = inl e
In-take (suc n) x (y ∷ ys) (inr i) = inr (In-take n x ys i)

is_unrouted_lem :
    (ids : List ℕ) (s : SignalRow)
    → (is_unrouted ids s ≡ true) ↔ ((s.processed_at ≡ none) × (contains ids s.account_id ≡ true))
unfolding is_unrouted
is_unrouted_lem ids s = ground arith

list_unrouted_In :
    (ids : List ℕ) (n at : ℕ) (db : SignalDb) (rows : List SignalRow) (s : SignalRow)
    → (list_unrouted_signals ids n at db).0 ≡ ok rows
    → In s rows
    → In s db.signals × (is_unrouted ids s ≡ true)
unfolding list_unrouted_signals
list_unrouted_In ids n at db rows s e i =
    let before = λ (a : SignalRow) (b : SignalRow). ltb a.ingested_at b.ingested_at in
    let unrouted = keep (is_unrouted ids) db.signals in
    let taken = In-take n s (sort_by before unrouted) (subst (In s) (sym (ok_injective e)) i) in
    (In-keep (is_unrouted ids) s db.signals).0 ((In-sort_by before s unrouted).0 taken)

marked_In :
    (id t : ℕ) (rows : List SignalRow) (s : SignalRow)
    → In s (change (λ s. s.id == id) (mark (some t)) rows)
    → s.processed_at ≡ none
    → In s rows × (s.id ≢ id)
marked_In id t rows s i unset =
    let (r, j, e) = In-change (λ s. s.id == id) (mark (some t)) s rows i in
    elim (Bool-cases (r.id == id)) [
      | inl same ↦ cc (rw same at e)
      | inr other ↦ (
        subst (λ x. In x rows) (sym (rw other at e)) j,
        ground (arith, ==_iff s.id id, rw other at e),
      )
    ]

-- After MarkSignalProcessed with a time, every signal that ListUnroutedSignals returns is another
-- one, which was in the table, is not processed, and is of one of the accounts asked for.
pub list_unrouted-mark :
    (ids : List ℕ) (id t n at later : ℕ) (db : SignalDb) (rows : List SignalRow) (s : SignalRow)
    → (list_unrouted_signals ids n later (mark_signal_processed id (some t) at db).1).0 ≡ ok rows
    → In s rows
    → In s db.signals × (s.id ≢ id) × (s.processed_at ≡ none) × (contains ids s.account_id ≡ true)
list_unrouted-mark ids id t n at later db rows s e i =
    let (in_table, unrouted) =
      list_unrouted_In ids n later (mark_signal_processed id (some t) at db).1 rows s e i in
    let (unset, own) = (is_unrouted_lem ids s).0 unrouted in
    let (there, other) =
      marked_In id t db.signals s (rw (mark_signal_processed_lem id at (some t) db) at in_table)
        unset in
    (there, other, unset, own)
