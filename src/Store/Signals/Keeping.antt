-- ===== src/Store/Signals/Keeping.antt =====
-- Signals are append-only: what ingesting and marking leave of the rows.
use warp_work.Base.{
  ℕ, ◌≡◌, refl, ap, Bool, true, false, none, some, Option, ◌⊎◌, List, [], ◌∷◌, Text, find, any,
  change, ◌==◌, ==_iff, eq_self, text_eq_self, arith, Bool-cases, inl, inr, text_eq→≡, not, ◌&&◌,
}
use warp_work.Base.Result.{ok, err}
use warp_work.Store.{no_rows}
use warp_work.Store.Signals.{
  SignalRow, SignalDb, NewSignal, signal_row, is_hash, is_external, insert_signal, ingest_row, mark,
  protects, mark_signal_processed,
}

module _ {A : Type 0} where
  any_of_find : (p : A → Bool) (xs : List A) (a : A) → find p xs ≡ some a → any p xs ≡ true
  any_of_find p [] a e = cc
  any_of_find p (x ∷ xs) a e = ground (arith, any_of_find p xs a)

-- What a row holds besides the time it was processed.
abbrev pub content : SignalRow → SignalRow
content = mark none

abbrev pub contents : Option SignalRow → Option SignalRow
contents none = none
contents (some s) = some (content s)

is_external_self :
    (arg : NewSignal) (payload : Text)
    → is_external arg.account_id arg.external_id (signal_row arg payload) ≡ true
unfolding is_external
is_external_self arg payload = ground (arith, eq_self arg.account_id, text_eq_self arg.external_id)

pub ingest_row_stored :
    (arg : NewSignal) (payload : Text) (at : ℕ) (db : SignalDb) (s : SignalRow)
    → (ingest_row arg payload at db).0 ≡ ok s
    → find (is_external arg.account_id arg.external_id) (ingest_row arg payload at db).1.signals
      ≡ some s
unfolding ingest_row insert_signal
ingest_row_stored arg payload at db s e = ground (arith, is_external_self arg payload)

pub ingest_row_again :
    (arg : NewSignal) (payload : Text) (at : ℕ) (db : SignalDb) (s : SignalRow)
    → is_hash arg.content_hash ≡ true
    → find (is_external arg.account_id arg.external_id) db.signals ≡ some s
    → ingest_row arg payload at db ≡ (err no_rows, db)
unfolding ingest_row
ingest_row_again arg payload at db s h e =
    ground (arith, any_of_find (is_external arg.account_id arg.external_id) db.signals s e)

-- The table stays, or has one row more, with a key that was not there.
ingest_row_cases :
    (arg : NewSignal) (payload : Text) (at : ℕ) (db : SignalDb)
    → ((ingest_row arg payload at db).1 ≡ db)
      ⊎ (((ingest_row arg payload at db).1.signals ≡ signal_row arg payload ∷ db.signals)
          × (any (is_external arg.account_id arg.external_id) db.signals ≡ false))
unfolding ingest_row insert_signal
ingest_row_cases arg payload at db = ground arith

is_external_only :
    (arg : NewSignal) (payload : Text) (account_id : ℕ) (external_id : Text)
    → is_external account_id external_id (signal_row arg payload) ≡ true
    → (arg.account_id ≡ account_id) × (arg.external_id ≡ external_id)
unfolding is_external
is_external_only arg payload account_id external_id h =
    ground (arith, ==_iff arg.account_id account_id, text_eq→≡ arg.external_id external_id)

-- A key that is there keeps its row.
find-new :
    (arg : NewSignal) (payload : Text) (rows : List SignalRow) (account_id : ℕ) (external_id : Text)
    (s : SignalRow)
    → any (is_external arg.account_id arg.external_id) rows ≡ false
    → find (is_external account_id external_id) rows ≡ some s
    → find (is_external account_id external_id) (signal_row arg payload ∷ rows) ≡ some s
find-new arg payload rows account_id external_id s new e =
    elim (Bool-cases (is_external account_id external_id (signal_row arg payload))) [
      | inl same ↦
          let (a, x) = is_external_only arg payload account_id external_id same in
          let there = any_of_find (is_external account_id external_id) rows s e in
          absurd (
            ground (
              arith,
              ap (λ k. any (is_external k arg.external_id) rows) a,
              ap (λ k. any (is_external account_id k) rows) x,
            ))
      | inr other ↦ rw other e
    ]

pub ingest_row_keeps :
    (arg : NewSignal) (payload : Text) (at : ℕ) (db : SignalDb) (account_id : ℕ)
    (external_id : Text) (s : SignalRow)
    → find (is_external account_id external_id) db.signals ≡ some s
    → find (is_external account_id external_id) (ingest_row arg payload at db).1.signals ≡ some s
ingest_row_keeps arg payload at db account_id external_id s e =
    elim (ingest_row_cases arg payload at db) [
      | inl same ↦ rw same e
      | inr (more, new) ↦ rw more (find-new arg payload db.signals account_id external_id s new e)
    ]

pub mark-find :
    (id account_id : ℕ) (external_id : Text) (t : Option ℕ) (rows : List SignalRow)
    → contents (find (is_external account_id external_id) (change (λ s. s.id == id) (mark t) rows))
      ≡ contents (find (is_external account_id external_id) rows)
unfolding is_external
mark-find id account_id external_id t [] = refl
mark-find id account_id external_id t (x ∷ xs) =
    ground (arith, mark-find id account_id external_id t xs)

-- The trigger lets every mark through.
protects-mark : (s : SignalRow) (t : Option ℕ) → protects s (mark t s) ≡ true
unfolding protects
protects-mark s t =
    ground (arith, text_eq_self s.payload, text_eq_self s.external_id, eq_self s.occurred_at)

never_refused :
    (id : ℕ) (t : Option ℕ) (rows : List SignalRow)
    → any (λ s. s.id == id && not (protects s (mark t s))) rows ≡ false
never_refused id t [] = refl
never_refused id t (s ∷ rows) = ground (arith, protects-mark s t, never_refused id t rows)

pub mark_signal_processed_lem :
    (id at : ℕ) (t : Option ℕ) (db : SignalDb)
    → mark_signal_processed id t at db
      ≡ (ok tt, record db { signals = change (λ s. s.id == id) (mark t) db.signals })
unfolding mark_signal_processed
mark_signal_processed_lem id at t db = rw (never_refused id t db.signals) refl
