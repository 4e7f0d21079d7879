-- ===== src/Store/Signals/Replays.antt =====
-- Statements on signals in any order, and items that are ingested again.
use warp_work.Base.{
  ℕ, ◌≡◌, refl, sym, ap, subst, ◌∙◌, true, some, Option, ◌⊎◌, List, [], ◌∷◌, Text, find, arith,
  Bool-cases, Option-cases, inl, inr,
}
use warp_work.Base.Result.{Result, ok, err}
use warp_work.Store.{DbError, invalid_text, no_rows}
use warp_work.Store.Signals.{
  SignalRow, SignalDb, NewSignal, is_text, is_kind, is_hash, is_external, ingest_row, ingest_signal,
  get_signal_by_external_id, mark_signal_processed,
}
use warp_work.Store.Signals.Keeping.{
  content, contents, ingest_row_stored, ingest_row_again, ingest_row_keeps, mark-find,
  mark_signal_processed_lem,
}

-- What a query for one row returns, but for the time it was processed.
abbrev pub contents_of : Result DbError SignalRow → Result DbError SignalRow
contents_of (ok s) = ok (content s)
contents_of (err e) = err e

found_by :
    (account_id at : ℕ) (external_id : Text) (db : SignalDb) (s : SignalRow)
    → (get_signal_by_external_id account_id external_id at db).0 ≡ ok s
    → (is_text external_id ≡ true) × (find (is_external account_id external_id) db.signals ≡ some s)
unfolding get_signal_by_external_id
found_by account_id at external_id db s e = ground arith

finds :
    (account_id at : ℕ) (external_id : Text) (db : SignalDb) (c : SignalRow)
    → is_text external_id ≡ true
    → contents (find (is_external account_id external_id) db.signals) ≡ some c
    → contents_of (get_signal_by_external_id account_id external_id at db).0 ≡ ok c
unfolding get_signal_by_external_id
finds account_id at external_id db c h e = ground arith

found_content :
    (account_id at : ℕ) (external_id : Text) (db : SignalDb) (c : SignalRow)
    → contents_of (get_signal_by_external_id account_id external_id at db).0 ≡ ok c
    → (is_text external_id ≡ true)
      × (contents (find (is_external account_id external_id) db.signals) ≡ some c)
unfolding get_signal_by_external_id
found_content account_id at external_id db c e = ground arith

-- A statement that writes signals.
pub data Statement : Type 0 where
  ingest : NewSignal → Statement
  processed : ℕ → Option ℕ → Statement

module _ (jsonb : Text → Option Text) where
  abbrev pub effect : Statement → ℕ → SignalDb → SignalDb
  effect (ingest arg) at db = (ingest_signal jsonb arg at db).1
  effect (processed id t) at db = (mark_signal_processed id t at db).1

  -- The table after statements, each with its time.
  abbrev pub effects : List (Statement × ℕ) → SignalDb → SignalDb
  effects [] db = db
  effects ((s, at) ∷ rest) db = effects rest (effect s at db)

  ingest_signal_cases :
      (arg : NewSignal) (at : ℕ) (db : SignalDb)
      → (ingest_signal jsonb arg at db ≡ (err invalid_text, db))
        ⊎ ((payload : Text) × (is_text arg.external_id ≡ true)
            × (ingest_signal jsonb arg at db ≡ ingest_row arg payload at db))
  unfolding ingest_signal
  ingest_signal_cases arg at db = elim (Bool-cases (is_text arg.external_id)) [
    | inr e ↦ inl (rw e refl)
    | inl e ↦ elim (Bool-cases (is_kind arg.kind)) [
      | inr f ↦ inl (rw (e, f) refl)
      | inl f ↦ elim (Option-cases (jsonb arg.payload)) [
        | inl g ↦ inl (rw (e, f, g) refl)
        | inr (payload, g) ↦ inr (payload, e, rw (e, f, g) refl)
      ]
    ]
  ]

  ingest_signal_keeps :
      (arg : NewSignal) (at : ℕ) (db : SignalDb) (account_id : ℕ) (external_id : Text)
      (s : SignalRow)
      → find (is_external account_id external_id) db.signals ≡ some s
      → find (is_external account_id external_id) (ingest_signal jsonb arg at db).1.signals ≡ some s
  ingest_signal_keeps arg at db account_id external_id s e = elim (ingest_signal_cases arg at db) [
    | inl same ↦ rw same e
    | inr (payload, _, row) ↦ rw row (ingest_row_keeps arg payload at db account_id external_id s e)
  ]

  effect_keeps :
      (w : Statement) (at : ℕ) (db : SignalDb) (account_id : ℕ) (external_id : Text) (c : SignalRow)
      → contents (find (is_external account_id external_id) db.signals) ≡ some c
      → contents (find (is_external account_id external_id) (effect w at db).signals) ≡ some c
  effect_keeps (ingest arg) at db account_id external_id c e =
      elim (Option-cases (find (is_external account_id external_id) db.signals)) [
        | inl missing ↦ cc (rw missing at e)
        | inr (s, there) ↦
            ap contents (ingest_signal_keeps arg at db account_id external_id s there)
            ∙ sym (ap contents there)
            ∙ e
      ]
  effect_keeps (processed id t) at db account_id external_id c e =
      subst (λ out. contents (find (is_external account_id external_id) out.1.signals) ≡ some c)
        (sym (mark_signal_processed_lem id at t db))
        (mark-find id account_id external_id t db.signals ∙ e)

  effects_keep :
      (ws : List (Statement × ℕ)) (db : SignalDb) (account_id : ℕ) (external_id : Text)
      (c : SignalRow)
      → contents (find (is_external account_id external_id) db.signals) ≡ some c
      → contents (find (is_external account_id external_id) (effects ws db).signals) ≡ some c
  effects_keep [] db account_id external_id c e = e
  effects_keep ((w, at) ∷ ws) db account_id external_id c e =
      effects_keep ws (effect w at db) account_id external_id c
        (effect_keeps w at db account_id external_id c e)

  -- A signal that GetSignalByExternalID returned is returned for the same account and external id
  -- after whatever IngestSignal and MarkSignalProcessed statements, with nothing changed but the
  -- time it was processed.
  pub get_signal-effects :
      (ws : List (Statement × ℕ)) (account_id at later : ℕ) (external_id : Text) (db : SignalDb)
      (s : SignalRow)
      → (get_signal_by_external_id account_id external_id at db).0 ≡ ok s
      → contents_of (get_signal_by_external_id account_id external_id later (effects ws db)).0
        ≡ ok (content s)
  get_signal-effects ws account_id at later external_id db s e =
      let (text, there) = found_by account_id at external_id db s e in
      finds account_id later external_id (effects ws db) (content s) text
        (effects_keep ws db account_id external_id (content s) (ap contents there))

  ingest_signal_stored :
      (arg : NewSignal) (at : ℕ) (db : SignalDb) (s : SignalRow)
      → (ingest_signal jsonb arg at db).0 ≡ ok s
      → (get_signal_by_external_id arg.account_id arg.external_id at
          (ingest_signal jsonb arg at db).1).0
        ≡ ok s
  unfolding get_signal_by_external_id
  ingest_signal_stored arg at db s e = elim (ingest_signal_cases arg at db) [
    | inl refused ↦ cc (rw refused at e)
    | inr (payload, text, row) ↦
        rw (row, text, ingest_row_stored arg payload at db s (rw row at e)) refl
  ]

  ingest_signal_known :
      (arg : NewSignal) (payload : Text) (at : ℕ) (db : SignalDb) (c : SignalRow)
      → is_kind arg.kind ≡ true
      → is_hash arg.content_hash ≡ true
      → jsonb arg.payload ≡ some payload
      → contents_of (get_signal_by_external_id arg.account_id arg.external_id at db).0 ≡ ok c
      → ingest_signal jsonb arg at db ≡ (err no_rows, db)
  unfolding ingest_signal
  ingest_signal_known arg payload at db c k h p e =
      let (text, there) = found_content arg.account_id at arg.external_id db c e in
      elim (Option-cases (find (is_external arg.account_id arg.external_id) db.signals)) [
        | inl missing ↦ cc (rw missing at there)
        | inr (s, found) ↦ rw (text, k, p) (ingest_row_again arg payload at db s h found)
      ]

  -- After an IngestSignal that stored a row, and whatever statements follow, ingesting an item of
  -- the same account and external id, of a kind and a hash that the table takes and a payload that
  -- is JSON, leaves the table as it is, and answers that there are no rows.
  pub ingest_signal_again :
      (arg again : NewSignal) (at later : ℕ) (db : SignalDb) (s : SignalRow)
      (ws : List (Statement × ℕ)) (payload : Text)
      → (ingest_signal jsonb arg at db).0 ≡ ok s
      → again.account_id ≡ arg.account_id
      → again.external_id ≡ arg.external_id
      → is_kind again.kind ≡ true
      → is_hash again.content_hash ≡ true
      → jsonb again.payload ≡ some payload
      → ingest_signal jsonb again later (effects ws (ingest_signal jsonb arg at db).1)
        ≡ (err no_rows, effects ws (ingest_signal jsonb arg at db).1)
  ingest_signal_again arg again at later db s ws payload e a x k h p =
      let after = (ingest_signal jsonb arg at db).1 in
      let stored = ingest_signal_stored arg at db s e in
      ingest_signal_known again payload later (effects ws after) (content s) k h p
        (rw (a, x) (get_signal-effects ws arg.account_id at later arg.external_id after s stored))
