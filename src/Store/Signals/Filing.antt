-- ===== src/Store/Signals/Filing.antt =====
-- The filing of signals in contexts: AssignSignalContext and ListLowConfidenceAssignments of
-- internal/store/routing.sql.go, and ListContextTimeline of internal/store/signals.sql.go. A
-- confidence that is stored is a number of thousandths, as numeric(4, 3) keeps it. NULL is not among
-- the confidences that are given.
pub mod Rounding
pub mod Joined
pub mod Timeline
use warp_work.Base.{
  ℕ, Bool, true, false, not, ◌&&◌, Option, none, some, List, [], ◌∷◌, any, find, keep, change, take,
  sort_by, contains, ltb, ◌==◌, ◌||◌, ◌+◌, ◌*◌, ◌/◌, ◌^◌, suc, ℤ, pos, negsuc, pos_part, neg_part,
  if◌then◌else◌,
}
use warp_work.Base.Result.{Result, ok, err}
use warp_work.Store.{
  Query, DbError, invalid_text, value_out_of_range, check_violation, foreign_key_violation,
  confidence_range, filed_signal, filed_context,
}
use warp_work.Store.Signals.{SignalRow}

-- The enum assignment_source. `unknown` stands for a string that is none of its values.
pub data AssignmentSource : Type 0 where
  rule model manual unknown : AssignmentSource

-- pgtype.Numeric: `decimal n e` is n times ten to the power of e.
pub data Numeric : Type 0 where
  nan infinity : Numeric
  decimal : ℤ → ℤ → Numeric

-- The columns of signal_contexts; the checks leave a confidence of 0 to 1000 thousandths.
pub record SignalContext : Type 0 where
  pub signal_id : ℕ
  pub context_id : ℕ
  pub confidence : ℕ
  pub assigned_by : AssignmentSource
  pub created_at : ℕ

-- The parameters of AssignSignalContext.
pub record NewFiling : Type 0 where
  pub signal_id : ℕ
  pub context_id : ℕ
  pub confidence : Numeric
  pub assigned_by : AssignmentSource
  pub created_at : ℕ

abbrev pub filing : NewFiling → ℕ → SignalContext
filing arg confidence = record {
  signal_id = arg.signal_id;
  context_id = arg.context_id;
  confidence = confidence;
  assigned_by = arg.assigned_by;
  created_at = arg.created_at;
}

-- numerator / denominator in thousandths, to the nearest, a half away from zero.
unfoldable pub rounded : ℕ → ℕ → ℕ
rounded numerator denominator = (2 * numerator + denominator) / (2 * denominator)

abbrev pub magnitude : ℤ → ℕ
magnitude n = pos_part n + neg_part n

-- How many thousandths numeric(4, 3) makes of a number, without its sign.
unfoldable pub thousandths : ℤ → ℤ → ℕ
unfolding rounded
thousandths n (pos e) = magnitude n * 1000 * 10 ^ e
thousandths n (negsuc e) = rounded (magnitude n * 1000) (10 ^ suc e)

unfoldable pub is_negative : ℤ → Bool
is_negative (pos n) = false
is_negative (negsuc n) = true

-- The column's type, and then signal_contexts_confidence_range. The type takes NaN, which is above
-- every number, and no infinity.
unfoldable pub stored_confidence : Numeric → Result DbError ℕ
unfolding thousandths is_negative
stored_confidence nan = err (check_violation confidence_range)
stored_confidence infinity = err value_out_of_range
stored_confidence (decimal n e) =
    let kept = thousandths n e in
    if ltb 9999 kept
    then err value_out_of_range
    else if ltb 1000 kept || (is_negative n && not (kept == 0))
    then err (check_violation confidence_range)
    else ok kept

-- The table signals, the ids of the table contexts, and the table signal_contexts.
pub record FilingDb : Type 0 where
  pub signals : List SignalRow
  pub contexts : List ℕ
  pub filings : List SignalContext

unfoldable pub is_source : AssignmentSource → Bool
is_source unknown = false
is_source _ = true

unfoldable pub is_model : AssignmentSource → Bool
is_model model = true
is_model _ = false

-- The primary key (signal_id, context_id).
unfoldable pub is_filing : ℕ → ℕ → SignalContext → Bool
is_filing signal_id context_id f = f.signal_id == signal_id && f.context_id == context_id

abbrev pub refile : SignalContext → SignalContext → SignalContext
refile arg f = record f { confidence = arg.confidence; assigned_by = arg.assigned_by }

unfoldable pub insert_filing : SignalContext → Query FilingDb (Unit {0})
insert_filing arg at db =
    if not (any (λ s. s.id == arg.signal_id) db.signals)
    then (err (foreign_key_violation filed_signal), db)
    else if not (contains db.contexts arg.context_id)
    then (err (foreign_key_violation filed_context), db)
    else (ok tt, record db { filings = arg ∷ db.filings })

-- ON CONFLICT DO UPDATE: a filing that is there takes the new confidence and source.
unfoldable pub upsert_filing : SignalContext → Query FilingDb (Unit {0})
unfolding is_filing insert_filing
upsert_filing arg at db =
    if any (is_filing arg.signal_id arg.context_id) db.filings
    then (
      ok tt,
      record db {
        filings = change (is_filing arg.signal_id arg.context_id) (refile arg) db.filings;
      },
    )
    else insert_filing arg at db

unfoldable pub assign_signal_context : NewFiling → Query FilingDb (Unit {0})
unfolding is_source stored_confidence upsert_filing
assign_signal_context arg at db =
    if not (is_source arg.assigned_by)
    then (err invalid_text, db)
    else elim (stored_confidence arg.confidence) [
      | err e ↦ (err e, db)
      | ok confidence ↦ upsert_filing (filing arg confidence) at db
    ]

-- ORDER BY confidence
unfoldable pub list_low_confidence_assignments : ℕ → Query FilingDb (List SignalContext)
unfolding is_model
list_low_confidence_assignments threshold at db = (
  ok (
      sort_by (λ a b. ltb a.confidence b.confidence)
        (keep (λ f. is_model f.assigned_by && ltb f.confidence threshold) db.filings)),
  db,
)

-- signals JOIN signal_contexts
unfoldable pub joined : List SignalRow → List SignalContext → List (SignalRow × SignalContext)
joined signals [] = []
joined signals (f ∷ fs) =
    let rest = joined signals fs in
    elim (find (λ s. s.id == f.signal_id) signals) [ none ↦ rest | some s ↦ (s, f) ∷ rest ]

unfoldable pub in_timeline : List ℕ → ℕ → SignalRow × SignalContext → Bool
in_timeline context_ids before row =
    contains context_ids row.1.context_id && ltb row.0.occurred_at before

-- ORDER BY occurred_at DESC
unfoldable pub list_context_timeline :
    List ℕ → ℕ → ℕ → Query FilingDb (List (SignalRow × SignalContext))
unfolding joined in_timeline
list_context_timeline context_ids before row_limit at db = (
  ok (
      take row_limit (
        sort_by (λ a b. ltb b.0.occurred_at a.0.occurred_at)
          (keep (in_timeline context_ids before) (joined db.signals db.filings)))),
  db,
)
