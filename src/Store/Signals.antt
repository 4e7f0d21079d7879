-- ===== src/Store/Signals.antt =====
-- internal/store/signals.sql.go: the rows of signals, and the statements on them with the
-- constraints and the trigger signals_protect_payload of db/migrations. Reading a jsonb is a
-- parameter, `none` where the text is not JSON. A timestamp of a column that is NOT NULL is given,
-- and a row limit is not negative.
pub mod Keeping
pub mod Replays
pub mod Queue
pub mod Filing
use warp_work.Base.{
  ℕ, Bool, true, false, not, ◌&&◌, ◌||◌, Option, none, some, List, [], ◌∷◌, Text, text_eq, length,
  any, find, keep, change, take, sort_by, contains, ltb, leb, ◌==◌, if◌then◌else◌,
}
use warp_work.Base.Result.{Result, ok, err}
use warp_work.Codec.Utf8.{valid_utf8}
use warp_work.Store.{
  Query, DbError, no_rows, invalid_text, unique_violation, check_violation, foreign_key_violation,
  signals_pkey, signals_account, hash_of_signal, signals_immutable,
}
use warp_work.Store.Auth.Accounts.{one}

-- The enum signal_kind. `unknown` stands for a string that is none of its values.
pub data StoredKind : Type 0 where
  email message calendar_event file note unknown : StoredKind

pub data SignalDirection : Type 0 where
  inbound outbound internal : SignalDirection

pub record SignalRow : Type 0 where
  pub id : ℕ
  pub account_id : ℕ
  pub external_id : Text
  pub external_thread_id : Option Text
  pub kind : StoredKind
  pub direction : SignalDirection
  pub subject : Option Text
  pub snippet : Option Text
  pub payload : Text
  pub content_hash : Option Text
  pub occurred_at : ℕ
  pub ingested_at : ℕ
  pub processed_at : Option ℕ
  pub processing_error : Option Text

-- The ids of the table accounts, and the table signals.
pub record SignalDb : Type 0 where
  pub accounts : List ℕ
  pub signals : List SignalRow

-- The parameters of IngestSignal.
pub record NewSignal : Type 0 where
  pub id : ℕ
  pub account_id : ℕ
  pub external_id : Text
  pub kind : StoredKind
  pub payload : Text
  pub content_hash : Option Text
  pub occurred_at : ℕ
  pub ingested_at : ℕ

abbrev pub signal_row : NewSignal → Text → SignalRow
signal_row arg payload = record {
  id = arg.id;
  account_id = arg.account_id;
  external_id = arg.external_id;
  external_thread_id = none;
  kind = arg.kind;
  direction = inbound;
  subject = none;
  snippet = none;
  payload = payload;
  content_hash = arg.content_hash;
  occurred_at = arg.occurred_at;
  ingested_at = arg.ingested_at;
  processed_at = none;
  processing_error = none;
}

-- A text that Postgres stores: UTF-8 without a zero byte.
unfoldable pub is_text : Text → Bool
is_text s = valid_utf8 s && not (any (λ b. b == 0) s)

unfoldable pub is_kind : StoredKind → Bool
is_kind unknown = false
is_kind _ = true

unfoldable pub is_hex_digit : ℕ → Bool
is_hex_digit c = (leb 48 c && leb c 57) || (leb 97 c && leb c 102)

-- signals_hash_format: ^[0-9a-f]{64}$
unfoldable pub is_hash : Option Text → Bool
unfolding is_hex_digit
is_hash none = true
is_hash (some h) = length h == 64 && not (any (λ c. not (is_hex_digit c)) h)

-- The key of signals_unique_external.
unfoldable pub is_external : ℕ → Text → SignalRow → Bool
is_external account_id external_id s =
    s.account_id == account_id && text_eq s.external_id external_id

unfoldable pub get_signal_by_external_id : ℕ → Text → Query SignalDb SignalRow
unfolding is_text is_external
get_signal_by_external_id account_id external_id at db =
    if not (is_text external_id)
    then (err invalid_text, db)
    else (one (find (is_external account_id external_id) db.signals), db)

-- The constraints of an insert whose key is new.
unfoldable pub insert_signal : NewSignal → Text → Query SignalDb SignalRow
insert_signal arg payload at db =
    if any (λ s. s.id == arg.id) db.signals
    then (err (unique_violation signals_pkey), db)
    else if not (contains db.accounts arg.account_id)
    then (err (foreign_key_violation signals_account), db)
    else (ok (signal_row arg payload), record db { signals = signal_row arg payload ∷ db.signals })

-- ON CONFLICT DO NOTHING: a key that is there inserts no row, and so RETURNING has none.
unfoldable pub ingest_row : NewSignal → Text → Query SignalDb SignalRow
unfolding is_hash is_external insert_signal
ingest_row arg payload at db =
    if not (is_hash arg.content_hash)
    then (err (check_violation hash_of_signal), db)
    else if any (is_external arg.account_id arg.external_id) db.signals
    then (err no_rows, db)
    else insert_signal arg payload at db

module _ (jsonb : Text → Option Text) where
  unfoldable pub ingest_signal : NewSignal → Query SignalDb SignalRow
  unfolding is_text is_kind ingest_row
  ingest_signal arg at db =
      if not (is_text arg.external_id && is_kind arg.kind)
      then (err invalid_text, db)
      else elim (jsonb arg.payload) [
        | none ↦ (err invalid_text, db)
        | some payload ↦ ingest_row arg payload at db
      ]

-- What the trigger compares.
unfoldable pub protects : SignalRow → SignalRow → Bool
protects old new =
    text_eq new.payload old.payload
    && text_eq new.external_id old.external_id
    && new.occurred_at == old.occurred_at

abbrev pub mark : Option ℕ → SignalRow → SignalRow
mark t s = record s { processed_at = t }

unfoldable pub mark_signal_processed : ℕ → Option ℕ → Query SignalDb (Unit {0})
unfolding protects
mark_signal_processed id processed_at at db =
    if any (λ s. s.id == id && not (protects s (mark processed_at s))) db.signals
    then (err (check_violation signals_immutable), db)
    else (ok tt, record db { signals = change (λ s. s.id == id) (mark processed_at) db.signals })

unfoldable pub is_unrouted : List ℕ → SignalRow → Bool
is_unrouted account_ids s = elim s.processed_at [
  | none ↦ contains account_ids s.account_id
  | some _ ↦ false
]

-- ORDER BY ingested_at
unfoldable pub list_unrouted_signals : List ℕ → ℕ → Query SignalDb (List SignalRow)
unfolding is_unrouted
list_unrouted_signals account_ids row_limit at db = (
  ok (
      take row_limit (
        sort_by (λ a b. ltb a.ingested_at b.ingested_at)
          (keep (is_unrouted account_ids) db.signals))),
  db,
)
