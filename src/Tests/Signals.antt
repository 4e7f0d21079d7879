-- ===== src/Tests/Signals.antt =====
-- An account's mailbox that is synchronised twice.
use warp_work.Base.{
  ℕ, ◌≡◌, ◌≢◌, refl, true, Option, some, none, [], ◌∷◌, List, Text, codes, In, contains, inl,
}
use warp_work.Base.Result.{ok, err}
use warp_work.Store.{no_rows}
use warp_work.Store.Signals.{
  SignalDb, SignalRow, NewSignal, email, signal_row, ingest_signal, get_signal_by_external_id,
  mark_signal_processed, list_unrouted_signals,
}
use warp_work.Store.Signals.Keeping.{content}
use warp_work.Store.Signals.Replays.{
  Statement, ingest, processed, effects, contents_of, get_signal-effects, ingest_signal_again,
}
use warp_work.Store.Signals.Queue.{list_unrouted-mark}

-- A text is the JSON it is.
abbrev jsonb : Text → Option Text
jsonb payload = some payload

abbrev mail : ℕ → Text → NewSignal
mail id external_id = record {
  id = id;
  account_id = 2;
  external_id = external_id;
  kind = email;
  payload = codes "{}";
  content_hash = none;
  occurred_at = 40;
  ingested_at = 50;
}

abbrev empty : SignalDb
empty = record { accounts = 2 ∷ []; signals = [] }

abbrev first : SignalRow
first = signal_row (mail 1 (codes "m1")) (codes "{}")

abbrev second : SignalRow
second = signal_row (mail 2 (codes "m2")) (codes "{}")

abbrev inbox : SignalDb
inbox = record { accounts = 2 ∷ []; signals = second ∷ first ∷ [] }

abbrev sync : List (Statement × ℕ)
sync =
    (processed 1 (some 55), 55)
    ∷ (ingest (mail 3 (codes "m1")), 60)
    ∷ (ingest (mail 4 (codes "m3")), 60)
    ∷ []

get_signal-effects_example :
    contents_of (get_signal_by_external_id 2 (codes "m1") 70 (effects jsonb sync inbox)).0
    ≡ ok (content first)
unfolding get_signal_by_external_id warp_work.Codec.Utf8.valid_utf8
get_signal-effects_example = get_signal-effects jsonb sync 2 51 70 (codes "m1") inbox first refl

ingest_signal_again_example :
    ingest_signal jsonb
      (mail 9 (codes "m1"))
      80
      (effects jsonb sync (ingest_signal jsonb (mail 1 (codes "m1")) 50 empty).1)
    ≡ (err no_rows, effects jsonb sync (ingest_signal jsonb (mail 1 (codes "m1")) 50 empty).1)
unfolding ingest_signal warp_work.Codec.Utf8.valid_utf8
ingest_signal_again_example =
    ingest_signal_again jsonb (mail 1 (codes "m1")) (mail 9 (codes "m1")) 50 80 empty first sync
      (codes "{}") refl refl refl refl refl refl

list_unrouted-mark_example :
    In second inbox.signals
    × (second.id ≢ 1)
    × (second.processed_at ≡ none)
    × (contains (2 ∷ []) second.account_id ≡ true)
unfolding list_unrouted_signals mark_signal_processed
list_unrouted-mark_example =
    list_unrouted-mark (2 ∷ []) 1 55 10 55 60 inbox (second ∷ []) second refl (inl refl)
