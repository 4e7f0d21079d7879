-- ===== src/Tests/Filing.antt =====
-- A signal that is filed by hand where a model had filed it.
use warp_work.Base.{refl, none, pos, negsuc, [], ◌∷◌, In, codes, arith}
use warp_work.Store.Signals.{SignalRow, message, inbound}
use warp_work.Store.Signals.Filing.{
  NewFiling, decimal, SignalContext, FilingDb, model, manual, assign_signal_context,
  list_context_timeline,
}
use warp_work.Store.Signals.Filing.Timeline.{Keeps, list_context_timeline-assign}

abbrev note_to_self : SignalRow
note_to_self = record {
  id = 7;
  account_id = 2;
  external_id = codes "m7";
  external_thread_id = none;
  kind = message;
  direction = inbound;
  subject = none;
  snippet = none;
  payload = codes "{}";
  content_hash = none;
  occurred_at = 40;
  ingested_at = 50;
  processed_at = none;
  processing_error = none;
}

abbrev guessed : SignalContext
guessed = record {
  signal_id = 7;
  context_id = 3;
  confidence = 400;
  assigned_by = model;
  created_at = 51;
}

-- 0.7777
abbrev by_hand : NewFiling
by_hand = record {
  signal_id = 7;
  context_id = 3;
  confidence = decimal (pos 7777) (negsuc 3);
  assigned_by = manual;
  created_at = 60;
}

abbrev refiled : SignalContext
refiled = record {
  signal_id = 7;
  context_id = 3;
  confidence = 778;
  assigned_by = manual;
  created_at = 51;
}

abbrev filed : FilingDb
filed = record { signals = note_to_self ∷ []; contexts = 3 ∷ []; filings = guessed ∷ [] }

list_context_timeline-assign_example :
    (f : SignalContext) × In {A = SignalRow × SignalContext}
      (note_to_self, f)
      ((note_to_self, refiled) ∷ [])
    × Keeps by_hand f
unfolding assign_signal_context list_context_timeline
list_context_timeline-assign_example =
    list_context_timeline-assign by_hand (3 ∷ []) 45 20 60 70 filed ((note_to_self, refiled) ∷ [])
      note_to_self refl refl (ground arith) refl refl refl
