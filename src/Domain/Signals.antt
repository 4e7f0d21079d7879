-- ===== src/Domain/Signals.antt =====
-- internal/domain/signal.go: items as they arrive. SHA-256 is a parameter.
use warp_work.Base.{
  ℕ, ◌/◌, ◌%◌, ◌+◌, ◌≡◌, ◌≢◌, ◌↔◌, subst, sym, Bool, true, false, not, Option, none, some, [], ◌∷◌,
  Text, text_eq, text_eq→≡, text_eq_self, ltb, if◌then◌else◌, arith,
}
use warp_work.Base.Result.{Result, ok, err}
use warp_work.Domain.{
  Invalid, bad_kind, bad_external_id, bad_payload, bad_hash, bad_occurrence, Validity, refuse_if,
}

-- `other` stands for a string that is none of the constants.
pub data SignalKind : Type 0 where
  email message calendar_event file : SignalKind
  other : Text → SignalKind

unfoldable pub valid_kind : SignalKind → Validity
valid_kind (other _) = err bad_kind
valid_kind _ = ok tt

-- A time.Time; `none` is the zero one.
pub record Signal : Type 0 where
  pub id : ℕ
  pub account_id : ℕ
  pub external_id : Text
  pub kind : SignalKind
  pub payload : Text
  pub content_hash : Text
  pub occurred_at : Option ℕ
  pub ingested_at : Option ℕ
  pub processed_at : Option ℕ

-- hex.EncodeToString
unfoldable pub hex_digit : ℕ → ℕ
hex_digit n = if ltb n 10 then n + 48 else n + 87

unfoldable pub hex : Text → Text
unfolding hex_digit
hex [] = []
hex (b ∷ bs) = hex_digit (b / 16) ∷ hex_digit (b % 16) ∷ hex bs

unfoldable pub is_zero : Option ℕ → Bool
is_zero none = true
is_zero (some _) = false

-- Signal.Processed
unfoldable pub processed : Signal → Bool
processed s = elim s.processed_at [ none ↦ false | some _ ↦ true ]

module _ (sha256 : Text → Text) where
  unfoldable pub hash_payload : Text → Text
  unfolding hex
  hash_payload payload = hex (sha256 payload)

  -- Signal.Valid
  unfoldable pub valid_signal : Signal → Validity
  unfolding hash_payload is_zero valid_kind
  valid_signal s = refuse_if (text_eq s.external_id []) bad_external_id (
      refuse_if (text_eq s.payload []) bad_payload (
        refuse_if (not (text_eq s.content_hash (hash_payload s.payload))) bad_hash
          (refuse_if (is_zero s.occurred_at) bad_occurrence (valid_kind s.kind))))

  unfoldable pub checked : Signal → Validity → Result Invalid Signal
  checked s (ok _) = ok s
  checked s (err e) = err e

  abbrev pub raw_signal : ℕ → ℕ → SignalKind → Text → Text → Option ℕ → Option ℕ → Signal
  raw_signal id account_id kind external_id payload occurred_at now = record {
    id = id;
    account_id = account_id;
    external_id = external_id;
    kind = kind;
    payload = payload;
    content_hash = hash_payload payload;
    occurred_at = occurred_at;
    ingested_at = now;
    processed_at = none;
  }

  -- NewSignal
  unfoldable pub new_signal :
      ℕ → ℕ → SignalKind → Text → Text → Option ℕ → Option ℕ → Result Invalid Signal
  unfolding valid_signal checked
  new_signal id account_id kind external_id payload occurred_at now =
      let s = raw_signal id account_id kind external_id payload occurred_at now in
      checked s (valid_signal s)

  -- What NewSignal asks of its arguments.
  abbrev pub IsSignal : SignalKind → Text → Text → Option ℕ → Type 0
  IsSignal kind external_id payload occurred_at =
      (external_id ≢ []) × (payload ≢ []) × (occurred_at ≢ none) × (valid_kind kind ≡ ok tt)

  valid_raw :
      (id account_id : ℕ) (kind : SignalKind) (external_id payload : Text)
      (occurred_at now : Option ℕ)
      → (valid_signal (raw_signal id account_id kind external_id payload occurred_at now) ≡ ok tt)
        ↔ IsSignal kind external_id payload occurred_at
  unfolding valid_signal is_zero
  valid_raw id account_id kind external_id payload occurred_at now =
      ground
        (arith, text_eq→≡ external_id [], text_eq→≡ payload [], text_eq_self (hash_payload payload))

  checked_ok : (raw s : Signal) (v : Validity) → (checked raw v ≡ ok s) ↔ ((s ≡ raw) × (v ≡ ok tt))
  unfolding checked
  checked_ok raw s v = ground arith

  -- A signal of the arguments of NewSignal, field by field.
  abbrev pub IsMadeOf : Signal → ℕ → ℕ → SignalKind → Text → Text → Option ℕ → Option ℕ → Type 0
  IsMadeOf s id account_id kind external_id payload occurred_at now =
      (s.id ≡ id)
      × (s.account_id ≡ account_id)
      × (s.external_id ≡ external_id)
      × (s.kind ≡ kind)
      × (s.payload ≡ payload)
      × (s.content_hash ≡ hex (sha256 payload))
      × (s.occurred_at ≡ occurred_at)
      × (s.ingested_at ≡ now)
      × (s.processed_at ≡ none)

  raw_signal_lem :
      (id account_id : ℕ) (kind : SignalKind) (external_id payload : Text)
      (occurred_at now : Option ℕ) (s : Signal)
      → (s ≡ raw_signal id account_id kind external_id payload occurred_at now)
        ↔ IsMadeOf s id account_id kind external_id payload occurred_at now
  unfolding hash_payload
  raw_signal_lem id account_id kind external_id payload occurred_at now s = ground arith

  -- NewSignal returns a signal exactly where the external id and the payload are not empty, the
  -- occurrence time is not zero and the kind is one of the constants; the signal has then the id,
  -- account, external id, kind, payload and occurrence time that were given, the hex of the
  -- payload's SHA-256 as its hash and the current time as that of its ingestion, is not processed,
  -- and Valid accepts it.
  pub new_signal_lem :
      (id account_id : ℕ) (kind : SignalKind) (external_id payload : Text)
      (occurred_at now : Option ℕ) (s : Signal)
      → (new_signal id account_id kind external_id payload occurred_at now ≡ ok s) ↔ (
          IsMadeOf s id account_id kind external_id payload occurred_at now
          × (valid_signal s ≡ ok tt)
          × IsSignal kind external_id payload occurred_at)
  unfolding new_signal
  new_signal_lem id account_id kind external_id payload occurred_at now s =
      let raw = raw_signal id account_id kind external_id payload occurred_at now in
      let (given, made) = checked_ok raw s (valid_signal raw) in
      let (is, valid) = valid_raw id account_id kind external_id payload occurred_at now in
      let (fields, whole) =
        raw_signal_lem id account_id kind external_id payload occurred_at now s in
      (
        λ e.
            let (same, v) = given e in
            (fields same, subst (λ s. valid_signal s ≡ ok tt) (sym same) v, is v),
        λ h. let (same, v, f) = h in made (whole same, valid f),
      )
