-- ===== src/Domain/Hours.antt =====
-- internal/domain/context.go: the hours at which a context may surface.
use warp_work.Base.{
  ℕ, ◌+◌, ◌*◌, ℤ, pos, ltb_ℤ, Bool, true, false, not, ◌&&◌, ◌||◌, none, some, List, [], ◌∷◌, any,
  find, ◌==◌,
}
use warp_work.Base.Result.{ok}
use warp_work.Domain.{bad_start, bad_end, Validity, refuse_if}

-- Minutes from midnight, the end excluded.
pub record HourRange : Type 0 where
  pub start_minute : ℤ
  pub end_minute : ℤ

abbrev pub minutes_per_day : ℕ
minutes_per_day = 24 * 60

-- HourRange.Valid
unfoldable pub valid_hours : HourRange → Validity
valid_hours r =
    refuse_if (ltb_ℤ r.start_minute (pos 0) || not (ltb_ℤ r.start_minute (pos minutes_per_day)))
      bad_start
      (refuse_if
        (not (ltb_ℤ r.start_minute r.end_minute) || ltb_ℤ (pos minutes_per_day) r.end_minute)
        bad_end (ok tt))

-- A Go map from time.Weekday, as the list of its entries.
abbrev pub ActiveHours : Type 0
ActiveHours = List (ℕ × List HourRange)

unfoldable pub covers : ℕ → HourRange → Bool
covers minute r = not (ltb_ℤ (pos minute) r.start_minute) && ltb_ℤ (pos minute) r.end_minute

-- ActiveHours.Active, of a time by its weekday, hour and minute.
unfoldable pub active : ActiveHours → ℕ → ℕ → ℕ → Bool
unfolding covers
active [] weekday hour minute = true
active (e ∷ a) weekday hour minute = elim (find (λ d. d.0 == weekday) (e ∷ a)) [
  | none ↦ false
  | some d ↦ any (covers (hour * 60 + minute)) d.1
]
