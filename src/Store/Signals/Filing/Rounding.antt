-- ===== src/Store/Signals/Filing/Rounding.antt =====
-- The confidence that numeric(4, 3) and its check keep of a number.
use native.Mathlib.Nat.{mul-div-le, lt-mul-div-succ}
use warp_work.Base.{
  ℕ, zero, suc, ◌+◌, ◌*◌, ◌/◌, ◌^◌, ◌<◌, ◌≤◌, ◌≡◌, ◌⊎◌, false, ℤ, pos, negsuc, pos_part, neg_part,
  arith, subst,
}
use warp_work.Base.Result.{ok}
use warp_work.Store.Signals.Filing.{
  Numeric, nan, infinity, decimal, magnitude, rounded, thousandths, is_negative, stored_confidence,
}

-- `kept` is the whole number nearest to `numerator / denominator`, and of two that are as near the
-- greater.
abbrev pub IsNearest : ℕ → ℕ → ℕ → Type 0
IsNearest numerator denominator kept =
    (2 * numerator < 2 * (kept * denominator) + denominator)
    × (2 * (kept * denominator) ≤ 2 * numerator + denominator)

-- What is kept of a number: the nearest thousandth of its magnitude, from 0 to 1, and 0 of a number
-- below 0.
abbrev pub IsKept : Numeric → ℕ → Type 0
IsKept nan kept = ⊥
IsKept infinity kept = ⊥
IsKept (decimal n e) kept =
    IsNearest (magnitude n * 1000 * 10 ^ pos_part e) (10 ^ neg_part e) kept
    × (kept ≤ 1000)
    × ((is_negative n ≡ false) ⊎ (kept ≡ 0))

pow_pos : (n : ℕ) → 0 < 10 ^ n
pow_pos zero = omega arith
pow_pos (suc n) = grind (arith, pow_pos n)

rounded-IsNearest : (n d : ℕ) → 0 < d → IsNearest n d (rounded n d)
unfolding rounded
rounded-IsNearest n d h =
    let low = mul-div-le (2 * n + d) (2 * d) in
    let high = lt-mul-div-succ (2 * n + d) {b = 2 * d} (omega arith) in
    let q = (2 * n + d) / (2 * d) in
    let twice : 2 * d * q ≡ 2 * (q * d) = grind arith in
    let next : 2 * d * (q + 1) ≡ 2 * (q * d) + 2 * d = grind arith in
    (omega (arith, high, next), omega (arith, low, twice))

thousandths-IsNearest :
    (n e : ℤ) → IsNearest (magnitude n * 1000 * 10 ^ pos_part e) (10 ^ neg_part e) (thousandths n e)
unfolding thousandths
thousandths-IsNearest n (pos e) = (omega arith, omega arith)
thousandths-IsNearest n (negsuc e) =
    let scaled : magnitude n * 1000 ≡ magnitude n * 1000 * 10 ^ 0 = omega arith in
    subst (λ k. IsNearest k (10 ^ suc e) (rounded (magnitude n * 1000) (10 ^ suc e))) scaled
      (rounded-IsNearest (magnitude n * 1000) (10 ^ suc e) (pow_pos (suc e)))

checked :
    (n e : ℤ) (kept : ℕ)
    → stored_confidence (decimal n e) ≡ ok kept
    → (thousandths n e ≡ kept) × (kept ≤ 1000) × ((is_negative n ≡ false) ⊎ (kept ≡ 0))
unfolding stored_confidence
checked n e kept h = ground arith

pub stored_confidence-IsKept :
    (x : Numeric) (kept : ℕ) → stored_confidence x ≡ ok kept → IsKept x kept
unfolding stored_confidence
stored_confidence-IsKept nan kept h = cc
stored_confidence-IsKept infinity kept h = cc
stored_confidence-IsKept (decimal n e) kept h =
    let (same, low, sign) = checked n e kept h in
    (
      subst (IsNearest (magnitude n * 1000 * 10 ^ pos_part e) (10 ^ neg_part e)) same
          (thousandths-IsNearest n e),
      low,
      sign,
    )
