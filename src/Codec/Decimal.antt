-- ===== src/Codec/Decimal.antt =====
-- Numbers in texts: what `%d` prints, and what fmt.Sscanf reads for it.
pub mod RoundTrip
use warp_work.Base.{
  ℕ, zero, suc, ◌+◌, ◌-◌, ◌*◌, ◌/◌, ◌%◌, ◌^◌, Bool, true, false, ◌&&◌, ◌||◌, not, Option, ℤ, pos,
  minus_ℤ, text_eq, none, some, List, [], ◌∷◌, Text, ltb, leb, ◌==◌, if◌then◌else◌,
}
use warp_work.Strings.{is_space}

-- The digits of `n` in front of `acc`. The fuel is above `n`, and each round divides `n` by ten.
unfoldable pub digits_onto : ℕ → ℕ → Text → Text
digits_onto zero n acc = acc
digits_onto (suc f) n acc =
    let more = digits_onto f (n / 10) ((48 + n % 10) ∷ acc) in
    if ltb n 10 then (48 + n) ∷ acc else more

-- fmt's %d of an unsigned integer.
unfoldable pub decimal : ℕ → Text
unfolding digits_onto
decimal n = digits_onto (suc n) n []

unfoldable pub is_digit : ℕ → Bool
is_digit c = leb 48 c && leb c 57

-- The number that the leading digits spell, after those read already, and the rest of the text.
unfoldable pub read_digits : ℕ → Text → ℕ × Text
unfolding is_digit
read_digits acc [] = (acc, [])
read_digits acc (c ∷ s) = elim (is_digit c) [
  | true ↦ read_digits (acc * 10 + (c - 48)) s
  | false ↦ (acc, c ∷ s)
]

-- Sscanf's SkipSpace: a newline is an error, with a carriage return in front or without.
unfoldable pub skip_space : Text → Option Text
unfolding is_space
skip_space [] = some []
skip_space (c ∷ s) =
    let rest = skip_space s in if c == 10 then none else if is_space c then rest else some (c ∷ s)

-- At least one digit.
unfoldable pub read_number : Text → Option (ℕ × Text)
unfolding is_digit read_digits
read_number [] = none
read_number (c ∷ s) = if is_digit c then some (read_digits 0 (c ∷ s)) else none

-- %d into an unsigned integer of `bits` bits.
unfoldable pub scan_uint : ℕ → Text → Option (ℕ × Text)
unfolding skip_space read_number
scan_uint bits s = elim (skip_space s) [
  | none ↦ none
  | some t ↦ elim (read_number t) [
    | none ↦ none
    | some (n, rest) ↦ if ltb n (2 ^ bits) then some (n, rest) else none
  ]
]

-- A number of an `int`'s range; `minus` says that a minus stood before it.
unfoldable pub sized : Bool → Option (ℕ × Text) → Option (Bool × ℕ × Text)
sized minus none = none
sized minus (some (n, rest)) =
    if ltb n (2 ^ 63) || (minus && n == 2 ^ 63) then some (minus, n, rest) else none

unfoldable pub read_signed : Text → Option (Bool × ℕ × Text)
unfolding read_number sized
read_signed [] = none
read_signed (c ∷ t) =
    if c == b'-'
    then sized true (read_number t)
    else if c == b'+'
    then sized false (read_number t)
    else sized false (read_number (c ∷ t))

-- %d into an `int`: whether it has a minus, its size, and the rest of the text.
unfoldable pub scan_int : Text → Option (Bool × ℕ × Text)
unfolding skip_space read_signed
scan_int s = elim (skip_space s) [ none ↦ none | some t ↦ read_signed t ]

-- strconv.Atoi: the whole text.
unfoldable pub atoi : Text → Option ℤ
unfolding read_signed
atoi s = elim (read_signed s) [
  | none ↦ none
  | some (minus, n, rest) ↦
      if text_eq rest [] then some (if minus then minus_ℤ n else pos n) else none
]

-- A literal rune of the format.
unfoldable pub expect : ℕ → Text → Option Text
expect c [] = none
expect c (d ∷ s) = if c == d then some s else none
