-- ===== src/Codec/Base64.antt =====
-- encoding/base64: RawStdEncoding (`url` false) and RawURLEncoding (`url` true), without padding.
-- The decoder skips newlines; where it is strict, unused bits must be zero.
pub mod RoundTrip
use warp_work.Base.{
  ℕ, ◌+◌, ◌-◌, ◌*◌, ◌/◌, ◌%◌, Bool, true, false, not, ◌&&◌, ◌||◌, Option, none, some, List, [], ◌∷◌,
  keep, length, Text, ltb, leb, ◌==◌, if◌then◌else◌,
}

unfoldable pub encode_digit : Bool → ℕ → ℕ
encode_digit url n =
    if ltb n 26
    then n + 65
    else if ltb n 52
    then n + 71
    else if ltb n 62
    then n - 4
    else if n == 62
    then (if url then b'-' else b'+')
    else (if url then b'_' else b'/')

unfoldable pub decode_digit : Bool → ℕ → Option ℕ
decode_digit url c =
    if leb 65 c && leb c 90
    then some (c - 65)
    else if leb 97 c && leb c 122
    then some (c - 71)
    else if leb 48 c && leb c 57
    then some (c + 4)
    else if c == (if url then b'-' else b'+')
    then some 62
    else if c == (if url then b'_' else b'/')
    then some 63
    else none

module _ (url : Bool) where
  unfoldable pub encode : Text → Text
  unfolding encode_digit
  encode [] = []
  encode (a ∷ []) = encode_digit url (a / 4) ∷ encode_digit url (a % 4 * 16) ∷ []
  encode (a ∷ b ∷ []) =
      encode_digit url (a / 4)
      ∷ encode_digit url (a % 4 * 16 + b / 16)
      ∷ encode_digit url (b % 16 * 4)
      ∷ []
  encode (a ∷ b ∷ c ∷ rest) =
      encode_digit url (a / 4)
      ∷ encode_digit url (a % 4 * 16 + b / 16)
      ∷ encode_digit url (b % 16 * 4 + c / 64)
      ∷ encode_digit url (c % 64)
      ∷ encode rest

  -- The characters that are not newlines, each as its six bits.
  unfoldable pub decode_digits : Text → Option (List ℕ)
  unfolding decode_digit
  decode_digits [] = some []
  decode_digits (c ∷ s) =
      let rest = decode_digits s in
      if c == 10 || c == 13 then rest else elim (decode_digit url c) [
        | none ↦ none
        | some d ↦ elim rest [ none ↦ none | some ds ↦ some (d ∷ ds) ]
      ]

-- Four digits are three bytes; the last two or three digits are one or two bytes.
unfoldable pub join_digits : Bool → List ℕ → Option Text
join_digits strict [] = some []
join_digits strict (w ∷ []) = none
join_digits strict (w ∷ x ∷ []) =
    if not strict || x % 16 == 0 then some ((w * 4 + x / 16) ∷ []) else none
join_digits strict (w ∷ x ∷ y ∷ []) =
    if not strict || y % 4 == 0 then some ((w * 4 + x / 16) ∷ (x % 16 * 16 + y / 4) ∷ []) else none
join_digits strict (w ∷ x ∷ y ∷ z ∷ rest) = elim (join_digits strict rest) [
  | none ↦ none
  | some bs ↦ some ((w * 4 + x / 16) ∷ (x % 16 * 16 + y / 4) ∷ (y % 4 * 64 + z) ∷ bs)
]

unfoldable pub decode : Bool → Bool → Text → Option Text
unfolding decode_digits join_digits
decode strict url s = elim (decode_digits url s) [ none ↦ none | some ds ↦ join_digits strict ds ]

-- What stands before the first `=`, and the rest.
unfoldable pub split_padding : Text → Text × Text
split_padding [] = ([], [])
split_padding (c ∷ s) =
    let (body, padding) = split_padding s in if c == b'=' then ([], c ∷ s) else (c ∷ body, padding)

unfoldable pub is_padding : Text → Bool
is_padding [] = true
is_padding (c ∷ []) = c == b'='
is_padding (c ∷ d ∷ []) = c == b'=' && d == b'='
is_padding (c ∷ d ∷ e ∷ s) = false

-- StdEncoding: up to two `=` fill the last four digits.
unfoldable pub decode_padded : Text → Option Text
unfolding decode split_padding is_padding
decode_padded s =
    let text = keep (λ c. not (c == 10 || c == 13)) s in
    let (body, padding) = split_padding text in
    if is_padding padding && length text % 4 == 0 then decode false false body else none
