-- ===== src/Codec/Utf8.antt =====
-- Which byte strings are UTF-8 texts that a Postgres `text` column takes: well-formed, without NUL.
use warp_work.Base.{
  ℕ, zero, suc, Bool, false, ◌&&◌, Option, none, some, [], ◌∷◌, Text, leb, ◌==◌, if◌then◌else◌,
}

-- After a first byte: how many bytes follow, and the range of the next.
unfoldable pub lead : ℕ → Option (ℕ × ℕ × ℕ)
lead b =
    if leb 0x01 b && leb b 0x7F
    then some (0, 0, 0)
    else if leb 0xC2 b && leb b 0xDF
    then some (1, 0x80, 0xBF)
    else if b == 0xE0
    then some (2, 0xA0, 0xBF)
    else if b == 0xED
    then some (2, 0x80, 0x9F)
    else if leb 0xE1 b && leb b 0xEF
    then some (2, 0x80, 0xBF)
    else if b == 0xF0
    then some (3, 0x90, 0xBF)
    else if b == 0xF4
    then some (3, 0x80, 0x8F)
    else if leb 0xF1 b && leb b 0xF3
    then some (3, 0x80, 0xBF)
    else none

-- Whether the bytes go on from inside a character that lacks `n` bytes, the next in a range.
unfoldable pub valid_from : ℕ → ℕ → ℕ → Text → Bool
unfolding lead
valid_from n lo hi [] = n == 0
valid_from zero lo hi (b ∷ s) = elim (lead b) [
  | none ↦ false
  | some (k, lo', hi') ↦ valid_from k lo' hi' s
]
valid_from (suc n) lo hi (b ∷ s) = leb lo b && leb b hi && valid_from n 0x80 0xBF s

unfoldable pub valid_utf8 : Text → Bool
unfolding valid_from
valid_utf8 s = valid_from 0 0 0 s
