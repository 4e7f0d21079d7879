-- ===== src/Strings.antt =====
-- Go's `strings` package, as far as the program uses it. A string is the list of its code points:
-- the program's texts are valid UTF-8, on which these functions work rune by rune. The tables of
-- the Unicode standard, which `unicode` holds, are the parameter `Unicode`.
use warp_work.Base.{ℕ, ◌+◌, Bool, true, false, ◌&&◌, ◌||◌, [], ◌∷◌, map, Text, text_eq, leb, ◌==◌}
use mathlib.Core.List.{reverse}

-- `to_lower` is unicode.ToLower; `fold` picks one rune of each orbit of unicode.SimpleFold.
pub record Unicode : Type 0 where
  pub to_lower : ℕ → ℕ
  pub fold : ℕ → ℕ

-- unicode.IsSpace: the property White_Space.
unfoldable pub is_space : ℕ → Bool
is_space c =
    (leb 9 c && leb c 13)
    || c == 0x20
    || c == 0x85
    || c == 0xA0
    || c == 0x1680
    || (leb 0x2000 c && leb c 0x200A)
    || c == 0x2028
    || c == 0x2029
    || c == 0x202F
    || c == 0x205F
    || c == 0x3000

unfoldable pub trim_left : Text → Text
trim_left [] = []
trim_left (c ∷ s) = elim (is_space c) [ true ↦ trim_left s | false ↦ c ∷ s ]

unfoldable pub trim_space : Text → Text
unfolding trim_left
trim_space s = reverse (trim_left (reverse (trim_left s)))

unfoldable pub has_prefix : Text → Text → Bool
has_prefix s [] = true
has_prefix [] (b ∷ t) = false
has_prefix (a ∷ s) (b ∷ t) = a == b && has_prefix s t

unfoldable pub contains : Text → Text → Bool
unfolding has_prefix
contains [] t = has_prefix [] t
contains (a ∷ s) t = has_prefix (a ∷ s) t || contains s t

module _ (u : Unicode) where
  unfoldable pub to_lower : Text → Text
  to_lower = map u.to_lower

  -- strings.EqualFold: equal rune by rune under simple case folding.
  unfoldable pub equal_fold : Text → Text → Bool
  equal_fold s t = text_eq (map u.fold s) (map u.fold t)

-- The tables on ASCII, where every other rune is left as it is.
abbrev pub ascii_lower : ℕ → ℕ
ascii_lower c = elim (leb 65 c && leb c 90) [ true ↦ c + 32 | false ↦ c ]

abbrev pub ascii : Unicode
ascii = record { to_lower = ascii_lower; fold = ascii_lower }
