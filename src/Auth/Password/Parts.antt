-- ===== src/Auth/Password/Parts.antt =====
-- The parts of an encoded hash hold no dollar, so splitting finds them.
use warp_work.Base.{
  ℕ, zero, suc, ◌+◌, ◌*◌, ◌/◌, ◌%◌, ◌<◌, ◌≡◌, refl, false, List, [], ◌∷◌, ◌++◌, Text, All, arith,
  ltb, ◌==◌, Bool-cases, inl, inr,
}
use warp_work.Codec.Base64
use warp_work.Codec.Base64.RoundTrip.{AreBytes}
use warp_work.Codec.Decimal.{digits_onto, decimal}
use warp_work.Auth.Password.{PasswordParams, format_params, split}

-- No character of the text is a dollar.
abbrev pub NoDollar : Text → Type 0
NoDollar = All (λ c. (c == b'$') ≡ false)

NoDollar-append : (s t : Text) → NoDollar s → NoDollar t → NoDollar (s ++ t)
NoDollar-append [] t h k = k
NoDollar-append (c ∷ s) t h k = (h.0, NoDollar-append s t h.1 k)

NoDollar-digits_onto : (f n : ℕ) (s : Text) → NoDollar s → NoDollar (digits_onto f n s)
unfolding digits_onto
NoDollar-digits_onto zero n s h = h
NoDollar-digits_onto (suc f) n s h = elim (Bool-cases (ltb n 10)) [
  | inl e ↦ rw e (ground arith, h)
  | inr e ↦ rw e (NoDollar-digits_onto f (n / 10) _ (ground arith, h))
]

pub NoDollar-decimal : (n : ℕ) → NoDollar (decimal n)
unfolding decimal
NoDollar-decimal n = NoDollar-digits_onto (suc n) n [] tt

digit_not_dollar : (n : ℕ) → n < 64 → (Base64.encode_digit false n == b'$') ≡ false
unfolding Base64.encode_digit
digit_not_dollar n h = ground arith

pub NoDollar-encode : (bs : Text) → AreBytes bs → NoDollar (Base64.encode false bs)
unfolding Base64.encode
NoDollar-encode [] h = tt
NoDollar-encode (a ∷ []) h =
    (digit_not_dollar (a / 4) (omega arith), (digit_not_dollar (a % 4 * 16) (omega arith), tt))
NoDollar-encode (a ∷ b ∷ []) h = (
  digit_not_dollar (a / 4) (omega arith),
  (
    digit_not_dollar (a % 4 * 16 + b / 16) (omega arith),
    (digit_not_dollar (b % 16 * 4) (omega arith), tt),
  ),
)
NoDollar-encode (a ∷ b ∷ c ∷ rest) h = (
  digit_not_dollar (a / 4) (omega arith),
  (
    digit_not_dollar (a % 4 * 16 + b / 16) (omega arith),
    (
      digit_not_dollar (b % 16 * 4 + c / 64) (omega arith),
      (digit_not_dollar (c % 64) (omega arith), NoDollar-encode rest h.1.1.1),
    ),
  ),
)

pub NoDollar-format_params : (p : PasswordParams) → NoDollar (format_params p)
unfolding format_params
NoDollar-format_params p = (
  refl,
  (
    refl,
    NoDollar-append (decimal p.memory) _ (NoDollar-decimal p.memory) (
      refl,
      (
        refl,
        (
          refl,
          NoDollar-append (decimal p.iterations) _ (NoDollar-decimal p.iterations)
              (refl, (refl, (refl, NoDollar-decimal p.parallelism))),
        ),
      ),
    ),
  ),
)

-- The first part of a text ends at its first dollar.
pub split_first :
    (part rest : Text) (parts : List Text)
    → NoDollar part
    → split b'$' rest ≡ parts
    → split b'$' (part ++ b'$' ∷ rest) ≡ part ∷ parts
unfolding split
split_first [] rest parts h e = rw e refl
split_first (c ∷ s) rest parts h e = rw (h.0, split_first s rest parts h.1 e) refl

pub split_last : (part : Text) → NoDollar part → split b'$' part ≡ part ∷ []
unfolding split
split_last [] h = refl
split_last (c ∷ s) h = rw (h.0, split_last s h.1) refl
