-- ===== src/Codec/Decimal/RoundTrip.antt =====
-- Reading gives back what was printed.
use warp_work.Base.{
  ℕ, zero, suc, ◌+◌, ◌*◌, ◌/◌, ◌%◌, ◌^◌, ◌<◌, ◌≡◌, refl, ◌∙◌, ap, true, false, some, [], ◌∷◌, ◌++◌,
  Text, arith, ltb, Bool-cases, inl, inr,
}
use warp_work.Codec.Decimal.{
  digits_onto, decimal, is_digit, read_digits, read_number, skip_space, scan_uint, sized,
  read_signed, scan_int,
}

-- The text does not begin with a digit.
abbrev pub EndsNumber : Text → Type 0
EndsNumber [] = Unit
EndsNumber (c ∷ s) = is_digit c ≡ false

-- The value that a text of digits adds to a number read before it.
digit_step :
    (acc d : ℕ) (s : Text) → d < 10 → read_digits acc ((48 + d) ∷ s) ≡ read_digits (acc * 10 + d) s
unfolding read_digits
digit_step acc d s h = ground arith

read_digits-end : (acc : ℕ) (s : Text) → EndsNumber s → read_digits acc s ≡ (acc, s)
unfolding read_digits
read_digits-end acc [] h = refl
read_digits-end acc (c ∷ s) h = ground arith

digits_onto-append : (f n : ℕ) (s t : Text) → digits_onto f n s ++ t ≡ digits_onto f n (s ++ t)
unfolding digits_onto
digits_onto-append zero n s t = refl
digits_onto-append (suc f) n s t =
    ground (arith, digits_onto-append f (n / 10) ((48 + n % 10) ∷ s) t)

-- The first digit of a printed number, and what follows it.
digits_onto_head :
    (f n : ℕ) (s : Text)
    → n < f
    → (c : ℕ) × (t : Text) × (digits_onto f n s ≡ c ∷ t) × (is_digit c ≡ true)
unfolding digits_onto is_digit
digits_onto_head zero n s h = absurd (omega arith)
digits_onto_head (suc f) n s h = elim (Bool-cases (ltb n 10)) [
  | inl e ↦ (48 + n, s, rw e refl, ground arith)
  | inr e ↦
      let (c, t, p, q) = digits_onto_head f (n / 10) ((48 + n % 10) ∷ s) (ground arith) in
      (c, t, rw e p, q)
]

read_digits-digits_onto :
    (f n : ℕ) (s : Text) → n < f → read_digits 0 (digits_onto f n s) ≡ read_digits n s
unfolding digits_onto
read_digits-digits_onto zero n s h = absurd (omega arith)
read_digits-digits_onto (suc f) n s h = elim (Bool-cases (ltb n 10)) [
  | inl e ↦ rw e (digit_step 0 n s (ground arith) ∙ ap (λ k. read_digits k s) (omega arith))
  | inr e ↦ rw e (
      read_digits-digits_onto f (n / 10) ((48 + n % 10) ∷ s) (ground arith)
      ∙ digit_step (n / 10) (n % 10) s (omega arith)
      ∙ ap (λ k. read_digits k s) (omega arith))
]

read_number-head :
    (c : ℕ) (t : Text) → is_digit c ≡ true → read_number (c ∷ t) ≡ some (read_digits 0 (c ∷ t))
unfolding read_number
read_number-head c t h = rw h refl

-- A printed number is read back in front of any text that does not go on with a digit.
pub read_number-decimal :
    (n : ℕ) (s : Text) → EndsNumber s → read_number (decimal n ++ s) ≡ some (n, s)
unfolding decimal
read_number-decimal n s h =
    let (c, t, p, q) = digits_onto_head (suc n) n s (omega arith) in
    rw (digits_onto-append (suc n) n [] s, p)
      (read_number-head c t q
        ∙ ap some
            (rw (← p) (read_digits-digits_onto (suc n) n s (omega arith) ∙ read_digits-end n s h)))

digit_not_space : (c : ℕ) (t : Text) → is_digit c ≡ true → skip_space (c ∷ t) ≡ some (c ∷ t)
unfolding is_digit skip_space
digit_not_space c t h = ground arith

skip_space-decimal : (n : ℕ) (s : Text) → skip_space (decimal n ++ s) ≡ some (decimal n ++ s)
unfolding decimal
skip_space-decimal n s =
    let (c, t, p, q) = digits_onto_head (suc n) n s (omega arith) in
    rw (digits_onto-append (suc n) n [] s, p) (digit_not_space c t q)

-- So does Sscanf, where the number fits the width.
pub scan_uint-decimal :
    (bits n : ℕ) (s : Text)
    → n < 2 ^ bits
    → EndsNumber s
    → scan_uint bits (decimal n ++ s) ≡ some (n, s)
unfolding scan_uint
scan_uint-decimal bits n s h e = ground (arith, skip_space-decimal n s, read_number-decimal n s e)

not_sign :
    (c : ℕ) (t : Text) → is_digit c ≡ true → read_signed (c ∷ t) ≡ sized false (read_number (c ∷ t))
unfolding is_digit read_signed
not_sign c t h = ground arith

read_signed-decimal :
    (n : ℕ) (s : Text) → read_signed (decimal n ++ s) ≡ sized false (read_number (decimal n ++ s))
unfolding decimal
read_signed-decimal n s =
    let (c, t, p, q) = digits_onto_head (suc n) n s (omega arith) in
    rw (digits_onto-append (suc n) n [] s, p) (not_sign c t q)

sized-some : (n : ℕ) (s : Text) → n < 2 ^ 63 → sized false (some (n, s)) ≡ some (false, n, s)
unfolding sized
sized-some n s h = ground arith

pub scan_int-decimal :
    (n : ℕ) (s : Text) → n < 2 ^ 63 → EndsNumber s → scan_int (decimal n ++ s) ≡ some (false, n, s)
unfolding scan_int
scan_int-decimal n s h e =
    rw (skip_space-decimal n s, scan_int)
      (read_signed-decimal n s ∙ ap (sized false) (read_number-decimal n s e) ∙ sized-some n s h)
