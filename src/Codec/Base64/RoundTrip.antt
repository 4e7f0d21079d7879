-- ===== src/Codec/Base64/RoundTrip.antt =====
-- Decoding gives back what was encoded.
use warp_work.Base.{
  ℕ, ◌+◌, ◌*◌, ◌/◌, ◌%◌, ◌<◌, ◌≡◌, refl, Bool, true, false, some, List, [], ◌∷◌, Text, All, arith,
}
use warp_work.Codec.Base64.{encode_digit, decode_digit, encode, decode_digits, join_digits, decode}

decode_digit-encode_digit :
    (url : Bool) (n : ℕ) → n < 64 → decode_digit url (encode_digit url n) ≡ some n
unfolding decode_digit encode_digit
decode_digit-encode_digit true n h = ground arith
decode_digit-encode_digit false n h = ground arith

encode_digit-not_newline :
    (url : Bool) (n : ℕ) → n < 64 → (10 < encode_digit url n) × (13 < encode_digit url n)
unfolding encode_digit
encode_digit-not_newline true n h = ground arith
encode_digit-not_newline false n h = ground arith

-- One more digit in front.
digits-cons :
    (url : Bool) (n : ℕ) (s : Text) (ds : List ℕ)
    → n < 64
    → decode_digits url s ≡ some ds
    → decode_digits url (encode_digit url n ∷ s) ≡ some (n ∷ ds)
unfolding decode_digits
digits-cons url n s ds h e =
    ground (arith, encode_digit-not_newline url n, decode_digit-encode_digit url n)

-- The six-bit digits of a text of bytes.
sextets : Text → List ℕ
sextets [] = []
sextets (a ∷ []) = (a / 4) ∷ (a % 4 * 16) ∷ []
sextets (a ∷ b ∷ []) = (a / 4) ∷ (a % 4 * 16 + b / 16) ∷ (b % 16 * 4) ∷ []
sextets (a ∷ b ∷ c ∷ rest) =
    (a / 4) ∷ (a % 4 * 16 + b / 16) ∷ (b % 16 * 4 + c / 64) ∷ (c % 64) ∷ sextets rest

abbrev pub AreBytes : Text → Type 0
AreBytes = All (λ b. b < 256)

decode_digits-encode :
    (url : Bool) (bs : Text) → AreBytes bs → decode_digits url (encode url bs) ≡ some (sextets bs)
unfolding encode sextets
decode_digits-encode url [] h = unfold decode_digits in refl
decode_digits-encode url (a ∷ []) h =
    digits-cons url _ _ _ (omega arith)
      (digits-cons url _ _ _ (omega arith) (unfold decode_digits in refl))
decode_digits-encode url (a ∷ b ∷ []) h = digits-cons url _ _ _ (omega arith) (
    digits-cons url _ _ _ (omega arith)
      (digits-cons url _ _ _ (omega arith) (unfold decode_digits in refl)))
decode_digits-encode url (a ∷ b ∷ c ∷ rest) h = digits-cons url _ _ _ (omega arith) (
    digits-cons url _ _ _ (omega arith) (
      digits-cons url _ _ _ (omega arith)
        (digits-cons url _ _ _ (omega arith) (decode_digits-encode url rest h.1.1.1))))

join_digits-sextets :
    (strict : Bool) (bs : Text) → AreBytes bs → join_digits strict (sextets bs) ≡ some bs
unfolding sextets join_digits
join_digits-sextets strict [] h = refl
join_digits-sextets strict (a ∷ []) h = ground arith
join_digits-sextets strict (a ∷ b ∷ []) h = ground arith
join_digits-sextets strict (a ∷ b ∷ c ∷ rest) h = ground (arith, join_digits-sextets strict rest)

-- Decoding what was encoded gives the bytes back, in both alphabets.
pub decode-encode :
    (strict url : Bool) (bs : Text) → AreBytes bs → decode strict url (encode url bs) ≡ some bs
unfolding decode
decode-encode strict url bs h =
    rw (decode_digits-encode url bs h, decode) (join_digits-sextets strict bs h)
