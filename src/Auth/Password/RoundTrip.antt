-- ===== src/Auth/Password/RoundTrip.antt =====
-- What decodeHash reads from a text that HashPassword made.
use warp_work.Base.{
  true, ◌%◌, ◌^◌, ◌<◌, ◌≡◌, refl, ◌∙◌, false, ◌||◌, some, [], ◌∷◌, Text, text_eq, text_eq_self,
  arith, length, ltb, if◌then◌else◌,
}
use warp_work.Base.Result.{ok, err}
use warp_work.Codec.Base64
use warp_work.Codec.Base64.RoundTrip.{AreBytes, decode-encode}
use warp_work.Codec.Decimal.{digits_onto, decimal, scan_int, expect, is_digit}
use warp_work.Codec.Decimal.RoundTrip.{scan_uint-decimal}
use warp_work.Auth.Password.Parts.{
  NoDollar-decimal, NoDollar-format_params, NoDollar-encode, split_first, split_last,
}
use mathlib.Core.List.{append-nil}
use warp_work.Auth.Password.{
  PasswordParams, argon2_version, Argon2, mismatch, argon2id, format_params, encode_hash,
  hash_password, split, scan_version, scan_params, decode_hash, verify_password, needs_rehash,
}

-- What the fields of an encoded hash hold.
pub record Encodes (p : PasswordParams) (salt key : Text) : Type 0 where
  pub memory_fits : p.memory < 2 ^ 32
  pub iterations_fit : p.iterations < 2 ^ 32
  pub parallelism_fits : p.parallelism < 2 ^ 8
  pub salt_bytes : AreBytes salt
  pub key_bytes : AreBytes key
  pub salt_length : p.salt_length ≡ length salt
  pub salt_fits : p.salt_length < 2 ^ 32
  pub key_length : p.key_length ≡ length key
  pub key_fits : p.key_length < 2 ^ 32

comma_not_digit : is_digit b',' ≡ false
unfolding is_digit
comma_not_digit = refl

abbrev version_part : Text
version_part = b'v' ∷ b'=' ∷ decimal argon2_version

module _ (p : PasswordParams) (salt key : Text) (e : Encodes p salt key) where
  split-encode_hash :
      split b'$' (encode_hash p salt key)
      ≡ []
        ∷ argon2id
        ∷ version_part
        ∷ format_params p
        ∷ Base64.encode false salt
        ∷ Base64.encode false key
        ∷ []
  unfolding encode_hash
  split-encode_hash = split_first [] _ _ tt (
      split_first argon2id _ _ (unfold split in search arith) (
        split_first version_part _ _ (refl, (refl, NoDollar-decimal argon2_version))
          (split_first (format_params p) _ _ (NoDollar-format_params p) (
            split_first (Base64.encode false salt) _ _ (NoDollar-encode salt e.salt_bytes)
              (split_last (Base64.encode false key) (NoDollar-encode key e.key_bytes))))))

  scan_version-encode : scan_version version_part ≡ some (false, argon2_version)
  unfolding scan_version expect decimal scan_int is_digit digits_onto
  scan_version-encode = refl

  scan_params-format_params :
      scan_params (format_params p) ≡ some (p.memory, p.iterations, p.parallelism)
  unfolding scan_params format_params expect
  scan_params-format_params =
      rw
        (
          scan_uint-decimal 32 p.memory _ e.memory_fits comma_not_digit,
          scan_uint-decimal 32 p.iterations _ e.iterations_fit comma_not_digit,
          ← append-nil (decimal p.parallelism),
          scan_uint-decimal 8 p.parallelism [] e.parallelism_fits tt,
        )
        refl

  -- What decodeHash reads from the text that HashPassword prints are the parameters, the salt and
  -- the key that it was printed from, where these fit their types.
  pub decode_hash-encode_hash : decode_hash (encode_hash p salt key) ≡ some (p, salt, key)
  unfolding decode_hash
  decode_hash-encode_hash =
      rw
        (
          split-encode_hash,
          scan_version-encode,
          scan_params-format_params,
          decode-encode true false salt e.salt_bytes,
          decode-encode true false key e.key_bytes,
        )
        (ground (arith, e.salt_length, e.key_length))

  -- A hash that HashPassword printed, of fields that fit their types, is found out of date exactly
  -- when its memory, iterations or parallelism are below those now in use.
  pub needs_rehash-encode_hash :
      (current : PasswordParams)
      → needs_rehash (encode_hash p salt key) current ≡ (
          ltb p.memory current.memory
          || ltb p.iterations current.iterations
          || ltb p.parallelism current.parallelism)
  unfolding needs_rehash
  needs_rehash-encode_hash current = rw (decode_hash-encode_hash, needs_rehash) refl

module _ (argon2 : Argon2) (p : PasswordParams) (salt key h : Text) (e : Encodes p salt key)
    (password : Text)
    (ran : argon2 password salt p.iterations p.memory p.parallelism p.key_length ≡ some key)
    (hashed : hash_password argon2 (some salt) password p ≡ ok h) where
  hashed-encode_hash : h ≡ encode_hash p salt key
  unfolding hash_password
  hashed-encode_hash = ground arith

  key_length-mod : length key % 2 ^ 32 ≡ p.key_length
  key_length-mod = omega (arith, e.key_length, e.key_fits)

  -- A hash made from one password, by an argon2 that gave a key, with fields that fit their types,
  -- accepts another password exactly when argon2 gives that one the same key, and otherwise
  -- reports a mismatch.
  pub verify_password-hash_password :
      (other got : Text)
      → argon2 other salt p.iterations p.memory p.parallelism p.key_length ≡ some got
      → verify_password argon2 other h ≡ (if text_eq got key then ok tt else err mismatch)
  unfolding verify_password
  verify_password-hash_password other got ran' =
      rw
        (
          hashed-encode_hash,
          decode_hash-encode_hash p salt key e,
          verify_password,
          key_length-mod,
          ran',
        )
        refl

  -- So it accepts the password that it was made from.
  pub verify_password_same : verify_password argon2 password h ≡ ok tt
  verify_password_same = verify_password-hash_password password key ran ∙ rw (text_eq_self key) refl
