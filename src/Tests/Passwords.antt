-- ===== src/Tests/Passwords.antt =====
-- Password hashes.
use warp_work.Base.{◌≡◌, refl, some, Text, text_eq, take, if◌then◌else◌, arith}
use warp_work.Base.Result.{ok, err}
use warp_work.Auth.Password.{mismatch, encode_hash, decode_hash, hash_password, verify_password}
use warp_work.Auth.Password.RoundTrip.{
  Encodes, decode_hash-encode_hash, verify_password-hash_password,
}
use warp_work.Tests.Fixtures.{params, salt, key, argon2, right, wrong}

encodes : Encodes params salt key
encodes = record {
  memory_fits = omega arith;
  iterations_fit = omega arith;
  parallelism_fits = omega arith;
  salt_bytes = (omega arith, (omega arith, (omega arith, (omega arith, tt))));
  key_bytes = (omega arith, (omega arith, (omega arith, (omega arith, tt))));
  salt_length = refl;
  salt_fits = omega arith;
  key_length = refl;
  key_fits = omega arith;
}

decode_hash-encode_hash_example :
    decode_hash (encode_hash params salt key) ≡ some (params, salt, key)
decode_hash-encode_hash_example = decode_hash-encode_hash params salt key encodes

abbrev hash : Text
hash = encode_hash params salt key

made : hash_password argon2 (some salt) right params ≡ ok hash
unfolding hash_password
made = refl

verify_password-hash_password_example :
    verify_password argon2 wrong hash ≡ (if text_eq (take 4 wrong) key then ok tt else err mismatch)
verify_password-hash_password_example =
    verify_password-hash_password argon2 params salt key hash encodes right refl made wrong
      (take 4 wrong) refl
