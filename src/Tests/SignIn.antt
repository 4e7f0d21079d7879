-- ===== src/Tests/SignIn.antt =====
-- Password sign-ins.
use warp_work.Base.{ℕ, zero, suc, ◌≡◌, refl, none, some, [], ◌∷◌, Text, List, arith, codes, ◌+◌}
use warp_work.Base.Result.{ok, err}
use warp_work.Strings.{trim_left, trim_space, to_lower, is_space}
use warp_work.Store.{World, IsUp}
use warp_work.Store.Auth.Sessions.{SessionRow}
use warp_work.Store.Auth.Credentials.{Credential, find_credential, find_identity, find_password}
use warp_work.Auth.{bad_credentials, locked, locked_until, Session, normalise_email, default_policy}
use warp_work.Auth.Password.{
  verify_password, mismatch, decode_hash, decode_parts, split, scan_version, scan_params,
  encode_hash, format_params,
}
use warp_work.Codec.Decimal.{
  decimal, digits_onto, expect, skip_space, read_number, is_digit, read_digits, scan_uint, sized,
  read_signed, scan_int,
}
use warp_work.Codec.Base64
use warp_work.Auth.SignIn.{sign_in_with_password, lock_in_force}
use warp_work.Auth.SignIn.Lockout.{credential_of, sign_in_locked, later}
use warp_work.Auth.SignIn.Guessing.{guess, AreWrong, sign_in-guess}
use warp_work.Auth.SignIn.Success.{sign_in_sound}
use warp_work.Tests.Fixtures.{
  platform, config, world, locked_world, email, right, wrong, browser, password_row,
}

abbrev pub cred : Credential
cred = record {
  provider_id = 2;
  user_id = 1;
  subject = email;
  hash = password_row.hash;
  failed_attempts = 0;
  locked_until = none;
}

pub found_cred : credential_of platform config email world ≡ some cred
unfolding find_credential find_identity find_password normalise_email trim_left trim_space to_lower
    is_space
found_cred = refl

pub refused : verify_password platform.argon2 wrong cred.hash ≡ err mismatch
unfolding verify_password decode_hash decode_parts split scan_version scan_params expect encode_hash
    format_params decimal digits_onto Base64.encode Base64.encode_digit is_space skip_space
    read_number is_digit read_digits scan_uint sized read_signed scan_int Base64.decode
    Base64.decode_digits Base64.decode_digit Base64.join_digits
refused = refl

abbrev pub locked_cred : Credential
locked_cred = record cred { failed_attempts = 10; locked_until = some 500 }

pub found_locked : credential_of platform config email locked_world ≡ some locked_cred
unfolding find_credential find_identity find_password normalise_email trim_left trim_space to_lower
    is_space
found_locked = refl

sign_in_locked_example :
    sign_in_with_password platform config email right 400 browser locked_world
    ≡ (err (locked 500), later locked_world)
sign_in_locked_example =
    sign_in_locked platform config email locked_world locked_cred 500 right 400 browser refl
      found_locked refl (omega arith)

abbrev pub unknown : Text
unknown = codes "bo@warp.vn"

pub not_found : credential_of platform config unknown world ≡ none
unfolding find_credential find_identity find_password normalise_email trim_left trim_space to_lower
    is_space
not_found = refl

-- Nine wrong guesses, before the one that locks.
abbrev guesses : ℕ → List (Text × ℕ)
guesses zero = []
guesses (suc n) = (wrong, 400) ∷ guesses n

abbrev nine : List (Text × ℕ)
nine = guesses 9

are_wrong : (n : ℕ) → AreWrong platform config browser cred (guesses n)
are_wrong zero = tt
are_wrong (suc n) = (refused, are_wrong n)

sign_in-guess_example :
    let guessed =
      sign_in_with_password platform config email wrong 400 browser
        (guess platform config browser email nine world) in
    (guessed.0 ≡ err (locked (locked_until config.policy 400)))
    × ((sign_in_with_password platform config email right 500 browser guessed.1).0
        ≡ err (locked (locked_until config.policy 400)))
unfolding locked_until
sign_in-guess_example =
    sign_in-guess platform config browser email nine world cred wrong right 400 500 (λ n. refl)
      found_cred refl (are_wrong 10) (omega arith) (omega arith) (omega arith) (omega arith)

abbrev pub session : Session
session = record {
  token = codes "BwM";
  id = 1004;
  user_id = 1;
  issued_at = 100;
  expires_at = 400 + default_policy.ttl;
}

pub signed_in : (sign_in_with_password platform config email right 400 browser world).0 ≡ ok session
unfolding sign_in_with_password warp_work.Auth.SignIn.found warp_work.Store.run
    warp_work.Store.Auth.Credentials.get_password_credential normalise_email to_lower trim_space
    is_space warp_work.Auth.SignIn.check_credential lock_in_force warp_work.Auth.SignIn.verified
    verify_password decode_hash split encode_hash decimal Base64.encode scan_version decode_parts
    format_params warp_work.Auth.Password.needs_rehash scan_params warp_work.Auth.SignIn.admit
    warp_work.Auth.SignIn.rehash warp_work.Auth.Token.hash_token warp_work.Auth.Token.new_session
    warp_work.Auth.Token.open_session warp_work.Auth.Token.token_of warp_work.Auth.Token.truncate
    warp_work.Auth.Token.uuid_of warp_work.Auth.expires_at Base64.decode Base64.decode_digit
    Base64.decode_digits Base64.encode_digit Base64.join_digits digits_onto expect is_digit
    read_digits read_number read_signed scan_int scan_uint sized skip_space
    warp_work.Codec.Utf8.lead warp_work.Codec.Utf8.valid_from warp_work.Codec.Utf8.valid_utf8
    warp_work.Store.Auth.Accounts.mark_provider_used
    warp_work.Store.Auth.Credentials.clear_failed_logins find_credential find_identity find_password
    warp_work.Store.Auth.Sessions.create_auth_session warp_work.Store.Auth.Sessions.provider_exists
    warp_work.Store.Auth.kind_eq warp_work.Strings.has_prefix trim_left
signed_in = refl

sign_in_sound_example :
    (cred : Credential) × (credential_of platform config email world ≡ some cred)
    × (lock_in_force cred.locked_until 400 ≡ none)
    × (verify_password platform.argon2 right cred.hash ≡ ok tt)
    × (session.user_id ≡ cred.user_id)
sign_in_sound_example =
    sign_in_sound platform config email right 400 browser world session signed_in
