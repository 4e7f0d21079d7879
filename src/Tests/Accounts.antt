-- ===== src/Tests/Accounts.antt =====
-- Registration, and sign-ins with Google.
use warp_work.Base.{arith, ◌+◌, true, ◌≡◌, ◌≢◌, refl, false, some, codes, []}
use warp_work.Base.Result.{ok, err}
use warp_work.Store.{World, DbError, unique_violation, user_profiles_email}
use warp_work.Store.Auth.{AuthDb}
use warp_work.Auth.{email_taken, database, Session, default_policy}
use warp_work.Auth.Register.{RegisterParams, register}
use warp_work.Auth.Register.Outcome.{db-register, authenticate-register}
use warp_work.Auth.Federated.{Google, IdToken, FlowState, complete_google_sign_in}
use warp_work.Auth.Federated.Errors.{complete_google_sign_in-NotTaken}
use warp_work.Auth.Federated.Opening.{authenticate-complete_google_sign_in}
use warp_work.Auth.Sessions.{authenticate, unlink_provider}
use warp_work.Auth.Sessions.Unlinking.{has_provider, has_provider-unlink_provider}
use warp_work.Store.Auth.Sessions.{SessionRow}
use warp_work.Auth.Federated.Joining.{Belongs}
use warp_work.Auth.Federated.Linking.{identity_of, complete_google_sign_in_user}
use warp_work.Tests.Fixtures.{platform, config, world, email, right, browser}

-- The address is taken.
abbrev again : RegisterParams
again = record { email = email; password = right; display_name = codes "Ana" }

clash : (register platform config again 400 browser world).0 ≡ err email_taken
unfolding register warp_work.Auth.normalise_email warp_work.Strings.to_lower
    warp_work.Strings.trim_space warp_work.Strings.is_space warp_work.Store.in_tx
    warp_work.Store.finish warp_work.Auth.Register.create_account warp_work.Auth.Register.hashed
    warp_work.Auth.Password.hash_password warp_work.Auth.Token.uuid_of warp_work.Store.run
    warp_work.Store.Auth.Accounts.create_user warp_work.Store.Auth.Accounts.create_user_profile
    warp_work.Auth.Register.or_email_taken
clash = refl

db-register_example : (register platform config again 400 browser world).1.db ≡ world.db
db-register_example =
    db-register platform config again 400 browser world email_taken (λ n e. cc) clash

abbrev ana_token : IdToken
ana_token = record {
  nonce = codes "n";
  subject = codes "s";
  email = email;
  email_verified = true;
  name = [];
}

-- An ID token with the account's address, which Google has not verified.
abbrev pub google : Google
google = record {
  config = record {
    client_id = codes "id";
    client_secret = codes "secret";
    redirect_url = codes "url";
  };
  auth_code_url = λ state nonce. some state;
  exchange = λ code. some (record {
    nonce = codes "n";
    subject = codes "s";
    email = email;
    email_verified = false;
    name = [];
  });
}

abbrev pub flow : FlowState
flow = record { state = codes "f"; nonce = codes "n"; return_to = codes "/" }

complete_google_sign_in-NotTaken_example :
    (complete_google_sign_in platform config
      (some google)
      (codes "c")
      (codes "f")
      flow
      400
      browser
      world).0
    ≢ err email_taken
complete_google_sign_in-NotTaken_example =
    complete_google_sign_in-NotTaken platform config (some google) (codes "c") (codes "f") flow 400
      browser world

-- A verified email joins the account that has it.
abbrev verified_google : Google
verified_google = record google { exchange = λ code. some ana_token }

abbrev joined : Session
joined = record {
  token = codes "BwY";
  id = 1007;
  user_id = 1;
  issued_at = 100;
  expires_at = 400 + default_policy.ttl;
}

joins :
    (complete_google_sign_in platform config
      (some verified_google)
      (codes "c")
      (codes "f")
      flow
      400
      browser
      world).0
    ≡ ok joined
unfolding complete_google_sign_in warp_work.Auth.Federated.configured
    warp_work.Auth.Federated.verify warp_work.Store.in_tx warp_work.Store.finish
    warp_work.Auth.Federated.sign_in_identity warp_work.Auth.Federated.by_subject
    warp_work.Store.run warp_work.Store.Auth.Accounts.provider_by_kind_subject
    warp_work.Auth.Federated.link_identity warp_work.Auth.normalise_email warp_work.Strings.to_lower
    warp_work.Strings.trim_space warp_work.Strings.is_space
    warp_work.Auth.Federated.resolve_account_for warp_work.Auth.Federated.create_federated_account
    warp_work.Auth.Token.uuid_of warp_work.Store.Auth.Accounts.create_user
    warp_work.Auth.Federated.check_token warp_work.Auth.Federated.cut_at
    warp_work.Auth.Federated.display_name_for warp_work.Store.Auth.Accounts.create_user_profile
    warp_work.Store.Auth.Accounts.is_blank warp_work.Store.Auth.Accounts.same_email
    warp_work.Store.Auth.kind_eq warp_work.Strings.trim_left
    warp_work.Auth.Federated.resolve_by_email warp_work.Auth.Token.hash_token
    warp_work.Auth.Token.new_session warp_work.Auth.Token.open_session warp_work.Auth.Token.token_of
    warp_work.Auth.Token.truncate warp_work.Auth.expires_at warp_work.Codec.Base64.encode
    warp_work.Codec.Base64.encode_digit warp_work.Codec.Utf8.lead warp_work.Codec.Utf8.valid_from
    warp_work.Codec.Utf8.valid_utf8 warp_work.Store.Auth.Accounts.create_auth_provider
    warp_work.Store.Auth.Accounts.mark_provider_used
    warp_work.Store.Auth.Accounts.user_profile_by_email
    warp_work.Store.Auth.Sessions.create_auth_session warp_work.Store.Auth.Sessions.provider_exists
    warp_work.Store.ended
joins = refl

complete_google_sign_in_user_example :
    (t : IdToken) × (verified_google.exchange (codes "c") ≡ some t)
    × (t.nonce ≡ flow.nonce)
    × (flow.state ≡ codes "f")
    × Belongs platform (identity_of platform config t) world.db joined.user_id
complete_google_sign_in_user_example =
    complete_google_sign_in_user platform config verified_google (codes "c") (codes "f") flow 400
      browser world joined joins

authenticate-complete_google_sign_in_example :
    (row : SessionRow) × ((authenticate platform joined.token 500
        (complete_google_sign_in platform config
          (some verified_google)
          (codes "c")
          (codes "f")
          flow
          400
          browser
          world).1).0
      ≡ ok row)
    × (row.0.id ≡ joined.id)
    × (row.0.user_id ≡ joined.user_id)
authenticate-complete_google_sign_in_example =
    authenticate-complete_google_sign_in platform config (some verified_google) (codes "c")
      (codes "f") flow 400 500 browser world joined joins refl (omega arith)

abbrev newcomer : RegisterParams
newcomer = record { email = codes " Bo@Warp.vn"; password = right; display_name = codes "Bo" }

abbrev opened : Session
opened = record {
  token = codes "Bwg";
  id = 1009;
  user_id = 1002;
  issued_at = 100;
  expires_at = 400 + default_policy.ttl;
}

registered : (register platform config newcomer 400 browser world).0 ≡ ok opened
unfolding register warp_work.Auth.normalise_email warp_work.Strings.to_lower
    warp_work.Strings.trim_space warp_work.Strings.trim_left warp_work.Strings.is_space
    warp_work.Strings.has_prefix warp_work.Store.in_tx warp_work.Store.finish warp_work.Store.ended
    warp_work.Auth.Register.create_account warp_work.Auth.Register.hashed
    warp_work.Auth.Password.hash_password warp_work.Auth.Password.encode_hash
    warp_work.Auth.Token.uuid_of warp_work.Store.run warp_work.Store.Auth.kind_eq
    warp_work.Store.Auth.Accounts.create_user warp_work.Store.Auth.Accounts.create_user_profile
    warp_work.Store.Auth.Accounts.is_blank warp_work.Store.Auth.Accounts.same_email
    warp_work.Store.Auth.Accounts.create_auth_provider
    warp_work.Store.Auth.Accounts.create_auth_password warp_work.Store.Auth.Accounts.is_argon2id
    warp_work.Auth.Register.or_email_taken warp_work.Auth.Token.hash_token
    warp_work.Auth.Token.new_session warp_work.Auth.Token.open_session warp_work.Auth.Token.token_of
    warp_work.Auth.Token.truncate warp_work.Auth.expires_at warp_work.Codec.Base64.encode
    warp_work.Codec.Base64.encode_digit warp_work.Codec.Utf8.lead warp_work.Codec.Utf8.valid_from
    warp_work.Codec.Utf8.valid_utf8 warp_work.Store.Auth.Sessions.create_auth_session
    warp_work.Store.Auth.Sessions.provider_exists
registered = refl

authenticate-register_example :
    (row : SessionRow) × ((authenticate platform opened.token 500
        (register platform config newcomer 400 browser world).1).0
      ≡ ok row)
    × (row.0.id ≡ opened.id)
    × (row.0.user_id ≡ opened.user_id)
authenticate-register_example =
    authenticate-register platform config newcomer 400 500 browser world opened registered refl
      (omega arith)

has_provider-unlink_provider_example :
    has_provider 1 (unlink_provider platform 1 2 world).1.db ≡ true
has_provider-unlink_provider_example = has_provider-unlink_provider platform 1 2 world refl refl
