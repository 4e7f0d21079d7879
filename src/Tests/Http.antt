-- ===== src/Tests/Http.antt =====
-- Requests and what they are answered.
use warp_work.Base.{◌≡◌, refl, true, none, some, [], codes, arith, ap, ◌+◌, ℕ, ◌≤◌, ◌*◌, ◌/◌, ◌-◌}
use warp_work.Base.Result.{ok, err}
use warp_work.Store.{World, Env, run}
use warp_work.Store.Auth.{AuthDb, password, UserProfile}
use warp_work.Store.Auth.Sessions.{SessionRow}
use warp_work.Auth.{Platform, locked, second}
use warp_work.Auth.Sessions.{authenticate}
use warp_work.Auth.Federated.{FlowState}
use warp_work.Http.{
  Fault, Body, Response, respond, error_response, unauthenticated, internal, content, replies,
}
use warp_work.Http.Security.{secured}
use warp_work.Http.Cookies.{Web, session_cookie}
use warp_work.Http.Sessions.{
  sign_out, list_sessions, SessionView, CurrentSession, get_current_session, to_api_user,
}
use warp_work.Http.Sessions.Ending.{requester_of, secured-sign_out, respond-secured_unreached}
use warp_work.Http.SignIn.{login}
use warp_work.Http.SignIn.Answers.{incorrect, login_indistinct, secured-login, login_locked}
use warp_work.Http.Google.{oauth_flow_from, with_oauth_flow, oauth_cookie}
use warp_work.Http.Google.Flow.{oauth_flow_from-oauth_cookie}
use warp_work.Http.Sessions.Current.{secured-get_current_session}
use warp_work.Auth.SignIn.Lockout.{sign_in_locked}
use warp_work.Tests.SignIn.{
  locked_cred, found_locked, cred, found_cred, refused, unknown, not_found, session, signed_in,
}
use warp_work.Tests.Fixtures.{
  locked_world, platform, config, env, world, token, email, right, wrong, browser, ana_session,
}

abbrev flow : FlowState
flow = record { state = codes "f"; nonce = codes "n"; return_to = codes "/" }

-- Stand-ins for the libraries: the cookie's value is its text.
abbrev pub web : Web
web = record {
  error_text = λ f. [];
  cookie_text = λ c. c.value;
  marshal = λ f. f.state;
  unmarshal = λ t. some (record flow { state = t });
  with_query = λ path key value. path;
  is_production = true;
}

abbrev gone : Response (Body (Unit {0}))
gone = record {
  status = 204;
  set_cookie = some [];
  location = none;
  retry_after = none;
  body = warp_work.Http.empty;
}

secured-sign_out_example :
    respond web.error_text
      (secured platform
        (some token)
        310
        (list_sessions platform web 310)
        (secured platform (some token) 300 (sign_out platform web 300) world).1).0
    ≡ error_response unauthenticated
unfolding secured warp_work.Auth.Sessions.authenticate_principal run
    warp_work.Store.Auth.Sessions.live_session_by_token_hash sign_out
    warp_work.Auth.Sessions.sign_out warp_work.Store.Auth.Sessions.revoke_session_by_token_hash
secured-sign_out_example =
    secured-sign_out platform web token 300 310 (list_sessions platform web 310) gone world refl
      refl

-- The same installation, whose database is not reached.
abbrev offline : Platform
offline = record platform { env = record env { down = λ call. true } }

respond-secured_unreached_example :
    respond web.error_text
      (secured offline (some token) 300 (list_sessions offline web 300) world).0
    ≡ error_response unauthenticated
respond-secured_unreached_example =
    respond-secured_unreached offline web token 300 (list_sessions offline web 300) world refl

login_indistinct_example :
    ((login platform config web email wrong 400 410 browser world).0 ≡ ok incorrect)
    × ((login platform config web unknown right 400 410 browser world).0 ≡ ok incorrect)
unfolding warp_work.Auth.SignIn.lock_in_force
login_indistinct_example =
    login_indistinct platform config web email unknown world cred wrong right 400 410 browser refl
      refl not_found found_cred refl refused (omega arith) (omega arith)

oauth_flow_from-oauth_cookie_example :
    oauth_flow_from (with_oauth_flow web (some (oauth_cookie web flow 300).value)) ≡ some flow
oauth_flow_from-oauth_cookie_example =
    oauth_flow_from-oauth_cookie web flow 300 (omega arith, tt) (λ e. cc) refl (λ e. cc)

abbrev welcome : Response (Body CurrentSession)
welcome = record {
  status = 200;
  set_cookie = some session.token;
  location = none;
  retry_after = none;
  body = warp_work.Http.content (record {
    user = record {
      id = 1;
      email = email;
      display_name = codes "Ana";
      timezone = codes "Asia/Ho_Chi_Minh";
    };
    session = some (record {
      id = session.id;
      issued_at = session.issued_at;
      last_seen_at = session.issued_at;
      expires_at = session.expires_at;
      is_current = true;
      provider_kind = none;
      user_agent = none;
      ip = none;
    });
  });
}

welcomed : (login platform config web email right 400 410 browser world).0 ≡ ok welcome
unfolding warp_work.Auth.SignIn.sign_in_with_password warp_work.Auth.SignIn.found
    warp_work.Store.run warp_work.Store.Auth.Credentials.get_password_credential
    warp_work.Auth.normalise_email warp_work.Strings.to_lower warp_work.Strings.trim_space
    warp_work.Strings.is_space warp_work.Auth.SignIn.check_credential
    warp_work.Auth.SignIn.lock_in_force warp_work.Auth.SignIn.verified
    warp_work.Auth.Password.verify_password warp_work.Auth.Password.decode_hash
    warp_work.Auth.Password.split warp_work.Auth.Password.encode_hash
    warp_work.Codec.Decimal.decimal warp_work.Codec.Base64.encode
    warp_work.Auth.Password.scan_version warp_work.Auth.Password.decode_parts
    warp_work.Auth.Password.format_params warp_work.Auth.Password.needs_rehash
    warp_work.Auth.Password.scan_params warp_work.Auth.SignIn.admit warp_work.Auth.SignIn.rehash
    warp_work.Auth.Token.hash_token warp_work.Auth.Token.new_session
    warp_work.Auth.Token.open_session warp_work.Auth.Token.token_of warp_work.Auth.Token.truncate
    warp_work.Auth.Token.uuid_of warp_work.Auth.expires_at warp_work.Codec.Base64.decode
    warp_work.Codec.Base64.decode_digit warp_work.Codec.Base64.decode_digits
    warp_work.Codec.Base64.encode_digit warp_work.Codec.Base64.join_digits
    warp_work.Codec.Decimal.digits_onto warp_work.Codec.Decimal.expect
    warp_work.Codec.Decimal.is_digit warp_work.Codec.Decimal.read_digits
    warp_work.Codec.Decimal.read_number warp_work.Codec.Decimal.read_signed
    warp_work.Codec.Decimal.scan_int warp_work.Codec.Decimal.scan_uint warp_work.Codec.Decimal.sized
    warp_work.Codec.Decimal.skip_space warp_work.Codec.Utf8.lead warp_work.Codec.Utf8.valid_from
    warp_work.Codec.Utf8.valid_utf8 warp_work.Store.Auth.Accounts.mark_provider_used
    warp_work.Store.Auth.Credentials.clear_failed_logins
    warp_work.Store.Auth.Credentials.find_credential warp_work.Store.Auth.Credentials.find_identity
    warp_work.Store.Auth.Credentials.find_password warp_work.Store.Auth.Sessions.create_auth_session
    warp_work.Store.Auth.Sessions.provider_exists warp_work.Store.Auth.kind_eq
    warp_work.Strings.has_prefix warp_work.Strings.trim_left login
    warp_work.Http.SignIn.login_answer warp_work.Http.SignIn.signed_in
    warp_work.Http.SignIn.current_session session_cookie warp_work.Auth.Sessions.profile
    warp_work.Store.Auth.Accounts.get_user_profile warp_work.Http.Sessions.to_api_user
welcomed = refl

secured-login_example :
    let w' : World AuthDb = (login platform config web email right 400 410 browser world).1 in
    (welcome.status ≡ 200)
    × (welcome.set_cookie
        ≡ some (web.cookie_text (session_cookie web session.token session.expires_at 410)))
    × (row : SessionRow) × (row.0.id ≡ session.id)
    × (row.0.user_id ≡ session.user_id)
    × (secured platform (some session.token) 500 (list_sessions platform web 500) w'
        ≡ list_sessions platform web 500
            (some (requester_of platform session.token row))
            (authenticate platform session.token 500 w').1)
secured-login_example =
    secured-login platform config web email right 400 410 500 browser world session welcome
      (list_sessions platform web 500) signed_in welcomed refl (omega arith)

turned_away :
    (warp_work.Auth.SignIn.sign_in_with_password platform config email right 400 browser
      locked_world).0
    ≡ err (locked 500)
unfolding warp_work.Auth.SignIn.lock_in_force
turned_away =
    ap (λ r. r.0)
      (sign_in_locked platform config email locked_world locked_cred 500 right 400 browser refl
        found_locked refl (omega arith))

login_locked_example :
    (r : Response (Body CurrentSession)) × (n : ℕ) × ((login platform config web email right 400 410
        browser locked_world).0
      ≡ ok r)
    × (r.status ≡ 429)
    × (r.retry_after ≡ some n)
    × (500 ≤ 410 + n * second + second / 2)
    × (n * second ≤ 500 - 410 + second / 2)
login_locked_example =
    login_locked platform config web email right 400 410 500 browser locked_world turned_away

abbrev row : SessionRow
row = (ana_session, some password)

abbrev ana_profile : UserProfile
ana_profile = record {
  user_id = 1;
  email = email;
  display_name = codes "Ana";
  timezone = codes "Asia/Ho_Chi_Minh";
  created_at = 50;
}

secured-get_current_session_example :
    (v : SessionView) × ((secured platform
        (some token)
        310
        (get_current_session platform web 312)
        world).0
      ≡ ok (replies 200 (content (record { user = to_api_user ana_profile; session = some v }))))
    × (v.id ≡ 3)
    × (v.is_current ≡ true)
unfolding authenticate run warp_work.Store.Auth.Sessions.live_session_by_token_hash
    warp_work.Auth.Token.hash_token warp_work.Store.Auth.Sessions.provider_kind
    warp_work.Store.Auth.Sessions.touch_auth_session warp_work.Auth.Sessions.profile
    warp_work.Store.Auth.Accounts.get_user_profile
secured-get_current_session_example =
    secured-get_current_session platform web token 310 312 row ana_profile world (λ n. refl) refl
      refl (omega arith)
