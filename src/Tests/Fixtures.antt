-- ===== src/Tests/Fixtures.antt =====
-- A small installation: one account with a password, an environment that answers every call, and
-- stand-ins for argon2 and SHA-256.
use warp_work.Base.{◌+◌, false, true, none, some, [], ◌∷◌, ◌++◌, take, Text, codes}
use warp_work.Strings.{ascii}
use warp_work.Store.{Env, World, done}
use warp_work.Store.Auth.{AuthDb, AuthPassword, AuthSession, password}
use warp_work.Auth.{Platform, Config, SignInContext, default_policy}
use warp_work.Auth.Password.{PasswordParams, Argon2, encode_hash}

abbrev pub params : PasswordParams
params = record { memory = 8; iterations = 1; parallelism = 1; salt_length = 4; key_length = 4 }

abbrev pub salt : Text
salt = 1 ∷ 2 ∷ 3 ∷ 4 ∷ []

-- The first bytes of the password, and then of the salt.
abbrev pub argon2 : Argon2
argon2 given by iterations memory parallelism key_length = some (take key_length (given ++ by))

abbrev pub env : Env
env = record {
  down = λ call. false;
  db_now = λ call. 100;
  commit = λ call. done;
  new_v7 = λ call. some (1000 + call);
  rand_read = λ call n. some (7 ∷ call ∷ []);
}

abbrev pub platform : Platform
platform = record { unicode = ascii; argon2 = argon2; sha256 = λ token. 35 ∷ token; env = env }

abbrev pub config : Config
config = record { policy = default_policy; params = params }

abbrev pub browser : SignInContext
browser = record { user_agent = codes "Firefox"; ip = none }

abbrev pub email : Text
email = codes "ana@warp.vn"

abbrev pub right : Text
right = codes "open sesame"

abbrev pub wrong : Text
wrong = codes "hunter2"

-- The key of the right password.
abbrev pub key : Text
key = take 4 right

abbrev pub password_row : AuthPassword
password_row = record {
  auth_provider_id = 2;
  hash = encode_hash params salt key;
  failed_attempts = 0;
  locked_until = none;
}

abbrev pub token : Text
token = codes "ana's token"

abbrev pub ana_session : AuthSession
ana_session = record {
  id = 3;
  user_id = 1;
  auth_provider_id = some 2;
  token_hash = 35 ∷ token;
  issued_at = 100;
  last_seen_at = 100;
  expires_at = 900;
  revoked_at = none;
  user_agent = [];
  ip = none;
}

abbrev pub with_password : AuthPassword → World AuthDb
with_password w = record {
  db = record {
    users = record { id = 1; created_at = 50 } ∷ [];
    profiles =
        record {
          user_id = 1;
          email = email;
          display_name = codes "Ana";
          timezone = codes "Asia/Ho_Chi_Minh";
          created_at = 50;
        }
        ∷ [];
    providers =
        record {
          id = 2;
          user_id = 1;
          kind = password;
          subject = email;
          email = some email;
          is_primary = true;
          linked_at = 50;
          last_login_at = none;
        }
        ∷ [];
    passwords = w ∷ [];
    sessions = ana_session ∷ [];
  };
  calls = 0;
}

abbrev pub world : World AuthDb
world = with_password password_row

abbrev pub locked_world : World AuthDb
locked_world = with_password (record password_row { failed_attempts = 10; locked_until = some 500 })
