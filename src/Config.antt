-- ===== src/Config.antt =====
-- internal/config/config.go: the reading of the environment. os.Getenv and time.ParseDuration are
-- parameters; what ParseDuration gives is in nanoseconds.
pub mod Problems
pub mod Soundness
use warp_work.Base.{
  ℕ, ◌+◌, ◌-◌, ◌*◌, ◌%◌, ℤ, pos, negsuc, Bool, true, false, not, ◌&&◌, ◌||◌, Option, none, some,
  List, [], ◌∷◌, ◌++◌, map, Text, codes, text_eq, any, length, ltb, leb, ◌==◌, if◌then◌else◌,
}
use warp_work.Base.Result.{Result, ok, err}
use warp_work.Strings
use warp_work.Codec.Base64
use warp_work.Codec.Decimal.{atoi}

pub record Api : Type 0 where
  pub port : ℤ
  pub shutdown_timeout : ℤ

pub record Log : Type 0 where
  pub level : Text
  pub format : Text

pub record Postgres : Type 0 where
  pub url : Text
  pub max_conns : ℤ
  pub max_conn_idle : ℤ
  pub query_timeout : ℤ

pub record Redis : Type 0 where
  pub url : Text
  pub concurrency : ℤ

pub record Claude : Type 0 where
  pub api_key : Text
  pub routing_model : Text
  pub extraction_model : Text
  pub drafting_model : Text

pub record Google : Type 0 where
  pub client_id : Text
  pub client_secret : Text
  pub redirect_url : Text

-- Web and Credentials have one field each.
pub record Config : Type 0 where
  pub env : Text
  pub api : Api
  pub log : Log
  pub postgres : Postgres
  pub redis : Redis
  pub claude : Claude
  pub google : Google
  pub web_base_url : Text
  pub encryption_key : Text

-- Claude.Enabled
unfoldable pub enabled : Claude → Bool
enabled c = not (text_eq c.api_key [])

-- Google.Configured
unfoldable pub configured : Google → Bool
configured g = not (text_eq g.client_id []) && not (text_eq g.client_secret [])

-- The errors of the loader, with the variable's name and the value that is refused.
pub data Problem : Type 0 where
  missing not_base64 : Text → Problem
  not_integer not_duration not_allowed : Text → Text → Problem
  wrong_length : Text → ℕ → Problem

-- A method of the loader: its value, and the errors gathered so far.
abbrev pub Load : Type 0 → Type 0
Load A = List Problem → A × List Problem

module _ {A B : Type 0} where
  infixl 5 ◌>>=◌
  abbrev pub ◌>>=◌ : Load A → (A → Load B) → Load B
  ◌>>=◌ m f errs = f (m errs).0 (m errs).1

abbrev pub pure : {A : Type 0} → A → Load A
pure a errs = (a, errs)

abbrev pub fail : {A : Type 0} → Problem → A → Load A
fail problem a errs = (a, errs ++ problem ∷ [])

-- int32(n), which keeps the low 32 bits.
abbrev pub signed32 : ℕ → ℤ
signed32 r = if ltb r 2147483648 then pos r else negsuc (4294967295 - r)

unfoldable pub int32 : ℤ → ℤ
int32 (pos n) = signed32 (n % 4294967296)
int32 (negsuc n) = signed32 (4294967295 - n % 4294967296)

-- A second, in nanoseconds.
abbrev pub second : ℕ
second = 1000000000

abbrev pub minute : ℕ
minute = 60 * second

module _ (getenv : Text → Text) (parse_duration : Text → Option ℤ) where
  unfoldable pub optional : Text → Text
  optional key = Strings.trim_space (getenv key)

  unfoldable pub str : Text → Text → Text
  unfolding optional
  str key def = if text_eq (optional key) [] then def else optional key

  unfoldable pub required : Text → Load Text
  unfolding optional
  required key = if text_eq (optional key) [] then fail (missing key) [] else pure (optional key)

  unfoldable pub int_val : Text → ℕ → Load ℤ
  unfolding optional
  int_val key def =
      if text_eq (optional key) [] then pure (pos def) else elim (atoi (optional key)) [
        | none ↦ fail (not_integer key (optional key)) (pos def)
        | some n ↦ pure n
      ]

  unfoldable pub duration : Text → ℕ → Load ℤ
  unfolding optional
  duration key def =
      if text_eq (optional key) [] then pure (pos def) else elim (parse_duration (optional key)) [
        | none ↦ fail (not_duration key (optional key)) (pos def)
        | some d ↦ pure d
      ]

  unfoldable pub one_of : Text → Text → List Text → Load Text
  unfolding str
  one_of key def allowed =
      if any (text_eq (str key def)) allowed
      then pure (str key def)
      else fail (not_allowed key (str key def)) def

  -- What the loader says of a decoded key.
  unfoldable pub sized_key : Text → ℕ → Option Text → Load Text
  sized_key name want_bytes none = fail (not_base64 name) []
  sized_key name want_bytes (some b) =
      if length b == want_bytes then pure b else fail (wrong_length name (length b)) []

  unfoldable pub key : Text → ℕ → Load Text
  unfolding required sized_key
  key name want_bytes = do
    raw ← required name
    if text_eq raw [] then pure [] else sized_key name want_bytes (Base64.decode_padded raw)

  unfoldable pub default_log_format : Text → Text
  default_log_format app_env =
      if text_eq app_env [] || text_eq app_env (codes "development")
      then codes "console"
      else codes "json"

  abbrev pub environments : List Text
  environments = codes "development" ∷ codes "production" ∷ []

  abbrev pub levels : List Text
  levels = codes "debug" ∷ codes "info" ∷ codes "warn" ∷ codes "error" ∷ []

  abbrev pub formats : List Text
  formats = codes "json" ∷ codes "console" ∷ []

  -- The literal that Load fills, field by field.
  unfoldable pub read_config : Load Config
  unfolding one_of int_val duration default_log_format required key
  read_config = do
    env ← one_of (codes "APP_ENV") (codes "development") environments
    port ← int_val (codes "API_PORT") 8080
    shutdown_timeout ← duration (codes "API_SHUTDOWN_TIMEOUT") (20 * second)
    level ← one_of (codes "LOG_LEVEL") (codes "info") levels
    format ← one_of (codes "LOG_FORMAT") (default_log_format (optional (codes "APP_ENV"))) formats
    postgres_url ← required (codes "DATABASE_URL")
    max_conns ← int_val (codes "DATABASE_MAX_CONNS") 10
    max_conn_idle ← duration (codes "DATABASE_MAX_CONN_IDLE") (5 * minute)
    query_timeout ← duration (codes "DATABASE_QUERY_TIMEOUT") (10 * second)
    redis_url ← required (codes "REDIS_URL")
    concurrency ← int_val (codes "WORKER_CONCURRENCY") 8
    encryption_key ← key (codes "CREDENTIALS_ENCRYPTION_KEY") 32
    pure (record {
      env = env;
      api = record { port = port; shutdown_timeout = shutdown_timeout };
      log = record { level = level; format = format };
      postgres = record {
        url = postgres_url;
        max_conns = int32 max_conns;
        max_conn_idle = max_conn_idle;
        query_timeout = query_timeout;
      };
      redis = record { url = redis_url; concurrency = concurrency };
      claude = record {
        api_key = optional (codes "ANTHROPIC_API_KEY");
        routing_model = str (codes "MODEL_ROUTING") (codes "claude-haiku-4-5");
        extraction_model = str (codes "MODEL_EXTRACTION") (codes "claude-sonnet-5");
        drafting_model = str (codes "MODEL_DRAFTING") (codes "claude-opus-5");
      };
      google = record {
        client_id = optional (codes "GOOGLE_CLIENT_ID");
        client_secret = optional (codes "GOOGLE_CLIENT_SECRET");
        redirect_url =
            str (codes "GOOGLE_REDIRECT_URL")
              (codes "http://localhost:8080/api/v1/oauth/google/callback");
      };
      web_base_url = str (codes "WEB_BASE_URL") (codes "http://localhost:3000");
      encryption_key = encryption_key;
    })

  unfoldable pub loaded : Config × List Problem → Result (List Problem) Config
  loaded (cfg, []) = ok cfg
  loaded (cfg, problem ∷ errs) = err (problem ∷ errs)

  -- Load
  unfoldable pub load : Result (List Problem) Config
  unfolding read_config loaded
  load = loaded (read_config [])
