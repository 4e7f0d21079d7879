-- ===== src/Config/Problems.antt =====
-- What Load reports of an environment: a table of the variables that can be wrong, each with what
-- is asked of it, and the complaint about one variable by itself.
use warp_work.Base.{
  ℕ, ℤ, ◌≡◌, ◌≢◌, refl, subst, sym, ap, ◌∙◌, ◌⊎◌, inl, inr, Option, none, some, List, [], ◌∷◌, ◌++◌,
  Text, codes, text_eq, any, length, arith, ◌==◌, if◌then◌else◌,
}
use warp_work.Base.Result.{ok, err}
use warp_work.Codec.Base64
use warp_work.Codec.Decimal.{atoi}
use warp_work.Config.{
  Config, ◌>>=◌, pure, Problem, missing, not_base64, not_integer, not_duration, not_allowed,
  wrong_length, Load, optional, str, required, int_val, duration, one_of, sized_key, key,
  environments, levels, formats, default_log_format, read_config, loaded, load,
}

-- What is asked of a variable that is set.
pub data Demand : Type 0 where
  text whole span : Demand
  choice : Text → List Text → Demand
  secret : ℕ → Demand

module _ (getenv : Text → Text) (parse_duration : Text → Option ℤ) where
  abbrev raw : Text → Text
  raw = optional getenv parse_duration

  unfoldable pub secret_complaint : Text → ℕ → Option Text → List Problem
  secret_complaint name n none = not_base64 name ∷ []
  secret_complaint name n (some b) = if length b == n then [] else wrong_length name (length b) ∷ []

  -- The complaint about one variable.
  unfoldable pub complaint : Text → Demand → List Problem
  unfolding secret_complaint
  complaint name text = if text_eq (raw name) [] then missing name ∷ [] else []
  complaint name whole =
      if text_eq (raw name) []
      then []
      else elim (atoi (raw name)) [ none ↦ not_integer name (raw name) ∷ [] | some _ ↦ [] ]
  complaint name span = if text_eq (raw name) [] then [] else elim (parse_duration (raw name)) [
    | none ↦ not_duration name (raw name) ∷ []
    | some _ ↦ []
  ]
  complaint name (choice def allowed) =
      let v = if text_eq (raw name) [] then def else raw name in
      if any (text_eq v) allowed then [] else not_allowed name v ∷ []
  complaint name (secret n) =
      if text_eq (raw name) []
      then missing name ∷ []
      else secret_complaint name n (Base64.decode_padded (raw name))

  unfoldable pub complaints : List (Text × Demand) → List Problem
  unfolding complaint
  complaints [] = []
  complaints ((name, demand) ∷ rest) = complaint name demand ++ complaints rest

  abbrev pub variables : List (Text × Demand)
  variables =
      (codes "APP_ENV", choice (codes "development") (environments getenv parse_duration))
      ∷ (codes "API_PORT", whole)
      ∷ (codes "API_SHUTDOWN_TIMEOUT", span)
      ∷ (codes "LOG_LEVEL", choice (codes "info") (levels getenv parse_duration))
      ∷ (
        codes "LOG_FORMAT",
        choice (default_log_format getenv parse_duration (raw (codes "APP_ENV")))
            (formats getenv parse_duration),
      )
      ∷ (codes "DATABASE_URL", text)
      ∷ (codes "DATABASE_MAX_CONNS", whole)
      ∷ (codes "DATABASE_MAX_CONN_IDLE", span)
      ∷ (codes "DATABASE_QUERY_TIMEOUT", span)
      ∷ (codes "REDIS_URL", text)
      ∷ (codes "WORKER_CONCURRENCY", whole)
      ∷ (codes "CREDENTIALS_ENCRYPTION_KEY", secret 32)
      ∷ []

  -- A method gathers the complaint about its variable, whatever it returns.
  Gathers : {A : Type 0} → Load A → Text → Demand → Type 0
  Gathers m name demand = (errs : List Problem) → (m errs).1 ≡ errs ++ complaint name demand

  append_nil : {A : Type 0} (xs : List A) → xs ++ [] ≡ xs
  append_nil [] = refl
  append_nil (x ∷ xs) = ap (λ ys. x ∷ ys) (append_nil xs)

  required-Gathers : (name : Text) → Gathers (required getenv parse_duration name) name text
  unfolding required complaint Gathers
  required-Gathers name errs = ground (arith, append_nil errs)

  int_val-Gathers :
      (name : Text) (def : ℕ) → Gathers (int_val getenv parse_duration name def) name whole
  unfolding int_val complaint Gathers
  int_val-Gathers name def errs = ground (arith, append_nil errs)

  duration-Gathers :
      (name : Text) (def : ℕ) → Gathers (duration getenv parse_duration name def) name span
  unfolding duration complaint Gathers
  duration-Gathers name def errs = ground (arith, append_nil errs)

  one_of-Gathers :
      (name def : Text) (allowed : List Text)
      → Gathers (one_of getenv parse_duration name def allowed) name (choice def allowed)
  unfolding one_of str complaint Gathers
  one_of-Gathers name def allowed errs = ground (arith, append_nil errs)

  key-Gathers : (name : Text) (n : ℕ) → Gathers (key getenv parse_duration name n) name (secret n)
  unfolding key required sized_key complaint secret_complaint Gathers
  key-Gathers name n errs = ground (arith, append_nil errs)

  append-append : {A : Type 0} (xs ys zs : List A) → (xs ++ ys) ++ zs ≡ xs ++ (ys ++ zs)
  append-append [] ys zs = refl
  append-append (x ∷ xs) ys zs = ap (λ l. x ∷ l) (append-append xs ys zs)

  GathersAll : {A : Type 0} → Load A → List (Text × Demand) → Type 0
  GathersAll m vs = (errs : List Problem) → (m errs).1 ≡ errs ++ complaints vs

  GathersAll-pure : {A : Type 0} (a : A) → GathersAll (pure a) []
  unfolding complaints GathersAll
  GathersAll-pure a errs = sym (append_nil errs)

  GathersAll-bind :
      {A B : Type 0} (m : Load A) (f : A → Load B) (name : Text) (demand : Demand)
      (vs : List (Text × Demand))
      → Gathers m name demand
      → ((a : A) → GathersAll (f a) vs)
      → GathersAll (m >>= f) ((name, demand) ∷ vs)
  unfolding complaints GathersAll Gathers
  GathersAll-bind m f name demand vs g h errs =
      h (m errs).0 (m errs).1
      ∙ ap (λ e. e ++ complaints vs) (g errs)
      ∙ append-append errs (complaint name demand) (complaints vs)

  ruleset gathering = (
    GathersAll-pure, GathersAll-bind, required-Gathers, int_val-Gathers, duration-Gathers,
    one_of-Gathers, key-Gathers,
  )

  read_config-GathersAll : GathersAll (read_config getenv parse_duration) variables
  unfolding read_config
  read_config-GathersAll = search gathering depth 40

  pub append_is_nil : {A : Type 0} (xs ys : List A) → xs ++ ys ≡ [] → (xs ≡ []) × (ys ≡ [])
  append_is_nil [] ys e = (refl, e)
  append_is_nil (x ∷ xs) ys e = cc

  loaded_lem :
      (cfg : Config) (errs : List Problem)
      → ((errs ≡ []) × (loaded getenv parse_duration (cfg, errs) ≡ ok cfg))
        ⊎ ((errs ≢ []) × (loaded getenv parse_duration (cfg, errs) ≡ err errs))
  unfolding loaded
  loaded_lem cfg [] = inl (refl, refl)
  loaded_lem cfg (problem ∷ errs) = inr (λ e. cc, refl)

  -- Load fails exactly where some variable of the table of those that can be wrong is, and then
  -- reports the complaint about every one of them, in the table's order; else it returns what it
  -- read.
  pub load-complaints :
      ((complaints variables ≡ [])
        × (load getenv parse_duration ≡ ok (read_config getenv parse_duration []).0))
      ⊎ ((complaints variables ≢ []) × (load getenv parse_duration ≡ err (complaints variables)))
  unfolding load
  load-complaints =
      let read = read_config getenv parse_duration [] in
      let gathered : read.1 ≡ complaints variables =
        unfold GathersAll in read_config-GathersAll [] in
      subst
        (λ errs.
          ((errs ≡ []) × (loaded getenv parse_duration read ≡ ok read.0))
          ⊎ ((errs ≢ []) × (loaded getenv parse_duration read ≡ err errs)))
        gathered (loaded_lem read.0 read.1)
