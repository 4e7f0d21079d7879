-- ===== src/Config/Soundness.antt =====
-- What holds of a configuration that Load returns.
use warp_work.Base.{
  ℕ, ℤ, In, ◌≡◌, ◌≢◌, refl, subst, ◌∙◌, sym, inl, inr, true, Option, List, [], ◌∷◌, Text, codes,
  text_eq, any, length, arith,
}
use warp_work.Base.Result.{ok_injective, ok}
use warp_work.Config.{
  Config, Problem, required, one_of, sized_key, key, str, environments, levels, formats,
  read_config, load,
}
use warp_work.Config.Problems.{
  Demand, text, choice, secret, secret_complaint, complaint, complaints, variables, append_is_nil,
  load-complaints,
}

module _ (getenv : Text → Text) (parse_duration : Text → Option ℤ) where
  complaints-In :
      (name : Text) (demand : Demand) (vs : List (Text × Demand))
      → In (name, demand) vs
      → complaints getenv parse_duration vs ≡ []
      → complaint getenv parse_duration name demand ≡ []
  unfolding complaints
  complaints-In name demand [] i e = absurd i
  complaints-In name demand ((n, d) ∷ vs) (inl same) e =
      subst (λ v. complaint getenv parse_duration v.0 v.1 ≡ []) (sym same)
        (append_is_nil getenv parse_duration (complaint getenv parse_duration n d)
          (complaints getenv parse_duration vs) e).0
  complaints-In name demand ((n, d) ∷ vs) (inr i) e =
      complaints-In name demand vs i
        (append_is_nil getenv parse_duration (complaint getenv parse_duration n d)
          (complaints getenv parse_duration vs) e).1

  key-sized :
      (name : Text) (n : ℕ) (errs : List Problem)
      → complaint getenv parse_duration name (secret n) ≡ []
      → length (key getenv parse_duration name n errs).0 ≡ n
  unfolding key required sized_key complaint secret_complaint
  key-sized name n errs e = ground arith

  one_of-allowed :
      (name def : Text) (allowed : List Text) (errs : List Problem)
      → complaint getenv parse_duration name (choice def allowed) ≡ []
      → any (text_eq (one_of getenv parse_duration name def allowed errs).0) allowed ≡ true
  unfolding one_of str complaint
  one_of-allowed name def allowed errs e = ground arith

  required-full :
      (name : Text) (errs : List Problem)
      → complaint getenv parse_duration name text ≡ []
      → (required getenv parse_duration name errs).0 ≢ []
  unfolding required complaint
  required-full name errs e = λ q. ground arith

  abbrev pub IsSound : Config → Type 0
  IsSound cfg =
      (length cfg.encryption_key ≡ 32)
      × (any (text_eq cfg.env) (environments getenv parse_duration) ≡ true)
      × (any (text_eq cfg.log.level) (levels getenv parse_duration) ≡ true)
      × (any (text_eq cfg.log.format) (formats getenv parse_duration) ≡ true)
      × (cfg.postgres.url ≢ [])
      × (cfg.redis.url ≢ [])

  read_config-IsSound :
      (errs : List Problem)
      → complaints getenv parse_duration (variables getenv parse_duration) ≡ []
      → IsSound (read_config getenv parse_duration errs).0
  unfolding read_config
  read_config-IsSound errs fine = (
    key-sized (codes "CREDENTIALS_ENCRYPTION_KEY") 32 _
        (asked _ _ (inr (inr (inr (inr (inr (inr (inr (inr (inr (inr (inr (inl refl))))))))))))),
    one_of-allowed (codes "APP_ENV") _ _ _ (asked _ _ (inl refl)),
    one_of-allowed (codes "LOG_LEVEL") _ _ _ (asked _ _ (inr (inr (inr (inl refl))))),
    one_of-allowed (codes "LOG_FORMAT") _ _ _ (asked _ _ (inr (inr (inr (inr (inl refl)))))),
    required-full (codes "DATABASE_URL") _ (asked _ _ (inr (inr (inr (inr (inr (inl refl))))))),
    required-full (codes "REDIS_URL") _
        (asked _ _ (inr (inr (inr (inr (inr (inr (inr (inr (inr (inl refl))))))))))),
  )
    where
      asked :
          (name : Text) (demand : Demand)
          → In (name, demand) (variables getenv parse_duration)
          → complaint getenv parse_duration name demand ≡ []
      asked name demand i = complaints-In name demand (variables getenv parse_duration) i fine

  -- A configuration that Load returns has an encryption key of 32 bytes, an environment, a log
  -- level and a log format among those allowed, and URLs of the database and of Redis that are not
  -- empty.
  pub load-IsSound : (cfg : Config) → load getenv parse_duration ≡ ok cfg → IsSound cfg
  load-IsSound cfg e = elim (load-complaints getenv parse_duration) [
    | inr (bad, refused) ↦ absurd (cc (rw refused at e))
    | inl (fine, made) ↦
        let same : (read_config getenv parse_duration []).0 ≡ cfg = ok_injective (sym made ∙ e) in
        subst IsSound same (read_config-IsSound [] fine)
  ]
