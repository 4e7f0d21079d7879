-- ===== src/Store.antt =====
-- internal/store, and what the services meet beyond it. The queries of internal/store are functions
-- of a database; the database's connection, its clock, uuid.NewV7 and crypto/rand are the
-- parameter `Env`, whose answers may differ from call to call.
pub mod Transactions
pub mod Auth
pub mod Contexts
pub mod Signals
use warp_work.Base.{
  ℕ, ◌≡◌, ◌⊎◌, arith, suc, Bool, true, false, Option, none, some, Text, if◌then◌else◌,
}
use warp_work.Base.Result.{Result, ok, err}
use warp_work.Base.Act.{Act}

-- The constraints that the migrations declare on the tables in use here.
pub data Constraint : Type 0 where
  users_pkey user_profiles_pkey user_profiles_user user_profiles_email : Constraint
  display_name_not_blank : Constraint
  auth_providers_pkey auth_providers_user auth_providers_unique : Constraint
  subject_not_blank one_primary : Constraint
  auth_passwords_pkey auth_passwords_provider hash_format : Constraint
  auth_sessions_pkey auth_sessions_user auth_sessions_provider : Constraint
  token_hash_unique expires_after_issue : Constraint
  contexts_pkey contexts_user contexts_parent : Constraint
  contexts_unique_slug contexts_slug_format contexts_no_self_parent contexts_color_token :
      Constraint
  context_cycle context_depth : Constraint
  signals_pkey signals_account hash_of_signal signals_immutable : Constraint
  confidence_range filed_signal filed_context : Constraint

-- What a query's error is: pgx.ErrNoRows, an error that Postgres reports, by its SQLSTATE, or a
-- failure to reach the database.
pub data DbError : Type 0 where
  no_rows unavailable : DbError
  unique_violation check_violation foreign_key_violation : Constraint → DbError
  restrict_violation value_out_of_range invalid_text : DbError

-- How a COMMIT ends. `lost` is one that took effect while its answer did not arrive.
pub data Commit : Type 0 where
  done refused lost : Commit

pub record Env : Type 0 where
  -- whether a call does not reach the database
  pub down : ℕ → Bool
  -- the database's now()
  pub db_now : ℕ → ℕ
  pub commit : ℕ → Commit
  pub new_v7 : ℕ → Option ℕ
  pub rand_read : ℕ → ℕ → Option Text

-- The database, and how many calls have been made to what the environment answers.
pub record World (D : Type 0) : Type 0 where
  pub db : D
  pub calls : ℕ

-- A statement: what it returns and what it leaves, at the database's time.
abbrev pub Query : Type 0 → Type 0 → Type 0
Query D A = ℕ → D → Result DbError A × D

-- The database answers at this call.
abbrev pub IsUp : {D : Type 0} → Env → World D → Type 0
IsUp env w = env.down w.calls ≡ false

module _ {D : Type 0} (env : Env) where
  -- One call of a query.
  unfoldable pub run : {A : Type 0} → Query D A → Act DbError (World D) A
  run q w =
      if env.down w.calls
      then (err unavailable, record w { calls = suc w.calls })
      else let (r, d) = q (env.db_now w.calls) w.db in (r, record { db = d; calls = suc w.calls })

  -- uuid.NewV7 and rand.Read; `none` is their error.
  abbrev pub new_v7 : {E : Type 0} → Act E (World D) (Option ℕ)
  new_v7 w = (ok (env.new_v7 w.calls), record w { calls = suc w.calls })

  abbrev pub rand_read : {E : Type 0} → ℕ → Act E (World D) (Option Text)
  rand_read n w = (ok (env.rand_read w.calls n), record w { calls = suc w.calls })

-- PgxStore.InTx: the effect of `fn` stays if it returns no error and the commit takes effect.
-- `unreached` is the error of a BEGIN or a COMMIT that failed.
module _ {D E A : Type 0} (env : Env) (unreached : E) where
  unfoldable pub ended : World D → Commit → A → World D → Result E A × World D
  ended before done a w = (ok a, w)
  ended before refused a w = (err unreached, record w { db = before.db })
  ended before lost a w = (err unreached, w)

  unfoldable pub finish : World D → Result E A → World D → Result E A × World D
  finish before (err e) w = (err e, record w { db = before.db })
  finish before (ok a) w = ended before (env.commit w.calls) a (record w { calls = suc w.calls })

  unfoldable pub in_tx : Act E (World D) A → Act E (World D) A
  in_tx fn w =
      let begun : World D = record w { calls = suc w.calls } in
      if env.down w.calls then (err unreached, begun) else finish w (fn begun).0 (fn begun).1

module _ {D : Type 0} (env : Env) where
  -- A call that reaches the database returns what the query does.
  pub run_up :
      {A : Type 0} (q : Query D A) (w : World D)
      → IsUp env w
      → run env q w ≡ (
        (q (env.db_now w.calls) w.db).0,
        record { db = (q (env.db_now w.calls) w.db).1; calls = suc w.calls },
      )
  unfolding run
  run_up q w up = ground arith

  -- A call leaves the database as it was, or as the query does.
  pub db-run :
      {A : Type 0} (q : Query D A) (w : World D)
      → ((run env q w).1.db ≡ w.db) ⊎ ((run env q w).1.db ≡ (q (env.db_now w.calls) w.db).1)
  unfolding run
  db-run q w = ground arith
