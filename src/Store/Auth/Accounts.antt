-- ===== src/Store/Auth/Accounts.antt =====
-- internal/store/auth.sql.go: users, their profiles, their ways to sign in, and their passwords.
-- `citext` compares lower-cased texts.
use warp_work.Base.{
  ℕ, Bool, true, false, not, ◌&&◌, ◌||◌, Option, none, some, List, [], ◌∷◌, Text, text_eq, codes,
  find, any, keep, change, tally, sort_by, ltb, ◌==◌, if◌then◌else◌,
}
use warp_work.Base.Result.{Result, ok, err}
use warp_work.Strings
use warp_work.Strings.{Unicode}
use warp_work.Store.{
  Query, DbError, no_rows, unique_violation, check_violation, foreign_key_violation,
  restrict_violation, users_pkey, user_profiles_pkey, user_profiles_user, user_profiles_email,
  display_name_not_blank, auth_providers_pkey, auth_providers_user, auth_providers_unique,
  subject_not_blank, one_primary, auth_passwords_pkey, auth_passwords_provider, hash_format,
}
use warp_work.Store.Auth.{
  AuthDb, User, UserProfile, AuthProvider, AuthPassword, Kind, password, kind_eq,
}

-- What a query with the mark `:one` returns.
abbrev pub one : {A : Type 0} → Option A → Result DbError A
one none = err no_rows
one (some a) = ok a

-- length(btrim(s)) > 0, where btrim takes spaces off.
unfoldable pub is_blank : Text → Bool
is_blank [] = true
is_blank (c ∷ s) = c == 0x20 && is_blank s

unfoldable pub create_user : ℕ → Query AuthDb User
create_user id at db =
    if any (λ u. u.id == id) db.users
    then (err (unique_violation users_pkey), db)
    else let u : User = record { id = id; created_at = at } in
      (ok u, record db { users = u ∷ db.users })

-- The default of user_profiles.timezone.
abbrev pub default_timezone : Text
default_timezone = codes "Asia/Ho_Chi_Minh"

module _ (u : Unicode) where
  unfoldable pub same_email : Text → Text → Bool
  same_email a b = text_eq (Strings.to_lower u a) (Strings.to_lower u b)

  unfoldable pub create_user_profile : ℕ → Text → Text → Query AuthDb UserProfile
  unfolding same_email is_blank
  create_user_profile user_id email display_name at db =
      if is_blank display_name
      then (err (check_violation display_name_not_blank), db)
      else if any (λ p. p.user_id == user_id) db.profiles
      then (err (unique_violation user_profiles_pkey), db)
      else if any (λ p. same_email p.email email) db.profiles
      then (err (unique_violation user_profiles_email), db)
      else if not (any (λ r. r.id == user_id) db.users)
      then (err (foreign_key_violation user_profiles_user), db)
      else let row : UserProfile = record {
        user_id = user_id;
        email = email;
        display_name = display_name;
        timezone = default_timezone;
        created_at = at;
      } in
        (ok row, record db { profiles = row ∷ db.profiles })

  unfoldable pub user_profile_by_email : Text → Query AuthDb UserProfile
  unfolding same_email
  user_profile_by_email email at db = (one (find (λ p. same_email p.email email) db.profiles), db)

unfoldable pub get_user_profile : ℕ → Query AuthDb UserProfile
get_user_profile user_id at db = (one (find (λ p. p.user_id == user_id) db.profiles), db)

-- The parameters of CreateAuthProvider.
pub record NewProvider : Type 0 where
  pub id : ℕ
  pub user_id : ℕ
  pub kind : Kind
  pub subject : Text
  pub email : Option Text
  pub is_primary : Bool

-- A partial unique index allows one primary row for each user.
unfoldable pub create_auth_provider : NewProvider → Query AuthDb AuthProvider
unfolding is_blank kind_eq
create_auth_provider arg at db =
    if is_blank arg.subject
    then (err (check_violation subject_not_blank), db)
    else if any (λ p. p.id == arg.id) db.providers
    then (err (unique_violation auth_providers_pkey), db)
    else if any (λ p. kind_eq p.kind arg.kind && text_eq p.subject arg.subject) db.providers
    then (err (unique_violation auth_providers_unique), db)
    else if arg.is_primary && any (λ p. p.is_primary && p.user_id == arg.user_id) db.providers
    then (err (unique_violation one_primary), db)
    else if not (any (λ r. r.id == arg.user_id) db.users)
    then (err (foreign_key_violation auth_providers_user), db)
    else let row : AuthProvider = record {
      id = arg.id;
      user_id = arg.user_id;
      kind = arg.kind;
      subject = arg.subject;
      email = arg.email;
      is_primary = arg.is_primary;
      linked_at = at;
      last_login_at = none;
    } in
      (ok row, record db { providers = row ∷ db.providers })

unfoldable pub provider_by_kind_subject : Kind → Text → Query AuthDb AuthProvider
unfolding kind_eq
provider_by_kind_subject kind subject at db =
    (one (find (λ p. kind_eq p.kind kind && text_eq p.subject subject) db.providers), db)

unfoldable pub mark_provider_used : ℕ → ℕ → Query AuthDb (Unit {0})
mark_provider_used id last_login_at at db = (
  ok tt,
  record db {
    providers =
        change (λ p. p.id == id) (λ p. record p { last_login_at = some last_login_at })
          db.providers;
  },
)

-- ORDER BY is_primary DESC, linked_at
unfoldable pub list_auth_providers : ℕ → Query AuthDb (List AuthProvider)
list_auth_providers user_id at db = (
  ok (
      sort_by
        (λ a b.
          (a.is_primary && not b.is_primary)
          || (not (b.is_primary && not a.is_primary) && ltb a.linked_at b.linked_at))
        (keep (λ p. p.user_id == user_id) db.providers)),
  db,
)

unfoldable pub count_auth_providers : ℕ → Query AuthDb ℕ
count_auth_providers user_id at db = (ok (tally (λ p. p.user_id == user_id) db.providers), db)

-- The trigger auth_providers_keep_one: the row is the last of a user who exists.
unfoldable pub is_last_provider : AuthDb → AuthProvider → Bool
is_last_provider db old =
    any (λ r. r.id == old.user_id) db.users
    && not (any (λ p. p.user_id == old.user_id && not (p.id == old.id)) db.providers)

-- The row goes with its password, and the sessions that it opened stay without it.
unfoldable pub remove_provider : ℕ → AuthDb → AuthDb
remove_provider id db = record db {
  providers = keep (λ p. not (p.id == id)) db.providers;
  passwords = keep (λ w. not (w.auth_provider_id == id)) db.passwords;
  sessions =
      change (λ s. elim s.auth_provider_id [ none ↦ false | some p ↦ p == id ])
        (λ s. record s { auth_provider_id = none }) db.sessions;
}

-- DeleteAuthProvider, with the number of rows that it deleted; `id` is a primary key.
unfoldable pub delete_auth_provider : ℕ → ℕ → Query AuthDb ℕ
unfolding is_last_provider remove_provider
delete_auth_provider id user_id at db =
    elim (find (λ p. p.id == id && p.user_id == user_id) db.providers) [
      | none ↦ (ok 0, db)
      | some old ↦
          if is_last_provider db old
          then (err restrict_violation, db)
          else (ok 1, remove_provider id db)
    ]

-- The column's check: hash LIKE '$argon2id$%'.
unfoldable pub is_argon2id : Text → Bool
is_argon2id hash = Strings.has_prefix hash (codes "$argon2id$")

-- The foreign key asks for a provider of the kind `password`.
unfoldable pub create_auth_password : ℕ → Text → Query AuthDb (Unit {0})
unfolding is_argon2id kind_eq
create_auth_password provider_id hash at db =
    if not (is_argon2id hash)
    then (err (check_violation hash_format), db)
    else if any (λ w. w.auth_provider_id == provider_id) db.passwords
    then (err (unique_violation auth_passwords_pkey), db)
    else if not (any (λ p. p.id == provider_id && kind_eq p.kind password) db.providers)
    then (err (foreign_key_violation auth_passwords_provider), db)
    else let row : AuthPassword = record {
      auth_provider_id = provider_id;
      hash = hash;
      failed_attempts = 0;
      locked_until = none;
    } in
      (ok tt, record db { passwords = row ∷ db.passwords })

unfoldable pub update_password_hash : ℕ → Text → Query AuthDb (Unit {0})
unfolding is_argon2id
update_password_hash provider_id hash at db =
    if any (λ w. w.auth_provider_id == provider_id) db.passwords && not (is_argon2id hash)
    then (err (check_violation hash_format), db)
    else (
      ok tt,
      record db {
        passwords =
            change (λ w. w.auth_provider_id == provider_id) (λ w. record w { hash = hash })
              db.passwords;
      },
    )
