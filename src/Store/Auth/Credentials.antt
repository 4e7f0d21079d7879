-- ===== src/Store/Auth/Credentials.antt =====
-- internal/store/auth.sql.go: what a password sign-in reads and counts.
use warp_work.Base.{
  ℕ, ◌+◌, ◌&&◌, Option, none, some, Text, text_eq, find, change, ltb, leb, ◌==◌, if◌then◌else◌,
}
use warp_work.Base.Result.{ok, err}
use warp_work.Store.{Query, no_rows, value_out_of_range}
use warp_work.Store.Auth.{AuthDb, AuthProvider, AuthPassword, password, kind_eq}
use warp_work.Store.Auth.Accounts.{one}

-- GetPasswordCredentialRow
pub record Credential : Type 0 where
  pub provider_id : ℕ
  pub user_id : ℕ
  pub subject : Text
  pub hash : Text
  pub failed_attempts : ℕ
  pub locked_until : Option ℕ

unfoldable pub find_password : ℕ → AuthDb → Option AuthPassword
find_password provider_id db = find (λ w. w.auth_provider_id == provider_id) db.passwords

-- The provider whose kind is `password` and whose subject is the email.
unfoldable pub find_identity : Text → AuthDb → Option AuthProvider
unfolding kind_eq
find_identity email db = find (λ p. kind_eq p.kind password && text_eq p.subject email) db.providers

abbrev pub credential : AuthProvider → AuthPassword → Credential
credential p w = record {
  provider_id = p.id;
  user_id = p.user_id;
  subject = p.subject;
  hash = w.hash;
  failed_attempts = w.failed_attempts;
  locked_until = w.locked_until;
}

-- The join of the provider with its password; (kind, subject) and the password's key are unique.
unfoldable pub find_credential : Text → AuthDb → Option Credential
unfolding find_identity find_password
find_credential email db = elim (find_identity email db) [
  | none ↦ none
  | some p ↦ elim (find_password p.id db) [ none ↦ none | some w ↦ some (credential p w) ]
]

unfoldable pub get_password_credential : Text → Query AuthDb Credential
unfolding find_credential
get_password_credential email at db = (one (find_credential email db), db)

-- A `smallint` ends here.
abbrev pub max_smallint : ℕ
max_smallint = 32767

abbrev pub set_password : ℕ → (AuthPassword → AuthPassword) → AuthDb → AuthDb
set_password provider_id f db = record db {
  passwords = change (λ w. w.auth_provider_id == provider_id) f db.passwords;
}

-- One more failure, and the lock from the threshold on.
unfoldable pub count_failure : ℕ → ℕ → AuthPassword → AuthPassword
count_failure max_attempts lock_until w = record w {
  failed_attempts = w.failed_attempts + 1;
  locked_until =
      if leb max_attempts (w.failed_attempts + 1) then some lock_until else w.locked_until;
}

-- RecordFailedLogin returns the new count and lock.
unfoldable pub record_failed_login : ℕ → ℕ → ℕ → Query AuthDb (ℕ × Option ℕ)
unfolding find_password count_failure
record_failed_login provider_id max_attempts lock_until at db =
    elim (find_password provider_id db) [
      | none ↦ (err no_rows, db)
      | some w ↦
          let w' = count_failure max_attempts lock_until w in
          if ltb max_smallint w'.failed_attempts then (err value_out_of_range, db) else (
            ok (w'.failed_attempts, w'.locked_until),
            set_password provider_id (count_failure max_attempts lock_until) db,
          )
    ]

abbrev pub clear_failures : AuthPassword → AuthPassword
clear_failures w = record w { failed_attempts = 0; locked_until = none }

unfoldable pub clear_failed_logins : ℕ → Query AuthDb (Unit {0})
clear_failed_logins provider_id at db = (ok tt, set_password provider_id clear_failures db)
