-- ===== src/Store/Auth.antt =====
-- internal/store/auth.sql.go: the rows of users, user_profiles, auth_providers, auth_passwords and
-- auth_sessions, and the statements on them with the constraints and triggers of db/migrations.
-- Ids are 128-bit numbers, times are microseconds since 1970. The columns updated_at, which nothing
-- here reads, are left out.
pub mod Accounts
pub mod Credentials
pub mod Sessions
pub mod Liveness
pub mod Counting
use warp_work.Base.{ℕ, Bool, true, false, Option, none, some, List, Text}

-- auth_provider_kind
pub data Kind : Type 0 where
  google zalo facebook passkey password : Kind

unfoldable pub kind_eq : Kind → Kind → Bool
kind_eq google google = true
kind_eq zalo zalo = true
kind_eq facebook facebook = true
kind_eq passkey passkey = true
kind_eq password password = true
kind_eq _ _ = false

pub record User : Type 0 where
  pub id : ℕ
  pub created_at : ℕ

pub record UserProfile : Type 0 where
  pub user_id : ℕ
  pub email : Text
  pub display_name : Text
  pub timezone : Text
  pub created_at : ℕ

pub record AuthProvider : Type 0 where
  pub id : ℕ
  pub user_id : ℕ
  pub kind : Kind
  pub subject : Text
  pub email : Option Text
  pub is_primary : Bool
  pub linked_at : ℕ
  pub last_login_at : Option ℕ

pub record AuthPassword : Type 0 where
  pub auth_provider_id : ℕ
  pub hash : Text
  pub failed_attempts : ℕ
  pub locked_until : Option ℕ

pub record AuthSession : Type 0 where
  pub id : ℕ
  pub user_id : ℕ
  pub auth_provider_id : Option ℕ
  pub token_hash : Text
  pub issued_at : ℕ
  pub last_seen_at : ℕ
  pub expires_at : ℕ
  pub revoked_at : Option ℕ
  pub user_agent : Text
  pub ip : Option Text

-- The five tables.
pub record AuthDb : Type 0 where
  pub users : List User
  pub profiles : List UserProfile
  pub providers : List AuthProvider
  pub passwords : List AuthPassword
  pub sessions : List AuthSession
