-- ===== src/Domain/Accounts.antt =====
-- internal/domain/account.go: connected sources of signals.
use warp_work.Base.{
  ℕ, ◌≡◌, ◌↔◌, ◌≢◌, Bool, true, false, Option, [], Text, text_eq, text_eq→≡, arith,
}
use warp_work.Base.Result.{ok, err}
use warp_work.Domain.{
  bad_reliability, bad_provider, bad_status, bad_account_name, unofficial_account, Validity,
  refuse_if, and_then,
}

-- In each of these enums `other` stands for a string that is none of the constants.
pub data Reliability : Type 0 where
  official unofficial manual : Reliability
  other : Text → Reliability

pub data Provider : Type 0 where
  gmail google_calendar google_drive zalo_oa manual : Provider
  other : Text → Provider

pub data AccountStatus : Type 0 where
  connected error disconnected : AccountStatus
  other : Text → AccountStatus

unfoldable pub valid_reliability : Reliability → Validity
valid_reliability (other _) = err bad_reliability
valid_reliability _ = ok tt

-- Reliability.Complete
unfoldable pub complete : Reliability → Bool
complete official = true
complete _ = false

unfoldable pub valid_provider : Provider → Validity
valid_provider (other _) = err bad_provider
valid_provider _ = ok tt

-- Provider.Reliability
unfoldable pub reliability_of : Provider → Reliability
reliability_of (other _) = unofficial
reliability_of manual = manual
reliability_of _ = official

unfoldable pub valid_status : AccountStatus → Validity
valid_status (other _) = err bad_status
valid_status _ = ok tt

pub record Account : Type 0 where
  pub id : ℕ
  pub user_id : ℕ
  pub provider : Provider
  pub reliability : Reliability
  pub display_name : Text
  pub status : AccountStatus
  pub last_sync_at : Option ℕ
  pub last_error : Text

unfoldable pub is_unofficial : Reliability → Bool
is_unofficial unofficial = true
is_unofficial _ = false

-- Account.Valid
unfoldable pub valid_account : Account → Validity
unfolding valid_provider valid_reliability is_unofficial valid_status
valid_account a = refuse_if (text_eq a.display_name []) bad_account_name (
    and_then (valid_provider a.provider) (
      and_then (valid_reliability a.reliability)
        (refuse_if (is_unofficial a.reliability) unofficial_account (valid_status a.status))))

-- Account.Healthy
unfoldable pub healthy : Account → Bool
healthy a = elim a.status [
  | connected ↦ true
  | error ↦ false
  | disconnected ↦ false
  | other _ ↦ false
]

-- An account that has its provider's reliability.
abbrev pub of_provider : Account → Account
of_provider a = record a { reliability = reliability_of a.provider }

pub valid_account-of_provider :
    (a : Account)
    → (valid_account (of_provider a) ≡ ok tt) ↔ (
        (a.display_name ≢ [])
        × (valid_provider a.provider ≡ ok tt)
        × (valid_status a.status ≡ ok tt))
unfolding valid_account reliability_of valid_provider valid_reliability is_unofficial valid_status
valid_account-of_provider a = ground (arith, text_eq→≡ a.display_name [])
