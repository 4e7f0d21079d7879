-- ===== src/Domain/People.antt =====
-- internal/domain/person.go: the people that the owner deals with.
use warp_work.Base.{ℕ, Bool, [], Text, text_eq}
use warp_work.Base.Result.{ok}
use warp_work.Domain.{bad_person_name, bad_handle, Validity, refuse_if}
use warp_work.Domain.Accounts.{Provider, valid_provider}

pub record Person : Type 0 where
  pub id : ℕ
  pub user_id : ℕ
  pub display_name : Text
  pub notes : Text

-- Person.Valid
unfoldable pub valid_person : Person → Validity
valid_person p = refuse_if (text_eq p.display_name []) bad_person_name (ok tt)

pub record Identity : Type 0 where
  pub id : ℕ
  pub person_id : ℕ
  pub provider : Provider
  pub handle : Text
  pub verified : Bool

-- Identity.Valid
unfoldable pub valid_identity : Identity → Validity
unfolding valid_provider
valid_identity i = refuse_if (text_eq i.handle []) bad_handle (valid_provider i.provider)
