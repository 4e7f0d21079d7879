-- ===== src/Domain/Life.antt =====
-- internal/domain/context.go: contexts, apart from their hours.
use warp_work.Base.{
  ℕ, Bool, false, ◌||◌, Option, none, some, [], Text, text_eq, ◌==◌, if◌then◌else◌,
}
use warp_work.Base.Result.{ok, err}
use warp_work.Store.Contexts.{is_token}
use warp_work.Domain.{bad_color, bad_context_name, own_parent, Validity, refuse_if}
use warp_work.Domain.Hours.{ActiveHours}

pub record LifeContext : Type 0 where
  pub id : ℕ
  pub user_id : ℕ
  pub parent_id : Option ℕ
  pub name : Text
  pub color : Text
  pub active_hours : ActiveHours
  pub tone_profile : Text
  pub is_archived : Bool

-- ContextColor.Valid; the empty colour is valid.
unfoldable pub valid_context_color : Text → Validity
valid_context_color c = if text_eq c [] || is_token c then ok tt else err bad_color

-- Context.Valid
unfoldable pub valid_context : LifeContext → Validity
unfolding valid_context_color
valid_context c = refuse_if (text_eq c.name []) bad_context_name (
    refuse_if (elim c.parent_id [ none ↦ false | some p ↦ p == c.id ]) own_parent
      (valid_context_color c.color))
