-- ===== src/Domain/Routing/Validity.antt =====
-- internal/domain/routing.go: the Valid methods, and what they say of MatchRules.
use warp_work.Base.{
  ℕ, pos, ltb_ℤ, ◌≡◌, ◌≢◌, refl, Bool, true, false, ◌||◌, List, [], ◌∷◌, All, Text, text_eq,
  text_eq_ne, arith,
}
use warp_work.Base.Result.{ok, err}
use warp_work.Strings
use warp_work.Strings.{Unicode}
use warp_work.Domain.{
  bad_match_type, bad_match_value, bad_assigned_by, bad_confidence, Validity, refuse_if,
}
use warp_work.Domain.Routing.{
  MatchType, keyword, RoutingRule, SignalFacts, AssignedBy, Assignment, Confidence, nan, millionths,
  rule, matches, matches_type, assign, match_rules, sort,
}

unfoldable pub valid_match_type : MatchType → Validity
valid_match_type (MatchType.other _) = err bad_match_type
valid_match_type _ = ok tt

-- RoutingRule.Valid
unfoldable pub valid_rule : RoutingRule → Validity
unfolding valid_match_type
valid_rule r = refuse_if (text_eq r.match_value []) bad_match_value (valid_match_type r.match_type)

unfoldable pub valid_assigned_by : AssignedBy → Validity
valid_assigned_by (AssignedBy.other _) = err bad_assigned_by
valid_assigned_by _ = ok tt

-- Outside of [0,1]; a comparison with NaN is false.
unfoldable pub is_outside : Confidence → Bool
is_outside nan = false
is_outside (millionths n) = ltb_ℤ n (pos 0) || ltb_ℤ (pos 1000000) n

-- Assignment.Valid
unfoldable pub valid_assignment : Assignment → Validity
unfolding valid_assigned_by is_outside
valid_assignment a =
    refuse_if (is_outside a.confidence) bad_confidence (valid_assigned_by a.assigned_by)

module _ (u : Unicode) (facts : SignalFacts) (signal_id : ℕ) where
  assign-valid :
      (seen : List ℕ) (rules : List RoutingRule)
      → All
          (λ a.
            (valid_assignment a ≡ ok tt)
            × (a.signal_id ≡ signal_id)
            × (a.assigned_by ≡ rule)
            × (a.confidence ≡ millionths (pos 1000000)))
          (assign u facts signal_id seen rules)
  unfolding assign valid_assignment is_outside valid_assigned_by
  assign-valid seen [] = tt
  assign-valid seen (r ∷ rs) =
      ground (arith, assign-valid seen rs, assign-valid (r.context_id ∷ seen) rs)

  -- Every assignment that MatchRules makes is one that Valid accepts, is of the signal, and has a
  -- rule as its source and confidence 1.
  pub match_rules-valid :
      (rules : List RoutingRule)
      → All
          (λ a.
            (valid_assignment a ≡ ok tt)
            × (a.signal_id ≡ signal_id)
            × (a.assigned_by ≡ rule)
            × (a.confidence ≡ millionths (pos 1000000)))
          (match_rules u facts signal_id rules)
  unfolding match_rules
  match_rules-valid rules = assign-valid [] (sort rules)

contains_nothing : (s : Text) → Strings.contains s [] ≡ true
unfolding Strings.contains Strings.has_prefix
contains_nothing [] = refl
contains_nothing (c ∷ s) = refl

-- An active keyword rule whose value is of spaces only, and not empty, is accepted by Valid and
-- matches every signal.
pub valid_rule_blank :
    (u : Unicode) (r : RoutingRule) (facts : SignalFacts)
    → r.is_active ≡ true
    → r.match_type ≡ keyword
    → r.match_value ≢ []
    → Strings.trim_space r.match_value ≡ []
    → (valid_rule r ≡ ok tt) × (matches u r facts ≡ true)
unfolding valid_rule matches matches_type Strings.to_lower
valid_rule_blank u r facts on kind full blank =
    (rw (text_eq_ne r.match_value [] full, kind) refl, rw (on, kind, blank) (contains_nothing _))
