-- ===== src/Domain/Routing.antt =====
-- internal/domain/routing.go: routing rules, the facts they are matched against, and MatchRules.
-- A UUID is its 128-bit number: the canonical text, 32 lower-case digits with dashes at fixed
-- places, is ordered as the number is.
pub mod Order
pub mod Assignments
pub mod Validity
use mathlib.Core.List.{foldr}
use warp_work.Base.{
  ℕ, ◌+◌, ℤ, pos, negsuc, ltb_ℤ, eqb_ℤ, Bool, true, false, not, ◌&&◌, ◌||◌, List, [], ◌∷◌, ◌++◌,
  Text, text_eq, ltb, ◌==◌, if◌then◌else◌, contains,
}
use warp_work.Strings
use warp_work.Strings.{Unicode}

-- `other` stands for a string that is none of the constants.
pub data MatchType : Type 0 where
  sender domain thread keyword : MatchType
  other : Text → MatchType

unfoldable pub cost : MatchType → ℕ
cost sender = 0
cost domain = 1
cost thread = 2
cost keyword = 3
cost (other _) = 4

pub record RoutingRule : Type 0 where
  pub id : ℕ
  pub context_id : ℕ
  pub match_type : MatchType
  pub match_value : Text
  pub priority : ℤ
  pub is_active : Bool

pub record SignalFacts : Type 0 where
  pub sender : Text
  pub sender_domain : Text
  pub thread_id : Text
  pub subject : Text
  pub body : Text

pub data AssignedBy : Type 0 where
  rule model manual : AssignedBy
  other : Text → AssignedBy

-- A float64 confidence is NaN or a number, here in millionths.
pub data Confidence : Type 0 where
  nan : Confidence
  millionths : ℤ → Confidence

pub record Assignment : Type 0 where
  pub signal_id : ℕ
  pub context_id : ℕ
  pub confidence : Confidence
  pub assigned_by : AssignedBy

module _ (u : Unicode) where
  matches_type : MatchType → Text → SignalFacts → Bool
  matches_type sender want f = Strings.equal_fold u f.sender want
  matches_type domain want f = Strings.equal_fold u f.sender_domain want
  matches_type thread want f = not (text_eq f.thread_id []) && Strings.equal_fold u f.thread_id want
  matches_type keyword want f =
      Strings.contains (Strings.to_lower u (f.subject ++ 0x20 ∷ f.body)) want
  matches_type (other _) want f = false

  -- RoutingRule.Matches
  pub matches : RoutingRule → SignalFacts → Bool
  unfolding matches_type
  matches r f =
      if r.is_active
      then matches_type r.match_type (Strings.to_lower u (Strings.trim_space r.match_value)) f
      else false

-- The comparison that MatchRules hands to sort.SliceStable.
pub less : RoutingRule → RoutingRule → Bool
less a b =
    if not (cost a.match_type == cost b.match_type)
    then ltb (cost a.match_type) (cost b.match_type)
    else if not (eqb_ℤ a.priority b.priority)
    then ltb_ℤ a.priority b.priority
    else ltb a.id b.id

-- sort.SliceStable, as insertion: a rule goes before those that are not less than it.
pub insert : RoutingRule → List RoutingRule → List RoutingRule
insert r [] = r ∷ []
insert r (x ∷ xs) = if less x r then x ∷ insert r xs else r ∷ x ∷ xs

pub sort : List RoutingRule → List RoutingRule
unfolding insert
sort [] = []
sort (r ∷ rs) = insert r (sort rs)

abbrev pub assignment : ℕ → RoutingRule → Assignment
assignment signal_id r = record {
  signal_id = signal_id;
  context_id = r.context_id;
  confidence = millionths (pos 1000000);
  assigned_by = rule;
}

module _ (u : Unicode) (facts : SignalFacts) (signal_id : ℕ) where
  -- The loop over the sorted rules; `seen` holds the contexts assigned so far.
  pub assign : List ℕ → List RoutingRule → List Assignment
  assign seen [] = []
  assign seen (r ∷ rs) = elim (contains seen r.context_id || not (matches u r facts)) [
    | true ↦ assign seen rs
    | false ↦ assignment signal_id r ∷ assign (r.context_id ∷ seen) rs
  ]

  -- MatchRules
  pub match_rules : List RoutingRule → List Assignment
  unfolding assign sort
  match_rules rules = assign [] (sort rules)
