-- ===== src/Tests/Routing.antt =====
-- Routing rules.
use warp_work.Base.{◌≡◌, refl, ap, sym, ◌∙◌, ◌↔◌, inl, inr, true, List, [], ◌∷◌, codes, pos, In}
use warp_work.Strings.{ascii}
use warp_work.Domain.Routing.{RoutingRule, SignalFacts, sender, domain, matches, match_rules}
use warp_work.Domain.Routing.Order.{IsKeyed, match_rules-perm}
use warp_work.Domain.Routing.Assignments.{
  contexts_of, match_rules_contexts, match_rules-Distinct, Distinct,
}
use mathlib.Core.List.{Perm, Permᴰ}

abbrev mail : SignalFacts
mail = record {
  sender = codes "bo@acme.vn";
  sender_domain = codes "acme.vn";
  thread_id = [];
  subject = codes "Invoice";
  body = [];
}

abbrev by_sender : RoutingRule
by_sender = record {
  id = 1;
  context_id = 10;
  match_type = sender;
  match_value = codes " Bo@Acme.VN";
  priority = pos 5;
  is_active = true;
}

abbrev by_domain : RoutingRule
by_domain = record by_sender {
  id = 2;
  context_id = 20;
  match_type = domain;
  match_value = codes "acme.vn";
}

abbrev rules : List RoutingRule
rules = by_domain ∷ by_sender ∷ []

rules-IsKeyed : IsKeyed rules
rules-IsKeyed a b (inl i) (inl j) e = i ∙ sym j
rules-IsKeyed a b (inl i) (inr (inl j)) e = apart (sym (ap (λ r. r.id) i) ∙ e ∙ ap (λ r. r.id) j)
  where
    apart : by_domain.id ≡ by_sender.id → a ≡ b
    apart q = cc
rules-IsKeyed a b (inr (inl i)) (inl j) e = apart (sym (ap (λ r. r.id) i) ∙ e ∙ ap (λ r. r.id) j)
  where
    apart : by_sender.id ≡ by_domain.id → a ≡ b
    apart q = cc
rules-IsKeyed a b (inr (inl i)) (inr (inl j)) e = i ∙ sym j
rules-IsKeyed a b (inl i) (inr (inr x)) e = absurd x
rules-IsKeyed a b (inr (inl i)) (inr (inr x)) e = absurd x
rules-IsKeyed a b (inr (inr x)) j e = absurd x

swapped : Perm rules (by_sender ∷ by_domain ∷ [])
swapped = ∣ Permᴰ.swap refl refl ∣₁

match_rules-perm_example :
    match_rules ascii mail 7 rules ≡ match_rules ascii mail 7 (by_sender ∷ by_domain ∷ [])
match_rules-perm_example =
    match_rules-perm ascii mail 7 rules (by_sender ∷ by_domain ∷ []) rules-IsKeyed swapped

match_rules_contexts_example :
    In 20 (contexts_of (match_rules ascii mail 7 rules))
    ↔ ((r : RoutingRule) × In r rules × (matches ascii r mail ≡ true) × (r.context_id ≡ 20))
match_rules_contexts_example = match_rules_contexts ascii mail 7 rules 20

match_rules-Distinct_example : Distinct (contexts_of (match_rules ascii mail 7 rules))
match_rules-Distinct_example = match_rules-Distinct ascii mail 7 rules
