-- ===== src/Domain/Routing/Order.antt =====
-- The order in which MatchRules tries its rules, and that it does not depend on the input's order.
use mathlib.Core.List.{Permᴰ, Perm}
use mathlib.Core.Logic.{∥∥₁_elim}
use warp_work.Base.{
  ℕ, ◌≡◌, ◌≢◌, refl, sym, ap, ◌∙◌, true, false, List, [], ◌∷◌, inl, inr, In, arith, ◌==◌,
  Bool-cases,
}
use warp_work.Strings.{Unicode}
use warp_work.Domain.Routing.{RoutingRule, SignalFacts, less, insert, sort, assign, match_rules}

less_asym : (a b : RoutingRule) → less a b ≡ true → less b a ≡ false
unfolding less
less_asym a b h = ground arith

less_total : (a b : RoutingRule) → a.id ≢ b.id → less a b ≡ false → less b a ≡ true
unfolding less
less_total a b d h = ground arith

less_trans : (a b c : RoutingRule) → less a b ≡ true → less b c ≡ true → less a c ≡ true
unfolding less
less_trans a b c h k = ground arith

-- Two insertions of rules with different ids commute.
insert_comm :
    (a b : RoutingRule) (xs : List RoutingRule)
    → a.id ≢ b.id
    → insert a (insert b xs) ≡ insert b (insert a xs)
unfolding insert
insert_comm a b [] d = ground (arith, less_asym a b, less_total a b d)
insert_comm a b (x ∷ xs) d = ground (
  arith,
  insert_comm a b xs d,
  less_asym a b,
  less_asym b a,
  less_total a b d,
  less_trans x a b,
  less_trans x b a,
  less_trans a x b,
  less_trans b x a,
  less_asym x a,
  less_asym x b,
  less_asym a x,
  less_asym b x,
)

-- Rules with one id are one rule, as the primary key makes them.
abbrev pub IsKeyed : List RoutingRule → Type 0
IsKeyed rules = (a b : RoutingRule) → In a rules → In b rules → a.id ≡ b.id → a ≡ b

insert-insert :
    (a b : RoutingRule) (xs : List RoutingRule)
    → (a.id ≡ b.id → a ≡ b)
    → insert a (insert b xs) ≡ insert b (insert a xs)
insert-insert a b xs k = elim (Bool-cases (a.id == b.id)) [
  | inl e ↦ rw (k (ground arith)) refl
  | inr e ↦ insert_comm a b xs (λ q. ground arith)
]

In-permᴰ : {xs ys : List RoutingRule} → Permᴰ xs ys → (a : RoutingRule) → In a ys → In a xs
In-permᴰ Permᴰ.nil a h = h
In-permᴰ (Permᴰ.cons e p) a (inl h) = inl (h ∙ sym e)
In-permᴰ (Permᴰ.cons e p) a (inr h) = inr (In-permᴰ p a h)
In-permᴰ (Permᴰ.swap e f) a (inl h) = inr (inl (h ∙ sym f))
In-permᴰ (Permᴰ.swap e f) a (inr (inl h)) = inl (h ∙ sym e)
In-permᴰ (Permᴰ.swap e f) a (inr (inr h)) = inr (inr h)
In-permᴰ (Permᴰ.trans p q) a h = In-permᴰ p a (In-permᴰ q a h)

sort-permᴰ : {xs ys : List RoutingRule} → Permᴰ xs ys → IsKeyed xs → sort xs ≡ sort ys
unfolding sort
sort-permᴰ Permᴰ.nil k = refl
sort-permᴰ (Permᴰ.cons e p) k = rw (e, sort-permᴰ p (λ a b i j. k a b (inr i) (inr j))) refl
sort-permᴰ (Permᴰ.swap {a = a} {b = b} {l = l} e f) k =
    rw (← e, ← f) (insert-insert a b (sort l) (k a b (inl refl) (inr (inl refl))))
sort-permᴰ (Permᴰ.trans p q) k =
    sort-permᴰ p k ∙ sort-permᴰ q (λ a b i j. k a b (In-permᴰ p a i) (In-permᴰ p b j))

RoutingRule-set : IsSet RoutingRule
RoutingRule-set = hlevel

rules-set : IsSet (List RoutingRule)
rules-set = hlevel RoutingRule-set

-- Where rules of one id are one rule, the assignments do not depend on the order in which the
-- rules are listed.
pub match_rules-perm :
    (u : Unicode) (facts : SignalFacts) (signal_id : ℕ) (rules rules' : List RoutingRule)
    → IsKeyed rules
    → Perm rules rules'
    → match_rules u facts signal_id rules ≡ match_rules u facts signal_id rules'
unfolding match_rules
match_rules-perm u facts signal_id rules rules' k p =
    ap (assign u facts signal_id [])
      (∥∥₁_elim p (rules-set (sort rules) (sort rules')) (λ q. sort-permᴰ q k))
