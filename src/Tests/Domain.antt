-- ===== src/Tests/Domain.antt =====
-- Accounts, signals and routing rules.
use warp_work.Base.{◌≡◌, ◌↔◌, refl, All, true, none, some, [], ◌∷◌, pos, Text, codes}
use warp_work.Base.Result.{ok}
use warp_work.Strings.{ascii, trim_space}
use warp_work.Domain.Accounts.{Account, gmail, official, connected}
use warp_work.Domain.Signals.{
  Signal, email, raw_signal, new_signal, valid_signal, IsSignal, IsMadeOf, new_signal_lem,
}
use warp_work.Domain.Routing.{
  rule, millionths, RoutingRule, SignalFacts, keyword, matches, match_rules,
}
use warp_work.Domain.Routing.Validity.{
  valid_rule, valid_assignment, match_rules-valid, valid_rule_blank,
}

abbrev mailbox : Account
mailbox = record {
  id = 1;
  user_id = 1;
  provider = gmail;
  reliability = official;
  display_name = codes "Work mail";
  status = connected;
  last_sync_at = none;
  last_error = [];
}

abbrev sha256 : Text → Text
sha256 payload = 35 ∷ payload

abbrev received : Signal
received = raw_signal sha256 1 2 email (codes "m1") (codes "hi") (some 40) (some 50)

new_signal_lem_example :
    (new_signal sha256 1 2 email (codes "m1") (codes "hi") (some 40) (some 50) ≡ ok received) ↔ (
      IsMadeOf sha256 received 1 2 email (codes "m1") (codes "hi") (some 40) (some 50)
      × (valid_signal sha256 received ≡ ok tt)
      × IsSignal sha256 email (codes "m1") (codes "hi") (some 40))
new_signal_lem_example =
    new_signal_lem sha256 1 2 email (codes "m1") (codes "hi") (some 40) (some 50) received

abbrev facts : SignalFacts
facts = record {
  sender = codes "bo@acme.vn";
  sender_domain = codes "acme.vn";
  thread_id = [];
  subject = codes "Invoice";
  body = [];
}

abbrev blank : RoutingRule
blank = record {
  id = 1;
  context_id = 10;
  match_type = keyword;
  match_value = codes " ";
  priority = pos 5;
  is_active = true;
}

match_rules-valid_example :
    All
      (λ a.
        (valid_assignment a ≡ ok tt)
        × (a.signal_id ≡ 7)
        × (a.assigned_by ≡ rule)
        × (a.confidence ≡ millionths (pos 1000000)))
      (match_rules ascii facts 7 (blank ∷ []))
match_rules-valid_example = match_rules-valid ascii facts 7 (blank ∷ [])

valid_rule_blank_example : (valid_rule blank ≡ ok tt) × (matches ascii blank facts ≡ true)
unfolding trim_space warp_work.Strings.trim_left warp_work.Strings.is_space
valid_rule_blank_example = valid_rule_blank ascii blank facts refl refl (λ e. cc) refl
