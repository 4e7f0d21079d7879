-- ===== src/Domain.antt =====
-- internal/domain: rules that touch no database. This file holds what its parts share.
pub mod Routing
pub mod Accounts
pub mod People
pub mod Signals
pub mod Hours
pub mod Life
use warp_work.Base.{Bool, true, false}
use warp_work.Base.Result.{Result, ok, err}

-- ErrInvalid, by the call of invalidf that makes it; its text is left out.
pub data Invalid : Type 0 where
  bad_match_type bad_match_value bad_assigned_by bad_confidence : Invalid
  bad_color bad_context_name own_parent bad_start bad_end : Invalid
  bad_reliability bad_provider bad_status bad_account_name unofficial_account : Invalid
  bad_person_name bad_handle : Invalid
  bad_kind bad_external_id bad_payload bad_hash bad_occurrence : Invalid

-- What a Valid method returns.
abbrev pub Validity : Type 0
Validity = Result Invalid (Unit {0})

-- The error if the test holds, and what follows otherwise.
abbrev pub refuse_if : Bool → Invalid → Validity → Validity
refuse_if true e rest = err e
refuse_if false e rest = rest

-- if err := ...; err != nil { return err }
abbrev pub and_then : Validity → Validity → Validity
and_then (ok _) rest = rest
and_then (err e) rest = err e
