-- ===== src/Base/Act.antt =====
-- Code that changes a state and may return an error. What was changed before an error stays
-- changed, so the state comes back beside the error too.
pub mod Laws
pub mod Moves
use warp_work.Base.Tests.{if◌then◌else◌}
use warp_work.Base.Result.{Result, ok, err}
use mathlib.Core.Bool.{Bool}

abbrev pub Act : Type 0 → Type 0 → Type 0 → Type 0
Act E S A = S → Result E A × S

module _ {E S A : Type 0} where
  abbrev pub pure : A → Act E S A
  pure a s = (ok a, s)

  abbrev pub fail : E → Act E S A
  fail e s = (err e, s)

  -- The value in hand, or the error.
  abbrev pub lift : Result E A → Act E S A
  lift r s = (r, s)

  -- The call's outcome as a value, for code that looks at the error itself.
  abbrev pub attempt : {E' : Type 0} → Act E S A → Act E' S (Result E A)
  attempt m s = (ok (m s).0, (m s).1)

module _ {E S A B : Type 0} where
  abbrev pub continue : Result E A → (A → Act E S B) → Act E S B
  continue (ok a) f s = f a s
  continue (err e) f s = (err e, s)

  infixl 5 ◌>>=◌ ◌>>◌
  abbrev pub ◌>>=◌ : Act E S A → (A → Act E S B) → Act E S B
  ◌>>=◌ m f s = continue (m s).0 f (m s).1

  abbrev pub ◌>>◌ : Act E S A → Act E S B → Act E S B
  m >> k = m >>= λ _. k

-- The error in other words.
abbrev pub wrap_result : {E E' A : Type 0} → (E → E') → Result E A → Result E' A
wrap_result wrap (ok a) = ok a
wrap_result wrap (err e) = err (wrap e)

abbrev pub wrapping : {E E' S A : Type 0} → (E → E') → Act E S A → Act E' S A
wrapping wrap m s = (wrap_result wrap (m s).0, (m s).1)
