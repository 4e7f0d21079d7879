-- ===== src/Base/Act/Moves.antt =====
-- Where a piece of code takes the state, by a relation that is reflexive and transitive: a rule for
-- each way to build the code.
use warp_work.Base.Tests.{if◌then◌else◌}
use warp_work.Base.Result.{Result, ok, err}
use warp_work.Base.Act.{Act, pure, fail, lift, wrapping, continue, ◌>>=◌}
use mathlib.Core.Bool.{Bool, true, false}

pub record Moves {S : Type 0} (R : S → S → Type 0) {E A : Type 0} (m : Act E S A) : Type 0 where
  pub at : (s : S) → R s (m s).1

module _ {S : Type 0} {R : S → S → Type 0} (stay : (s : S) → R s s) {E A : Type 0} where
  pub Moves-pure : (a : A) → Moves R (pure {E = E} a)
  Moves-pure a = record { at = stay }

  pub Moves-fail : (e : E) → Moves R (fail {A = A} e)
  Moves-fail e = record { at = stay }

  pub Moves-lift : (r : Result E A) → Moves R (lift r)
  Moves-lift r = record { at = stay }

module _ {S : Type 0} {R : S → S → Type 0} {E A : Type 0} where
  pub Moves-wrapping :
      {E' : Type 0} (wrap : E' → E) (m : Act E' S A) → Moves R m → Moves R (wrapping wrap m)
  Moves-wrapping wrap m h = record { at = λ s. h.at s }

  pub Moves-if : (b : Bool) (m n : Act E S A) → Moves R m → Moves R n → Moves R (if b then m else n)
  Moves-if true m n h k = h
  Moves-if false m n h k = k

module _ {S : Type 0} {R : S → S → Type 0} (stay : (s : S) → R s s)
    (onward : (s t u : S) → R s t → R t u → R s u) {E A B : Type 0} where
  moved :
      (f : A → Act E S B) (r : Result E A) (s : S)
      → ((a : A) → Moves R (f a))
      → R s (continue r f s).1
  moved f (ok a) s k = (k a).at s
  moved f (err e) s k = stay s

  pub Moves-bind :
      (m : Act E S A) (f : A → Act E S B)
      → Moves R m
      → ((a : A) → Moves R (f a))
      → Moves R (m >>= f)
  Moves-bind m f h k = record { at = λ s. onward s (m s).1 _ (h.at s) (moved f (m s).0 (m s).1 k) }
