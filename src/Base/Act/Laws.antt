-- ===== src/Base/Act/Laws.antt =====
-- What every error of a piece of code satisfies, and what holds whenever it succeeds: a rule for
-- each way to build the code.
use warp_work.Base.Tests.{if◌then◌else◌}
use warp_work.Base.Result.{Result, ok, err}
use warp_work.Base.Act.{Act, pure, fail, lift, attempt, wrapping, wrap_result, ◌>>=◌}
use mathlib.Core.Path.{◌≡◌, refl, subst}
use mathlib.Core.Bool.{Bool, true, false}
use native.Mathlib.Omega.{arith}

-- Every error that `m` returns satisfies `P`.
pub record Raises {E S A : Type 0} (P : E → Type 0) (m : Act E S A) : Type 0 where
  pub at : (s : S) (e : E) → (m s).0 ≡ err e → P e

-- Whenever `m` returns a value, `Q` holds of the value and the state that it leaves.
pub record Ensures {E S A : Type 0} (Q : A → S → Type 0) (m : Act E S A) : Type 0 where
  pub at : (s : S) (a : A) → (m s).0 ≡ ok a → Q a (m s).1

module _ {E S A : Type 0} {P : E → Type 0} where
  pub Raises-pure : (a : A) → Raises P (pure {S = S} a)
  Raises-pure a = record { at = λ s e h. cc }

  pub Raises-fail : (e : E) → P e → Raises P (fail {S = S} {A = A} e)
  Raises-fail e k = record { at = λ s e' h. subst P (ground arith) k }

  pub Raises-if :
      (b : Bool) (m n : Act E S A) → Raises P m → Raises P n → Raises P (if b then m else n)
  Raises-if true m n h k = h
  Raises-if false m n h k = k

  pub Raises-lift : (r : Result E A) → ((e : E) → r ≡ err e → P e) → Raises P (lift {S = S} r)
  Raises-lift r h = record { at = λ s e q. h e q }

  pub Raises-attempt : {E' : Type 0} (m : Act E' S A) → Raises P (attempt m)
  Raises-attempt m = record { at = λ s e q. cc }

  pub Raises-wrapping :
      {E' : Type 0} (wrap : E' → E) (m : Act E' S A)
      → ((x : E') → P (wrap x))
      → Raises P (wrapping wrap m)
  Raises-wrapping {E'} wrap m h = record { at = λ s e q. wrapped (m s).0 e q }
    where
      wrapped : (r : Result E' A) (e : E) → wrap_result wrap r ≡ err e → P e
      wrapped (ok a) e q = cc
      wrapped (err x) e q = subst P (ground arith) (h x)

module _ {E S A B : Type 0} {P : E → Type 0} where
  continue-Raises :
      (f : A → Act E S B) (r : Result E A) (s : S) (e : E)
      → ((e : E) → r ≡ err e → P e)
      → ((a : A) → Raises P (f a))
      → (warp_work.Base.Act.continue r f s).0 ≡ err e
      → P e
  continue-Raises f (ok a) s e h k q = (k a).at s e q
  continue-Raises f (err x) s e h k q = h e (ground arith)

  pub Raises-bind :
      (m : Act E S A) (f : A → Act E S B)
      → Raises P m
      → ((a : A) → Raises P (f a))
      → Raises P (m >>= f)
  Raises-bind m f h k = record {
    at = λ s e q. continue-Raises f (m s).0 (m s).1 e (λ x. h.at s x) k q;
  }

module _ {E S A B : Type 0} {Q : B → S → Type 0} where
  continue-Ensures :
      (f : A → Act E S B) (r : Result E A) (s : S) (b : B)
      → ((a : A) → Ensures Q (f a))
      → (warp_work.Base.Act.continue r f s).0 ≡ ok b
      → Q b (warp_work.Base.Act.continue r f s).1
  continue-Ensures f (ok a) s b k q = (k a).at s b q
  continue-Ensures f (err x) s b k q = cc

  pub Ensures-bind :
      (m : Act E S A) (f : A → Act E S B) → ((a : A) → Ensures Q (f a)) → Ensures Q (m >>= f)
  Ensures-bind m f k = record { at = λ s b q. continue-Ensures f (m s).0 (m s).1 b k q }

module _ {E S B : Type 0} {Q : B → S → Type 0} where
  pub Ensures-fail : (e : E) → Ensures Q (fail e)
  Ensures-fail e = record { at = λ s b q. cc }

  pub Ensures-if :
      (b : Bool) (m n : Act E S B) → Ensures Q m → Ensures Q n → Ensures Q (if b then m else n)
  Ensures-if true m n h k = h
  Ensures-if false m n h k = k

module _ {E S A B : Type 0} where
  continued :
      (f : A → Act E S B) (r : Result E A) (s : S) (b : B)
      → (warp_work.Base.Act.continue r f s).0 ≡ ok b
      → (a : A) × (r ≡ ok a) × ((f a s).0 ≡ ok b)
  continued f (ok a) s b q = (a, refl, q)
  continued f (err e) s b q = cc

wrapped_value :
    {E E' S A : Type 0} (Q : A → S → Type 0) (wrap : E' → E) (r : Result E' A) (s : S) (a : A)
    → ((a : A) → r ≡ ok a → Q a s)
    → wrap_result wrap r ≡ ok a
    → Q a s
wrapped_value Q wrap (ok x) s a h q = subst (λ x. Q x s) (ground arith) (h x refl)
wrapped_value Q wrap (err e) s a h q = cc

module _ {E E' S A : Type 0} {Q : A → S → Type 0} where
  pub Ensures-wrapping :
      (wrap : E' → E) (m : Act E' S A) → Ensures Q m → Ensures Q (wrapping wrap m)
  Ensures-wrapping wrap m h = record {
    at = λ s a q. wrapped_value Q wrap (m s).0 (m s).1 a (λ x e. h.at s x e) q;
  }

-- From the state `s`, a value that `m` returns satisfies `Q`.
pub record Gives {E S A : Type 0} (Q : A → Type 0) (m : Act E S A) (s : S) : Type 0 where
  pub at : (a : A) → (m s).0 ≡ ok a → Q a

module _ {E S A B : Type 0} {Q : B → Type 0} where
  -- With what the first part's value is known to satisfy.
  pub Gives-bind :
      (R : A → Type 0) (m : Act E S A) (f : A → Act E S B) (s : S)
      → Gives R m s
      → ((a : A) → R a → Gives Q (f a) (m s).1)
      → Gives Q (m >>= f) s
  Gives-bind R m f s h k = record {
    at = λ b q. let (a, e, q) = continued f (m s).0 (m s).1 b q in (k a (h.at a e)).at b q;
  }

  pub Gives-skip :
      (m : Act E S A) (f : A → Act E S B) (s : S)
      → ((a : A) (t : S) → Gives Q (f a) t)
      → Gives Q (m >>= f) s
  Gives-skip m f s k = record {
    at = λ b q. let (a, e, q) = continued f (m s).0 (m s).1 b q in (k a (m s).1).at b q;
  }

module _ {E S A : Type 0} {Q : A → Type 0} where
  pub Gives-fail : (e : E) (s : S) → Gives Q (fail e) s
  Gives-fail e s = record { at = λ a q. cc }

  pub Gives-if :
      (b : Bool) (m n : Act E S A) (s : S)
      → (b ≡ true → Gives Q m s)
      → (b ≡ false → Gives Q n s)
      → Gives Q (if b then m else n) s
  Gives-if true m n s h k = h refl
  Gives-if false m n s h k = k refl

  pub Gives-call : (m : Act E S A) (s : S) → ((a : A) → (m s).0 ≡ ok a → Q a) → Gives Q m s
  Gives-call m s h = record { at = h }

  pub Gives-Ensures :
      {R : A → S → Type 0} (m : Act E S A) (s : S)
      → Ensures R m
      → ((a : A) (t : S) → R a t → Q a)
      → Gives Q m s
  Gives-Ensures m s h k = record { at = λ a q. k a (m s).1 (h.at s a q) }
