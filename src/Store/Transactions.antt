-- ===== src/Store/Transactions.antt =====
-- What a transaction keeps and what it takes back.
use warp_work.Base.{
  ℕ, suc, ◌≡◌, ◌≢◌, refl, ap, Bool, true, false, arith, Bool-cases, inl, inr, subst, if◌then◌else◌,
}
use warp_work.Base.Result.{Result, ok, err}
use warp_work.Base.Act.{Act, fail, lift, wrapping, wrap_result, ◌>>=◌}
use warp_work.Base.Act.Laws.{Raises, Ensures}
use warp_work.Store.{Env, World, Commit, done, refused, lost, in_tx, finish, ended}

-- No commit of the environment takes effect without its answer arriving.
abbrev pub NoneLost : Env → Type 0
NoneLost env = (n : ℕ) → env.commit n ≢ lost

module _ {D E A : Type 0} (env : Env) (unreached : E) where
  db-ended :
      (before : World D) (c : Commit) (a : A) (w : World D) (e : E)
      → c ≢ lost
      → (ended env unreached before c a w).0 ≡ err e
      → (ended env unreached before c a w).1.db ≡ before.db
  unfolding ended
  db-ended before done a w e n q = cc
  db-ended before refused a w e n q = refl
  db-ended before lost a w e n q = absurd (n refl)

  db-finish :
      (before : World D) (r : Result E A) (w : World D) (e : E)
      → NoneLost env
      → (finish env unreached before r w).0 ≡ err e
      → (finish env unreached before r w).1.db ≡ before.db
  unfolding finish
  db-finish before (err x) w e n q = refl
  db-finish before (ok a) w e n q = db-ended before (env.commit w.calls) a _ e (n w.calls) q

  -- A transaction that returns an error leaves the database as it found it.
  pub db-in_tx :
      (fn : Act E (World D) A) (w : World D) (e : E)
      → NoneLost env
      → (in_tx env unreached fn w).0 ≡ err e
      → (in_tx env unreached fn w).1.db ≡ w.db
  unfolding in_tx
  db-in_tx fn w e n q =
      let begun : World D = record w { calls = suc w.calls } in
      ground (arith, db-finish w (fn begun).0 (fn begun).1 e n)

  module _ (P : E → Type 0) (u : P unreached) where
    Raised-ended :
        (before : World D) (c : Commit) (a : A) (w : World D) (e : E)
        → (ended env unreached before c a w).0 ≡ err e
        → P e
    unfolding ended
    Raised-ended before done a w e q = cc
    Raised-ended before refused a w e q = subst P (ground arith) u
    Raised-ended before lost a w e q = subst P (ground arith) u

    Raised-finish :
        (before : World D) (r : Result E A) (w : World D) (e : E)
        → (r ≡ err e → P e)
        → (finish env unreached before r w).0 ≡ err e
        → P e
    unfolding finish
    Raised-finish before (err x) w e h q = h (ground arith)
    Raised-finish before (ok a) w e h q = Raised-ended before (env.commit w.calls) a _ e q

    -- The errors of a transaction are those of its function, or of its BEGIN or COMMIT.
    pub in_tx-Raises : (fn : Act E (World D) A) → Raises P fn → Raises P (in_tx env unreached fn)
    unfolding in_tx
    in_tx-Raises fn h = record {
      at = λ w e q. elim (Bool-cases (env.down w.calls)) [
        | inl d ↦ subst P (ground arith) u
        | inr d ↦
            Raised-finish w _ _ e (h.at (record w { calls = suc w.calls }) e) (rw (d, in_tx) at q)
      ];
    }

  module _ (Q : A → D → Type 0) where
    Ensured-ended :
        (before : World D) (c : Commit) (a b : A) (w : World D)
        → Q a w.db
        → (ended env unreached before c a w).0 ≡ ok b
        → Q b (ended env unreached before c a w).1.db
    unfolding ended
    Ensured-ended before done a b w h q = subst (λ x. Q x w.db) (ground arith) h
    Ensured-ended before refused a b w h q = cc
    Ensured-ended before lost a b w h q = cc

    Ensured-finish :
        (before : World D) (r : Result E A) (b : A) (w : World D)
        → ((a : A) → r ≡ ok a → Q a w.db)
        → (finish env unreached before r w).0 ≡ ok b
        → Q b (finish env unreached before r w).1.db
    unfolding finish
    Ensured-finish before (err x) b w h q = cc
    Ensured-finish before (ok a) b w h q =
        Ensured-ended before (env.commit w.calls) a b _ (h a refl) q

    -- What a success of the function says of the database holds after the transaction.
    pub in_tx-Ensures :
        (fn : Act E (World D) A)
        → Ensures (λ a w. Q a w.db) fn
        → Ensures (λ a w. Q a w.db) (in_tx env unreached fn)
    unfolding in_tx
    in_tx-Ensures fn h = record {
      at = λ w b q. elim (Bool-cases (env.down w.calls)) [
        | inl d ↦ cc (rw (d, in_tx) at q)
        | inr d ↦
            rw (d, in_tx)
              (Ensured-finish w _ b _ (h.at (record w { calls = suc w.calls }))
                (rw (d, in_tx) at q))
      ];
    }

module _ {D E A : Type 0} (env : Env) (unreached : E) where
  returned-ended :
      (before : World D) (c : Commit) (a b : A) (w : World D)
      → (ended env unreached before c a w).0 ≡ ok b
      → a ≡ b
  unfolding ended
  returned-ended before done a b w q = ground arith
  returned-ended before refused a b w q = cc
  returned-ended before lost a b w q = cc

  returned-finish :
      (before : World D) (r : Result E A) (b : A) (w : World D)
      → (finish env unreached before r w).0 ≡ ok b
      → r ≡ ok b
  unfolding finish
  returned-finish before (err x) b w q = cc
  returned-finish before (ok a) b w q = ap ok (returned-ended before (env.commit w.calls) a b _ q)

  -- What a transaction returns its function returned, in the world after the BEGIN.
  pub returned-in_tx :
      (fn : Act E (World D) A) (w : World D) (b : A)
      → (in_tx env unreached fn w).0 ≡ ok b
      → (fn (record w { calls = suc w.calls })).0 ≡ ok b
  unfolding in_tx
  returned-in_tx fn w b q = elim (Bool-cases (env.down w.calls)) [
    | inl d ↦ cc (rw (d, in_tx) at q)
    | inr d ↦ returned-finish w _ b _ (rw (d, in_tx) at q)
  ]

-- Where the code returns an error, the database is as it was.
pub record Restores {E D A : Type 0} (m : Act E (World D) A) : Type 0 where
  pub at : (w : World D) (e : E) → (m w).0 ≡ err e → (m w).1.db ≡ w.db

module _ {E D A : Type 0} where
  pub Restores-fail : (e : E) → Restores {D = D} {A = A} (fail e)
  Restores-fail e = record { at = λ w x q. refl }

  pub Restores-if :
      (b : Bool) (m n : Act E (World D) A) → Restores m → Restores n → Restores (if b then m else n)
  Restores-if true m n h k = h
  Restores-if false m n h k = k

  pub Restores-in_tx :
      (env : Env) (unreached : E) (fn : Act E (World D) A)
      → NoneLost env
      → Restores (in_tx env unreached fn)
  Restores-in_tx env unreached fn n = record { at = λ w e q. db-in_tx env unreached fn w e n q }

  pub Restores-wrapping :
      {E' : Type 0} (wrap : E → E') (m : Act E (World D) A)
      → Restores m
      → Restores (wrapping wrap m)
  Restores-wrapping {E'} wrap m h = record { at = λ w e q. restored w (m w).0 e (h.at w) q }
    where
      restored :
          (w : World D) (r : Result E A) (e : E')
          → ((x : E) → r ≡ err x → (m w).1.db ≡ w.db)
          → wrap_result wrap r ≡ err e
          → (m w).1.db ≡ w.db
      restored w (ok a) e k q = cc
      restored w (err x) e k q = k x refl

module _ {E D A B : Type 0} where
  pub Restores-lift :
      (r : Result E A) (f : A → Act E (World D) B)
      → ((a : A) → Restores (f a))
      → Restores (lift r >>= f)
  Restores-lift (ok a) f h = h a
  Restores-lift (err x) f h = record { at = λ w e q. refl }
