-- ===== src/Base/ListLaws.antt =====
-- Laws of the list operations that stand for SQL: `find`, `keep`, `change`, `any`.
use warp_work.Base.Tests.{if◌then◌else◌, Bool-cases}
use Prim.Native.Nat.{suc, ◌≤◌}
use warp_work.Base.Lists.{
  length, In, any, find, keep, change, tally, sort_by, insert_by, Text, text_eq,
}
use mathlib.Core.Logic.{inl, inr, ◌≢◌, ◌⊎◌, ◌↔◌}
use mathlib.Core.Path.{◌≡◌, refl, ap}
use mathlib.Core.Bool.{Bool, true, false}
use mathlib.Core.Option.{none, some}
use mathlib.Core.List.{List, [], ◌∷◌, ◌++◌}
use native.Mathlib.Omega.{arith}

module _ {A : Type 0} where
  -- What passes somewhere is found.
  pub find_of_any : (p : A → Bool) (xs : List A) → any p xs ≡ true → find p xs ≢ none
  find_of_any p [] h e = cc
  find_of_any p (x ∷ xs) h e = ground (arith, find_of_any p xs)

  -- A search is not changed by a change that keeps its test and touches no entry that passes it.
  pub find-change :
      (p q : A → Bool) (f : A → A) (xs : List A)
      → ((x : A) → q x ≡ true → p (f x) ≡ false)
      → ((x : A) → q x ≡ true → p x ≡ false)
      → find p (change q f xs) ≡ find p xs
  find-change p q f [] h k = refl
  find-change p q f (x ∷ xs) h k = ground (arith, h x, k x, find-change p q f xs h k)

  -- Nothing is found where the change takes every entry that would pass.
  pub find-change-none :
      (p q : A → Bool) (f : A → A) (xs : List A)
      → ((x : A) → q x ≡ true → p (f x) ≡ false)
      → ((x : A) → q x ≡ false → p x ≡ false)
      → find p (change q f xs) ≡ none
  find-change-none p q f [] h k = refl
  find-change-none p q f (x ∷ xs) h k = ground (arith, h x, k x, find-change-none p q f xs h k)

  -- A search passes over deleted entries that it would not have found.
  pub find-keep :
      (p q : A → Bool) (xs : List A)
      → ((x : A) → p x ≡ true → q x ≡ true)
      → find p (keep q xs) ≡ find p xs
  find-keep p q [] h = refl
  find-keep p q (x ∷ xs) h = ground (arith, h x, find-keep p q xs h)

  -- A change that leaves the search's test as it is, on the entry that is found.
  pub find-change_keeps :
      (p q : A → Bool) (f : A → A) (xs : List A)
      → ((x : A) → p (f x) ≡ p x)
      → find p (change q f xs)
        ≡ (elim (find p xs) [ none ↦ none | some x ↦ some (if q x then f x else x) ])
  find-change_keeps p q f [] h = refl
  find-change_keeps p q f (x ∷ xs) h = ground (arith, h x, find-change_keeps p q f xs h)

  -- Where the change spoils each entry that it takes, what is found was not taken.
  pub find-change-some :
      (p q : A → Bool) (f : A → A) (xs : List A) (a : A)
      → ((x : A) → q x ≡ true → p (f x) ≡ false)
      → find p (change q f xs) ≡ some a
      → (q a ≡ false) × In a xs
  find-change-some p q f [] a h e = cc
  find-change-some p q f (x ∷ xs) a h e = ground (arith, h x, find-change-some p q f xs a h)

  -- What was found and is not taken is found still.
  pub find-change_other :
      (p q : A → Bool) (f : A → A) (xs : List A) (a : A)
      → ((x : A) → q x ≡ true → p (f x) ≡ false)
      → find p xs ≡ some a
      → q a ≡ false
      → find p (change q f xs) ≡ some a
  find-change_other p q f [] a h e k = cc
  find-change_other p q f (x ∷ xs) a h e k = ground (arith, h x, find-change_other p q f xs a h)

  pub change_none : (q : A → Bool) (f : A → A) (xs : List A) → tally q xs ≡ 0 → change q f xs ≡ xs
  change_none q f [] e = refl
  change_none q f (x ∷ xs) e = ground (arith, change_none q f xs)

  -- A count is positive exactly where some entry passes.
  pub tally_pos : (q : A → Bool) (xs : List A) (a : A) → In a xs → q a ≡ true → tally q xs ≢ 0
  tally_pos q [] a i h = absurd i
  tally_pos q (x ∷ xs) a (inl e) h = ground arith
  tally_pos q (x ∷ xs) a (inr i) h = ground (arith, tally_pos q xs a i h)

  pub find-In : (p : A → Bool) (xs : List A) (a : A) → find p xs ≡ some a → In a xs
  find-In p [] a e = cc
  find-In p (x ∷ xs) a e = ground (arith, find-In p xs a)

  pub find_holds : (p : A → Bool) (xs : List A) (a : A) → find p xs ≡ some a → p a ≡ true
  find_holds p [] a e = cc
  find_holds p (x ∷ xs) a e = ground (arith, find_holds p xs a)

pub text_eq→≡ : (s t : Text) → text_eq s t ≡ true → s ≡ t
text_eq→≡ [] [] h = refl
text_eq→≡ [] (b ∷ t) h = cc
text_eq→≡ (a ∷ s) [] h = cc
text_eq→≡ (a ∷ s) (b ∷ t) h = ground (arith, text_eq→≡ s t)

pub text_eq_ne : (s t : Text) → s ≢ t → text_eq s t ≡ false
text_eq_ne s t d = elim (Bool-cases (text_eq s t)) [
  | inl e ↦ absurd (d (text_eq→≡ s t e))
  | inr e ↦ e
]

pub text_eq_self : (s : Text) → text_eq s s ≡ true
text_eq_self [] = refl
text_eq_self (c ∷ s) = ground (arith, text_eq_self s)

pub some_injective : {A : Type 0} {a b : A} → some a ≡ some b → a ≡ b
some_injective e = cc

pub length-append_one : {A : Type 0} (xs : List A) (a : A) → length (xs ++ a ∷ []) ≡ suc (length xs)
length-append_one [] a = refl
length-append_one (x ∷ xs) a = ap suc (length-append_one xs a)

pub In-append_one : {A : Type 0} (x a : A) (xs : List A) → In x (xs ++ a ∷ []) → In x xs ⊎ (x ≡ a)
In-append_one x a [] (inl e) = inr e
In-append_one x a [] (inr h) = absurd h
In-append_one x a (y ∷ ys) (inl e) = inl (inl e)
In-append_one x a (y ∷ ys) (inr h) = elim (In-append_one x a ys h) [
  | inl i ↦ inl (inr i)
  | inr e ↦ inr e
]

pub In-append_left : {A : Type 0} (x a : A) (xs : List A) → In x xs → In x (xs ++ a ∷ [])
In-append_left x a (y ∷ ys) (inl e) = inl e
In-append_left x a (y ∷ ys) (inr h) = inr (In-append_left x a ys h)
In-append_left x a [] h = absurd h

pub In-append_last : {A : Type 0} (a : A) (xs : List A) → In a (xs ++ a ∷ [])
In-append_last a [] = inl refl
In-append_last a (x ∷ xs) = inr (In-append_last a xs)

pub length-keep : {A : Type 0} (q : A → Bool) (xs : List A) → length (keep q xs) ≤ length xs
length-keep q [] = omega arith
length-keep q (x ∷ xs) = ground (arith, length-keep q xs)

-- What a sort holds is what the list holds, and what a test keeps is what passes it.
module _ {A : Type 0} where
  pub In-insert_by :
      (before : A → A → Bool) (a x : A) (xs : List A) → In x (insert_by before a xs) ↔ In x (a ∷ xs)
  In-insert_by before a x [] = ground arith
  In-insert_by before a x (y ∷ ys) = ground (arith, In-insert_by before a x ys)

  pub In-sort_by :
      (before : A → A → Bool) (x : A) (xs : List A) → In x (sort_by before xs) ↔ In x xs
  In-sort_by before x [] = ground arith
  In-sort_by before x (y ∷ ys) =
      ground (arith, In-insert_by before y x (sort_by before ys), In-sort_by before x ys)

  pub In-keep : (q : A → Bool) (x : A) (xs : List A) → In x (keep q xs) ↔ (In x xs × (q x ≡ true))
  In-keep q x [] = ground arith
  In-keep q x (y ∷ ys) = ground (arith, In-keep q x ys)

module _ {A : Type 0} where
  pub In-change :
      (q : A → Bool) (f : A → A) (x : A) (xs : List A)
      → In x (change q f xs)
      → (y : A) × In y xs × (x ≡ (if q y then f y else y))
  In-change q f x [] h = absurd h
  In-change q f x (y ∷ ys) (inl e) = (y, inl refl, e)
  In-change q f x (y ∷ ys) (inr h) = let (z, i, e) = In-change q f x ys h in (z, inr i, e)

  pub change-In :
      (q : A → Bool) (f : A → A) (y : A) (xs : List A)
      → In y xs
      → In (if q y then f y else y) (change q f xs)
  change-In q f y [] h = absurd h
  change-In q f y (z ∷ zs) (inl e) = inl (ap (λ v. if q v then f v else v) e)
  change-In q f y (z ∷ zs) (inr h) = inr (change-In q f y zs h)

  -- The only entry that passes is the one that is found.
  pub find_only :
      (p : A → Bool) (xs : List A) (a : A)
      → ((b : A) → In b xs → p b ≡ true → b ≡ a)
      → In a xs
      → p a ≡ true
      → find p xs ≡ some a
  find_only p [] a only i h = absurd i
  find_only p (x ∷ xs) a only i h = elim (Bool-cases (p x)) [
    | inl e ↦ rw e (ap some (only x (inl refl) e))
    | inr e ↦ rw e (find_only p xs a (λ b j k. only b (inr j) k) (later i e) h)
  ]
    where
      later : In a (x ∷ xs) → p x ≡ false → In a xs
      later (inl same) e = absurd (ground arith)
      later (inr j) e = j

  pub find-none :
      (p : A → Bool) (xs : List A) → ((b : A) → In b xs → p b ≡ false) → find p xs ≡ none
  find-none p [] h = refl
  find-none p (x ∷ xs) h = rw (h x (inl refl)) (find-none p xs (λ b i. h b (inr i)))

  pub find-none-In : (p : A → Bool) (xs : List A) (b : A) → find p xs ≡ none → In b xs → p b ≡ false
  find-none-In p [] b e i = absurd i
  find-none-In p (x ∷ xs) b e (inl same) = ground arith
  find-none-In p (x ∷ xs) b e (inr i) = ground (arith, find-none-In p xs b)
