-- ===== src/Common/Lists.antt =====
-- Lists and predicates over them, measured by native numbers under the library's names.
use Prim.Native.Nat.{ℕ, suc}
use mathlib.Core.Path.{◌≡◌, refl, ap}
use mathlib.Core.Logic.{◌⊎◌, inl, inr}
use mathlib.Core.Bool.{Bool, true, false}
use mathlib.Core.Option.{Option, none, some}
use mathlib.Core.List.{List, [], ◌∷◌, ◌++◌, map}
use web3_point_exchange.Common.Tests.{◌==◌, if◌then◌else◌, Bool-cases}

module _ {A : Type 0} where
  abbrev pub length : List A → ℕ
  length [] = 0
  length (x ∷ xs) = suc (length xs)

  -- `a` stands somewhere in the list.
  abbrev pub Has : A → List A → Type 0
  Has a [] = ⊥
  Has a (x ∷ xs) = (a ≡ x) ⊎ Has a xs

  -- Every element passes the test `p` with the answer `b`.
  abbrev pub Answers : (A → Bool) → Bool → List A → Type 0
  Answers p b [] = Unit {0}
  Answers p b (x ∷ xs) = (p x ≡ b) × Answers p b xs

  abbrev pub first : (A → Bool) → List A → Option A
  first p [] = none
  first p (x ∷ xs) = if p x then some x else first p xs

  abbrev pub select : (A → Bool) → List A → List A
  select p [] = []
  select p (x ∷ xs) = if p x then x ∷ select p xs else select p xs

  -- What an UPDATE … WHERE leaves of a row.
  abbrev pub set_where : (A → Bool) → (A → A) → A → A
  set_where p f a = if p a then f a else a

abbrev pub contains : ℕ → List ℕ → Bool
contains n [] = false
contains n (m ∷ ms) = if n == m then true else contains n ms

pub Has-select :
    {A : Type 0} (q : A → Bool) (a : A) (rows : List A)
    → Has a rows
    → q a ≡ true
    → Has a (select q rows)
Has-select q a [] m t = m
Has-select q a (x ∷ xs) (inl e) t = rw (← e) (rw t (inl refl))
Has-select q a (x ∷ xs) (inr m) t = elim (Bool-cases (q x)) [
  | inl u ↦ rw u (inr (Has-select q a xs m t))
  | inr u ↦ rw u (Has-select q a xs m t)
]

pub Has-map : {A B : Type 0} (f : A → B) (a : A) (xs : List A) → Has a xs → Has (f a) (map f xs)
Has-map f a [] m = absurd m
Has-map f a (x ∷ xs) (inl e) = inl (ap f e)
Has-map f a (x ∷ xs) (inr m) = inr (Has-map f a xs m)

pub Has-unmap :
    {A B : Type 0} (f : A → B) (b : B) (xs : List A)
    → Has b (map f xs)
    → (a : A) × Has a xs × (b ≡ f a)
Has-unmap f b [] m = absurd m
Has-unmap f b (x ∷ xs) (inl e) = (x, inl refl, e)
Has-unmap f b (x ∷ xs) (inr m) = let (a, n, e) = Has-unmap f b xs m in (a, inr n, e)

pub Has-left : {A : Type 0} (a : A) (xs ys : List A) → Has a xs → Has a (xs ++ ys)
Has-left a [] ys m = absurd m
Has-left a (x ∷ xs) ys (inl e) = inl e
Has-left a (x ∷ xs) ys (inr m) = inr (Has-left a xs ys m)

pub Has-right : {A : Type 0} (a : A) (xs ys : List A) → Has a ys → Has a (xs ++ ys)
Has-right a [] ys m = m
Has-right a (x ∷ xs) ys m = inr (Has-right a xs ys m)

pub Has-split : {A : Type 0} (a : A) (xs ys : List A) → Has a (xs ++ ys) → Has a xs ⊎ Has a ys
Has-split a [] ys m = inr m
Has-split a (x ∷ xs) ys (inl e) = inl (inl e)
Has-split a (x ∷ xs) ys (inr m) = elim (Has-split a xs ys m) [ inl n ↦ inl (inr n) | inr n ↦ inr n ]
