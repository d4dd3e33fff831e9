-- ===== src/Ledger/Book.antt =====
-- An account book: the balance of each user who has an account, and entries that change it.
use web3_point_exchange.Common.{
  ℕ, ℤ, pos, ◌≡◌, refl, Bool, true, false, Option, none, some, some_inj, subst, List, [], ◌∷◌, ◌==◌,
  if◌then◌else◌, ◌+ℤ◌, ◌-ℤ◌, ◌≤ℤ◌, int_laws, ==_iff, ◌∙◌,
}

abbrev pub Book : Type 0
Book = ℕ → Option ℤ

pub data Entry : Type 0 where
  nothing : Entry
  credit debit : ℕ → ℤ → Entry

abbrev pub changed : (ℤ → ℤ) → Option ℤ → Option ℤ
changed f none = none
changed f (some v) = some (f v)

abbrev pub change : ℕ → (ℤ → ℤ) → Book → Book
change u f b k = if k == u then changed f (b k) else b k

abbrev pub enter : Entry → Book → Book
enter nothing b = b
enter (credit u a) b = change u (λ v. v +ℤ a) b
enter (debit u a) b = change u (λ v. v -ℤ a) b

-- A debit is of an account that covers it.
abbrev pub IsCovered : Entry → Book → Type 0
IsCovered nothing b = Unit {0}
IsCovered (credit u a) b = Unit {0}
IsCovered (debit u a) b = (v : ℤ) × (b u ≡ some v) × (a ≤ℤ v)

abbrev pub replay : List Entry → Book → Book
replay [] b = b
replay (e ∷ es) b = replay es (enter e b)

abbrev pub AreCovered : List Entry → Book → Type 0
AreCovered [] b = Unit {0}
AreCovered (e ∷ es) b = IsCovered e b × AreCovered es (enter e b)

-- No credit is negative.
abbrev pub IsGift : Entry → Type 0
IsGift nothing = Unit {0}
IsGift (credit u a) = pos 0 ≤ℤ a
IsGift (debit u a) = Unit {0}

abbrev pub AreGifts : List Entry → Type 0
AreGifts [] = Unit {0}
AreGifts (e ∷ es) = IsGift e × AreGifts es

abbrev pub HasNoDebt : Book → Type 0
HasNoDebt b = (u : ℕ) (v : ℤ) → b u ≡ some v → pos 0 ≤ℤ v

change-HasNoDebt :
    (u : ℕ) (f : ℤ → ℤ) (b : Book)
    → ((v : ℤ) → b u ≡ some v → pos 0 ≤ℤ f v)
    → HasNoDebt b
    → HasNoDebt (change u f b)
change-HasNoDebt u f b h s k v e = go (k == u) (b k) refl refl e
  where
    go :
        (t : Bool) (o : Option ℤ)
        → (k == u) ≡ t
        → b k ≡ o
        → (if t then changed f o else o) ≡ some v
        → pos 0 ≤ℤ v
    go true none q g e = cc
    go true (some x) q g e =
        subst (λ y. pos 0 ≤ℤ y) (some_inj.0 e)
          (h x (subst (λ j. b j ≡ some x) ((==_iff k u).0 q) g))
    go false o q g e = s k v (g ∙ e)

enter-HasNoDebt :
    (e : Entry) (b : Book) → IsCovered e b → IsGift e → HasNoDebt b → HasNoDebt (enter e b)
enter-HasNoDebt nothing b c g s = s
enter-HasNoDebt (credit u a) b c g s =
    change-HasNoDebt u (λ v. v +ℤ a) b (λ v e. let old = s u v e in omega int_laws) s
enter-HasNoDebt (debit u a) b (w, e, c) g s =
    change-HasNoDebt u (λ v. v -ℤ a) b
      (λ v f. let same : w ≡ v = cc in let le = subst (λ x. a ≤ℤ x) same c in omega int_laws) s

pub replay-HasNoDebt :
    (es : List Entry) (b : Book)
    → AreCovered es b
    → AreGifts es
    → HasNoDebt b
    → HasNoDebt (replay es b)
replay-HasNoDebt [] b c g s = s
replay-HasNoDebt (e ∷ es) b (c, cs) (g, gs) s =
    replay-HasNoDebt es (enter e b) cs gs (enter-HasNoDebt e b c g s)
