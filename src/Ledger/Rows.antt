-- ===== src/Ledger/Rows.antt =====
-- The book that the rows of the table `user_points` are.
use web3_point_exchange.Common.{
  ℕ, ℤ, ◌≡◌, refl, sym, ap, subst, ◌∙◌, inl, inr, Bool, true, false, Option, none, some, some_inj,
  List, [], ◌∷◌, map, ◌==◌, ==_iff, if◌then◌else◌, Bool-cases, Has, Has-unmap, set_where, arith,
}
use web3_point_exchange.Entities.{UserPoint}
use web3_point_exchange.Repositories.UserPoints
use web3_point_exchange.Ledger.Book.{Book, change, changed}
use mathlib.Core.Path.{fun_ext}

-- The balance of the user's first row.
abbrev pub book_of : List UserPoint → Book
book_of [] k = none
book_of (r ∷ rs) k = if r.user_id == k then some r.balance else book_of rs k

-- A user has one row at most.
abbrev pub IsUnique : List UserPoint → Type 0
IsUnique rows = (r s : UserPoint) → Has r rows → Has s rows → r.user_id ≡ s.user_id → r ≡ s

-- An UPDATE of the balance of a user changes the account of the user.
pub set_balance-book :
    (u : ℕ) (v : ℤ) (now : ℕ) (rows : List UserPoint) (k : ℕ)
    → book_of (map (set_where (UserPoints.by_user u) (UserPoints.set_balance v now)) rows) k
      ≡ change u (λ _. v) (book_of rows) k
unfolding UserPoints.by_user UserPoints.set_balance
set_balance-book u v now [] k = ground arith
set_balance-book u v now (r ∷ rs) k = ground (arith, set_balance-book u v now rs k)

pub book_of-row :
    (rows : List UserPoint) (k : ℕ) (v : ℤ)
    → book_of rows k ≡ some v
    → (r : UserPoint) × Has r rows × (r.user_id ≡ k) × (r.balance ≡ v)
book_of-row [] k v e = cc
book_of-row (r ∷ rs) k v e = elim (Bool-cases (r.user_id == k)) [
  | inl t ↦ (r, inl refl, (==_iff r.user_id k).0 t, some_inj.0 (rw t at e))
  | inr f ↦ let (s, m, t, q) = book_of-row rs k v (rw f at e) in (s, inr m, t, q)
]

differs :
    (up r : UserPoint) (rs : List UserPoint)
    → Has up (r ∷ rs)
    → (r.user_id == up.user_id) ≡ false
    → Has up rs
differs up r rs (inl e) f = cc ((==_iff r.user_id up.user_id).1 (ap (λ x. x.user_id) (sym e)))
differs up r rs (inr n) f = n

pub book_of-Has :
    (up : UserPoint) (rows : List UserPoint)
    → IsUnique rows
    → Has up rows
    → book_of rows up.user_id ≡ some up.balance
book_of-Has up [] h m = absurd m
book_of-Has up (r ∷ rs) h m = elim (Bool-cases (r.user_id == up.user_id)) [
  | inl t ↦
      let same = h r up (inl refl) m ((==_iff r.user_id up.user_id).0 t) in
      rw t (ap (λ x. some x.balance) same)
  | inr f ↦ rw f (book_of-Has up rs (λ s t a b q. h s t (inr a) (inr b) q) (differs up r rs m f))
]

same_user :
    (u : ℕ) (v : ℤ) (now : ℕ) (r : UserPoint)
    → (set_where (UserPoints.by_user u) (UserPoints.set_balance v now) r).user_id ≡ r.user_id
unfolding UserPoints.set_balance
same_user u v now r = ground arith

pub set_balance-IsUnique :
    (u : ℕ) (v : ℤ) (now : ℕ) (rows : List UserPoint)
    → IsUnique rows
    → IsUnique (map (set_where (UserPoints.by_user u) (UserPoints.set_balance v now)) rows)
set_balance-IsUnique u v now rows h r s m n e =
    let f : UserPoint → UserPoint =
      set_where (UserPoints.by_user u) (UserPoints.set_balance v now) in
    let (x, a, p) = Has-unmap f r rows m in
    let (y, b, q) = Has-unmap f s rows n in
    let same =
      sym (same_user u v now x)
      ∙ ap (λ z. z.user_id) (sym p)
      ∙ e
      ∙ ap (λ z. z.user_id) q
      ∙ same_user u v now y in
    p ∙ ap f (h x y a b same) ∙ sym q

-- Two changes that agree on the account that is there.
pub change-eq :
    (u : ℕ) (f g : ℤ → ℤ) (b : Book)
    → ((v : ℤ) → b u ≡ some v → f v ≡ g v)
    → change u f b ≡ change u g b
change-eq u f g b h = fun_ext (λ k. go k (k == u) (b k) refl refl)
  where
    go :
        (k : ℕ) (t : Bool) (o : Option ℤ)
        → (k == u) ≡ t
        → b k ≡ o
        → (if t then changed f o else o) ≡ (if t then changed g o else o)
    go k true none q e = refl
    go k true (some v) q e = ap (λ x. some x) (h v (subst (λ j. b j ≡ some v) ((==_iff k u).0 q) e))
    go k false o q e = refl
