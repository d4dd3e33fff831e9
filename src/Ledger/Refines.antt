-- ===== src/Ledger/Refines.antt =====
-- Every run of PointService's calls is one of the account book.
use web3_point_exchange.Common.{
  ℕ, ℤ, ◌≡◌, ◌≢◌, refl, ap, subst, ◌∙◌, ◌⊎◌, inl, inr, some, List, map, ==_iff, ◌+ℤ◌, ◌-ℤ◌, ◌≤ℤ◌,
  Has, set_where,
}
use web3_point_exchange.Entities.{UserPoint}
use web3_point_exchange.Platform.{Platform, UpdateUserPointBalanceType}
use web3_point_exchange.Platform.Found.{found}
use web3_point_exchange.Repositories.UserPoints
use web3_point_exchange.Point.{
  DepositPointsReq, WithdrawPointsReq, ConsumePointReq, GrantPointReq, UserSwapHistoryRes,
  ConsumptionHistoryRes, GrantHistoryRes,
}
use web3_point_exchange.Point.Reads.{IsRead}
use web3_point_exchange.Point.Deposit.{DepositSpec}
use web3_point_exchange.Point.Withdraw.{WithdrawGood}
use web3_point_exchange.Point.Consume.{ConsumeGood}
use web3_point_exchange.Point.Grant.{GrantGood}
use web3_point_exchange.Point.Increase.{HandleSpec}
use web3_point_exchange.Point.Solvency.{IsConsistent, IsRead-eq}
use web3_point_exchange.World.{World, Result, ok, err, lock_not_released}
use web3_point_exchange.World.Rules.{MethodSpec}
use web3_point_exchange.Ledger.Book.{Entry, nothing, credit, debit, enter, IsCovered, change}
use web3_point_exchange.Ledger.Calls.{deposit, withdraw, consume, grant, update, ended, entry_of}
use web3_point_exchange.Ledger.Rows.{
  book_of, IsUnique, set_balance-book, book_of-row, book_of-Has, set_balance-IsUnique, change-eq,
}
use mathlib.Core.Path.{fun_ext}

-- The second rows are the first with an entry made, which they cover.
abbrev pub Entered : Entry → List UserPoint → List UserPoint → Type 0
Entered e rows rows' =
    IsCovered e (book_of rows) × (book_of rows' ≡ enter e (book_of rows)) × IsUnique rows'

module _ (rows : List UserPoint) (unique : IsUnique rows) (u : ℕ) (v : ℤ) (now : ℕ) where
  abbrev updated : List UserPoint
  updated = map (set_where (UserPoints.by_user u) (UserPoints.set_balance v now)) rows

  -- The account of the user is set to `f` of what it holds.
  updated-change :
      (f : ℤ → ℤ)
      → ((x : ℤ) → book_of rows u ≡ some x → v ≡ f x)
      → book_of updated ≡ change u f (book_of rows)
  updated-change f h =
      fun_ext (set_balance-book u v now rows) ∙ change-eq u (λ _. v) f (book_of rows) h

  credit-Entered :
      (a : ℤ) → ((x : ℤ) → book_of rows u ≡ some x → v ≡ x +ℤ a) → Entered (credit u a) rows updated
  credit-Entered a h =
      (tt, updated-change (λ x. x +ℤ a) h, set_balance-IsUnique u v now rows unique)

  debit-Entered :
      (a x : ℤ) → book_of rows u ≡ some x → a ≤ℤ x → v ≡ x -ℤ a → Entered (debit u a) rows updated
  debit-Entered a x e c q = (
    (x, e, c),
    updated-change (λ y. y -ℤ a) (λ y f. let same : x ≡ y = cc in q ∙ ap (λ z. z -ℤ a) same),
    set_balance-IsUnique u v now rows unique,
  )

module _ ⦃p : Platform⦄ (w : World) (h : IsConsistent w) where
  -- The balance that a call reads is the one in the book.
  IsRead-book :
      (u : ℕ) (current : ℤ)
      → IsRead u w current
      → (x : ℤ) → book_of w.db.user_points u ≡ some x
      → current ≡ x
  IsRead-book u current r x e =
      let (row, m, k, q) = book_of-row w.db.user_points u x e in
      IsRead-eq u w row current h m k r ∙ q

  -- So is the one of a row of the user.
  row-book :
      (u : ℕ) (up : UserPoint)
      → Has up w.db.user_points
      → up.user_id ≡ u
      → book_of w.db.user_points u ≡ some up.balance
  row-book u up m k =
      subst (λ j. book_of w.db.user_points j ≡ some up.balance) k
        (book_of-Has up w.db.user_points h.unique m)

  abbrev pub Enters : Entry → World → Type 0
  Enters e w' = Entered e w.db.user_points w'.db.user_points

  same-Enters : (w' : World) → w'.db ≡ w.db → Enters nothing w'
  same-Enters w' d = rw d (tt, refl, h.unique)

  -- A call that throws makes no entry.
  thrown-Enters :
      (e : _) (w' : World)
      → (e ≡ lock_not_released) ⊎ ((w'.db ≡ w.db) × (w'.sent ≡ w.sent) × (w'.locks ≡ w.locks))
      → ◌≢◌ {A = Result (Unit {0})} (err e) (err lock_not_released)
      → Enters nothing w'
  thrown-Enters e w' (inl same) n = absurd (n (ap err same))
  thrown-Enters e w' (inr (d, _, _)) n = same-Enters w' d

  pub deposit-Enters :
      (rate : ℕ) (d : DepositPointsReq) (out : Result UserSwapHistoryRes × World)
      → DepositSpec rate d w out
      → (ended out).0 ≢ err lock_not_released
      → Enters (entry_of (deposit d) w (ended out).0) (ended out).1
  unfolding UserPoints.by_user
  deposit-Enters rate d (err e, w') s n = thrown-Enters e w' s n
  deposit-Enters rate d (ok res, w') (_, (up, current, f, r, c, db, _, _, _)) n =
      let (t, m) = found (UserPoints.by_user d.user_id) w.db.user_points f in
      let k = (==_iff up.user_id d.user_id).0 t in
      let held = row-book d.user_id up m k in
      rw db (
        debit-Entered w.db.user_points h.unique d.user_id (up.balance -ℤ d.amount) w.now d.amount
          up.balance held
          (subst (λ x. d.amount ≤ℤ x) (IsRead-book d.user_id current r up.balance held) c) refl)

  pub withdraw-Enters :
      (rate : ℕ) (d : WithdrawPointsReq) (out : Result UserSwapHistoryRes × World)
      → MethodSpec (WithdrawGood rate d w) w out
      → (ended out).0 ≢ err lock_not_released
      → Enters (entry_of (withdraw d) w (ended out).0) (ended out).1
  withdraw-Enters rate d (err e, w') s n = thrown-Enters e w' s n
  withdraw-Enters rate d (ok res, w') ((_, _, (db, _, _)), _) n = rw db (tt, refl, h.unique)

  pub consume-Enters :
      (i : ℕ) (d : ConsumePointReq) (out : Result ConsumptionHistoryRes × World)
      → MethodSpec (ConsumeGood i d w) w out
      → (ended out).0 ≢ err lock_not_released
      → Enters (entry_of (consume i d) w (ended out).0) (ended out).1
  consume-Enters i d (err e, w') s n = thrown-Enters e w' s n
  consume-Enters i d (ok res, w') ((up, current, f, r, c, (db, _, _)), _) n =
      let (t, m) = found (UserPoints.by_id i) w.db.user_points f in
      let held = row-book up.user_id up m refl in
      rw (f, db)
        (debit-Entered w.db.user_points h.unique up.user_id (up.balance -ℤ d.amount) w.now d.amount
          up.balance held
          (subst (λ x. d.amount ≤ℤ x) (IsRead-book up.user_id current r up.balance held) c) refl)

  pub grant-Enters :
      (i : ℕ) (d : GrantPointReq) (out : Result GrantHistoryRes × World)
      → MethodSpec (GrantGood i d w) w out
      → (ended out).0 ≢ err lock_not_released
      → Enters (entry_of (grant i d) w (ended out).0) (ended out).1
  grant-Enters i d (err e, w') s n = thrown-Enters e w' s n
  grant-Enters i d (ok res, w') ((up, f, db, _, _), _) n =
      let (t, m) = found (UserPoints.by_id i) w.db.user_points f in
      let held = row-book up.user_id up m refl in
      rw (f, db)
        (credit-Entered w.db.user_points h.unique up.user_id (up.balance +ℤ d.amount) w.now d.amount
          (λ x e. let same : up.balance ≡ x = cc in ap (λ y. y +ℤ d.amount) same))

  pub update-Enters :
      (t : UpdateUserPointBalanceType) (u : ℕ) (a : ℤ) (out : Result (Unit {0}) × World)
      → HandleSpec t u a w out
      → (ended out).0 ≢ err lock_not_released
      → Enters
          (entry_of (update (record { user_id = u; amount = a; type = t })) w (ended out).0)
          (ended out).1
  update-Enters UpdateUserPointBalanceType.increase u a (err e, w') s n = thrown-Enters e w' s n
  update-Enters UpdateUserPointBalanceType.increase u a (ok r, w') ((current, r', db), _, _) n =
      rw db (
        credit-Entered w.db.user_points h.unique u (current +ℤ a) w.now a
          (λ x e. ap (λ y. y +ℤ a) (IsRead-book u current r' x e)))
  update-Enters UpdateUserPointBalanceType.decrease u a (err e, w') s n = cc
  update-Enters UpdateUserPointBalanceType.decrease u a (ok r, w') s n =
      same-Enters w' (ap (λ o. o.1.db) s)
