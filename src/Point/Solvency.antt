-- ===== src/Point/Solvency.antt =====
-- No balance falls below zero, while the cache agrees with the database.
use web3_point_exchange.Common.{
  ℕ, ℤ, pos, ◌≡◌, ◌≢◌, refl, sym, ap, subst, ◌∙◌, inl, inr, some, List, [], ◌∷◌, map, arith, ◌-ℤ◌,
  ◌+ℤ◌, ◌≤ℤ◌, int_laws, ==_iff, Has, set_where,
}
use web3_point_exchange.Entities.{UserPoint}
use web3_point_exchange.Platform.{Platform}
use web3_point_exchange.Platform.Found.{found}
use web3_point_exchange.Repositories.UserPoints
use web3_point_exchange.Point.Dto.{
  DepositPointsReq, ConsumePointReq, GrantPointReq, UserSwapHistoryRes, ConsumptionHistoryRes,
  GrantHistoryRes,
}
use web3_point_exchange.Point.Exchange.{deposit_points, consume_point, grant_point}
use web3_point_exchange.Point.Reads.{IsRead}
use web3_point_exchange.Point.Deposit.{DepositSpec, deposit_points-DepositSpec}
use web3_point_exchange.Point.Consume.{ConsumeGood, consume_point-MethodSpec}
use web3_point_exchange.Point.Grant.{GrantGood, grant_point-MethodSpec}
use web3_point_exchange.World.{World, Result, ok, err, lock_not_released}
use web3_point_exchange.World.Rules.{MethodSpec}

abbrev pub IsSolvent : List UserPoint → Type 0
IsSolvent [] = Unit {0}
IsSolvent (r ∷ rs) = (pos 0 ≤ℤ r.balance) × IsSolvent rs

-- The unique index on `user_id`, and a cache that holds no other balance than the database.
pub record IsConsistent (w : World) : Type 0 where
  pub unique :
      (r s : UserPoint)
      → Has r w.db.user_points
      → Has s w.db.user_points
      → r.user_id ≡ s.user_id
      → r ≡ s
  pub coherent :
      (r : UserPoint) (v : ℤ) → Has r w.db.user_points → w.cache r.user_id ≡ some v → v ≡ r.balance

set_balance-IsSolvent :
    (u : ℕ) (v : ℤ) (now : ℕ) (rows : List UserPoint)
    → pos 0 ≤ℤ v
    → IsSolvent rows
    → IsSolvent (map (set_where (UserPoints.by_user u) (UserPoints.set_balance v now)) rows)
unfolding UserPoints.by_user UserPoints.set_balance
set_balance-IsSolvent u v now [] h s = tt
set_balance-IsSolvent u v now (r ∷ rs) h s = ground (arith, set_balance-IsSolvent u v now rs h s.1)

Has-IsSolvent :
    (r : UserPoint) (rows : List UserPoint) → Has r rows → IsSolvent rows → pos 0 ≤ℤ r.balance
Has-IsSolvent r [] m s = absurd m
Has-IsSolvent r (x ∷ xs) (inl e) s = rw e s.0
Has-IsSolvent r (x ∷ xs) (inr m) s = Has-IsSolvent r xs m s.1

module _ ⦃p : Platform⦄ where
  -- What is read for the user of a row is the balance of that row.
  pub IsRead-eq :
      (u : ℕ) (w : World) (up : UserPoint) (current : ℤ)
      → IsConsistent w
      → Has up w.db.user_points
      → up.user_id ≡ u
      → IsRead u w current
      → current ≡ up.balance
  unfolding UserPoints.by_user
  IsRead-eq u w up current h m e (inl c) =
      h.coherent up current m (subst (λ k. w.cache k ≡ some current) (sym e) c)
  IsRead-eq u w up current h m e (inr (other, f, v)) =
      let (t, n) = found (UserPoints.by_user u) w.db.user_points f in
      v ∙ ap (λ r. r.balance) (h.unique other up n m ((==_iff other.user_id u).0 t ∙ sym e))

  -- In a world where a user has one row at most, no cached balance differs from the user's row,
  -- and no balance is below zero: after a consumption that does not end in a failed release of
  -- the lock no balance is below zero.
  pub consume_point-IsSolvent :
      (i : ℕ) (dto : ConsumePointReq) (w : World)
      → IsConsistent w
      → IsSolvent w.db.user_points
      → (consume_point i dto w).0 ≢ err lock_not_released
      → IsSolvent (consume_point i dto w).1.db.user_points
  consume_point-IsSolvent i dto w h s n =
      cases (consume_point i dto w) (consume_point-MethodSpec i dto w) n
    where
      cases :
          (out : Result ConsumptionHistoryRes × World)
          → MethodSpec (ConsumeGood i dto w) w out
          → out.0 ≢ err lock_not_released
          → IsSolvent (out.1.db.user_points)
      cases (err e, w') (inl same) n = absurd (n (ap err same))
      cases (err e, w') (inr (d, _, _)) n = rw d s
      cases (ok res, w') ((up, current, f, r, c, (d, _, _)), _) n =
          let (t, m) = found (UserPoints.by_id i) w.db.user_points f in
          let same = IsRead-eq up.user_id w up current h m refl r in
          rw d (
            set_balance-IsSolvent up.user_id (up.balance -ℤ dto.amount) w.now w.db.user_points
              (omega (int_laws, subst (λ v. dto.amount ≤ℤ v) same c)) s)

  -- In a world where a user has one row at most, no cached balance differs from the user's row,
  -- and no balance is below zero: after a deposit that does not end in a failed release of the
  -- lock no balance is below zero.
  pub deposit_points-IsSolvent :
      (rate : ℕ) (dto : DepositPointsReq) (w : World)
      → IsConsistent w
      → IsSolvent w.db.user_points
      → (deposit_points rate dto w).0 ≢ err lock_not_released
      → IsSolvent (deposit_points rate dto w).1.db.user_points
  unfolding UserPoints.by_user
  deposit_points-IsSolvent rate dto w h s n =
      cases (deposit_points rate dto w) (deposit_points-DepositSpec rate dto w) n
    where
      cases :
          (out : Result UserSwapHistoryRes × World)
          → DepositSpec rate dto w out
          → out.0 ≢ err lock_not_released
          → IsSolvent (out.1.db.user_points)
      cases (err e, w') (inl same) n = absurd (n (ap err same))
      cases (err e, w') (inr (d, _, _)) n = rw d s
      cases (ok res, w') (_, (up, current, f, r, c, d, _, _, _)) n =
          let (t, m) = found (UserPoints.by_user dto.user_id) w.db.user_points f in
          let same =
            IsRead-eq dto.user_id w up current h m ((==_iff up.user_id dto.user_id).0 t) r in
          rw d (
            set_balance-IsSolvent dto.user_id (up.balance -ℤ dto.amount) w.now w.db.user_points
              (omega (int_laws, subst (λ v. dto.amount ≤ℤ v) same c)) s)

  -- When no balance is below zero, after a grant of zero or more that does not end in a failed
  -- release of the lock no balance is below zero, whatever the cache holds.
  pub grant_point-IsSolvent :
      (i : ℕ) (dto : GrantPointReq) (w : World)
      → pos 0 ≤ℤ dto.amount
      → IsSolvent w.db.user_points
      → (grant_point i dto w).0 ≢ err lock_not_released
      → IsSolvent (grant_point i dto w).1.db.user_points
  grant_point-IsSolvent i dto w a s n =
      cases (grant_point i dto w) (grant_point-MethodSpec i dto w) n
    where
      cases :
          (out : Result GrantHistoryRes × World)
          → MethodSpec (GrantGood i dto w) w out
          → out.0 ≢ err lock_not_released
          → IsSolvent (out.1.db.user_points)
      cases (err e, w') (inl same) n = absurd (n (ap err same))
      cases (err e, w') (inr (d, _, _)) n = rw d s
      cases (ok res, w') ((up, f, d, _, _), _) n =
          let (t, m) = found (UserPoints.by_id i) w.db.user_points f in
          let old = Has-IsSolvent up w.db.user_points m s in
          rw d (
            set_balance-IsSolvent up.user_id (up.balance +ℤ dto.amount) w.now w.db.user_points
              (omega int_laws) s)
