-- ===== src/Point/Conservation.antt =====
-- A deposit moves points from a balance to a pending history, and neither makes nor loses any.
use web3_point_exchange.Common.{
  ℕ, ℤ, pos, ◌≡◌, ◌≢◌, refl, sym, ap, subst, ◌∙◌, inl, inr, Bool, true, false, List, [], ◌∷◌, map,
  ◌+ℤ◌, ◌-ℤ◌, ◌==◌, int_laws, Has, Answers, set_where, if◌then◌else◌,
}
use web3_point_exchange.Entities.{UserPoint, UserSwapHistory, SwapType, SwapStatus}
use web3_point_exchange.Platform.{Platform}
use web3_point_exchange.Platform.Found.{found, Answers-Has}
use web3_point_exchange.Repositories.UserPoints
use web3_point_exchange.Point.Deposit.{DepositSpec, deposit_points-DepositSpec}
use web3_point_exchange.Point.Dto.{DepositPointsReq, UserSwapHistoryRes}
use web3_point_exchange.Point.Exchange.{deposit_points}
use web3_point_exchange.World.{Db, World, Result, ok, err, lock_not_released}

abbrev pub total_balance : List UserPoint → ℤ
total_balance [] = pos 0
total_balance (r ∷ rs) = r.balance +ℤ total_balance rs

-- The points of a history that is still to be swapped for tokens.
abbrev points_of : SwapType → SwapStatus → ℤ → ℤ
points_of SwapType.point_to_token SwapStatus.pending v = v
points_of SwapType.point_to_token SwapStatus.completed v = pos 0
points_of SwapType.point_to_token SwapStatus.failed v = pos 0
points_of SwapType.token_to_point s v = pos 0

abbrev pub pending_points : List UserSwapHistory → ℤ
pending_points [] = pos 0
pending_points (h ∷ hs) = points_of h.type h.status h.amount_point +ℤ pending_points hs

abbrev pub total_points : Db → ℤ
total_points d = total_balance d.user_points +ℤ pending_points d.user_swap_histories

-- The user has at most one row.
abbrev pub IsOnce : ℕ → List UserPoint → Type 0
IsOnce u [] = Unit {0}
IsOnce u (r ∷ rs) = if r.user_id == u then Answers (UserPoints.by_user u) false rs else IsOnce u rs

absent-total :
    (u : ℕ) (v : ℤ) (now : ℕ) (rows : List UserPoint)
    → Answers (UserPoints.by_user u) false rows
    → total_balance (map (set_where (UserPoints.by_user u) (UserPoints.set_balance v now)) rows)
      ≡ total_balance rows
unfolding UserPoints.by_user UserPoints.set_balance
absent-total u v now [] h = refl
absent-total u v now (r ∷ rs) (e, h) = rw e (ap (λ t. r.balance +ℤ t) (absent-total u v now rs h))

exchange : (v t b : ℤ) → v +ℤ t +ℤ b ≡ b +ℤ t +ℤ v
exchange v t b = omega int_laws

+ℤ_assoc : (a b c : ℤ) → a +ℤ b +ℤ c ≡ a +ℤ (b +ℤ c)
+ℤ_assoc a b c = omega int_laws

-- The whole after an UPDATE of the balance of a user with one row.
set_balance-total :
    (u : ℕ) (v : ℤ) (now : ℕ) (up : UserPoint) (rows : List UserPoint)
    → IsOnce u rows
    → Has up rows
    → (up.user_id == u) ≡ true
    → total_balance (map (set_where (UserPoints.by_user u) (UserPoints.set_balance v now)) rows)
        +ℤ up.balance
      ≡ total_balance rows +ℤ v
unfolding UserPoints.by_user UserPoints.set_balance
set_balance-total u v now up [] o m e = absurd m
set_balance-total u v now up (r ∷ rs) o m e =
    cases (r.user_id == u) refl o m (λ o n. set_balance-total u v now up rs o n e)
  where
    changed : List UserPoint → List UserPoint
    changed = map (set_where (UserPoints.by_user u) (UserPoints.set_balance v now))

    cases :
        (b : Bool)
        → (r.user_id == u) ≡ b
        → (if b then Answers (UserPoints.by_user u) false rs else IsOnce u rs)
        → Has up (r ∷ rs)
        → (IsOnce u rs
            → Has up rs
            → total_balance (changed rs) +ℤ up.balance ≡ total_balance rs +ℤ v)
        → total_balance (changed (r ∷ rs)) +ℤ up.balance ≡ total_balance (r ∷ rs) +ℤ v
    cases true t o (inl q) ih = rw t (
        ap (λ x. v +ℤ x +ℤ up.balance) (absent-total u v now rs o)
        ∙ ap (λ x. v +ℤ total_balance rs +ℤ x.balance) q
        ∙ exchange v (total_balance rs) r.balance)
    cases true t o (inr n) ih = absurd (both (Answers-Has (UserPoints.by_user u) up rs o n))
      where
        both : (up.user_id == u) ≡ false → ⊥
        both f = cc
    cases false t o (inl q) ih = absurd (both (subst (λ x. (x.user_id == u) ≡ true) q e))
      where
        both : (r.user_id == u) ≡ true → ⊥
        both f = cc
    cases false t o (inr n) ih = rw t (
        +ℤ_assoc r.balance (total_balance (changed rs)) up.balance
        ∙ ap (λ x. r.balance +ℤ x) (ih o n)
        ∙ sym (+ℤ_assoc r.balance (total_balance rs) v))

moved : (t t' q b a : ℤ) → t' +ℤ b ≡ t +ℤ (b -ℤ a) → t' +ℤ (a +ℤ q) ≡ t +ℤ q
moved t t' q b a h =
    let apart : t' +ℤ (a +ℤ q) ≡ t' +ℤ b -ℤ b +ℤ (a +ℤ q) = omega int_laws in
    let together : t +ℤ (b -ℤ a) -ℤ b +ℤ (a +ℤ q) ≡ t +ℤ q = omega int_laws in
    apart ∙ ap (λ x. x -ℤ b +ℤ (a +ℤ q)) h ∙ together

module _ ⦃p : Platform⦄ where
  -- In a database where the user has one row at most, a deposit that does not end in a failed
  -- release of the lock keeps the sum of all balances and of the points of all pending deposits.
  pub deposit_points_conserve :
      (rate : ℕ) (dto : DepositPointsReq) (w : World)
      → IsOnce dto.user_id w.db.user_points
      → (deposit_points rate dto w).0 ≢ err lock_not_released
      → total_points (deposit_points rate dto w).1.db ≡ total_points w.db
  unfolding UserPoints.by_user
  deposit_points_conserve rate dto w o n =
      cases (deposit_points rate dto w) (deposit_points-DepositSpec rate dto w) n
    where
      cases :
          (out : Result UserSwapHistoryRes × World)
          → DepositSpec rate dto w out
          → out.0 ≢ err lock_not_released
          → total_points out.1.db ≡ total_points w.db
      cases (err e, w') (inl same) n = absurd (n (ap err same))
      cases (err e, w') (inr (d, _, _)) n = rw d refl
      cases (ok res, w') (_, (up, current, f, r, c, d, _, _, _)) n =
          let (t, m) = found (UserPoints.by_user dto.user_id) w.db.user_points f in
          rw d (
            moved (total_balance w.db.user_points) _ (pending_points w.db.user_swap_histories)
              up.balance dto.amount
              (set_balance-total dto.user_id (up.balance -ℤ dto.amount) w.now up w.db.user_points o
                m t))
