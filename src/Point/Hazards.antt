-- ===== src/Point/Hazards.antt =====
-- Where `PointService` does not keep what its checks mean to keep: requests that overlap, and amounts
-- below zero.
use web3_point_exchange.Common.{
  ℕ, ◌+◌, ℤ, pos, negsuc, ◌≡◌, ap, subst, ◌∙◌, inl, inr, Option, some, List, [], ◌∷◌, map, arith,
  ◌-ℤ◌, ◌+ℤ◌, int_laws, Has, set_where,
}
use web3_point_exchange.Entities.{UserPoint, ConsumptionType}
use web3_point_exchange.Platform.{Platform}
use web3_point_exchange.Repositories.UserPoints
use web3_point_exchange.Point.Dto.{ConsumePointReq, ConsumptionHistoryRes}
use web3_point_exchange.Point.Exchange.{consume_locked, consume_point}
use web3_point_exchange.Point.Consume.{
  Consumed, ConsumeGood, consume_row, consume_locked-MethodSpec, consume_point-MethodSpec,
}
use web3_point_exchange.World.{World, Result, ok}
use web3_point_exchange.World.Rules.{MethodSpec}

-- After the UPDATE every row of the user has the new balance.
pub balance_of_updated :
    (u : ℕ) (v : ℤ) (now : ℕ) (rows : List UserPoint) (r : UserPoint)
    → Has r (map (set_where (UserPoints.by_user u) (UserPoints.set_balance v now)) rows)
    → r.user_id ≡ u
    → r.balance ≡ v
unfolding UserPoints.by_user UserPoints.set_balance
balance_of_updated u v now [] r m e = absurd m
balance_of_updated u v now (x ∷ xs) r (inl s) e = ground arith
balance_of_updated u v now (x ∷ xs) r (inr m) e = balance_of_updated u v now xs r m e

pub committed :
    {A : Type 0} (Good : A → _ → _ → Type 0) (w w' : World) (out : Result A × World) (a : A)
    → MethodSpec Good w out
    → out ≡ (ok a, w')
    → Good a w'.db w'.sent
committed Good w w' out a h e = (subst (MethodSpec Good w) e h).0

module _ ⦃p : Platform⦄ where
  -- When two consumptions have both passed their checks on the row `up`, and their locked parts
  -- then succeed one after the other, both histories are there, and every row of the user has
  -- the balance of `up` less the second amount alone: the first is not deducted.
  pub consume_lost_update :
      (i : ℕ) (first second : ConsumePointReq) (up : UserPoint) (w1 w2 w3 : World)
      (res1 res2 : ConsumptionHistoryRes)
      → consume_locked i first up w1 ≡ (ok res1, w2)
      → consume_locked i second up w2 ≡ (ok res2, w3)
      → (w3.db.consumption_histories
          ≡ consume_row i second w2 ∷ consume_row i first w1 ∷ w1.db.consumption_histories)
        × ((r : UserPoint)
            → Has r w3.db.user_points
            → r.user_id ≡ up.user_id
            → r.balance ≡ up.balance -ℤ second.amount)
  consume_lost_update i first second up w1 w2 w3 res1 res2 e1 e2 =
      let (d1, _, _) =
        committed (Consumed i first up w1) w1 w2 (consume_locked i first up w1) res1
          (consume_locked-MethodSpec i first up w1) e1 in
      let (d2, _, _) =
        committed (Consumed i second up w2) w2 w3 (consume_locked i second up w2) res2
          (consume_locked-MethodSpec i second up w2) e2 in
      (
        ap (λ d. d.consumption_histories) d2
            ∙ ap (λ d. consume_row i second w2 ∷ d.consumption_histories) d1,
        λ r m e.
            balance_of_updated up.user_id (up.balance -ℤ second.amount) w2.now w2.db.user_points r
              (subst (λ d. Has r d.user_points) d2 m) e,
      )

  -- A consumption of the amount -(n + 1) that succeeds leaves every row of the user with the
  -- balance of the point's row plus n + 1.
  pub consume_negative_pays :
      (i n : ℕ) (type : ConsumptionType) (resource : Option ℕ) (w w' : World)
      (res : ConsumptionHistoryRes)
      → let dto : ConsumePointReq = record {
        amount = negsuc n;
        type = type;
        resource_id = resource;
      } in
        consume_point i dto w ≡ (ok res, w')
        → (up : UserPoint) × (p.find_one (UserPoints.by_id i) w.db.user_points ≡ some up)
          × ((r : UserPoint)
              → Has r w'.db.user_points
              → r.user_id ≡ up.user_id
              → r.balance ≡ up.balance +ℤ pos (n + 1))
  consume_negative_pays i n type resource w w' res e =
      let dto : ConsumePointReq = record {
        amount = negsuc n;
        type = type;
        resource_id = resource;
      } in
      let (up, current, f, _, _, (d, _, _)) =
        committed (ConsumeGood i dto w) w w' (consume_point i dto w) res
          (consume_point-MethodSpec i dto w) e in
      (
        up,
        f,
        λ r m same.
            balance_of_updated up.user_id (up.balance -ℤ negsuc n) w.now w.db.user_points r
              (subst (λ t. Has r t.user_points) d m) same
            ∙ omega int_laws,
      )
