-- ===== src/Tests/BalanceRuns.antt =====
-- Runs that change balances, one after the other.
use web3_point_exchange.Common.{pos, negsuc, ◌≡◌, ◌≢◌, refl, some, Has, [], ◌∷◌, ◌-ℤ◌, ◌+ℤ◌, arith}
use web3_point_exchange.Entities.{UserPoint, ConsumptionType}
use web3_point_exchange.Repositories.UserPoints
use web3_point_exchange.Repositories.ConsumptionHistories
use web3_point_exchange.Point.{
  ConsumePointReq, ConsumptionHistoryRes, deposit_points, consume_point, consume_locked,
  consume_checks, consume_callback, map_consumption_history, write_balance, try_set_cache,
  get_point_balance, get_cache,
}
use web3_point_exchange.Point.Conservation.{total_points, deposit_points_conserve}
use web3_point_exchange.Point.Consume.{consume_row}
use web3_point_exchange.Point.Progress.{deposit_points_succeeds}
use web3_point_exchange.Point.Hazards.{consume_lost_update, consume_negative_pays}
use web3_point_exchange.Tests.Sample.{sample, sample-IsReliable}
use web3_point_exchange.Tests.Data.{start, alice_point, deposit, consumption, second_consumption}
use web3_point_exchange.Tests.PointRuns.{alice-IsAuthorized, alice_point-by_user}
use web3_point_exchange.World.{World, Result, ok, err, lock_not_released, with_lock, transaction}
use web3_point_exchange.World.Progress.{IsOk}

released_if-IsOk : {A : Type 0} (out : Result A × World) → IsOk out → out.0 ≢ err lock_not_released
released_if-IsOk (ok a, w) h = λ e. cc
released_if-IsOk (err e, w) h = absurd h

abbrev first_history : ConsumptionHistoryRes
first_history = map_consumption_history (consume_row 10 consumption start)

abbrev after_first : World
after_first = (consume_locked 10 consumption alice_point start).1

first_run : consume_locked 10 consumption alice_point start ≡ (ok first_history, after_first)
unfolding consume_locked with_lock transaction consume_callback ConsumptionHistories.create
    ConsumptionHistories.ids write_balance UserPoints.update_balance try_set_cache
first_run = refl

abbrev second_history : ConsumptionHistoryRes
second_history = map_consumption_history (consume_row 10 second_consumption after_first)

abbrev after_second : World
after_second = (consume_locked 10 second_consumption alice_point after_first).1

second_run :
    consume_locked 10 second_consumption alice_point after_first ≡ (ok second_history, after_second)
unfolding consume_locked with_lock transaction consume_callback ConsumptionHistories.create
    ConsumptionHistories.ids write_balance UserPoints.update_balance try_set_cache
second_run = refl

consume_lost_update_example :
    (after_second.db.consumption_histories
      ≡ consume_row 10 second_consumption after_first ∷ consume_row 10 consumption start ∷ [])
    × ((r : UserPoint)
        → Has r after_second.db.user_points
        → r.user_id ≡ 1
        → r.balance ≡ pos 500 -ℤ pos 30)
consume_lost_update_example =
    consume_lost_update 10 consumption second_consumption alice_point start after_first after_second
      first_history second_history first_run second_run

abbrev negative : ConsumePointReq
negative = record consumption { amount = negsuc 39 }

abbrev negative_history : ConsumptionHistoryRes
negative_history = map_consumption_history (consume_row 10 negative start)

abbrev after_negative : World
after_negative = (consume_point 10 negative start).1

negative_run : consume_point 10 negative start ≡ (ok negative_history, after_negative)
unfolding consume_point consume_checks UserPoints.find_by_id UserPoints.by_id get_point_balance
    get_cache consume_locked with_lock transaction consume_callback ConsumptionHistories.create
    ConsumptionHistories.ids write_balance UserPoints.update_balance try_set_cache
negative_run = refl

consume_negative_pays_example :
    (up : UserPoint) × (sample.find_one (UserPoints.by_id 10) start.db.user_points ≡ some up)
    × ((r : UserPoint)
        → Has r after_negative.db.user_points
        → r.user_id ≡ up.user_id
        → r.balance ≡ up.balance +ℤ pos 40)
consume_negative_pays_example =
    consume_negative_pays 10 39 ConsumptionType.shop_purchase (some 3) start after_negative
      negative_history negative_run

deposit_points_conserve_example :
    total_points (deposit_points 100 deposit start).1.db ≡ total_points start.db
unfolding UserPoints.by_user
deposit_points_conserve_example =
    deposit_points_conserve 100 deposit start (refl, tt)
      (released_if-IsOk (deposit_points 100 deposit start) (
        deposit_points_succeeds sample-IsReliable 100 deposit alice_point (pos 500) start
          (omega arith) alice-IsAuthorized alice_point-by_user refl (omega arith)))
