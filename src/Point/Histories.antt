-- ===== src/Point/Histories.antt =====
-- The read-only methods of `PointService` (lists, details) and its two unimplemented ones.
use web3_point_exchange.Common.{ℕ, Option, some, List, map}
use web3_point_exchange.Platform.{Platform}
use web3_point_exchange.Repositories.UserPoints
use web3_point_exchange.Repositories.UserSwapHistories
use web3_point_exchange.Repositories.ConsumptionHistories
use web3_point_exchange.Repositories.GrantHistories
use web3_point_exchange.Point.Dto.{
  UserPointRes, ConsumptionHistoryRes, GrantHistoryRes, UserSwapHistoryRes, map_user_point,
  map_consumption_history, map_grant_history, map_user_swap_history,
}
use web3_point_exchange.World.{
  Action, ◌>>=◌, pure, throw, or_throw, user_point_not_found, consumption_history_not_found,
  grant_history_not_found, user_swap_history_not_found, not_implemented,
}

-- `{ count, data }`
pub record ListRes (A : Type 0) : Type 0 where
  pub count : ℕ
  pub items : List A

abbrev list_res : {A B : Type 0} → (A → B) → List A × ℕ → ListRes B
list_res f (rows, total) = record { count = total; items = map f rows }

module _ ⦃p : Platform⦄ where
  unfoldable pub get_user_points : Option ℕ → Action (ListRes UserPointRes)
  get_user_points q = do
    page ← UserPoints.get_with_pagination q
    pure (list_res map_user_point page)

  unfoldable pub get_user_point : ℕ → Action UserPointRes
  get_user_point i = do
    found ← UserPoints.find_by_id i
    entity ← or_throw user_point_not_found found
    pure (map_user_point entity)

  unfoldable pub get_consumption_histories :
      ℕ → ConsumptionHistories.Query → Action (ListRes ConsumptionHistoryRes)
  get_consumption_histories i q = do
    page ← ConsumptionHistories.get_with_pagination (record q { user_point_id = some i })
    pure (list_res map_consumption_history page)

  unfoldable pub get_consumption_history : ℕ → ℕ → Action ConsumptionHistoryRes
  get_consumption_history i h = do
    found ← ConsumptionHistories.find_by_user_point_id i h
    entity ← or_throw consumption_history_not_found found
    pure (map_consumption_history entity)

  unfoldable pub get_grant_histories : ℕ → GrantHistories.Query → Action (ListRes GrantHistoryRes)
  get_grant_histories i q = do
    page ← GrantHistories.get_with_pagination (record q { user_point_id = some i })
    pure (list_res map_grant_history page)

  unfoldable pub get_grant_history : ℕ → ℕ → Action GrantHistoryRes
  get_grant_history i h = do
    found ← GrantHistories.find_by_user_point_id i h
    entity ← or_throw grant_history_not_found found
    pure (map_grant_history entity)

  unfoldable pub get_user_swap_histories :
      UserSwapHistories.Query → Action (ListRes UserSwapHistoryRes)
  get_user_swap_histories q = do
    page ← UserSwapHistories.get_with_pagination q
    pure (list_res map_user_swap_history page)

  unfoldable pub get_user_swap_history : ℕ → Action UserSwapHistoryRes
  get_user_swap_history i = do
    found ← UserSwapHistories.find_by_id i
    entity ← or_throw user_swap_history_not_found found
    pure (map_user_swap_history entity)

unfoldable pub rollback_consumption : ℕ → ℕ → Action ConsumptionHistoryRes
rollback_consumption i h = throw not_implemented

unfoldable pub rollback_grant : ℕ → ℕ → Action GrantHistoryRes
rollback_grant i h = throw not_implemented
