-- ===== src/Point/Exchange.antt =====
-- `depositPoints`, `withdrawPoints`, `consumePoint` and `grantPoint`. `rate` is the environment's
-- POINT_TOKEN_EXCHANGE_RATE.
use web3_point_exchange.Common.{
  ℕ, ℤ, Bool, false, not, Option, none, some, ◌+ℤ◌, ◌-ℤ◌, ◌/ℤ◌, ltb_ℤ, ◌==◌,
}
use web3_point_exchange.Entities.{
  User, UserPoint, SwapType, SwapStatus, ConsumptionStatus, GrantStatus, is_valid,
}
use web3_point_exchange.Platform.{Platform, handle_point, point_swap}
use web3_point_exchange.Repositories.Users
use web3_point_exchange.Repositories.UserPoints
use web3_point_exchange.Repositories.UserSwapHistories
use web3_point_exchange.Repositories.ConsumptionHistories
use web3_point_exchange.Repositories.GrantHistories
use web3_point_exchange.Point.Dto.{
  DepositPointsReq, WithdrawPointsReq, ConsumePointReq, GrantPointReq, UserSwapHistoryRes,
  ConsumptionHistoryRes, GrantHistoryRes, map_user_swap_history, map_consumption_history,
  map_grant_history,
}
use web3_point_exchange.Point.Balance.{get_point_balance, write_balance, send}
use web3_point_exchange.World.{
  Action, manager, ◌>>=◌, ◌>>◌, pure, or_throw, throw_if, transaction, with_lock, user_not_found,
  user_point_not_found, user_not_valid, wallet_mismatch, insufficient_balance_for_deposit,
  insufficient_token_balance, insufficient_balance_for_consumption, division_by_zero,
  chain_rejected,
}

-- `!userByWallet || userByWallet.user_id !== userId`, negated
unfoldable pub owns : ℕ → Option User → Bool
owns u none = false
owns u (some r) = r.user_id == u

module _ ⦃p : Platform⦄ where
  -- The checks that `depositPoints` and `withdrawPoints` begin with.
  unfoldable pub check_user : ℕ → ℕ → Action (Unit {0})
  unfolding owns
  check_user u a = do
    found ← Users.find_by_id u
    user ← or_throw user_not_found found
    throw_if (not (is_valid user.status)) user_not_valid
    by_wallet ← Users.find_by_wallet_address a
    throw_if (not (owns u by_wallet)) wallet_mismatch

  -- The callback of the transaction of `depositPoints`.
  unfoldable pub deposit_callback : ℕ → DepositPointsReq → Action UserSwapHistoryRes
  deposit_callback rate dto = do
    throw_if (rate == 0) division_by_zero
    history ←
        UserSwapHistories.create dto.user_id SwapType.point_to_token dto.amount (dto.amount /ℤ rate)
          SwapStatus.pending manager
    found ← UserPoints.find_by_user_id dto.user_id
    user_point ← or_throw user_point_not_found found
    write_balance dto.user_id (user_point.balance -ℤ dto.amount) manager
    send (
        point_swap (record {
          user_swap_history_id = history.user_swap_history_id;
          wallet_address = dto.wallet_address;
          amount = dto.amount;
          type = SwapType.point_to_token;
          signature = none;
          valid_until = none;
          permit_data = none;
        }))
    pure (map_user_swap_history history)

  -- What `depositPoints` runs under the user's lock.
  unfoldable pub deposit_locked : ℕ → DepositPointsReq → Action UserSwapHistoryRes
  deposit_locked rate dto = do
    current ← get_point_balance dto.user_id
    throw_if (ltb_ℤ current dto.amount) insufficient_balance_for_deposit
    transaction (deposit_callback rate dto)

  unfoldable pub deposit_points : ℕ → DepositPointsReq → Action UserSwapHistoryRes
  deposit_points rate dto = do
    check_user dto.user_id dto.wallet_address
    with_lock (handle_point dto.user_id) (deposit_locked rate dto)

  unfoldable pub withdraw_callback : ℤ → WithdrawPointsReq → Action UserSwapHistoryRes
  withdraw_callback tokens dto = do
    history ←
        UserSwapHistories.create dto.user_id SwapType.token_to_point dto.amount tokens
          SwapStatus.pending manager
    send (
        point_swap (record {
          user_swap_history_id = history.user_swap_history_id;
          wallet_address = dto.wallet_address;
          amount = dto.amount;
          type = SwapType.token_to_point;
          signature = some dto.signature;
          valid_until = some dto.valid_until;
          permit_data = dto.permit_data;
        }))
    pure (map_user_swap_history history)

  unfoldable pub withdraw_points : ℕ → WithdrawPointsReq → Action UserSwapHistoryRes
  withdraw_points rate dto = do
    check_user dto.user_id dto.wallet_address
    throw_if (rate == 0) division_by_zero
    let tokens = dto.amount /ℤ rate
    token_balance ← or_throw chain_rejected (p.chain_balance_of dto.wallet_address)
    throw_if (ltb_ℤ token_balance (p.parse_ether tokens)) insufficient_token_balance
    with_lock (handle_point dto.user_id) (transaction (withdraw_callback tokens dto))

  -- `userPoint` is the row that was read before the lock.
  unfoldable pub consume_callback : UserPoint → ℕ → ConsumePointReq → Action ConsumptionHistoryRes
  consume_callback user_point i dto = do
    history ←
        ConsumptionHistories.create i dto.amount dto.type ConsumptionStatus.completed
          dto.resource_id manager
    write_balance user_point.user_id (user_point.balance -ℤ dto.amount) manager
    pure (map_consumption_history history)

  -- `consumePoint` up to the lock, and from there on.
  unfoldable pub consume_checks : ℕ → ConsumePointReq → Action UserPoint
  consume_checks i dto = do
    found ← UserPoints.find_by_id i
    user_point ← or_throw user_point_not_found found
    current ← get_point_balance user_point.user_id
    throw_if (ltb_ℤ current dto.amount) insufficient_balance_for_consumption
    pure user_point

  unfoldable pub consume_locked : ℕ → ConsumePointReq → UserPoint → Action ConsumptionHistoryRes
  consume_locked i dto user_point =
      with_lock (handle_point user_point.user_id) (transaction (consume_callback user_point i dto))

  unfoldable pub consume_point : ℕ → ConsumePointReq → Action ConsumptionHistoryRes
  consume_point i dto = consume_checks i dto >>= consume_locked i dto

  unfoldable pub grant_callback : UserPoint → ℕ → GrantPointReq → Action GrantHistoryRes
  grant_callback user_point i dto = do
    history ←
        GrantHistories.create i dto.amount dto.type GrantStatus.completed dto.resource_id manager
    write_balance user_point.user_id (user_point.balance +ℤ dto.amount) manager
    pure (map_grant_history history)

  unfoldable pub grant_point : ℕ → GrantPointReq → Action GrantHistoryRes
  grant_point i dto = do
    found ← UserPoints.find_by_id i
    user_point ← or_throw user_point_not_found found
    with_lock (handle_point user_point.user_id) (transaction (grant_callback user_point i dto))
