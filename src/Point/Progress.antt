-- ===== src/Point/Progress.antt =====
-- When the methods of `PointService` succeed: their guards hold, and no call is rejected.
use web3_point_exchange.Common.{
  ℕ, ◌<◌, ℤ, ◌≡◌, false, some, [], ◌∷◌, ◌++◌, arith, ◌/ℤ◌, ◌≤ℤ◌, ltb_ℤ, ◌==◌,
}
use web3_point_exchange.Entities.{UserPoint, SwapType}
use web3_point_exchange.Platform.{Platform, put, Message, handle_point}
use web3_point_exchange.Repositories.UserPoints
use web3_point_exchange.Repositories.UserSwapHistories
use web3_point_exchange.Repositories.ConsumptionHistories
use web3_point_exchange.Repositories.GrantHistories
use web3_point_exchange.Point.Balance.{
  write_balance, try_set_cache, send, get_point_balance, get_cache,
}
use web3_point_exchange.Point.Dto.{
  DepositPointsReq, WithdrawPointsReq, ConsumePointReq, GrantPointReq,
}
use web3_point_exchange.Point.Exchange.{
  deposit_callback, deposit_locked, deposit_points, withdraw_callback, withdraw_points,
  consume_callback, consume_checks, consume_locked, consume_point, grant_callback, grant_point,
}
use web3_point_exchange.Point.Steps.{with_balance, consumption_row, grant_row, swap_row}
use web3_point_exchange.Point.Deposit.{deposit_locked-LockedSpec, locked-locks}
use web3_point_exchange.Point.Withdraw.{WithdrawGood, withdraw_callback-CallbackSpec}
use web3_point_exchange.Point.Reads.{IsAuthorized, check_user-eq}
use web3_point_exchange.Point.Consume.{Consumed, consume_callback-CallbackSpec}
use web3_point_exchange.Point.Grant.{GrantGood, grant_callback-CallbackSpec}
use web3_point_exchange.World.{World, manager, ok, transaction}
use web3_point_exchange.World.Progress.{
  IsReliable, IsOk, ended-IsOk, with_lock-IsOk, locked_transaction-IsOk,
}
use web3_point_exchange.World.Rules.{CallbackSpec-locks}

module _ ⦃p : Platform⦄ (rel : IsReliable) where
  pub write_balance-eq :
      (u : ℕ) (v : ℤ) (w : World)
      → write_balance u v manager w
        ≡ (ok tt, record w { working = with_balance u v w.now w.working; cache = put u v w.cache })
  unfolding write_balance UserPoints.update_balance try_set_cache
  write_balance-eq u v w = ground (
    arith,
    rel.updates (UserPoints.by_user u) (UserPoints.set_balance v w.now) w.working.user_points,
    rel.sets u v w.cache,
  )

  pub send-eq :
      (m : Message) (w : World) → send m w ≡ (ok tt, record w { sent = w.sent ++ (m ∷ []) })
  unfolding send
  send-eq m w = rw (rel.emits m w.sent, send)

  deposit_callback-IsOk :
      (rate : ℕ) (dto : DepositPointsReq) (up : UserPoint) (w : World)
      → (rate == 0) ≡ false
      → p.find_one (UserPoints.by_user dto.user_id) w.db.user_points ≡ some up
      → IsOk (deposit_callback rate dto w)
  unfolding deposit_callback UserSwapHistories.create UserPoints.find_by_user_id
  deposit_callback-IsOk rate dto up w z f =
      let row = swap_row dto.user_id SwapType.point_to_token dto.amount (dto.amount /ℤ rate) w in
      rw
        (
          z,
          rel.inserts row w.working.user_swap_histories,
          UserSwapHistories.create,
          deposit_callback,
        )
        (rw f (rw write_balance-eq (rw send-eq tt)))

  withdraw_callback-IsOk :
      (tokens : ℤ) (dto : WithdrawPointsReq) (w : World) → IsOk (withdraw_callback tokens dto w)
  unfolding withdraw_callback UserSwapHistories.create
  withdraw_callback-IsOk tokens dto w =
      let row = swap_row dto.user_id SwapType.token_to_point dto.amount tokens w in
      rw
        (rel.inserts row w.working.user_swap_histories, UserSwapHistories.create, withdraw_callback)
        (rw send-eq tt)

  consume_callback-IsOk :
      (up : UserPoint) (i : ℕ) (dto : ConsumePointReq) (w : World)
      → IsOk (consume_callback up i dto w)
  unfolding consume_callback ConsumptionHistories.create
  consume_callback-IsOk up i dto w =
      let row = consumption_row i dto.amount dto.type dto.resource_id w in
      rw
        (
          rel.inserts row w.working.consumption_histories,
          ConsumptionHistories.create,
          consume_callback,
        )
        (rw write_balance-eq tt)

  grant_callback-IsOk :
      (up : UserPoint) (i : ℕ) (dto : GrantPointReq) (w : World) → IsOk (grant_callback up i dto w)
  unfolding grant_callback GrantHistories.create
  grant_callback-IsOk up i dto w =
      let row = grant_row i dto.amount dto.type dto.resource_id w in
      rw (rel.inserts row w.working.grant_histories, GrantHistories.create, grant_callback)
        (rw write_balance-eq tt)

  -- The locked part of `consumePoint` answers at any world.
  pub consume_locked-IsOk :
      (i : ℕ) (dto : ConsumePointReq) (up : UserPoint) (w : World)
      → IsOk (consume_locked i dto up w)
  unfolding consume_locked
  consume_locked-IsOk i dto up w =
      let held = handle_point up.user_id ∷ w.locks in
      let w0 : World = record w { locks = held; working = w.db } in
      locked_transaction-IsOk rel (handle_point up.user_id) (consume_callback up i dto) w
        (CallbackSpec-locks (Consumed i dto up w) w0 (consume_callback up i dto w0)
          (consume_callback-CallbackSpec i dto up w held))
        (consume_callback-IsOk up i dto w0)

  -- On a platform that rejects no call: a consumption of an existing point whose user has a
  -- cached balance that covers the amount succeeds.
  pub consume_point_succeeds :
      (i : ℕ) (dto : ConsumePointReq) (up : UserPoint) (current : ℤ) (w : World)
      → p.find_one (UserPoints.by_id i) w.db.user_points ≡ some up
      → w.cache up.user_id ≡ some current
      → dto.amount ≤ℤ current
      → IsOk (consume_point i dto w)
  unfolding consume_point consume_checks UserPoints.find_by_id get_point_balance get_cache
  consume_point_succeeds i dto up current w f c h =
      let enough : ltb_ℤ current dto.amount ≡ false = ground arith in
      rw (f, consume_checks)
        (rw (rel.gets up.user_id w.cache, get_cache)
          (rw c (rw enough (consume_locked-IsOk i dto up w))))

  -- On a platform that rejects no call: a grant to an existing point succeeds.
  pub grant_point_succeeds :
      (i : ℕ) (dto : GrantPointReq) (up : UserPoint) (w : World)
      → p.find_one (UserPoints.by_id i) w.db.user_points ≡ some up
      → IsOk (grant_point i dto w)
  unfolding grant_point UserPoints.find_by_id
  grant_point_succeeds i dto up w f =
      let held = handle_point up.user_id ∷ w.locks in
      let w0 : World = record w { locks = held; working = w.db } in
      rw (f, grant_point)
        (locked_transaction-IsOk rel (handle_point up.user_id) (grant_callback up i dto) w
          (CallbackSpec-locks (GrantGood i dto w) w0 (grant_callback up i dto w0)
            (grant_callback-CallbackSpec i dto up w held f))
          (grant_callback-IsOk up i dto w0))

  deposit_locked-IsOk :
      (rate : ℕ) (dto : DepositPointsReq) (up : UserPoint) (current : ℤ) (w : World)
      → (rate == 0) ≡ false
      → p.find_one (UserPoints.by_user dto.user_id) w.db.user_points ≡ some up
      → w.cache dto.user_id ≡ some current
      → ltb_ℤ current dto.amount ≡ false
      → IsOk (deposit_locked rate dto w)
  unfolding deposit_locked get_point_balance get_cache transaction
  deposit_locked-IsOk rate dto up current w z f c enough =
      rw (rel.gets dto.user_id w.cache, get_cache)
        (rw c (
          rw enough (
            ended-IsOk (deposit_callback rate dto (record w { working = w.db }))
              (deposit_callback-IsOk rate dto up (record w { working = w.db }) z f))))

  -- On a platform that rejects no call and at a rate that is not 0: a deposit by a valid user
  -- who owns the wallet, has a row and a cached balance that covers the amount succeeds.
  pub deposit_points_succeeds :
      (rate : ℕ) (dto : DepositPointsReq) (up : UserPoint) (current : ℤ) (w : World)
      → 0 < rate
      → IsAuthorized dto.user_id dto.wallet_address w
      → p.find_one (UserPoints.by_user dto.user_id) w.db.user_points ≡ some up
      → w.cache dto.user_id ≡ some current
      → dto.amount ≤ℤ current
      → IsOk (deposit_points rate dto w)
  unfolding deposit_points
  deposit_points_succeeds rate dto up current w r auth f c h =
      let k = handle_point dto.user_id in
      let w1 : World = record w { locks = k ∷ w.locks } in
      let z : (rate == 0) ≡ false = ground arith in
      let enough : ltb_ℤ current dto.amount ≡ false = ground arith in
      rw (check_user-eq dto.user_id dto.wallet_address w auth, deposit_points)
        (with_lock-IsOk rel k (deposit_locked rate dto) w
          (locked-locks rate dto w1 (deposit_locked rate dto w1)
            (deposit_locked-LockedSpec rate dto w1))
          (deposit_locked-IsOk rate dto up current w1 z f c enough))

  -- On a platform that rejects no call and at a rate that is not 0: a withdrawal by a valid user
  -- who owns the wallet, whose token balance on the chain covers the amount divided by the rate
  -- in wei, succeeds.
  pub withdraw_points_succeeds :
      (rate : ℕ) (dto : WithdrawPointsReq) (tokens : ℤ) (w : World)
      → 0 < rate
      → IsAuthorized dto.user_id dto.wallet_address w
      → p.chain_balance_of dto.wallet_address ≡ some tokens
      → p.parse_ether (dto.amount /ℤ rate) ≤ℤ tokens
      → IsOk (withdraw_points rate dto w)
  unfolding withdraw_points
  withdraw_points_succeeds rate dto tokens w r auth t h =
      let held = handle_point dto.user_id ∷ w.locks in
      let w0 : World = record w { locks = held; working = w.db } in
      let z : (rate == 0) ≡ false = ground arith in
      let enough : ltb_ℤ tokens (p.parse_ether (dto.amount /ℤ rate)) ≡ false = ground arith in
      rw (check_user-eq dto.user_id dto.wallet_address w auth, withdraw_points)
        (rw (z, t, enough)
          (locked_transaction-IsOk rel (handle_point dto.user_id)
            (withdraw_callback (dto.amount /ℤ rate) dto) w
            (CallbackSpec-locks (WithdrawGood rate dto w) w0
              (withdraw_callback (dto.amount /ℤ rate) dto w0)
              (withdraw_callback-CallbackSpec rate dto w held tokens auth t h))
            (withdraw_callback-IsOk (dto.amount /ℤ rate) dto w0)))
