-- ===== src/Ledger/Steady.antt =====
-- On a platform that rejects no call every method of PointService leaves the cache in agreement.
use web3_point_exchange.Common.{
  ℕ, ℤ, not, List, ◌∷◌, ◌==◌, Bool-cases, inl, inr, Option-cases, ◌+ℤ◌, ◌-ℤ◌, ◌/ℤ◌, ltb_ℤ,
}
use web3_point_exchange.Entities.{UserPoint, SwapType, is_valid}
use web3_point_exchange.Platform.{
  Platform, LockKey, handle_point, UpdateUserPointBalance, UpdateUserPointBalanceType,
}
use web3_point_exchange.Repositories.Users
use web3_point_exchange.Repositories.UserPoints
use web3_point_exchange.Repositories.UserSwapHistories
use web3_point_exchange.Repositories.ConsumptionHistories
use web3_point_exchange.Repositories.GrantHistories
use web3_point_exchange.Point.{
  DepositPointsReq, WithdrawPointsReq, ConsumePointReq, GrantPointReq, check_user, owns,
  deposit_callback, deposit_locked, deposit_points, withdraw_callback, withdraw_points,
  consume_callback, consume_checks, consume_locked, consume_point, grant_callback, grant_point,
  write_balance, increase_locked, increase_user_point_balance, handle_update_balance, try_set_cache,
}
use web3_point_exchange.Point.Steps.{consumption_row, grant_row, swap_row}
use web3_point_exchange.Point.Progress.{write_balance-eq, send-eq}
use web3_point_exchange.World.{
  World, pool, transaction, user_not_found, user_not_valid, wallet_mismatch, user_point_not_found,
  insufficient_balance_for_deposit, insufficient_balance_for_consumption,
  insufficient_token_balance, division_by_zero, chain_rejected,
}
use web3_point_exchange.World.Progress.{IsReliable}
use web3_point_exchange.Ledger.Rows.{set_balance-IsUnique}
use web3_point_exchange.Ledger.Agreement.{
  written-Agrees, IsReady, IsWorking, Clean, CleanWork, ok-Clean, continue-Clean, or_throw-Clean,
  throw_if-Clean, transaction-Clean, with_lock-Clean, read-Clean,
}

module _ ⦃p : Platform⦄ (rel : IsReliable) (held : List LockKey) where
  consume_callback-CleanWork :
      (up : UserPoint) (i : ℕ) (dto : ConsumePointReq) (w : World)
      → IsWorking held w
      → CleanWork held (consume_callback up i dto w)
  unfolding consume_callback ConsumptionHistories.create
  consume_callback-CleanWork up i dto w ((unique, g), l) =
      let row = consumption_row i dto.amount dto.type dto.resource_id w in
      let v = up.balance -ℤ dto.amount in
      let rows = w.working.user_points in
      rw
        (
          rel.inserts row w.working.consumption_histories,
          ConsumptionHistories.create,
          consume_callback,
        )
        (rw (write_balance-eq rel) (
          (
            set_balance-IsUnique up.user_id v w.now rows unique,
            written-Agrees up.user_id v w.now rows w.cache g,
          ),
          l,
        ))

  grant_callback-CleanWork :
      (up : UserPoint) (i : ℕ) (dto : GrantPointReq) (w : World)
      → IsWorking held w
      → CleanWork held (grant_callback up i dto w)
  unfolding grant_callback GrantHistories.create
  grant_callback-CleanWork up i dto w ((unique, g), l) =
      let row = grant_row i dto.amount dto.type dto.resource_id w in
      let v = up.balance +ℤ dto.amount in
      let rows = w.working.user_points in
      rw (rel.inserts row w.working.grant_histories, GrantHistories.create, grant_callback)
        (rw (write_balance-eq rel) (
          (
            set_balance-IsUnique up.user_id v w.now rows unique,
            written-Agrees up.user_id v w.now rows w.cache g,
          ),
          l,
        ))

  withdraw_callback-CleanWork :
      (tokens : ℤ) (dto : WithdrawPointsReq) (w : World)
      → IsWorking held w
      → CleanWork held (withdraw_callback tokens dto w)
  unfolding withdraw_callback UserSwapHistories.create
  withdraw_callback-CleanWork tokens dto w h =
      let row = swap_row dto.user_id SwapType.token_to_point dto.amount tokens w in
      rw
        (rel.inserts row w.working.user_swap_histories, UserSwapHistories.create, withdraw_callback)
        (rw (send-eq rel) h)

  -- A deposit throws before it writes.
  deposit_callback-CleanWork :
      (rate : ℕ) (dto : DepositPointsReq) (w : World)
      → IsReady held w
      → IsWorking held w
      → CleanWork held (deposit_callback rate dto w)
  unfolding deposit_callback UserSwapHistories.create UserPoints.find_by_user_id
  deposit_callback-CleanWork rate dto w h ((unique, g), l) =
      let row = swap_row dto.user_id SwapType.point_to_token dto.amount (dto.amount /ℤ rate) w in
      elim (Bool-cases (rate == 0)) [
        | inl z ↦ rw (z, deposit_callback) (h, λ e. cc)
        | inr z ↦
            elim (Option-cases (p.find_one (UserPoints.by_user dto.user_id) w.db.user_points)) [
              | inl f ↦
                  rw
                    (
                      z,
                      rel.inserts row w.working.user_swap_histories,
                      UserSwapHistories.create,
                      deposit_callback,
                    )
                    (rw f (h, λ e. cc))
              | inr (up, f) ↦
                  let v = up.balance -ℤ dto.amount in
                  let rows = w.working.user_points in
                  rw
                    (
                      z,
                      rel.inserts row w.working.user_swap_histories,
                      UserSwapHistories.create,
                      deposit_callback,
                    )
                    (rw f (
                      rw (write_balance-eq rel) (
                        rw (send-eq rel) (
                          (
                            set_balance-IsUnique dto.user_id v w.now rows unique,
                            written-Agrees dto.user_id v w.now rows w.cache g,
                          ),
                          l,
                        ))))
            ]
      ]

  check_user-Clean : (u a : ℕ) (w : World) → IsReady held w → Clean held (check_user u a w)
  unfolding check_user Users.find_by_id Users.find_by_wallet_address
  check_user-Clean u a w h =
      continue-Clean held _ _
        (or_throw-Clean held user_not_found (p.find_one (Users.by_id u) w.db.users) w (λ e. cc) h)
        λ user w1 h1.
          continue-Clean held _ _
            (throw_if-Clean held (not (is_valid user.status)) user_not_valid w1 (λ e. cc) h1)
            λ _ w2 h2.
              throw_if-Clean held (not (owns u (p.find_one (Users.by_wallet a) w2.db.users)))
                wallet_mismatch w2 (λ e. cc) h2

module _ ⦃p : Platform⦄ (rel : IsReliable) where
  deposit_locked-Clean :
      (held : List LockKey) (rate : ℕ) (dto : DepositPointsReq) (w : World)
      → IsReady held w
      → Clean held (deposit_locked rate dto w)
  unfolding deposit_locked
  deposit_locked-Clean held rate dto w h =
      continue-Clean held _ _ (read-Clean rel held dto.user_id w h) λ current w1 h1.
        continue-Clean held _ _
          (throw_if-Clean held (ltb_ℤ current dto.amount) insufficient_balance_for_deposit w1
            (λ e. cc) h1)
          λ _ w2 h2.
            transaction-Clean held (deposit_callback rate dto) w2
              (deposit_callback-CleanWork rel held rate dto (record w2 { working = w2.db }) h2 h2)

  pub deposit_points-Clean :
      (held : List LockKey) (rate : ℕ) (dto : DepositPointsReq) (w : World)
      → IsReady held w
      → Clean held (deposit_points rate dto w)
  unfolding deposit_points
  deposit_points-Clean held rate dto w h =
      let k = handle_point dto.user_id in
      continue-Clean held _ _ (check_user-Clean rel held dto.user_id dto.wallet_address w h)
        λ _ w1 h1.
          with_lock-Clean rel held k (deposit_locked rate dto) w1 h1
            (deposit_locked-Clean (k ∷ held) rate dto)

  pub withdraw_points-Clean :
      (held : List LockKey) (rate : ℕ) (dto : WithdrawPointsReq) (w : World)
      → IsReady held w
      → Clean held (withdraw_points rate dto w)
  unfolding withdraw_points
  withdraw_points-Clean held rate dto w h =
      let k = handle_point dto.user_id in
      let tokens = dto.amount /ℤ rate in
      continue-Clean held _ _ (check_user-Clean rel held dto.user_id dto.wallet_address w h)
        λ _ w1 h1.
          continue-Clean held _ _ (throw_if-Clean held (rate == 0) division_by_zero w1 (λ e. cc) h1)
            λ _ w2 h2.
              continue-Clean held _ _
                (or_throw-Clean held chain_rejected (p.chain_balance_of dto.wallet_address) w2
                  (λ e. cc) h2)
                λ owned w3 h3.
                  continue-Clean held _ _
                    (throw_if-Clean held (ltb_ℤ owned (p.parse_ether tokens))
                      insufficient_token_balance w3 (λ e. cc) h3)
                    λ _ w4 h4.
                      with_lock-Clean rel held k (transaction (withdraw_callback tokens dto)) w4 h4
                        λ w5 h5. transaction-Clean (k ∷ held) (withdraw_callback tokens dto) w5 (
                          withdraw_callback-CleanWork rel (k ∷ held) tokens dto
                            (record w5 { working = w5.db }) h5)

  pub consume_point-Clean :
      (held : List LockKey) (i : ℕ) (dto : ConsumePointReq) (w : World)
      → IsReady held w
      → Clean held (consume_point i dto w)
  unfolding consume_point consume_checks consume_locked UserPoints.find_by_id
  consume_point-Clean held i dto w h =
      continue-Clean held _ _
        (continue-Clean held _ _
          (or_throw-Clean held user_point_not_found
            (p.find_one (UserPoints.by_id i) w.db.user_points) w (λ e. cc) h)
          λ up w1 h1.
            continue-Clean held _ _ (read-Clean rel held up.user_id w1 h1) λ current w2 h2.
              continue-Clean held _ _
                (throw_if-Clean held (ltb_ℤ current dto.amount) insufficient_balance_for_consumption
                  w2 (λ e. cc) h2)
                λ _ w3 h3. ok-Clean held up w3 h3)
        λ up w1 h1.
          let k = handle_point up.user_id in
          with_lock-Clean rel held k (transaction (consume_callback up i dto)) w1 h1 λ w2 h2.
            transaction-Clean (k ∷ held) (consume_callback up i dto) w2 (
              consume_callback-CleanWork rel (k ∷ held) up i dto (record w2 { working = w2.db }) h2)

  pub grant_point-Clean :
      (held : List LockKey) (i : ℕ) (dto : GrantPointReq) (w : World)
      → IsReady held w
      → Clean held (grant_point i dto w)
  unfolding grant_point UserPoints.find_by_id
  grant_point-Clean held i dto w h =
      continue-Clean held _ _
        (or_throw-Clean held user_point_not_found (p.find_one (UserPoints.by_id i) w.db.user_points)
          w (λ e. cc) h)
        λ up w1 h1.
          let k = handle_point up.user_id in
          with_lock-Clean rel held k (transaction (grant_callback up i dto)) w1 h1 λ w2 h2.
            transaction-Clean (k ∷ held) (grant_callback up i dto) w2
              (grant_callback-CleanWork rel (k ∷ held) up i dto (record w2 { working = w2.db }) h2)

  pool_write-Clean :
      (held : List LockKey) (u : ℕ) (v : ℤ) (w : World)
      → IsReady held w
      → Clean held (write_balance u v pool w)
  unfolding write_balance UserPoints.update_balance try_set_cache
  pool_write-Clean held u v w ((unique, g), l) =
      let rows = w.db.user_points in
      rw
        (
          rel.updates (UserPoints.by_user u) (UserPoints.set_balance v w.now) rows,
          UserPoints.update_balance,
          write_balance,
        )
        (rw (rel.sets u v w.cache, try_set_cache)
          (
            (
              (set_balance-IsUnique u v w.now rows unique, written-Agrees u v w.now rows w.cache g),
              l,
            ),
            λ e. cc,
          ))

  update-Clean :
      (held : List LockKey) (t : UpdateUserPointBalanceType) (u : ℕ) (a : ℤ) (w : World)
      → IsReady held w
      → Clean held (handle_update_balance (record { user_id = u; amount = a; type = t }) w)
  unfolding handle_update_balance increase_user_point_balance increase_locked
  update-Clean held UpdateUserPointBalanceType.decrease u a w h = ok-Clean held tt w h
  update-Clean held UpdateUserPointBalanceType.increase u a w h =
      let k = handle_point u in
      with_lock-Clean rel held k (increase_locked u a pool) w h λ w1 h1.
        continue-Clean (k ∷ held) _ _ (read-Clean rel (k ∷ held) u w1 h1)
          λ current w2 h2. pool_write-Clean (k ∷ held) u (current +ℤ a) w2 h2

  pub handle_update_balance-Clean :
      (held : List LockKey) (m : UpdateUserPointBalance) (w : World)
      → IsReady held w
      → Clean held (handle_update_balance m w)
  handle_update_balance-Clean held m w h = update-Clean held m.type m.user_id m.amount w h
