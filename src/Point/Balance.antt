-- ===== src/Point/Balance.antt =====
-- The balance of a user: read through the cache, and the writes that follow a change of it.
use web3_point_exchange.Common.{ℕ, ℤ, Option, none, some, ◌+ℤ◌}
use web3_point_exchange.Platform.{
  Platform, Message, UpdateUserPointBalance, UpdateUserPointBalanceType, handle_point,
}
use web3_point_exchange.Repositories.UserPoints
use web3_point_exchange.World.{
  Action, Conn, pool, ◌>>=◌, ◌>>◌, pure, or_throw, modify, ok, err, user_point_not_found,
  cache_rejected, broker_rejected, with_lock,
}

module _ ⦃p : Platform⦄ where
  -- `RedisService.set` in a `try` whose `catch` only logs.
  unfoldable pub try_set_cache : ℕ → ℤ → Action (Unit {0})
  try_set_cache u v =
      modify λ w. elim (p.redis_setex u v w.cache) [ none ↦ w | some c ↦ record w { cache = c } ]

  -- `RedisService.get`
  unfoldable pub get_cache : ℕ → Action (Option ℤ)
  get_cache u w = elim (p.redis_get u w.cache) [
    | none ↦ (err cache_rejected, w)
    | some v ↦ (ok v, w)
  ]

  -- The part of `getPointBalance` that runs when the cache has no value.
  unfoldable pub load_point_balance : ℕ → Action ℤ
  unfolding try_set_cache
  load_point_balance u = do
    found ← UserPoints.find_by_user_id u
    user_point ← or_throw user_point_not_found found
    try_set_cache u user_point.balance
    pure user_point.balance

  unfoldable pub get_point_balance : ℕ → Action ℤ
  unfolding get_cache load_point_balance
  get_point_balance u = do
    cached ← get_cache u
    elim cached [ none ↦ load_point_balance u | some v ↦ pure v ]

  -- `updateBalance`, then the cache.
  unfoldable pub write_balance : ℕ → ℤ → Conn → Action (Unit {0})
  unfolding try_set_cache
  write_balance u v c = do UserPoints.update_balance u v c; try_set_cache u v

  -- `RabbitmqService.sendPointSwapTransaction` and `sendPointUpdateBalance`: the message is handed to
  -- `emit`, which nobody waits for, and what `emit` throws at once is thrown again.
  unfoldable pub send : Message → Action (Unit {0})
  send m w = elim (p.emit m w.sent) [
    | none ↦ (err broker_rejected, w)
    | some q ↦ (ok tt, record w { sent = q })
  ]

  unfoldable pub increase_locked : ℕ → ℤ → Conn → Action (Unit {0})
  unfolding get_point_balance write_balance
  increase_locked u amount c = do
    current ← get_point_balance u
    write_balance u (current +ℤ amount) c

  unfoldable pub increase_user_point_balance : ℕ → ℤ → Conn → Action (Unit {0})
  increase_user_point_balance u amount c = with_lock (handle_point u) (increase_locked u amount c)

  -- `PointController.handleUpdateUserPointBalance`
  unfoldable pub handle_update_balance : UpdateUserPointBalance → Action (Unit {0})
  handle_update_balance m = elim m.type [
    | UpdateUserPointBalanceType.increase ↦ increase_user_point_balance m.user_id m.amount pool
    | UpdateUserPointBalanceType.decrease ↦ pure tt
  ]
