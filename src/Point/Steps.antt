-- ===== src/Point/Steps.antt =====
-- What each write of `PointService` does, as the cases in which it ends: the lemmas from which the
-- theorems on the methods are put together.
use web3_point_exchange.Common.{
  ℕ, ℤ, ◌≡◌, refl, ◌⊎◌, inl, inr, Option, none, [], ◌∷◌, ◌++◌, map, arith, set_where,
}
use web3_point_exchange.Entities.{
  UserSwapHistory, ConsumptionHistory, GrantHistory, SwapType, SwapStatus, ConsumptionType,
  ConsumptionStatus, GrantType, GrantStatus,
}
use web3_point_exchange.Platform.{Platform, Message, Cache, put}
use web3_point_exchange.Repositories.UserPoints
use web3_point_exchange.Repositories.UserSwapHistories
use web3_point_exchange.Repositories.ConsumptionHistories
use web3_point_exchange.Repositories.GrantHistories
use web3_point_exchange.Point.Balance.{try_set_cache, write_balance, send}
use web3_point_exchange.World.{
  Db, World, Conn, manager, ok, err, db_rejected, broker_rejected, store, written,
}

-- The rows after an UPDATE of the balance of the user `u`.
abbrev pub with_balance : ℕ → ℤ → ℕ → Db → Db
with_balance u v now d = record d {
  user_points = map (set_where (UserPoints.by_user u) (UserPoints.set_balance v now)) d.user_points;
}

-- The cache was written, or kept because the write was rejected.
abbrev pub CacheSet : ℕ → ℤ → Cache → Cache → Type 0
CacheSet u v c c' = (c' ≡ c) ⊎ (c' ≡ put u v c)

module _ ⦃p : Platform⦄ where
  update_balance-cases :
      (u : ℕ) (v : ℤ) (c : Conn) (w : World)
      → (UserPoints.update_balance u v c w ≡ (err db_rejected, w))
        ⊎ (UserPoints.update_balance u v c w
            ≡ (ok tt, store c (with_balance u v w.now (written c w)) w))
  unfolding UserPoints.update_balance
  update_balance-cases u v c w = ground (
    arith,
    p.update_law (UserPoints.by_user u) (UserPoints.set_balance v w.now) (written c w).user_points,
  )

  pub try_set_cache-cases :
      (u : ℕ) (v : ℤ) (w : World)
      → (c : Cache) × (try_set_cache u v w ≡ (ok tt, record w { cache = c }))
        × CacheSet u v w.cache c
  unfolding try_set_cache
  try_set_cache-cases u v w = elim (p.redis_setex_law u v w.cache) [
    | inl e ↦ (w.cache, rw (e, try_set_cache), inl refl)
    | inr e ↦ (put u v w.cache, rw (e, try_set_cache), inr refl)
  ]

  pub write_balance-cases :
      (u : ℕ) (v : ℤ) (c : Conn) (w : World)
      → (write_balance u v c w ≡ (err db_rejected, w))
        ⊎ ((cache' : Cache) × (write_balance u v c w ≡ (
          ok tt,
          record (store c (with_balance u v w.now (written c w)) w) { cache = cache' },
        ))
            × CacheSet u v (store c (with_balance u v w.now (written c w)) w).cache cache')
  unfolding write_balance
  write_balance-cases u v c w = elim (update_balance-cases u v c w) [
    | inl e ↦ inl (rw (e, write_balance))
    | inr e ↦
        let w' : World = store c (with_balance u v w.now (written c w)) w in
        let (cache', f, h) = try_set_cache-cases u v w' in inr (cache', rw (e, write_balance) f, h)
  ]

  pub send-cases :
      (m : Message) (w : World)
      → (send m w ≡ (err broker_rejected, w))
        ⊎ (send m w ≡ (ok tt, record w { sent = w.sent ++ (m ∷ []) }))
  unfolding send
  send-cases m w = ground (arith, p.emit_law m w.sent)

  -- The rows that `create` writes.
  abbrev pub swap_row : ℕ → SwapType → ℤ → ℤ → World → UserSwapHistory
  swap_row u type points tokens w = record {
    user_swap_history_id = p.fresh (UserSwapHistories.ids w.working.user_swap_histories);
    user_id = u;
    type = type;
    amount_point = points;
    amount_token = tokens;
    status = SwapStatus.pending;
    token_mint_history_id = none;
    token_burn_history_id = none;
    created_at = w.now;
    updated_at = w.now;
  }

  abbrev pub consumption_row : ℕ → ℤ → ConsumptionType → Option ℕ → World → ConsumptionHistory
  consumption_row i amount type resource w = record {
    consumption_history_id = p.fresh (ConsumptionHistories.ids w.working.consumption_histories);
    amount = amount;
    type = type;
    status = ConsumptionStatus.completed;
    resource_id = resource;
    created_at = w.now;
    updated_at = w.now;
    user_point_id = i;
  }

  abbrev pub grant_row : ℕ → ℤ → GrantType → Option ℕ → World → GrantHistory
  grant_row i amount type resource w = record {
    grant_history_id = p.fresh (GrantHistories.ids w.working.grant_histories);
    amount = amount;
    type = type;
    status = GrantStatus.completed;
    resource_id = resource;
    created_at = w.now;
    updated_at = w.now;
    user_point_id = i;
  }

  abbrev pub with_swap : UserSwapHistory → Db → Db
  with_swap r d = record d { user_swap_histories = r ∷ d.user_swap_histories }

  abbrev pub with_consumption : ConsumptionHistory → Db → Db
  with_consumption r d = record d { consumption_histories = r ∷ d.consumption_histories }

  abbrev pub with_grant : GrantHistory → Db → Db
  with_grant r d = record d { grant_histories = r ∷ d.grant_histories }

  pub create_swap-cases :
      (u : ℕ) (type : SwapType) (points tokens : ℤ) (w : World)
      → let row = swap_row u type points tokens w in
        (UserSwapHistories.create u type points tokens SwapStatus.pending manager w
          ≡ (err db_rejected, w))
        ⊎ (UserSwapHistories.create u type points tokens SwapStatus.pending manager w
            ≡ (ok row, record w { working = with_swap row w.working }))
  unfolding UserSwapHistories.create
  create_swap-cases u type points tokens w =
      ground (arith, p.insert_law (swap_row u type points tokens w) w.working.user_swap_histories)

  pub create_consumption-cases :
      (i : ℕ) (amount : ℤ) (type : ConsumptionType) (resource : Option ℕ) (w : World)
      → let row = consumption_row i amount type resource w in
        let made =
          ConsumptionHistories.create i amount type ConsumptionStatus.completed resource manager
            w in
        (made ≡ (err db_rejected, w))
        ⊎ (made ≡ (ok row, record w { working = with_consumption row w.working }))
  unfolding ConsumptionHistories.create
  create_consumption-cases i amount type resource w = ground (
    arith,
    p.insert_law (consumption_row i amount type resource w) w.working.consumption_histories,
  )

  pub create_grant-cases :
      (i : ℕ) (amount : ℤ) (type : GrantType) (resource : Option ℕ) (w : World)
      → let row = grant_row i amount type resource w in
        let made = GrantHistories.create i amount type GrantStatus.completed resource manager w in
        (made ≡ (err db_rejected, w))
        ⊎ (made ≡ (ok row, record w { working = with_grant row w.working }))
  unfolding GrantHistories.create
  create_grant-cases i amount type resource w =
      ground (arith, p.insert_law (grant_row i amount type resource w) w.working.grant_histories)
