-- ===== src/Point/Increase.antt =====
-- What `increaseUserPointBalance` does on every branch, when it writes through the pool, and the handler
-- of the messages that calls it so.
use web3_point_exchange.Common.{ℕ, ℤ, ◌≡◌, refl, ◌⊎◌, inl, inr, ◌+ℤ◌, List, ◌∷◌}
use web3_point_exchange.Platform.{
  Platform, UpdateUserPointBalance, UpdateUserPointBalanceType, LockKey, Cache, handle_point,
}
use web3_point_exchange.Point.Balance.{
  get_point_balance, write_balance, increase_locked, increase_user_point_balance,
  handle_update_balance,
}
use web3_point_exchange.Point.Reads.{IsRead, ReadSpec, get_point_balance-ReadSpec}
use web3_point_exchange.Point.Steps.{with_balance, write_balance-cases}
use web3_point_exchange.World.{World, Result, pool, ok, err, continue, lock_not_released}
use web3_point_exchange.World.Rules.{with_lock-rule}

module _ ⦃p : Platform⦄ (u : ℕ) (amount : ℤ) where
  abbrev IncreasedSpec : World → Result (Unit {0}) × World → Type 0
  IncreasedSpec w (err e, w') = (w'.db ≡ w.db) × (w'.sent ≡ w.sent) × (w'.locks ≡ w.locks)
  IncreasedSpec w (ok _, w') =
      ((current : ℤ) × IsRead u w current × (w'.db ≡ with_balance u (current +ℤ amount) w.now w.db))
      × (w'.sent ≡ w.sent)
      × (w'.locks ≡ w.locks)

  written-IncreasedSpec :
      (w : World) (cache : Cache) (current : ℤ)
      → IsRead u w current
      → IncreasedSpec w (write_balance u (current +ℤ amount) pool (record w { cache = cache }))
  written-IncreasedSpec w cache current r =
      elim (write_balance-cases u (current +ℤ amount) pool (record w { cache = cache })) [
        | inl e ↦ rw (e, IncreasedSpec) (refl, refl, refl)
        | inr (c, e, h) ↦ rw (e, IncreasedSpec) ((current, r, refl), refl, refl)
      ]

  increase_locked-IncreasedSpec : (w : World) → IncreasedSpec w (increase_locked u amount pool w)
  unfolding increase_locked
  increase_locked-IncreasedSpec w = read (get_point_balance u w) (get_point_balance-ReadSpec u w)
    where
      read :
          (out : Result ℤ × World)
          → ReadSpec u w out
          → IncreasedSpec w (continue out (λ current. write_balance u (current +ℤ amount) pool))
      read (err e, w') same = rw same (refl, refl, refl)
      read (ok current, w') (c, same, r) = rw same (written-IncreasedSpec w c current r)

  abbrev pub IncreaseSpec : World → Result (Unit {0}) × World → Type 0
  IncreaseSpec w (err e, w') =
      (e ≡ lock_not_released) ⊎ ((w'.db ≡ w.db) × (w'.sent ≡ w.sent) × (w'.locks ≡ w.locks))
  IncreaseSpec w (ok res, w') = IncreasedSpec w (ok res, w')

  unlocked-IncreaseSpec :
      (w : World) (held : List LockKey) (out : Result (Unit {0}) × World)
      → IncreasedSpec (record w { locks = held }) out
      → IncreaseSpec w (out.0, record (out.1) { locks = w.locks })
  unlocked-IncreaseSpec w held (ok res, w') ((current, r, d), s, l) = ((current, r, d), s, refl)
  unlocked-IncreaseSpec w held (err e, w') (d, s, l) = inr (d, s, refl)

  kept : (w : World) (out : Result (Unit {0}) × World) → IncreasedSpec w out → out.1.locks ≡ w.locks
  kept w (ok res, w') (_, _, l) = l
  kept w (err e, w') (_, _, l) = l

  pub increase_user_point_balance-IncreaseSpec :
      (w : World) → IncreaseSpec w (increase_user_point_balance u amount pool w)
  unfolding increase_user_point_balance
  increase_user_point_balance-IncreaseSpec w =
      let k = handle_point u in
      let w1 : World = record w { locks = k ∷ w.locks } in
      let spec = increase_locked-IncreasedSpec w1 in
      with_lock-rule (IncreaseSpec w) k (increase_locked u amount pool) w (inr (refl, refl, refl))
        (kept w1 (increase_locked u amount pool w1) spec) (inl refl)
        (unlocked-IncreaseSpec w w1.locks (increase_locked u amount pool w1) spec)

module _ ⦃p : Platform⦄ where
  abbrev pub HandleSpec :
      UpdateUserPointBalanceType → ℕ → ℤ → World → Result (Unit {0}) × World → Type 0
  HandleSpec UpdateUserPointBalanceType.increase u amount w out = IncreaseSpec u amount w out
  HandleSpec UpdateUserPointBalanceType.decrease u amount w out = out ≡ (ok tt, w)

  -- A message to decrease changes nothing. For one to increase: on success the balance of the
  -- user is the one that was read (the cached one, or that of a row of the user) plus the
  -- amount, nothing else of the database changed, and the sent messages and the held locks are
  -- as before. On an error the database, the sent messages and the held locks are as before,
  -- unless the error is that the lock could not be released.
  pub handle_update_balance-HandleSpec :
      (m : UpdateUserPointBalance) (w : World)
      → HandleSpec m.type m.user_id m.amount w (handle_update_balance m w)
  unfolding handle_update_balance
  handle_update_balance-HandleSpec m w = split m.type
    where
      split :
          (t : UpdateUserPointBalanceType)
          → HandleSpec t m.user_id m.amount w (handle_update_balance (record m { type = t }) w)
      split UpdateUserPointBalanceType.increase =
          increase_user_point_balance-IncreaseSpec m.user_id m.amount w
      split UpdateUserPointBalanceType.decrease = refl
