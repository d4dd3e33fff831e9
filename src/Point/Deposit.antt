-- ===== src/Point/Deposit.antt =====
-- What `depositPoints` does on every branch.
use web3_point_exchange.Common.{
  ℕ, ℤ, ◌≡◌, refl, ◌⊎◌, inl, inr, none, some, List, [], ◌∷◌, ◌++◌, arith, ◌-ℤ◌, ◌/ℤ◌, ◌==◌, ltb_ℤ,
  Bool-cases, Option-cases, ◌≤ℤ◌,
}
use web3_point_exchange.Entities.{UserPoint, UserSwapHistory, SwapType}
use web3_point_exchange.Platform.{Platform, Message, Cache, LockKey, point_swap, handle_point}
use web3_point_exchange.Repositories.UserPoints
use web3_point_exchange.Point.Dto.{DepositPointsReq, UserSwapHistoryRes, map_user_swap_history}
use web3_point_exchange.Point.Balance.{write_balance, send, get_point_balance}
use web3_point_exchange.Point.Exchange.{
  check_user, deposit_callback, deposit_locked, deposit_points,
}
use web3_point_exchange.Point.Reads.{
  IsRead, ReadSpec, get_point_balance-ReadSpec, IsAuthorized, CheckSpec, check_user-CheckSpec,
}
use web3_point_exchange.World.Rules.{transaction-rule, with_lock-rule}
use web3_point_exchange.Point.Steps.{
  with_balance, with_swap, swap_row, CacheSet, write_balance-cases, send-cases, create_swap-cases,
}
use web3_point_exchange.World.{
  Db, World, Result, manager, ok, err, ◌>>=◌, ◌>>◌, pure, throw_if, transaction, continue,
  insufficient_balance_for_deposit, lock_not_released, with_lock,
}

abbrev pub deposit_message : ℕ → DepositPointsReq → Message
deposit_message i dto = point_swap (record {
  user_swap_history_id = i;
  wallet_address = dto.wallet_address;
  amount = dto.amount;
  type = SwapType.point_to_token;
  signature = none;
  valid_until = none;
  permit_data = none;
})

module _ ⦃p : Platform⦄ (rate : ℕ) (dto : DepositPointsReq) where
  abbrev pub deposit_row : World → UserSwapHistory
  deposit_row = swap_row dto.user_id SwapType.point_to_token dto.amount (dto.amount /ℤ rate)

  -- What a transaction that began at `w` has written when its callback returns.
  abbrev CallbackSpec : World → Result UserSwapHistoryRes × World → Type 0
  CallbackSpec w (err e, w') =
      (w'.db ≡ w.db) × (w'.sent ≡ w.sent) × (w'.locks ≡ w.locks) × (w'.now ≡ w.now)
  CallbackSpec w (ok res, w') =
      (up : UserPoint) × (p.find_one (UserPoints.by_user dto.user_id) w.db.user_points ≡ some up)
      × (w'.working
          ≡ with_balance dto.user_id (up.balance -ℤ dto.amount) w.now
              (with_swap (deposit_row w) w.working))
      × (w'.sent ≡ w.sent ++ (deposit_message (deposit_row w).user_swap_history_id dto ∷ []))
      × CacheSet dto.user_id (up.balance -ℤ dto.amount) w.cache w'.cache
      × (res ≡ map_user_swap_history (deposit_row w))
      × (w'.db ≡ w.db)
      × (w'.locks ≡ w.locks)

  -- The part of the callback behind the new history, at the world that its creation leaves.
  pay-CallbackSpec :
      (w : World) (up : UserPoint)
      → p.find_one (UserPoints.by_user dto.user_id) w.db.user_points ≡ some up
      → let w1 : World = record w { working = with_swap (deposit_row w) w.working } in
        CallbackSpec w (
          (do
            write_balance dto.user_id (up.balance -ℤ dto.amount) manager
            send (deposit_message (deposit_row w).user_swap_history_id dto)
            pure (map_user_swap_history (deposit_row w)))
            w1)
  pay-CallbackSpec w up f =
      let v = up.balance -ℤ dto.amount in
      let w1 : World = record w { working = with_swap (deposit_row w) w.working } in
      elim (write_balance-cases dto.user_id v manager w1) [
        | inl e ↦ rw (e, ◌>>=◌) (refl, refl, refl, refl)
        | inr (c, e, h) ↦
            let w2 : World = record w {
              working = with_balance dto.user_id v w.now w1.working;
              cache = c;
            } in
            elim (send-cases (deposit_message (deposit_row w).user_swap_history_id dto) w2) [
              | inl e' ↦ rw (e, e') (refl, refl, refl, refl)
              | inr e' ↦ rw (e, e') (up, f, refl, refl, h, refl, refl, refl)
            ]
      ]

  deposit_callback-CallbackSpec : (w : World) → CallbackSpec w (deposit_callback rate dto w)
  unfolding deposit_callback UserPoints.find_by_user_id
  deposit_callback-CallbackSpec w = elim (Bool-cases (rate == 0)) [
    | inl z ↦ rw (z, deposit_callback) (refl, refl, refl, refl)
    | inr z ↦
        elim (create_swap-cases dto.user_id SwapType.point_to_token dto.amount (dto.amount /ℤ rate)
          w) [
            | inl e ↦ rw (z, e, deposit_callback) (refl, refl, refl, refl)
            | inr e ↦
                elim (Option-cases (p.find_one (UserPoints.by_user dto.user_id) w.db.user_points)) [
                  | inl f ↦ rw (z, e, deposit_callback) (rw f (refl, refl, refl, refl))
                  | inr (up, f) ↦ rw (z, e, deposit_callback) (rw f (pay-CallbackSpec w up f))
                ]
          ]
  ]

  -- The new history and the new balance of the user, at the balance `b` that the database held.
  abbrev pub deposited : World → ℤ → Db
  deposited w b =
      with_balance dto.user_id (b -ℤ dto.amount) w.now
        (with_swap (deposit_row (record w { working = w.db })) w.db)

  abbrev pub LockedSpec : World → Result UserSwapHistoryRes × World → Type 0
  LockedSpec w (err e, w') = (w'.db ≡ w.db) × (w'.sent ≡ w.sent) × (w'.locks ≡ w.locks)
  LockedSpec w (ok res, w') =
      let row = deposit_row (record w { working = w.db }) in
      (up : UserPoint) × (current : ℤ) × (p.find_one (UserPoints.by_user dto.user_id)
          w.db.user_points
        ≡ some up)
      × IsRead dto.user_id w current
      × (dto.amount ≤ℤ current)
      × (w'.db ≡ deposited w up.balance)
      × (w'.sent ≡ w.sent ++ (deposit_message row.user_swap_history_id dto ∷ []))
      × (res ≡ map_user_swap_history row)
      × (w'.locks ≡ w.locks)

  -- What was read is covered: the transaction, begun with another cache.
  covered-LockedSpec :
      (w : World) (c : Cache) (current : ℤ)
      → IsRead dto.user_id w current
      → dto.amount ≤ℤ current
      → LockedSpec w (transaction (deposit_callback rate dto) (record w { cache = c }))
  covered-LockedSpec w c current r h =
      transaction-rule (LockedSpec w) (CallbackSpec (record w { cache = c; working = w.db }))
        (deposit_callback rate dto) (record w { cache = c })
        (λ res w' (up, f, e, s, _, m, _, l). (up, current, f, r, h, e, s, m, l))
        (λ e w' (d, s, l, _). (d, s, l))
        (deposit_callback-CallbackSpec (record w { cache = c; working = w.db }))

  pub deposit_locked-LockedSpec : (w : World) → LockedSpec w (deposit_locked rate dto w)
  unfolding deposit_locked
  deposit_locked-LockedSpec w =
      after_read (get_point_balance dto.user_id w) (get_point_balance-ReadSpec dto.user_id w)
    where
      after_read :
          (out : Result ℤ × World)
          → ReadSpec dto.user_id w out
          → LockedSpec w (
              continue out (λ current.
                throw_if (ltb_ℤ current dto.amount) insufficient_balance_for_deposit
                >> transaction (deposit_callback rate dto)))
      after_read (err e, w') same = rw same (refl, refl, refl)
      after_read (ok current, w') (c, same, r) =
          rw same (elim (Bool-cases (ltb_ℤ current dto.amount)) [
            | inl short ↦ rw short (refl, refl, refl)
            | inr enough ↦ rw enough (covered-LockedSpec w c current r (ground arith))
          ])

  abbrev pub DepositSpec : World → Result UserSwapHistoryRes × World → Type 0
  DepositSpec w (err e, w') =
      (e ≡ lock_not_released) ⊎ ((w'.db ≡ w.db) × (w'.sent ≡ w.sent) × (w'.locks ≡ w.locks))
  DepositSpec w (ok res, w') =
      IsAuthorized dto.user_id dto.wallet_address w × LockedSpec w (ok res, w')

  pub locked-locks :
      (w : World) (out : Result UserSwapHistoryRes × World)
      → LockedSpec w out
      → out.1.locks ≡ w.locks
  locked-locks w (ok res, w') (_, _, _, _, _, _, _, _, l) = l
  locked-locks w (err e, w') (_, _, l) = l

  unlocked-DepositSpec :
      (w : World) (held : List LockKey) (out : Result UserSwapHistoryRes × World)
      → IsAuthorized dto.user_id dto.wallet_address w
      → LockedSpec (record w { locks = held }) out
      → DepositSpec w (out.0, record (out.1) { locks = w.locks })
  unlocked-DepositSpec w held (ok res, w') auth (up, current, f, r, h, d, s, m, l) =
      (auth, (up, current, f, r, h, d, s, m, refl))
  unlocked-DepositSpec w held (err e, w') auth (d, s, l) = inr (d, s, refl)

  locking-DepositSpec :
      (w : World)
      → IsAuthorized dto.user_id dto.wallet_address w
      → DepositSpec w (with_lock (handle_point dto.user_id) (deposit_locked rate dto) w)
  locking-DepositSpec w auth =
      let k = handle_point dto.user_id in
      let w1 : World = record w { locks = k ∷ w.locks } in
      let spec = deposit_locked-LockedSpec w1 in
      with_lock-rule (DepositSpec w) k (deposit_locked rate dto) w (inr (refl, refl, refl))
        (locked-locks w1 (deposit_locked rate dto w1) spec) (inl refl)
        (unlocked-DepositSpec w w1.locks (deposit_locked rate dto w1) auth spec)

  -- On success the user is valid and owns the wallet, the balance that was read (the cached one,
  -- or that of the user's row) covers the amount, the database has exactly one new row, a
  -- pending history of the amount and the amount divided by the rate, and the balance of the
  -- user's row less the amount, one message for that history is sent, and the held locks are as
  -- before. On an error the database, the sent messages and the held locks are as before, unless
  -- the error is that the lock could not be released.
  pub deposit_points-DepositSpec : (w : World) → DepositSpec w (deposit_points rate dto w)
  unfolding deposit_points
  deposit_points-DepositSpec w =
      checked (check_user dto.user_id dto.wallet_address w)
        (check_user-CheckSpec dto.user_id dto.wallet_address w)
    where
      checked :
          (out : Result (Unit {0}) × World)
          → CheckSpec dto.user_id dto.wallet_address w out
          → DepositSpec w
              (continue out (λ _. with_lock (handle_point dto.user_id) (deposit_locked rate dto)))
      checked (err e, w') same = rw same (inr (refl, refl, refl))
      checked (ok _, w') (same, auth) = rw same (locking-DepositSpec w auth)

  pub deposit_callback-locks : (w : World) → (deposit_callback rate dto w).1.locks ≡ w.locks
  deposit_callback-locks w = kept (deposit_callback rate dto w) (deposit_callback-CallbackSpec w)
    where
      kept : (out : Result UserSwapHistoryRes × World) → CallbackSpec w out → out.1.locks ≡ w.locks
      kept (ok res, w') (_, _, _, _, _, _, _, l) = l
      kept (err e, w') (_, _, l, _) = l
