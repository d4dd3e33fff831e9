-- ===== src/Point/Consume.antt =====
-- What `consumePoint` does on every branch, when no other request runs between its read and its write.
use web3_point_exchange.Common.{
  ℕ, ℤ, ◌≡◌, refl, inl, inr, some, List, arith, ◌-ℤ◌, ◌≤ℤ◌, ltb_ℤ, Bool-cases, Option-cases,
}
use web3_point_exchange.Entities.{UserPoint, ConsumptionHistory}
use web3_point_exchange.Platform.{Platform, Cache, LockKey, Message, handle_point}
use web3_point_exchange.Repositories.UserPoints
use web3_point_exchange.Point.Dto.{ConsumePointReq, ConsumptionHistoryRes, map_consumption_history}
use web3_point_exchange.Point.Balance.{get_point_balance}
use web3_point_exchange.Point.Exchange.{
  consume_callback, consume_checks, consume_locked, consume_point,
}
use web3_point_exchange.Point.Reads.{IsRead, ReadSpec, get_point_balance-ReadSpec}
use web3_point_exchange.Point.Steps.{
  with_balance, with_consumption, consumption_row, write_balance-cases, create_consumption-cases,
}
use web3_point_exchange.World.{
  Db, World, Result, manager, ok, err, ◌>>◌, pure, continue, throw_if,
  insufficient_balance_for_consumption,
}
use web3_point_exchange.World.Rules.{MethodSpec, CallbackSpec, locked_transaction-MethodSpec}

module _ ⦃p : Platform⦄ (i : ℕ) (dto : ConsumePointReq) where
  abbrev pub consume_row : World → ConsumptionHistory
  consume_row w =
      consumption_row i dto.amount dto.type dto.resource_id (record w { working = w.db })

  -- A completed history, and the balance of the user set to that of the row `up` less the amount.
  abbrev pub Consumed : UserPoint → World → ConsumptionHistoryRes → Db → List Message → Type 0
  Consumed up w res d sent =
      (d
        ≡ with_balance up.user_id (up.balance -ℤ dto.amount) w.now
            (with_consumption (consume_row w) w.db))
      × (sent ≡ w.sent)
      × (res ≡ map_consumption_history (consume_row w))

  pub consume_callback-CallbackSpec :
      (up : UserPoint) (w : World) (held : List LockKey)
      → let w0 : World = record w { locks = held; working = w.db } in
        CallbackSpec (Consumed up w) w0 (consume_callback up i dto w0)
  unfolding consume_callback
  consume_callback-CallbackSpec up w held =
      let w0 : World = record w { locks = held; working = w.db } in
      let w1 : World = record w0 { working = with_consumption (consume_row w) w.db } in
      elim (create_consumption-cases i dto.amount dto.type dto.resource_id w0) [
        | inl e ↦ rw (e, consume_callback) (refl, refl, refl)
        | inr e ↦ elim (write_balance-cases up.user_id (up.balance -ℤ dto.amount) manager w1) [
          | inl f ↦ rw (e, consume_callback) (rw f (refl, refl, refl))
          | inr (c, f, h) ↦ rw (e, consume_callback) (rw f ((refl, refl, refl), refl))
        ]
      ]

  -- The locked part of `consumePoint`, which starts from the row that was read before, at any world.
  pub consume_locked-MethodSpec :
      (up : UserPoint) (w : World) → MethodSpec (Consumed up w) w (consume_locked i dto up w)
  unfolding consume_locked
  consume_locked-MethodSpec up w =
      locked_transaction-MethodSpec (Consumed up w) w (handle_point up.user_id)
        (consume_callback up i dto) (consume_callback-CallbackSpec up w)

  -- What the checks let through.
  abbrev ChecksSpec : World → Result UserPoint × World → Type 0
  ChecksSpec w (err e, w') = (c : Cache) × (w' ≡ record w { cache = c })
  ChecksSpec w (ok up, w') =
      (c : Cache) × (current : ℤ) × (w' ≡ record w { cache = c })
      × (p.find_one (UserPoints.by_id i) w.db.user_points ≡ some up)
      × IsRead up.user_id w current
      × (dto.amount ≤ℤ current)

  covered-ChecksSpec :
      (w : World) (up : UserPoint) (out : Result ℤ × World)
      → p.find_one (UserPoints.by_id i) w.db.user_points ≡ some up
      → ReadSpec up.user_id w out
      → ChecksSpec w (
          continue out (λ current.
            throw_if (ltb_ℤ current dto.amount) insufficient_balance_for_consumption >> pure up))
  covered-ChecksSpec w up (err e, w') f same = (w.cache, same)
  covered-ChecksSpec w up (ok current, w') f (c, same, r) =
      elim (Bool-cases (ltb_ℤ current dto.amount)) [
        | inl short ↦ rw short (c, same)
        | inr enough ↦ rw enough (c, current, same, f, r, ground arith)
      ]

  consume_checks-ChecksSpec : (w : World) → ChecksSpec w (consume_checks i dto w)
  unfolding consume_checks UserPoints.find_by_id
  consume_checks-ChecksSpec w =
      elim (Option-cases (p.find_one (UserPoints.by_id i) w.db.user_points)) [
        | inl f ↦ rw (f, consume_checks) (w.cache, refl)
        | inr (up, f) ↦
            rw (f, consume_checks)
              (covered-ChecksSpec w up (get_point_balance up.user_id w) f
                (get_point_balance-ReadSpec up.user_id w))
      ]

  abbrev pub ConsumeGood : World → ConsumptionHistoryRes → Db → List Message → Type 0
  ConsumeGood w res d sent =
      (up : UserPoint) × (current : ℤ) × (p.find_one (UserPoints.by_id i) w.db.user_points
        ≡ some up)
      × IsRead up.user_id w current
      × (dto.amount ≤ℤ current)
      × Consumed up w res d sent

  -- On success the balance that was read (the cached one, or that of a row of the user) covers
  -- the amount, the database has one new row, a completed history of the amount, and as the
  -- balance of the user that of the point's row less the amount; the sent messages and the held
  -- locks are as before. On an error the database, the sent messages and the held locks are as
  -- before, unless the error is that the lock could not be released.
  pub consume_point-MethodSpec : (w : World) → MethodSpec (ConsumeGood w) w (consume_point i dto w)
  unfolding consume_point
  consume_point-MethodSpec w = checked (consume_checks i dto w) (consume_checks-ChecksSpec w)
    where
      finished :
          (c : Cache) (up : UserPoint) (current : ℤ) (out : Result ConsumptionHistoryRes × World)
          → p.find_one (UserPoints.by_id i) w.db.user_points ≡ some up
          → IsRead up.user_id w current
          → dto.amount ≤ℤ current
          → MethodSpec (Consumed up (record w { cache = c })) (record w { cache = c }) out
          → MethodSpec (ConsumeGood w) w out
      finished c up current (ok res, w') f r h (g, l) = ((up, current, f, r, h, g), l)
      finished c up current (err e, w') f r h g = g

      checked :
          (out : Result UserPoint × World)
          → ChecksSpec w out
          → MethodSpec (ConsumeGood w) w (continue out (consume_locked i dto))
      checked (err e, w') (c, same) = rw same (inr (refl, refl, refl))
      checked (ok up, w') (c, current, same, f, r, h) = rw same (
          finished c up current (consume_locked i dto up (record w { cache = c })) f r h
            (consume_locked-MethodSpec up (record w { cache = c })))
