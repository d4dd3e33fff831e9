-- ===== src/Point/Withdraw.antt =====
-- What `withdrawPoints` does on every branch.
use web3_point_exchange.Common.{
  ℕ, ℤ, ◌≡◌, refl, inl, inr, some, List, [], ◌∷◌, ◌++◌, arith, ◌/ℤ◌, ◌≤ℤ◌, ◌==◌, ltb_ℤ, Bool-cases,
  Option-cases,
}
use web3_point_exchange.Entities.{UserSwapHistory, SwapType}
use web3_point_exchange.Platform.{Platform, LockKey, Message, point_swap, handle_point}
use web3_point_exchange.Point.Dto.{WithdrawPointsReq, UserSwapHistoryRes, map_user_swap_history}
use web3_point_exchange.Point.Exchange.{check_user, withdraw_callback, withdraw_points}
use web3_point_exchange.Point.Reads.{IsAuthorized, CheckSpec, check_user-CheckSpec}
use web3_point_exchange.Point.Steps.{with_swap, swap_row, send-cases, create_swap-cases}
use web3_point_exchange.World.{
  Db, World, Result, ok, err, ◌>>=◌, ◌>>◌, continue, or_throw, throw_if, transaction, with_lock,
  chain_rejected, insufficient_token_balance, division_by_zero,
}
use web3_point_exchange.World.Rules.{MethodSpec, CallbackSpec, locked_transaction-MethodSpec}

abbrev withdraw_message : ℕ → WithdrawPointsReq → Message
withdraw_message i dto = point_swap (record {
  user_swap_history_id = i;
  wallet_address = dto.wallet_address;
  amount = dto.amount;
  type = SwapType.token_to_point;
  signature = some dto.signature;
  valid_until = some dto.valid_until;
  permit_data = dto.permit_data;
})

module _ ⦃p : Platform⦄ (rate : ℕ) (dto : WithdrawPointsReq) where
  abbrev withdraw_row : World → UserSwapHistory
  withdraw_row w =
      swap_row dto.user_id SwapType.token_to_point dto.amount (dto.amount /ℤ rate)
        (record w { working = w.db })

  -- One pending history and one message; no balance changes.
  abbrev Withdrawn : World → UserSwapHistoryRes → Db → List Message → Type 0
  Withdrawn w res d sent =
      (d ≡ with_swap (withdraw_row w) w.db)
      × (sent ≡ w.sent ++ (withdraw_message (withdraw_row w).user_swap_history_id dto ∷ []))
      × (res ≡ map_user_swap_history (withdraw_row w))

  -- The checks that a successful withdrawal has passed, and what it has written.
  abbrev pub WithdrawGood : World → UserSwapHistoryRes → Db → List Message → Type 0
  WithdrawGood w res d sent =
      IsAuthorized dto.user_id dto.wallet_address w
      × ((tokens : ℤ) × (p.chain_balance_of dto.wallet_address ≡ some tokens)
          × (p.parse_ether (dto.amount /ℤ rate) ≤ℤ tokens))
      × Withdrawn w res d sent

  pub withdraw_callback-CallbackSpec :
      (w : World) (held : List LockKey) (tokens : ℤ)
      → IsAuthorized dto.user_id dto.wallet_address w
      → p.chain_balance_of dto.wallet_address ≡ some tokens
      → p.parse_ether (dto.amount /ℤ rate) ≤ℤ tokens
      → let w0 : World = record w { locks = held; working = w.db } in
        CallbackSpec (WithdrawGood w) w0 (withdraw_callback (dto.amount /ℤ rate) dto w0)
  unfolding withdraw_callback
  withdraw_callback-CallbackSpec w held tokens auth t h =
      let w0 : World = record w { locks = held; working = w.db } in
      let w1 : World = record w0 { working = with_swap (withdraw_row w) w.db } in
      elim (create_swap-cases dto.user_id SwapType.token_to_point dto.amount (dto.amount /ℤ rate)
        w0) [
          | inl e ↦ rw (e, withdraw_callback) (refl, refl, refl)
          | inr e ↦
              elim (send-cases (withdraw_message (withdraw_row w).user_swap_history_id dto) w1) [
                | inl f ↦ rw (e, withdraw_callback) (rw f (refl, refl, refl))
                | inr f ↦
                    rw (e, withdraw_callback)
                      (rw f ((auth, (tokens, t, h), (refl, refl, refl)), refl))
              ]
        ]

  -- On success the user is valid and owns the wallet, whose token balance on the chain covers
  -- the amount divided by the rate in wei; the database has exactly one new row, a pending
  -- history of both amounts, one message with the signature is sent, and the held locks are as
  -- before. On an error the database, the sent messages and the held locks are as before, unless
  -- the error is that the lock could not be released.
  pub withdraw_points-MethodSpec :
      (w : World) → MethodSpec (WithdrawGood w) w (withdraw_points rate dto w)
  unfolding withdraw_points
  withdraw_points-MethodSpec w =
      checked (check_user dto.user_id dto.wallet_address w)
        (check_user-CheckSpec dto.user_id dto.wallet_address w)
    where
      covered :
          (tokens : ℤ)
          → IsAuthorized dto.user_id dto.wallet_address w
          → p.chain_balance_of dto.wallet_address ≡ some tokens
          → p.parse_ether (dto.amount /ℤ rate) ≤ℤ tokens
          → MethodSpec (WithdrawGood w) w (
              with_lock
                (handle_point dto.user_id)
                (transaction (withdraw_callback (dto.amount /ℤ rate) dto))
                w)
      covered tokens auth e h =
          locked_transaction-MethodSpec (WithdrawGood w) w (handle_point dto.user_id)
            (withdraw_callback (dto.amount /ℤ rate) dto)
            (λ held. withdraw_callback-CallbackSpec w held tokens auth e h)

      checked :
          (out : Result (Unit {0}) × World)
          → CheckSpec dto.user_id dto.wallet_address w out
          → MethodSpec (WithdrawGood w) w (
              continue out (λ _.
                throw_if (rate == 0) division_by_zero
                >> (or_throw chain_rejected (p.chain_balance_of dto.wallet_address) >>= λ tokens.
                    throw_if
                      (ltb_ℤ tokens (p.parse_ether (dto.amount /ℤ rate)))
                      insufficient_token_balance
                    >> with_lock
                        (handle_point dto.user_id)
                        (transaction (withdraw_callback (dto.amount /ℤ rate) dto)))))
      checked (err e, w') same = rw same (inr (refl, refl, refl))
      checked (ok _, w') (same, auth) = rw same (elim (Bool-cases (rate == 0)) [
        | inl z ↦ rw z (inr (refl, refl, refl))
        | inr z ↦ elim (Option-cases (p.chain_balance_of dto.wallet_address)) [
          | inl e ↦ rw (z, e) (inr (refl, refl, refl))
          | inr (tokens, e) ↦
              elim (Bool-cases (ltb_ℤ tokens (p.parse_ether (dto.amount /ℤ rate)))) [
                | inl short ↦ rw (z, e, short) (inr (refl, refl, refl))
                | inr enough ↦ rw (z, e, enough) (covered tokens auth e (ground arith))
              ]
        ]
      ])
