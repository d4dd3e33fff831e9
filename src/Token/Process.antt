-- ===== src/Token/Process.antt =====
-- `processPointToTokenTransaction` and `processTokenToPointTransaction`: what the server does with the
-- events of a transaction on the chain.
use web3_point_exchange.Common.{ℕ, ℤ, Bool, true, false, none, some, List, [], ◌∷◌, map}
use web3_point_exchange.Entities.{SwapType, SwapStatus, TokenStatus}
use web3_point_exchange.Platform.{Platform, point_update, increase}
use web3_point_exchange.Point.{find_user_by_wallet_address, send}
use web3_point_exchange.Repositories.PointToTokenTransactions
use web3_point_exchange.Repositories.TokenToPointTransactions
use web3_point_exchange.Token.Records.{create_token_to_point_transactions}
use web3_point_exchange.Token.Swaps.{
  create_user_swap_history, update_swap_history_by_id, update_status_by_mint_ids,
  update_status_by_burn_ids,
}
use web3_point_exchange.World.{
  World, Action, manager, ◌>>=◌, ◌>>◌, pure, ok, err, Result, transaction,
}

pub record EventLog : Type 0 where
  pub wallet_address : ℕ
  pub point_amount : ℤ
  pub token_amount : ℤ

-- `SuccessResDto`, with its message as a constant.
pub data Outcome : Type 0 where
  processed no_transaction_found process_failed : Outcome

abbrev pub success : Outcome → Bool
success processed = true
success no_transaction_found = false
success process_failed = false

-- `try { … } catch { return { success: false, … } }`
abbrev pub catch_failure : Result Outcome × World → Result Outcome × World
catch_failure (ok o, w) = (ok o, w)
catch_failure (err e, w) = (ok process_failed, w)

module _ ⦃p : Platform⦄ where
  unfoldable pub point_to_token_callback : ℕ → Action Outcome
  point_to_token_callback hash = PointToTokenTransactions.find_by_transaction_hash hash >>= λ txs.
      elim txs [
        | [] ↦ pure no_transaction_found
        | t ∷ ts ↦
            let ids = map (λ r. r.point_to_token_transaction_id) (t ∷ ts) in
            PointToTokenTransactions.update_status_by_ids ids TokenStatus.confirmed manager
            >> update_status_by_mint_ids ids SwapStatus.completed manager
            >> pure processed
      ]

  unfoldable pub process_point_to_token_transaction : ℕ → Action Outcome
  process_point_to_token_transaction hash w =
      catch_failure (transaction (point_to_token_callback hash) w)

  -- `sendUserPointIncreaseMessage`, whose `catch` only logs.
  unfoldable pub send_user_point_increase : ℕ × ℤ → Action (Unit {0})
  send_user_point_increase (u, amount) w =
      let (r, w') =
        send (point_update (record { user_id = u; amount = amount; type = increase })) w in
      (ok tt, w')

  unfoldable pub send_increases : List (ℕ × ℤ) → Action (Unit {0})
  send_increases [] = pure tt
  send_increases (i ∷ is) = send_user_point_increase i >> send_increases is

  -- The loop over the logs of a transaction that did not come through the server.
  unfoldable pub record_direct : ℕ → List EventLog → Action (List (ℕ × ℤ))
  record_direct hash [] = pure []
  record_direct hash (l ∷ ls) =
      let rest = record_direct hash ls in
      find_user_by_wallet_address l.wallet_address >>= λ found. elim found [
        | none ↦ rest
        | some user ↦ (do
          history ←
              create_user_swap_history user.user_id SwapType.token_to_point l.point_amount
                l.token_amount SwapStatus.completed manager
          tx ← create_token_to_point_transactions hash TokenStatus.confirmed l.token_amount manager
          update_swap_history_by_id history.user_swap_history_id
              (λ r. record r { token_burn_history_id = some tx.token_to_point_transaction_id })
              manager
          more ← rest
          pure ((user.user_id, l.point_amount) ∷ more))
      ]

  -- The loop over the logs of a transaction that the server sent.
  unfoldable pub collect_increases : List EventLog → Action (List (ℕ × ℤ))
  collect_increases [] = pure []
  collect_increases (l ∷ ls) =
      let rest = collect_increases ls in
      find_user_by_wallet_address l.wallet_address >>= λ found. elim found [
        | none ↦ rest
        | some user ↦ (do more ← rest; pure ((user.user_id, l.point_amount) ∷ more))
      ]

  unfoldable pub token_to_point_callback : ℕ → List EventLog → Action Outcome
  token_to_point_callback hash logs =
      TokenToPointTransactions.find_by_transaction_hash hash >>= λ txs. elim txs [
        | [] ↦ record_direct hash logs >>= λ is. send_increases is >> pure processed
        | t ∷ ts ↦
            let ids = map (λ r. r.token_to_point_transaction_id) (t ∷ ts) in
            collect_increases logs >>= λ is.
            TokenToPointTransactions.update_status_by_ids ids TokenStatus.confirmed manager
            >> update_status_by_burn_ids ids SwapStatus.completed manager
            >> send_increases is
            >> pure processed
      ]

  unfoldable pub process_token_to_point_transaction : ℕ → List EventLog → Action Outcome
  process_token_to_point_transaction hash logs w =
      catch_failure (transaction (token_to_point_callback hash logs) w)
