-- ===== src/Scheduler/Messages.antt =====
-- What the scheduler does with one message: `processDepositPointTransaction`,
-- `processWithdrawPointTransaction`, `processTransactionMessage`, and the callback around them.
use web3_point_exchange.Common.{
  ℕ, suc, ◌+◌, Bool, true, false, Option, none, some, List, [], ◌∷◌, ◌++◌, if◌then◌else◌,
}
use web3_point_exchange.Chain.{
  Environment, Ethers, valid_until_timestamp, get_manager_address, get_eip712_domain,
  get_signature_nonce, get_deposit_point_manager_signature, get_deposit_point_calldata,
  get_withdraw_point_calldata, get_permit_calldata, get_multicall_calldata, estimate_gas,
}
use web3_point_exchange.Entities.{SwapType, SwapStatus}
use web3_point_exchange.Platform.{Platform, PointSwapTransaction, PermitData}
use web3_point_exchange.Scheduler.Machine.{
  Clients, State, Run, pure, gets, or_throw, call, modify, ◌>>=◌, ◌>>◌, recover,
  get_current_manager_index,
}
use web3_point_exchange.Token.{update_swap_history_status}
use web3_point_exchange.World.{chain_rejected, manager_not_found, signature_required}

-- `{ success, newNonce?, managerIndex? }`
pub record Processed : Type 0 where
  pub success : Bool
  pub new_nonce : Option ℕ
  pub manager_index : Option ℕ

-- `x !== undefined ? x : before`
abbrev pub or_before : Option ℕ → Option ℕ → Option ℕ
or_before none before = before
or_before (some n) before = some n

-- `data.signature` and `data.validUntil`, when both are there; 0 and the empty text do not count.
abbrev pub signed : Option ℕ → Option ℕ → Option (ℕ × ℕ)
signed (some (suc s)) (some (suc v)) = some (suc s, suc v)
signed _ _ = none

abbrev pub push : ℕ → State → State
push c s = record s { calldatas = s.calldatas ++ (c ∷ []) }

module _ ⦃c : Clients⦄ where
  unfoldable pub resolve_manager_index : Option ℕ → Run ℕ
  resolve_manager_index none = get_current_manager_index
  resolve_manager_index (some i) = pure i

module _ ⦃env : Environment⦄ ⦃eth : Ethers⦄ where
  unfoldable pub next_nonce : ℕ → Option ℕ → Run ℕ
  next_nonce i (some n) = pure (n + 1)
  next_nonce i none = do
    manager ← or_throw manager_not_found (get_manager_address i)
    or_throw chain_rejected (get_signature_nonce manager)

  unfoldable pub push_permit : Option PermitData → Run (Unit {0})
  push_permit none = pure tt
  push_permit (some d) = do
    permit ← or_throw chain_rejected (get_permit_calldata d.owner d.value d.deadline d.signature)
    modify (λ s. record s { permit_calldatas = s.permit_calldatas ++ (permit ∷ []) })

module _ ⦃c : Clients⦄ ⦃p : Platform⦄ ⦃env : Environment⦄ ⦃eth : Ethers⦄ where
  -- After the estimate of the gas: the history is failed when there is none, else the calldata is kept.
  unfoldable pub keep_or_fail : {A : Type 0} → PointSwapTransaction → ℕ → A → A → Option ℕ → Run A
  keep_or_fail m calldata rejected accepted none =
      call (update_swap_history_status m.user_swap_history_id SwapStatus.failed) >> pure rejected
  keep_or_fail m calldata rejected accepted (some _) = modify (push calldata) >> pure accepted

  unfoldable pub push_if_estimated :
      {A : Type 0} → PointSwapTransaction → List ℕ → ℕ → A → A → Run A
  push_if_estimated m others calldata rejected accepted = do
    multicall ← or_throw chain_rejected (get_multicall_calldata (others ++ (calldata ∷ [])))
    keep_or_fail m calldata rejected accepted (estimate_gas multicall)

  unfoldable pub process_deposit_point_transaction : PointSwapTransaction → Run Processed
  process_deposit_point_transaction m = do
    current ← gets (λ s. s.current_manager_index)
    index ← resolve_manager_index current
    domain ← or_throw chain_rejected get_eip712_domain
    before ← gets (λ s. s.before_used_signature_nonce)
    nonce ← next_nonce index before
    signature ←
        or_throw chain_rejected
          (get_deposit_point_manager_signature domain m.wallet_address m.amount nonce index)
    calldata ←
        or_throw chain_rejected (
          get_deposit_point_calldata m.wallet_address m.amount valid_until_timestamp index
            signature)
    others ← gets (λ s. s.calldatas)
    push_if_estimated m others calldata
        (record { success = true; new_nonce = none; manager_index = none })
        (record { success = true; new_nonce = some nonce; manager_index = some index })

  unfoldable pub process_withdraw_point_transaction : PointSwapTransaction → Run Bool
  process_withdraw_point_transaction m = do
    sv ← or_throw signature_required (signed m.signature m.valid_until)
    push_permit m.permit_data
    calldata ←
        or_throw chain_rejected (get_withdraw_point_calldata m.wallet_address m.amount sv.1 sv.0)
    others ← gets (λ s. s.calldatas ++ s.permit_calldatas)
    push_if_estimated m others calldata true true

  -- The branches on `data.type`.
  unfoldable pub process_by_type : SwapType → PointSwapTransaction → Run Processed
  process_by_type SwapType.point_to_token m = process_deposit_point_transaction m
  process_by_type SwapType.token_to_point m = process_withdraw_point_transaction m >>= λ b.
      pure (record { success = b; new_nonce = none; manager_index = none })

  unfoldable pub process_transaction_message : PointSwapTransaction → Run Processed
  unfolding process_by_type
  process_transaction_message m = process_by_type m.type m

  -- The callback, after `processTransactionMessage`.
  unfoldable pub record_result : PointSwapTransaction → Processed → Run Bool
  record_result m r =
      if r.success
      then (modify (λ s. record s {
        before_used_signature_nonce = or_before r.new_nonce s.before_used_signature_nonce;
        current_manager_index = or_before r.manager_index s.current_manager_index;
        tx_datas = s.tx_datas ++ ((m.user_swap_history_id, m.type) ∷ []);
      })
          >> pure true)
      else pure false

  unfoldable pub fail_message : PointSwapTransaction → Run Bool
  fail_message m =
      call (update_swap_history_status m.user_swap_history_id SwapStatus.failed) >> pure false

  unfoldable pub process_message : PointSwapTransaction → Run Bool
  process_message m s =
      recover ((process_transaction_message m >>= record_result m) s) (fail_message m)
