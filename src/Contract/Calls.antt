-- ===== src/Contract/Calls.antt =====
-- The transactions of the contract (blockchain/contracts/PointManagerImpl.sol) that change its state.
use web3_point_exchange.Common.{ℕ, Bool, List, [], ◌∷◌, ◌≡◌}
use web3_point_exchange.Contract.Manager.{
  OpenZeppelin, ownable_reverted, PointDeposit, PointWithdrawal, Caller, ManagerState, CallOutcome,
  reverted, done, with_base, grant_manager, revoke_manager, set_exchange_rate, set_valid_user,
  pause, unpause, deposit_point, withdraw_point,
}

module _ ⦃z : OpenZeppelin⦄ where
  pub data ContractCall : Type 0 where
    grants_manager revokes_manager sets_exchange_rate : ℕ → ContractCall
    sets_valid_user : ℕ → Bool → ContractCall
    pauses unpauses renounces_ownership : ContractCall
    transfers_ownership : ℕ → ContractCall
    deposits : PointDeposit → ContractCall
    withdraws : PointWithdrawal → ContractCall

  abbrev pub call : ContractCall → Caller → ManagerState → CallOutcome
  call (grants_manager a) c s = grant_manager a c s
  call (revokes_manager a) c s = revoke_manager a c s
  call (sets_exchange_rate r) c s = set_exchange_rate r c s
  call (sets_valid_user a v) c s = set_valid_user a v c s
  call pauses c s = pause c s
  call unpauses c s = unpause c s
  call renounces_ownership c s = with_base ownable_reverted (z.renounce_ownership c.sender s.base) s
  call (transfers_ownership a) c s =
      with_base ownable_reverted (z.transfer_ownership c.sender a s.base) s
  call (deposits d) c s = deposit_point d c s
  call (withdraws d) c s = withdraw_point d c s

  abbrev pub then_calls : CallOutcome → (ManagerState → CallOutcome) → CallOutcome
  then_calls (reverted r) k = reverted r
  then_calls (done s) k = k s

  -- Calls one after the other, of which none may revert.
  unfoldable pub calls : List ContractCall → Caller → ManagerState → CallOutcome
  calls [] c s = done s
  calls (k ∷ ks) c s = then_calls (call k c s) (λ s'. calls ks c s')

  -- MulticallUpgradeable: a batch of calls of the contract itself, which reverts when one of them does.
  pub record Multicall : Type 0 where
    pub run : List ContractCall → Caller → ManagerState → CallOutcome
    pub run_law :
        (ks : List ContractCall) (c : Caller) (s : ManagerState) → run ks c s ≡ calls ks c s

  -- A call of the contract, or a batch of calls.
  pub data Transaction : Type 0 where
    single : ContractCall → Transaction
    multicall : List ContractCall → Transaction

  -- What is on the chain after a transaction.
  abbrev pub after_call : CallOutcome → ManagerState → ManagerState
  after_call (reverted r) s = s
  after_call (done s') s = s'

  module _ ⦃m : Multicall⦄ where
    abbrev pub run_transaction : Transaction → Caller → ManagerState → CallOutcome
    run_transaction (single k) c s = call k c s
    run_transaction (multicall ks) c s = m.run ks c s

    abbrev pub transact : Transaction → Caller → ManagerState → ManagerState
    transact k c s = after_call (run_transaction k c s) s

    abbrev pub transact_all : List (Transaction × Caller) → ManagerState → ManagerState
    transact_all [] s = s
    transact_all ((k, c) ∷ ks) s = transact_all ks (transact k c s)
