-- ===== src/Contract/Replay.antt =====
-- No signature pays twice in the contract (blockchain/contracts/PointManagerImpl.sol).
use web3_point_exchange.Common.{ℕ, ◌≡◌, refl, ap, ◌∙◌, true, Option, List, arith}
use web3_point_exchange.Contract.{
  PointMessage, deposit_message, withdraw_message, OpenZeppelin, PointEvent, Revert, PointDeposit,
  PointWithdrawal, Caller, ManagerState, CallOutcome, reverted, done, deposit_point, withdraw_point,
  ContractCall, grants_manager, revokes_manager, sets_exchange_rate, sets_valid_user, pauses,
  unpauses, renounces_ownership, transfers_ownership, Multicall, Transaction, deposits, withdraws,
  call, transact_all,
}
use web3_point_exchange.Contract.Nonces.{transact_all-more}
use web3_point_exchange.Contract.Payments.{
  PaymentDone, deposit_point-DepositDone, withdraw_point-WithdrawalDone,
}

module _ ⦃z : OpenZeppelin⦄ ⦃m : Multicall⦄ where
  -- The signature is valid, for the signer, for at most one of the messages that differ in the nonce
  -- alone.
  abbrev pub OneNonce : (signer signature : ℕ) (message : ℕ → PointMessage) → Type 0
  OneNonce signer signature message =
      (m n : ℕ)
      → z.is_valid_signature_now signer (z.hash_typed_data (message m)) signature ≡ true
      → z.is_valid_signature_now signer (z.hash_typed_data (message n)) signature ≡ true
      → m ≡ n

  -- After a payment, the nonce of the signer is not what it was again.
  spent :
      (signer amount : ℕ) (send : ℕ → Option z.Token) (event : ℕ → PointEvent)
      (ks : List (Transaction × Caller)) (s s' : ManagerState)
      → PaymentDone signer amount send event s s'
      → z.nonces signer s.base ≡ z.nonces signer (transact_all ks s').base
      → ⊥
  spent signer amount send event ks s s' (n, t, _, _, e) q =
      let used = ap (λ x. z.nonces signer x.base) e ∙ z.nonces_used signer s.base in
      let more = transact_all-more ks s' signer in omega arith

  refused :
      (o : CallOutcome) → ((s : ManagerState) → o ≡ done s → ⊥) → (r : Revert) × (o ≡ reverted r)
  refused (reverted r) h = (r, refl)
  refused (done s) h = absurd (h s refl)

  deposit_pays_once :
      (d : PointDeposit) (c c' : Caller) (s s' : ManagerState) (ks : List (Transaction × Caller))
      → OneNonce d.manager d.signature (deposit_message d.account d.amount d.valid_until d.manager)
      → deposit_point d c s ≡ done s'
      → (r : Revert) × (deposit_point d c' (transact_all ks s') ≡ reverted r)
  deposit_pays_once d c c' s s' ks one e =
      let ((_, _, _, _, valid), _, once) = deposit_point-DepositDone d c s s' e in
      refused (deposit_point d c' (transact_all ks s')) (λ s2 e2.
        let ((_, _, _, _, again), _, _) =
          deposit_point-DepositDone d c' (transact_all ks s') s2 e2 in
        spent d.manager d.amount _ _ ks s s' once (one _ _ valid again))

  withdrawal_pays_once :
      (d : PointWithdrawal) (c c' : Caller) (s s' : ManagerState) (ks : List (Transaction × Caller))
      → OneNonce d.account d.signature (withdraw_message d.account d.amount d.valid_until)
      → withdraw_point d c s ≡ done s'
      → (r : Revert) × (withdraw_point d c' (transact_all ks s') ≡ reverted r)
  withdrawal_pays_once d c c' s s' ks one e =
      let ((_, _, _, _, valid), once) = withdraw_point-WithdrawalDone d c s s' e in
      refused (withdraw_point d c' (transact_all ks s')) (λ s2 e2.
        let ((_, _, _, _, again), _) =
          withdraw_point-WithdrawalDone d c' (transact_all ks s') s2 e2 in
        spent d.account d.amount _ _ ks s s' once (one _ _ valid again))

  -- The call is a deposit or a withdrawal, whose signature fits one nonce.
  abbrev pub FitsOneNonce : ContractCall → Type 0
  FitsOneNonce (grants_manager a) = ⊥
  FitsOneNonce (revokes_manager a) = ⊥
  FitsOneNonce (sets_exchange_rate r) = ⊥
  FitsOneNonce (sets_valid_user a v) = ⊥
  FitsOneNonce pauses = ⊥
  FitsOneNonce unpauses = ⊥
  FitsOneNonce renounces_ownership = ⊥
  FitsOneNonce (transfers_ownership a) = ⊥
  FitsOneNonce (deposits d) =
      OneNonce d.manager d.signature (deposit_message d.account d.amount d.valid_until d.manager)
  FitsOneNonce (withdraws d) =
      OneNonce d.account d.signature (withdraw_message d.account d.amount d.valid_until)

  -- When a deposit or a withdrawal is accepted, whose signature is valid, for its signer, for
  -- its message with one nonce at most: after any further deposits, withdrawals, calls of the
  -- administration and transfers of the ownership, also in batches and by anyone, the same call
  -- is reverted, whoever sends it.
  pub signature_pays_once :
      (k : ContractCall) (c c' : Caller) (s s' : ManagerState) (ks : List (Transaction × Caller))
      → FitsOneNonce k
      → call k c s ≡ done s'
      → (r : Revert) × (call k c' (transact_all ks s') ≡ reverted r)
  signature_pays_once (deposits d) c c' s s' ks one e = deposit_pays_once d c c' s s' ks one e
  signature_pays_once (withdraws d) c c' s s' ks one e = withdrawal_pays_once d c c' s s' ks one e
  signature_pays_once (grants_manager a) c c' s s' ks one e = absurd one
  signature_pays_once (revokes_manager a) c c' s s' ks one e = absurd one
  signature_pays_once (sets_exchange_rate r) c c' s s' ks one e = absurd one
  signature_pays_once (sets_valid_user a v) c c' s s' ks one e = absurd one
  signature_pays_once pauses c c' s s' ks one e = absurd one
  signature_pays_once unpauses c c' s s' ks one e = absurd one
  signature_pays_once renounces_ownership c c' s s' ks one e = absurd one
  signature_pays_once (transfers_ownership a) c c' s s' ks one e = absurd one
