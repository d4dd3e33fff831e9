-- ===== src/Contract/Nonces.antt =====
-- No call of the contract (blockchain/contracts/PointManagerImpl.sol) lowers a nonce.
use web3_point_exchange.Common.{
  ℕ, ◌≤◌, ◌≡◌, refl, sym, subst, inl, inr, Bool, true, false, ◌==◌, ==_iff, Option, none, some,
  List, [], ◌∷◌, arith, Bool-cases,
}
use web3_point_exchange.Contract.{
  OpenZeppelin, PointEvent, Revert, Caller, ManagerState, CallOutcome, reverted, done, require,
  with_event, grant_manager, revoke_manager, set_exchange_rate, set_valid_user, with_base, pause,
  unpause, transferred, pay, deposit_point, withdraw_point, ContractCall, grants_manager,
  revokes_manager, sets_exchange_rate, sets_valid_user, pauses, unpauses, renounces_ownership,
  transfers_ownership, Multicall, Transaction, single, multicall, then_calls, calls,
  run_transaction, deposits, withdraws, call, after_call, transact, transact_all,
}

module _ ⦃z : OpenZeppelin⦄ where
  pub require-done :
      (b : Bool) (r : Revert) (k : CallOutcome) (s : ManagerState)
      → require b r k ≡ done s
      → (b ≡ true) × (k ≡ done s)
  unfolding require
  require-done true r k s e = (refl, e)
  require-done false r k s e = cc

  -- No nonce is below what it was.
  Grows : z.Base → CallOutcome → Type 0
  Grows b (reverted r) = Unit
  Grows b (done s) = (a : ℕ) → z.nonces a b ≤ z.nonces a s.base

  require-Grows :
      (t : Bool) (r : Revert) (b : z.Base) (k : CallOutcome) → Grows b k → Grows b (require t r k)
  unfolding Grows require
  require-Grows true r b k h = h
  require-Grows false r b k h = tt

  used_more : (a b : ℕ) (s : z.Base) → z.nonces a s ≤ z.nonces a (z.use_nonce b s)
  used_more a b s = elim (Bool-cases (a == b)) [
    | inl e ↦ rw ((==_iff a b).0 e, z.nonces_used b s) (omega arith)
    | inr e ↦ rw (z.nonces_others a b s (λ q. cc (e, (==_iff a b).1 q))) (omega arith)
  ]

  event-Grows :
      (e : PointEvent) (b : z.Base) (s : ManagerState) → s.base ≡ b → Grows b (with_event e s)
  unfolding Grows
  event-Grows e b s h = λ a. rw h (omega arith)

  transferred-Grows :
      (o : Option z.Token) (e : PointEvent) (b : z.Base) (s : ManagerState)
      → ((a : ℕ) → z.nonces a b ≤ z.nonces a s.base)
      → Grows b (transferred o e s)
  unfolding Grows
  transferred-Grows none e b s h = tt
  transferred-Grows (some t) e b s h = h

  pay-Grows :
      (send : ℕ → Option z.Token) (event : ℕ → PointEvent) (o : Option ℕ) (b : z.Base)
      (s : ManagerState)
      → ((a : ℕ) → z.nonces a b ≤ z.nonces a s.base)
      → Grows b (pay send event o s)
  unfolding Grows pay
  pay-Grows send event none b s h = tt
  pay-Grows send event (some n) b s h = transferred-Grows (send n) (event n) b s h

  with_base-Grows :
      (r : Revert) (o : Option z.Base) (s : ManagerState)
      → ((b : z.Base) → o ≡ some b → (a : ℕ) → z.nonces a b ≡ z.nonces a s.base)
      → Grows s.base (with_base r o s)
  unfolding Grows
  with_base-Grows r none s h = tt
  with_base-Grows r (some b) s h = λ a. rw (h b refl a) (omega arith)

  call-Grows : (k : ContractCall) (c : Caller) (s : ManagerState) → Grows s.base (call k c s)
  unfolding grant_manager revoke_manager set_exchange_rate set_valid_user pause unpause
      deposit_point withdraw_point
  call-Grows (grants_manager x) c s =
      require-Grows _ _ _ _
        (require-Grows _ _ _ _ (require-Grows _ _ _ _ (event-Grows _ s.base _ refl)))
  call-Grows (revokes_manager x) c s =
      require-Grows _ _ _ _
        (require-Grows _ _ _ _ (require-Grows _ _ _ _ (event-Grows _ s.base _ refl)))
  call-Grows (sets_exchange_rate r) c s =
      require-Grows _ _ _ _ (require-Grows _ _ _ _ (event-Grows _ s.base _ refl))
  call-Grows (sets_valid_user x v) c s =
      require-Grows _ _ _ _ (require-Grows _ _ _ _ (event-Grows _ s.base _ refl))
  call-Grows pauses c s =
      require-Grows _ _ _ _
        (with_base-Grows _ (z.pause s.base) s (λ b e a. z.nonces_paused a s.base b e))
  call-Grows unpauses c s =
      require-Grows _ _ _ _
        (with_base-Grows _ (z.unpause s.base) s (λ b e a. z.nonces_unpaused a s.base b e))
  call-Grows renounces_ownership c s =
      with_base-Grows _ (z.renounce_ownership c.sender s.base) s
        (λ b e a. z.nonces_renounced a c.sender s.base b e)
  call-Grows (transfers_ownership x) c s =
      with_base-Grows _ (z.transfer_ownership c.sender x s.base) s
        (λ b e a. z.nonces_transferred a c.sender x s.base b e)
  call-Grows (deposits d) c s = require-Grows _ _ _ _ (
      require-Grows _ _ _ _ (
        require-Grows _ _ _ _ (
          require-Grows _ _ _ _ (
            require-Grows _ _ _ _ (
              require-Grows _ _ _ _
                (pay-Grows _ _ _ s.base _ (λ a. used_more a d.manager s.base)))))))
  call-Grows (withdraws d) c s = require-Grows _ _ _ _ (
      require-Grows _ _ _ _ (
        require-Grows _ _ _ _ (
          require-Grows _ _ _ _ (
            require-Grows _ _ _ _ (pay-Grows _ _ _ s.base _ (λ a. used_more a d.account s.base))))))

  then-Grows :
      (b : z.Base) (o : CallOutcome) (k : ManagerState → CallOutcome)
      → Grows b o
      → ((s : ManagerState) → Grows s.base (k s))
      → Grows b (then_calls o k)
  unfolding Grows
  then-Grows b (reverted r) k g h = tt
  then-Grows b (done s) k g h = further (k s) (h s)
    where
      further : (o : CallOutcome) → Grows s.base o → Grows b o
      further (reverted r) f = tt
      further (done s') f = λ a. let x = g a in let y = f a in omega arith

  calls-Grows :
      (ks : List ContractCall) (c : Caller) (s : ManagerState) → Grows s.base (calls ks c s)
  unfolding Grows calls
  calls-Grows [] c s = λ a. omega arith
  calls-Grows (k ∷ ks) c s =
      then-Grows s.base (call k c s) (λ s'. calls ks c s') (call-Grows k c s)
        (λ s'. calls-Grows ks c s')

  module _ ⦃m : Multicall⦄ where
    transaction-Grows :
        (t : Transaction) (c : Caller) (s : ManagerState) → Grows s.base (run_transaction t c s)
    transaction-Grows (single k) c s = call-Grows k c s
    transaction-Grows (multicall ks) c s =
        subst (λ o. Grows s.base o) (sym (m.run_law ks c s)) (calls-Grows ks c s)

    transact-more :
        (k : Transaction) (c : Caller) (s : ManagerState) (a : ℕ)
        → z.nonces a s.base ≤ z.nonces a (transact k c s).base
    unfolding Grows
    transact-more k c s a = more (run_transaction k c s) (transaction-Grows k c s)
      where
        more :
            (o : CallOutcome)
            → Grows s.base o
            → z.nonces a s.base ≤ z.nonces a (after_call o s).base
        more (reverted r) g = omega arith
        more (done s') g = g a

    -- Nonces never decrease.
    pub transact_all-more :
        (ks : List (Transaction × Caller)) (s : ManagerState) (a : ℕ)
        → z.nonces a s.base ≤ z.nonces a (transact_all ks s).base
    transact_all-more [] s a = omega arith
    transact_all-more ((k, c) ∷ ks) s a =
        let h = transact-more k c s a in
        let g = transact_all-more ks (transact k c s) a in omega arith
