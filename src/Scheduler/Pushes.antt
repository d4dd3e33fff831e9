-- ===== src/Scheduler/Pushes.antt =====
-- What one message adds to the batch of the scheduler.
use web3_point_exchange.Common.{
  ℕ, ◌+◌, ◌≡◌, refl, ◌⊎◌, inl, inr, Bool, true, Option, none, some, [], ◌∷◌, ◌++◌,
}
use web3_point_exchange.Chain.{
  Environment, Ethers, valid_until_timestamp, get_manager_address, get_eip712_domain,
  get_signature_nonce, get_deposit_point_manager_signature, get_deposit_point_calldata,
  get_withdraw_point_calldata, get_permit_calldata,
}
use web3_point_exchange.Entities.{SwapType}
use web3_point_exchange.Platform.{Platform, PointSwapTransaction, PermitData}
use web3_point_exchange.Scheduler.Nonces.{IsFirstNonce, IsSame, IsNext, MessageSpec}
use web3_point_exchange.Scheduler.Machine.{Clients, State, Run, pure, or_throw, continue, ◌>>=◌}
use web3_point_exchange.Scheduler.Messages.{
  Processed, signed, next_nonce, push_permit, push_if_estimated, process_deposit_point_transaction,
  process_withdraw_point_transaction, process_transaction_message, process_by_type,
}
use web3_point_exchange.Scheduler.Steps.{or_throw-rule, resolve-rule, push_if_estimated-rule}
use web3_point_exchange.World.{
  Error, Result, ok, err, chain_rejected, manager_not_found, signature_required,
}

module _ ⦃env : Environment⦄ ⦃eth : Ethers⦄ where
  -- The nonce after the one of the batch, or that of the chain.
  next_nonce-rule :
      {B : Type 0} (P : Result B × State → Type 0) (i : ℕ) (before : Option ℕ) (k : ℕ → Run B)
      (s : State)
      → ((e : Error) → P (err e, s))
      → ((n : ℕ)
          → ((before ≡ none) × IsFirstNonce i n) ⊎ ((m : ℕ) × (before ≡ some m) × (n ≡ m + 1))
          → P (k n s))
      → P (continue (next_nonce i before s) k)
  unfolding next_nonce
  next_nonce-rule P i (some m) k s t h = h (m + 1) (inr (m, refl, refl))
  next_nonce-rule P i none k s t h =
      or_throw-rule (λ out. P (continue out k)) manager_not_found (get_manager_address i) _ s (t _)
        (λ a e.
          or_throw-rule P chain_rejected (get_signature_nonce a) k s (t _)
            (λ n f. h n (inl (refl, (a, e, f)))))

module _ ⦃c : Clients⦄ ⦃p : Platform⦄ ⦃env : Environment⦄ ⦃eth : Ethers⦄ where
  follows :
      (s : State) (i n : ℕ)
      → (s.current_manager_index ≡ none) ⊎ (s.current_manager_index ≡ some i)
      → ((s.before_used_signature_nonce ≡ none) × IsFirstNonce i n)
        ⊎ ((m : ℕ) × (s.before_used_signature_nonce ≡ some m) × (n ≡ m + 1))
      → IsNext s i n
  follows s i n o (inl f) = inl f
  follows s i n o (inr (m, e, f)) = inr (m, e, f, o)

  deposit-MessageSpec :
      (m : PointSwapTransaction) (s : State) → MessageSpec s (process_deposit_point_transaction m s)
  unfolding process_deposit_point_transaction
  deposit-MessageSpec m s =
      resolve-rule (MessageSpec s) s.current_manager_index _ s (λ e. (refl, refl, refl))
        (λ i key o.
          let s1 : State = record s { manager_index_key = key } in
          or_throw-rule (MessageSpec s) chain_rejected get_eip712_domain _ s1 (refl, refl, refl)
            (λ domain _.
              next_nonce-rule (MessageSpec s) i s1.before_used_signature_nonce _ s1
                (λ e. (refl, refl, refl))
                (λ n f.
                  or_throw-rule (MessageSpec s) chain_rejected
                    (get_deposit_point_manager_signature domain m.wallet_address m.amount n i) _ s1
                    (refl, refl, refl)
                    (λ signature g.
                      or_throw-rule (MessageSpec s) chain_rejected
                        (get_deposit_point_calldata m.wallet_address m.amount valid_until_timestamp
                          i signature)
                        _ s1 (refl, refl, refl)
                        (λ d h.
                          push_if_estimated-rule (MessageSpec s) m s1.calldatas d _ _ s1
                            (λ e w. (refl, refl, refl))
                            (λ w. (refl, inl (refl, refl, (refl, refl, refl))))
                            (
                              refl,
                              inr (
                                  inr (
                                    i,
                                    n,
                                    d,
                                    refl,
                                    refl,
                                    (refl, refl, refl),
                                    follows s i n o f,
                                    (domain, m.wallet_address, m.amount, signature, g, h),
                                  )),
                            ))))))

  -- After the checks and the permit of a withdrawal.
  withdraw_rest-MessageSpec :
      (m : PointSwapTransaction) (signature valid_until : ℕ) (s s1 : State)
      → IsSame s s1
      → MessageSpec s (
          continue
            (continue
              (or_throw chain_rejected
                (get_withdraw_point_calldata m.wallet_address m.amount valid_until signature)
                s1)
              (λ d. λ s2. push_if_estimated m (s2.calldatas ++ s2.permit_calldatas) d true true s2))
            (λ b. pure (record { success = b; new_nonce = none; manager_index = none })))
  withdraw_rest-MessageSpec m signature valid_until s s1 (a, b, c) =
      let k : Bool → Run Processed =
        λ b. pure (record { success = b; new_nonce = none; manager_index = none }) in
      or_throw-rule (λ out. MessageSpec s (continue out k)) chain_rejected
        (get_withdraw_point_calldata m.wallet_address m.amount valid_until signature) _ s1 (a, b, c)
        (λ d e.
          push_if_estimated-rule (λ out. MessageSpec s (continue out k)) m
            (s1.calldatas ++ s1.permit_calldatas) d true true s1 (λ e w. (a, b, c))
            (λ w. (refl, inl (refl, refl, (a, b, c))))
            (
              refl,
              inr (
                  inl (
                    d,
                    refl,
                    refl,
                    (a, b, rw c refl),
                    (m.wallet_address, m.amount, valid_until, signature, e),
                  )),
            ))

  withdraw-MessageSpec :
      (m : PointSwapTransaction) (s : State)
      → MessageSpec s (
          continue
            (process_withdraw_point_transaction m s)
            (λ b. pure (record { success = b; new_nonce = none; manager_index = none })))
  unfolding process_withdraw_point_transaction push_permit
  withdraw-MessageSpec m s =
      let k : Bool → Run Processed =
        λ b. pure (record { success = b; new_nonce = none; manager_index = none }) in
      or_throw-rule (λ out. MessageSpec s (continue out k)) signature_required
        (signed m.signature m.valid_until) _ s (refl, refl, refl)
        (λ sv _. permitted sv m.permit_data)
    where
      permitted :
          (sv : ℕ × ℕ) (o : Option PermitData)
          → MessageSpec s (
              continue
                (continue (push_permit o s) (λ _.
                  or_throw chain_rejected
                    (get_withdraw_point_calldata m.wallet_address m.amount sv.1 sv.0)
                  >>= λ d. λ s2.
                    push_if_estimated m (s2.calldatas ++ s2.permit_calldatas) d true true s2))
                (λ b. pure (record { success = b; new_nonce = none; manager_index = none })))
      permitted sv none = withdraw_rest-MessageSpec m sv.0 sv.1 s s (refl, refl, refl)
      permitted sv (some d) =
          or_throw-rule
            (λ out. MessageSpec s (
              continue
                (continue out (λ _.
                  or_throw chain_rejected
                    (get_withdraw_point_calldata m.wallet_address m.amount sv.1 sv.0)
                  >>= λ d. λ s2.
                    push_if_estimated m (s2.calldatas ++ s2.permit_calldatas) d true true s2))
                (λ b. pure (record { success = b; new_nonce = none; manager_index = none }))))
            chain_rejected (get_permit_calldata d.owner d.value d.deadline d.signature)
            (λ permit.
              λ s2. (ok tt, record s2 { permit_calldatas = s2.permit_calldatas ++ (permit ∷ []) }))
            s (refl, refl, refl)
            (λ permit _. withdraw_rest-MessageSpec m sv.0 sv.1 s _ (refl, refl, refl))

  pub transaction_message-MessageSpec :
      (m : PointSwapTransaction) (s : State) → MessageSpec s (process_transaction_message m s)
  unfolding process_transaction_message process_by_type
  transaction_message-MessageSpec m s = split m.type
    where
      split : (t : SwapType) → MessageSpec s (process_by_type t m s)
      split SwapType.point_to_token = deposit-MessageSpec m s
      split SwapType.token_to_point = withdraw-MessageSpec m s
