-- ===== src/Scheduler/Nonces.antt =====
-- The deposits of a batch are signed by one manager, with nonces that follow each other.
use web3_point_exchange.Common.{
  ℕ, ◌+◌, ℤ, ◌≡◌, refl, ◌⊎◌, inl, inr, true, Option, none, some, List, [], ◌∷◌, ◌++◌,
}
use web3_point_exchange.Chain.{
  Environment, Ethers, valid_until_timestamp, get_manager_address, get_signature_nonce,
  get_deposit_point_manager_signature, get_deposit_point_calldata, get_withdraw_point_calldata,
}
use web3_point_exchange.Scheduler.Machine.{State}
use web3_point_exchange.Scheduler.Messages.{Processed}
use web3_point_exchange.World.{Result, ok, err}

module _ ⦃env : Environment⦄ ⦃eth : Ethers⦄ where
  -- The calldata of a deposit that manager `i` signed with the nonce `n`.
  abbrev pub IsDeposit : ℕ → ℕ → ℕ → Type 0
  IsDeposit i n d =
      (domain : ℕ) × (account : ℕ) × (amount : ℤ) × (signature : ℕ)
      × (get_deposit_point_manager_signature domain account amount n i ≡ some signature)
      × (get_deposit_point_calldata account amount valid_until_timestamp i signature ≡ some d)

  abbrev pub IsWithdrawal : ℕ → Type 0
  IsWithdrawal d =
      (account : ℕ) × (amount : ℤ) × (valid_until : ℕ) × (signature : ℕ)
      × (get_withdraw_point_calldata account amount valid_until signature ≡ some d)

  -- The nonce that the chain has for manager `i`.
  abbrev pub IsFirstNonce : ℕ → ℕ → Type 0
  IsFirstNonce i n = (a : ℕ) × (get_manager_address i ≡ some a) × (get_signature_nonce a ≡ some n)

  -- A batch with the last nonce and the manager of its deposits: the first deposit has the nonce of the
  -- chain, and each further one has the next nonce and the same manager.
  pub data IsBatch : Option ℕ → Option ℕ → List ℕ → Type 0 where
    no_swap : IsBatch none none []
    first_deposit :
        {j : Option ℕ} {ds : List ℕ} (i n d : ℕ)
        → IsBatch none j ds
        → IsFirstNonce i n
        → IsDeposit i n d
        → IsBatch (some n) (some i) (ds ++ (d ∷ []))
    next_deposit :
        {ds : List ℕ} (i n d : ℕ)
        → IsBatch (some n) (some i) ds
        → IsDeposit i (n + 1) d
        → IsBatch (some (n + 1)) (some i) (ds ++ (d ∷ []))
    withdrawal :
        {n i : Option ℕ} {ds : List ℕ} (d : ℕ)
        → IsBatch n i ds
        → IsWithdrawal d
        → IsBatch n i (ds ++ (d ∷ []))

  abbrev pub HasBatch : State → Type 0
  HasBatch s = IsBatch s.before_used_signature_nonce s.current_manager_index s.calldatas

  -- A batch with a nonce has a manager.
  pub IsBatch-index :
      {n j : Option ℕ} {ds : List ℕ} → IsBatch n j ds → (n ≡ none) ⊎ ((i : ℕ) × (j ≡ some i))
  IsBatch-index no_swap = inl refl
  IsBatch-index (first_deposit i n d b f e) = inr (i, refl)
  IsBatch-index (next_deposit i n d b e) = inr (i, refl)
  IsBatch-index (withdrawal d b e) = IsBatch-index b

  abbrev pub IsSame : State → State → Type 0
  IsSame s s' =
      (s'.before_used_signature_nonce ≡ s.before_used_signature_nonce)
      × (s'.current_manager_index ≡ s.current_manager_index)
      × (s'.calldatas ≡ s.calldatas)

  abbrev pub IsPushed : State → State → ℕ → Type 0
  IsPushed s s' d =
      (s'.before_used_signature_nonce ≡ s.before_used_signature_nonce)
      × (s'.current_manager_index ≡ s.current_manager_index)
      × (s'.calldatas ≡ s.calldatas ++ (d ∷ []))

  abbrev pub IsNext : State → ℕ → ℕ → Type 0
  IsNext s i n =
      ((s.before_used_signature_nonce ≡ none) × IsFirstNonce i n)
      ⊎ ((k : ℕ) × (s.before_used_signature_nonce ≡ some k)
          × (n ≡ k + 1)
          × ((s.current_manager_index ≡ none) ⊎ (s.current_manager_index ≡ some i)))

  -- What one message adds to the batch, before the local variables are set.
  abbrev pub MessageSpec : State → Result Processed × State → Type 0
  MessageSpec s (err e, s') = IsSame s s'
  MessageSpec s (ok r, s') =
      (r.success ≡ true)
      × (((r.new_nonce ≡ none) × (r.manager_index ≡ none) × IsSame s s')
          ⊎ ((d : ℕ) × (r.new_nonce ≡ none)
              × (r.manager_index ≡ none)
              × IsPushed s s' d
              × IsWithdrawal d)
          ⊎ ((i : ℕ) × (n : ℕ) × (d : ℕ) × (r.new_nonce ≡ some n)
              × (r.manager_index ≡ some i)
              × IsPushed s s' d
              × IsNext s i n
              × IsDeposit i n d))
