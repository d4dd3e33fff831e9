-- ===== src/Chain.antt =====
-- `BlockchainService` (backend/src/modules/blockchain/blockchain.service.ts): the keys and addresses of
-- its wallets, and the calldata, signatures and transactions that it makes with ethers. `none` is a
-- throw. The indices that it keeps in redis are in Scheduler/Indices.
use web3_point_exchange.Common.{ℕ, ◌+◌, ℤ, Option, none, some, List, ◌==◌, if◌then◌else◌}

-- The variables of backend/src/config/environment/environment.ts that the service reads, and the second
-- at which its constants were computed, which is when the server loaded them.
pub record Environment : Type 0 where
  pub point_manager_contract_address : Option ℕ
  pub point_token_address : Option ℕ
  pub manager_wallet1_address : Option ℕ
  pub manager_wallet2_address : Option ℕ
  pub manager_wallet3_address : Option ℕ
  pub manager_wallet1_private_key : Option ℕ
  pub manager_wallet2_private_key : Option ℕ
  pub manager_wallet3_private_key : Option ℕ
  pub relayer_wallet1_private_key : Option ℕ
  pub relayer_wallet2_private_key : Option ℕ
  pub relayer_wallet3_private_key : Option ℕ
  pub max_manager_count : ℕ
  pub max_relayer_count : ℕ
  pub started : ℕ

-- The typed data that a manager signs.
pub record DepositPoint : Type 0 where
  pub account : ℕ
  pub amount : ℤ
  pub valid_until : ℕ
  pub manager : Option ℕ
  pub nonce : ℕ

-- ethers: the contract calls, the encoders, and the wallets.
pub record Ethers : Type 0 where
  pub eip712_domain : ℕ → Option ℕ
  pub nonces : ℕ → ℕ → Option ℕ
  pub sign_typed_data : ℕ → ℕ → DepositPoint → Option ℕ
  pub encode_deposit_point : ℕ → ℤ → ℕ → Option ℕ → ℕ → Option ℕ
  pub encode_withdraw_point : ℕ → ℤ → ℕ → ℕ → Option ℕ
  pub split_signature : ℕ → Option ℕ
  pub encode_permit : ℕ → ℕ → ℤ → ℕ → ℕ → Option ℕ
  pub encode_multicall : List ℕ → Option ℕ
  pub estimate : ℕ → ℕ → Option ℕ
  pub sign_multicall : ℕ → ℕ → List ℕ → Option (ℕ × ℕ)
  pub send_transaction : ℕ → ℕ → ℕ → Option ℕ
  pub broadcast_transaction : ℕ → Option ℕ

infixl 5 ◌>>=◌
abbrev ◌>>=◌ : {A B : Type 0} → Option A → (A → Option B) → Option B
none >>= f = none
some a >>= f = f a

module _ ⦃env : Environment⦄ where
  unfoldable pub valid_until_timestamp : ℕ
  valid_until_timestamp = env.started + 600

  unfoldable pub get_manager_address : ℕ → Option ℕ
  get_manager_address i =
      if i == 0
      then env.manager_wallet1_address
      else if i == 1
      then env.manager_wallet2_address
      else if i == 2
      then env.manager_wallet3_address
      else none

  unfoldable pub get_manager_private_key : ℕ → Option ℕ
  get_manager_private_key i =
      if i == 0
      then env.manager_wallet1_private_key
      else if i == 1
      then env.manager_wallet2_private_key
      else if i == 2
      then env.manager_wallet3_private_key
      else none

  unfoldable pub get_relayer_private_key : ℕ → Option ℕ
  get_relayer_private_key i =
      if i == 0
      then env.relayer_wallet1_private_key
      else if i == 1
      then env.relayer_wallet2_private_key
      else if i == 2
      then env.relayer_wallet3_private_key
      else none

module _ ⦃env : Environment⦄ ⦃eth : Ethers⦄ where
  -- The domain is kept after the first call, which the pure `eip712_domain` makes invisible.
  unfoldable pub get_eip712_domain : Option ℕ
  get_eip712_domain = env.point_manager_contract_address >>= eth.eip712_domain

  unfoldable pub get_signature_nonce : ℕ → Option ℕ
  get_signature_nonce a = env.point_manager_contract_address >>= λ c. eth.nonces c a

  unfoldable pub get_deposit_point_manager_signature : ℕ → ℕ → ℤ → ℕ → ℕ → Option ℕ
  unfolding get_manager_private_key get_manager_address valid_until_timestamp
  get_deposit_point_manager_signature domain a amount nonce i = get_manager_private_key i >>= λ key.
      eth.sign_typed_data key domain (record {
        account = a;
        amount = amount;
        valid_until = valid_until_timestamp;
        manager = get_manager_address i;
        nonce = nonce;
      })

  unfoldable pub get_deposit_point_calldata : ℕ → ℤ → ℕ → ℕ → ℕ → Option ℕ
  unfolding get_manager_address
  get_deposit_point_calldata a amount valid_until i signature =
      env.point_manager_contract_address >>= λ _.
      eth.encode_deposit_point a amount valid_until (get_manager_address i) signature

  unfoldable pub get_withdraw_point_calldata : ℕ → ℤ → ℕ → ℕ → Option ℕ
  get_withdraw_point_calldata a amount valid_until signature =
      env.point_manager_contract_address >>= λ _.
      eth.encode_withdraw_point a amount valid_until signature

  unfoldable pub get_permit_calldata : ℕ → ℤ → ℕ → ℕ → Option ℕ
  get_permit_calldata owner value deadline signature = do
    _ ← env.point_token_address
    spender ← env.point_manager_contract_address
    vrs ← eth.split_signature signature
    eth.encode_permit owner spender value deadline vrs

  unfoldable pub get_multicall_calldata : List ℕ → Option ℕ
  get_multicall_calldata calldatas =
      env.point_manager_contract_address >>= λ _. eth.encode_multicall calldatas

  unfoldable pub estimate_gas : ℕ → Option ℕ
  estimate_gas calldata = env.point_manager_contract_address >>= λ c. eth.estimate c calldata

  -- The raw transaction and its hash.
  unfoldable pub send_multicall_transaction : List ℕ → ℕ → Option (ℕ × ℕ)
  unfolding get_relayer_private_key
  send_multicall_transaction calldatas i = do
    key ← get_relayer_private_key i
    contract ← env.point_manager_contract_address
    eth.sign_multicall key contract calldatas

  unfoldable pub send_raw_transaction : ℕ → Option ℕ
  send_raw_transaction raw = eth.broadcast_transaction raw

  unfoldable pub send_permit_transaction : ℕ → ℕ → Option ℕ
  unfolding get_relayer_private_key
  send_permit_transaction calldata i = do
    token ← env.point_token_address
    key ← get_relayer_private_key i
    eth.send_transaction key token calldata
