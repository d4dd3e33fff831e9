-- ===== src/Frontend/Swap.antt =====
-- `useSwap` and `signEIP712`. What `console.error` prints has no effect.
use web3_point_exchange.Common.{
  ℕ, ℤ, pos, ◌+◌, ◌/◌, ◌/ℤ◌, ◌==◌, ◌||◌, true, false, Option, none, some, List, [], if◌then◌else◌,
  ltb_ℤ,
}
use web3_point_exchange.Frontend.Web.{
  Amount, not_positive, not_hundreds, big_int, Domain, TypedData, permit, withdraw_point,
  PermitBody, deposit, withdraw, histories, SwapHistoryItem, Json, Browser,
}
use web3_point_exchange.Frontend.Hooks.{
  SwapError, invalid_amount, not_in_hundreds, wallet_missing, domain_missing, token_missing,
  deposit_failed, withdraw_failed, permit_cancelled, withdraw_cancelled, histories_failed,
  not_connected, initial_state, Page, Try, returned, threw, Run, ◌>>=◌, pure, throw,
  or_library_error, read, set_state, fetch, json_of, ok_body, wallet_answer,
}

module _ ⦃b : Browser⦄ where
  unfoldable pub sign_eip712 : TypedData → Run (Option ℕ)
  sign_eip712 d p = elim b.address [
    | none ↦ (threw not_connected, p)
    | some a ↦
        if b.is_connected
        then wallet_answer d p (b.sign_typed_data d p.outside)
        else (threw not_connected, p)
  ]

  abbrev pub or_empty : Option (List SwapHistoryItem) → List SwapHistoryItem
  or_empty none = []
  or_empty (some hs) = hs

  abbrev pub keep_histories : Try Json × Page → Page
  keep_histories (threw m, p) = p
  keep_histories (returned j, p) = record p {
    hook = record (p.hook) { swap_history = or_empty j.histories };
  }

  unfoldable pub fetch_swap_history : Option ℕ → Page → Page
  unfolding ok_body
  fetch_swap_history i p =
      keep_histories
        ((fetch (histories i) >>= λ a. if a.is_ok then json_of a else throw histories_failed) p)

  -- The end of the `try` and the `catch` of the two exchanges.
  unfoldable pub finish : Try Json × Page → Page
  unfolding fetch_swap_history
  finish (returned j, p) =
      fetch_swap_history none (
        set_state (λ s. record s { is_loading = false; success = true; last_swap_id = j.swap_id })
          p)
  finish (threw m, p) = set_state (λ s. record s { is_loading = false; error = some m }) p

  abbrev pub loading : Page → Page
  loading = set_state (λ s. record s { is_loading = true; error = none; success = false })

  abbrev pub show_error : SwapError → Page → Page
  show_error m = set_state (λ s. record s { error = some m })

  unfoldable pub use_swap_deposit_points : ℕ → ℕ → Amount → Page → Page
  unfolding finish ok_body
  use_swap_deposit_points user wallet amount p =
      if (user == 0) || ((wallet == 0) || not_positive amount)
      then show_error invalid_amount p
      else if not_hundreds amount
      then show_error not_in_hundreds p
      else finish (
          (fetch (deposit (record { user_id = user; wallet_address = wallet; amount = amount }))
              >>= ok_body deposit_failed)
            (loading p))

  -- `if (!signature) { throw … }`
  abbrev pub or_cancelled : SwapError → Option ℕ → Run ℕ
  or_cancelled m none = throw m
  or_cancelled m (some s) = if s == 0 then throw m else pure s

  -- `Math.floor(Date.now() / 1000) + 600`
  abbrev pub in_ten_minutes : Page → ℕ
  in_ten_minutes p = (b.date_now p.outside / 1000) + 600

  abbrev pub deadline_now : Run ℕ
  deadline_now p = (returned (in_ten_minutes p), p)

  -- The part of `withdrawPoints` for a short allowance.
  unfoldable pub request_permit : ℕ → ℕ → ℕ → Run PermitBody
  unfolding sign_eip712
  request_permit token account manager = read (b.read_domain token) >>= λ domain.
      read (b.read_nonce token account) >>= λ nonce. deadline_now >>= λ deadline.
      sign_eip712 (
        permit domain (record {
          owner = account;
          spender = manager;
          value = b.parse_ether 10000000;
          nonce = nonce;
          deadline = deadline;
        }))
      >>= or_cancelled permit_cancelled
      >>= λ s. pure (record {
        owner = account;
        value = b.parse_ether 10000000;
        deadline = deadline;
        signature = s;
      })

  -- `if (currentAllowance < requiredTokenAmount)`
  unfoldable pub permit_if_short : ℕ → ℕ → ℕ → ℤ → Run (Option PermitBody)
  unfolding request_permit
  permit_if_short token account manager required =
      read (b.read_allowance token account manager) >>= λ allowance.
      let asked = request_permit token account manager >>= λ x. pure (some x) in
      if ltb_ℤ (pos allowance) required then asked else pure none

  -- The signature of the withdrawal, and the request.
  unfoldable pub post_withdrawal : Domain → ℕ → ℕ → ℕ → Amount → ℤ → Option PermitBody → Run Json
  unfolding sign_eip712 ok_body
  post_withdrawal domain manager account user amount n permit_data =
      read (b.read_nonce manager account) >>= λ nonce. deadline_now >>= λ valid_until.
      sign_eip712 (
        withdraw_point domain
          (record { account = account; amount = n; valid_until = valid_until; nonce = nonce }))
      >>= or_cancelled withdraw_cancelled
      >>= λ s.
          fetch (
            withdraw (record {
              user_id = user;
              wallet_address = account;
              amount = amount;
              valid_until = valid_until;
              signature = s;
              permit_data = permit_data;
            }))
          >>= ok_body withdraw_failed

  -- The body of the `try`. Without the address of the manager the read of the allowance throws.
  unfoldable pub try_withdraw : Domain → Option ℕ → ℕ → ℕ → ℕ → Amount → Run Json
  unfolding permit_if_short post_withdrawal
  try_withdraw domain manager_address token account user amount =
      or_library_error (big_int amount) >>= λ n. or_library_error manager_address >>= λ manager.
      permit_if_short token account manager (n /ℤ 100) >>= λ permit_data.
      post_withdrawal domain manager account user amount n permit_data

  unfoldable pub use_swap_withdraw_points : ℕ → Amount → Page → Page
  unfolding finish try_withdraw
  use_swap_withdraw_points user amount p =
      if (user == 0) || not_positive amount
      then show_error invalid_amount p
      else if not_hundreds amount
      then show_error not_in_hundreds p
      else elim b.address [
        | none ↦ show_error wallet_missing p
        | some account ↦ elim p.hook.eip712_domain [
          | none ↦ show_error domain_missing p
          | some domain ↦ elim b.bloom_token_address [
            | none ↦ show_error token_missing p
            | some token ↦
                finish (
                  try_withdraw domain b.point_manager_address token account user amount (loading p))
          ]
        ]
      ]

  abbrev pub keep_contract_info : Domain → Try ℕ × Page → Page
  keep_contract_info d (returned n, p) = record p {
    hook = record (p.hook) { eip712_domain = some d; user_nonce = some n };
  }
  keep_contract_info d (threw m, p) = record p { hook = record (p.hook) { eip712_domain = some d } }

  unfoldable pub fetch_contract_info : Page → Page
  fetch_contract_info p = elim b.point_manager_address [
    | none ↦ p
    | some manager ↦ elim b.address [
      | none ↦ p
      | some account ↦ elim (b.read_domain manager p.outside) [
        | none ↦ p
        | some d ↦ keep_contract_info d (read (b.read_nonce manager account) p)
      ]
    ]
  ]

  unfoldable pub reset_state : Page → Page
  reset_state = set_state (λ s. initial_state)
