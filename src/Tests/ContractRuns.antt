-- ===== src/Tests/ContractRuns.antt =====
-- A deposit and its copy on a contract whose signatures are the nonces.
use web3_point_exchange.Common.{
  ℕ, ◌+◌, ◌*◌, ◌%◌, ◌≤◌, ◌<◌, ◌↔◌, pos, ◌/ℤ◌, arith, ◌≡◌, ◌≢◌, refl, sym, ◌∙◌, ap, true, false,
  ◌==◌, ==_iff, if◌then◌else◌, none, some, some_inj, List, [], ◌∷◌, Bool-cases, Option, inl, inr,
}
use web3_point_exchange.Contract.{
  PointMessage, deposit_message, withdraw_message, OpenZeppelin, Revert, PointDeposit, Caller,
  ManagerState, reverted, done, require, pay, deposit_point, deposits, pauses, call, after_call,
  transact_all, Multicall, calls, Transaction, single, multicall, transfers_ownership,
}
use web3_point_exchange.Contract.Payments.{DepositDone, deposit_point-DepositDone}
use web3_point_exchange.Contract.Rounding.{token_amount_of-Rounding}
use web3_point_exchange.Contract.Replay.{signature_pays_once}

abbrev nonce_of : PointMessage → ℕ
nonce_of (deposit_message account amount valid_until manager n) = n
nonce_of (withdraw_message account amount valid_until n) = n

abbrev next : ℕ → (ℕ → ℕ) → ℕ → ℕ
next a s b = if b == a then s b + 1 else s b

next_used : (a : ℕ) (s : ℕ → ℕ) → next a s a ≡ s a + 1
next_used a s = ap (λ t. if t then s a + 1 else s a) ((==_iff a a).1 refl)

next_others : (a b : ℕ) (s : ℕ → ℕ) → a ≢ b → next b s a ≡ s a
next_others a b s h = elim (Bool-cases (a == b)) [
  | inl e ↦ absurd (h ((==_iff a b).0 e))
  | inr e ↦ ap (λ t. if t then s a + 1 else s a) e
]

never : (a : ℕ) (s s' : ℕ → ℕ) → ◌≡◌ {A = Option (ℕ → ℕ)} none (some s') → s' a ≡ s a
never a s s' e = cc e

kept : (a : ℕ) (s s' : ℕ → ℕ) → ◌≡◌ {A = Option (ℕ → ℕ)} (some s) (some s') → s' a ≡ s a
kept a s s' e = ap (λ f. f a) (sym (some_inj.0 e))

-- The token is the list of its transfers.
instance abbrev plain : OpenZeppelin
plain = record {
  Base = ℕ → ℕ;
  owner = λ s. 1;
  paused = λ s. false;
  pause = λ s. none;
  unpause = λ s. none;
  nonces = λ a s. s a;
  use_nonce = next;
  hash_typed_data = nonce_of;
  is_valid_signature_now = λ a h g. h == g;
  Token = List (ℕ × ℕ);
  safe_transfer = λ a n t. some ((a, n) ∷ t);
  safe_transfer_from = λ a n t. some ((a, n) ∷ t);
  nonces_used = next_used;
  nonces_others = next_others;
  transfer_ownership = λ a b s. some s;
  renounce_ownership = λ a s. none;
  nonces_transferred = λ a b c. kept a;
  nonces_renounced = λ a b. never a;
  nonces_paused = never;
  nonces_unpaused = never;
}

instance abbrev batches : Multicall
batches = record { run = calls; run_law = λ ks c s. refl }

abbrev deployed : ManagerState
deployed = record {
  base = λ a. 0;
  exchange_rate = 100;
  is_point_manager_account = λ a. a == 9;
  is_valid_user = λ a. a == 100;
  token = [];
  events = [];
}

abbrev five_tokens : PointDeposit
five_tokens = record { account = 100; amount = 500; valid_until = 2000; manager = 9; signature = 0 }

abbrev anyone : Caller
anyone = record { sender = 5; timestamp = 1000 }

abbrev later : ManagerState
later = after_call (deposit_point five_tokens anyone deployed) deployed

accepted : deposit_point five_tokens anyone deployed ≡ done later
unfolding deposit_point require pay
accepted = refl

-- 500 points at a rate of 100 are five tokens of 10^18 wei.
sent : later.token ≡ (100, 5000000000000000000) ∷ []
unfolding deposit_point require pay
sent = refl

deposit_point-DepositDone_example : DepositDone five_tokens anyone deployed later
deposit_point-DepositDone_example =
    deposit_point-DepositDone five_tokens anyone deployed later accepted

one_nonce : (m n : ℕ) → (m == 0) ≡ true → (n == 0) ≡ true → m ≡ n
one_nonce m n e f = (==_iff m 0).0 e ∙ sym ((==_iff n 0).0 f)

-- A second deposit with the next nonce, and a transfer of the ownership.
abbrev meanwhile : List (Transaction × Caller)
meanwhile =
    (multicall (pauses ∷ []), anyone)
    ∷ (single (transfers_ownership 7), anyone)
    ∷ (multicall (deposits (record five_tokens { signature = 1 }) ∷ []), anyone)
    ∷ []

signature_pays_once_example :
    (r : Revert) × (call (deposits five_tokens) anyone (transact_all meanwhile later) ≡ reverted r)
signature_pays_once_example =
    signature_pays_once (deposits five_tokens) anyone anyone deployed later meanwhile one_nonce
      accepted

-- 150 points are one token for the backend, and one and a half for the contract.
token_amount_of-Rounding_example :
    (k : ℕ) × (pos 150 /ℤ 100 ≡ pos k)
    × (k * 1000000000000000000 ≤ 1500000000000000000)
    × (1500000000000000000 < (k + 1) * 1000000000000000000)
    × ((1500000000000000000 ≡ k * 1000000000000000000) ↔ (150 % 100 ≡ 0))
token_amount_of-Rounding_example =
    token_amount_of-Rounding 150 100 1500000000000000000 (omega arith) refl
