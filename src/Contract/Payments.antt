-- ===== src/Contract/Payments.antt =====
-- What the calls that the contract (blockchain/contracts/PointManagerImpl.sol) accepts have passed.
use Prim.Native.Nat.{◌^◌}
use web3_point_exchange.Common.{
  ℕ, ◌*◌, ◌/◌, ◌≤◌, ◌<◌, ◌≡◌, refl, sym, ap, Bool, true, false, not, ltb, leb, if◌then◌else◌,
  Option, none, some, some_inj, [], ◌∷◌, ◌++◌, arith,
}
use web3_point_exchange.Contract.{
  PointMessage, deposit_message, withdraw_message, OpenZeppelin, PointEvent, point_deposited,
  point_withdrawn, PointDeposit, PointWithdrawal, Caller, token_amount_of, ManagerState, done,
  transferred, pay, deposit_point, withdraw_point, after_call,
}
use web3_point_exchange.Contract.Nonces.{require-done}

-- The tokens for an amount of points at a rate: the rate is not 0, and the product fits in 256 bits.
abbrev pub IsWorth : ℕ → ℕ → ℕ → Type 0
IsWorth amount rate n =
    (amount * 1000000000000000000 < 2 ^ 256)
    × (0 < rate)
    × (n ≡ amount * 1000000000000000000 / rate)

both_true :
    (x y : Bool) (v n : ℕ)
    → ◌≡◌ {A = Option ℕ} (if x then if y then some v else none else none) (some n)
    → (x ≡ true) × (y ≡ true) × (n ≡ v)
both_true true true v n e = (refl, refl, sym (some_inj.0 e))
both_true true false v n e = cc
both_true false y v n e = cc

below : (m n : ℕ) → ltb m n ≡ true → m < n
below m n e = ground arith

pub token_amount_of-IsWorth :
    (amount rate n : ℕ) → token_amount_of amount rate ≡ some n → IsWorth amount rate n
token_amount_of-IsWorth amount rate n e =
    let (a, b, q) =
      both_true (ltb (amount * 1000000000000000000) (2 ^ 256)) (ltb 0 rate)
        (amount * 1000000000000000000 / rate) n e in
    (below (amount * 1000000000000000000) (2 ^ 256) a, below 0 rate b, q)

module _ ⦃z : OpenZeppelin⦄ where
  -- What is on the chain after a payment: a nonce of the signer is used, the token has changed, and the
  -- event is there.
  abbrev pub paid : ℕ → z.Token → PointEvent → ManagerState → ManagerState
  paid signer t e s = record s {
    base = z.use_nonce signer s.base;
    token = t;
    events = s.events ++ (e ∷ []);
  }

  -- A payment by `signer` of the tokens for an amount.
  abbrev pub PaymentDone :
      (signer amount : ℕ) (send : ℕ → Option z.Token) (event : ℕ → PointEvent)
      → ManagerState
      → ManagerState
      → Type 0
  PaymentDone signer amount send event s s' =
      (n : ℕ) × (t : z.Token) × IsWorth amount s.exchange_rate n
      × (send n ≡ some t)
      × (s' ≡ paid signer t (event n) s)

  -- What every payment has passed, with the signature of `signer` for the message with its nonce.
  abbrev pub Passed :
      (account amount valid_until signer signature : ℕ) (message : ℕ → PointMessage)
      → Caller
      → ManagerState
      → Type 0
  Passed account amount valid_until signer signature message c s =
      (z.paused s.base ≡ false)
      × (0 < amount)
      × (c.timestamp ≤ valid_until)
      × (s.is_valid_user account ≡ true)
      × (z.is_valid_signature_now signer (z.hash_typed_data (message (z.nonces signer s.base)))
            signature
          ≡ true)

  abbrev pub DepositDone : PointDeposit → Caller → ManagerState → ManagerState → Type 0
  DepositDone d c s s' =
      Passed d.account d.amount d.valid_until d.manager d.signature
        (deposit_message d.account d.amount d.valid_until d.manager) c s
      × (s.is_point_manager_account d.manager ≡ true)
      × PaymentDone d.manager d.amount (λ n. z.safe_transfer d.account n s.token)
          (point_deposited d.account d.amount) s s'

  abbrev pub WithdrawalDone : PointWithdrawal → Caller → ManagerState → ManagerState → Type 0
  WithdrawalDone d c s s' =
      Passed d.account d.amount d.valid_until d.account d.signature
        (withdraw_message d.account d.amount d.valid_until) c s
      × PaymentDone d.account d.amount (λ n. z.safe_transfer_from d.account n s.token)
          (point_withdrawn d.account d.amount) s s'

  done_inj : (s s' : ManagerState) → done s ≡ done s' → s' ≡ s
  done_inj s s' e = sym (ap (λ o. after_call o s) e)

  pay-PaymentDone :
      (signer amount : ℕ) (send : ℕ → Option z.Token) (event : ℕ → PointEvent) (s s' : ManagerState)
      → pay send event
          (token_amount_of amount s.exchange_rate)
          (record s { base = z.use_nonce signer s.base })
        ≡ done s'
      → PaymentDone signer amount send event s s'
  unfolding pay
  pay-PaymentDone signer amount send event s s' e =
      go (token_amount_of amount s.exchange_rate) refl e
    where
      sent :
          (n : ℕ) (o : Option z.Token)
          → send n ≡ o
          → transferred o (event n) (record s { base = z.use_nonce signer s.base }) ≡ done s'
          → (t : z.Token) × (send n ≡ some t) × (s' ≡ paid signer t (event n) s)
      sent n none q e = cc
      sent n (some t) q e = (t, q, done_inj _ s' e)

      go :
          (o : Option ℕ)
          → token_amount_of amount s.exchange_rate ≡ o
          → pay send event o (record s { base = z.use_nonce signer s.base }) ≡ done s'
          → PaymentDone signer amount send event s s'
      go none q e = cc
      go (some n) q e =
          let (t, k, r) = sent n (send n) refl e in
          (n, t, token_amount_of-IsWorth amount s.exchange_rate n q, k, r)

  not-false : (b : Bool) → not b ≡ true → b ≡ false
  not-false b e = ground arith

  in_time : (m n : ℕ) → leb m n ≡ true → m ≤ n
  in_time m n e = ground arith

  -- A deposit that the contract accepts: it is not paused, the amount is positive, the time
  -- limit has not passed, the account is a valid user, the manager is a manager and has signed
  -- the message with its current nonce; the rate is not 0 and the product of the amount and
  -- 10^18 fits in 256 bits; the quotient of the two was sent to the account, the nonce of the
  -- manager is used, the event is there, and nothing else has changed.
  pub deposit_point-DepositDone :
      (d : PointDeposit) (c : Caller) (s s' : ManagerState)
      → deposit_point d c s ≡ done s'
      → DepositDone d c s s'
  unfolding deposit_point
  deposit_point-DepositDone d c s s' e =
      let (g1, e1) = require-done _ _ _ s' e in
      let (g2, e2) = require-done _ _ _ s' e1 in
      let (g3, e3) = require-done _ _ _ s' e2 in
      let (g4, e4) = require-done _ _ _ s' e3 in
      let (g5, e5) = require-done _ _ _ s' e4 in
      let (g6, e6) = require-done _ _ _ s' e5 in
      (
        (
          not-false (z.paused s.base) g1,
          below 0 d.amount g2,
          in_time c.timestamp d.valid_until g3,
          g4,
          g6,
        ),
        g5,
        pay-PaymentDone d.manager d.amount (λ n. z.safe_transfer d.account n s.token)
            (point_deposited d.account d.amount) s s' e6,
      )

  pub withdraw_point-WithdrawalDone :
      (d : PointWithdrawal) (c : Caller) (s s' : ManagerState)
      → withdraw_point d c s ≡ done s'
      → WithdrawalDone d c s s'
  unfolding withdraw_point
  withdraw_point-WithdrawalDone d c s s' e =
      let (g1, e1) = require-done _ _ _ s' e in
      let (g2, e2) = require-done _ _ _ s' e1 in
      let (g3, e3) = require-done _ _ _ s' e2 in
      let (g4, e4) = require-done _ _ _ s' e3 in
      let (g5, e5) = require-done _ _ _ s' e4 in
      (
        (
          not-false (z.paused s.base) g1,
          below 0 d.amount g2,
          in_time c.timestamp d.valid_until g3,
          g4,
          g5,
        ),
        pay-PaymentDone d.account d.amount (λ n. z.safe_transfer_from d.account n s.token)
            (point_withdrawn d.account d.amount) s s' e5,
      )
