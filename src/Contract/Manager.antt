-- ===== src/Contract/Manager.antt =====
-- PointManagerImpl (blockchain/contracts/PointManagerImpl.sol). What it takes from OpenZeppelin and from
-- the token is a parameter. A call that reverts leaves everything as it was. The token and the check of a
-- signature do not call the contract back, so `nonReentrant` has nothing to stop. An upgrade, which
-- replaces the code, is not modelled.
use Prim.Native.Nat.{◌^◌}
use web3_point_exchange.Common.{
  ℕ, ◌+◌, ◌*◌, ◌/◌, ◌≡◌, ◌≢◌, Bool, true, false, not, ltb, leb, ◌==◌, if◌then◌else◌, Option, none,
  some, List, [], ◌∷◌, ◌++◌,
}

-- The typed data that is signed, each with its nonce.
pub data PointMessage : Type 0 where
  deposit_message : (account amount valid_until manager nonce : ℕ) → PointMessage
  withdraw_message : (account amount valid_until nonce : ℕ) → PointMessage

-- OwnableUpgradeable, PausableUpgradeable and NoncesUpgradeable with their state, EIP712Upgradeable,
-- SignatureChecker and SafeERC20 with that of the token; `none` is a revert.
pub record OpenZeppelin : Type 1 where
  pub Base : Type 0
  pub owner : Base → ℕ
  pub paused : Base → Bool
  pub pause : Base → Option Base
  pub unpause : Base → Option Base
  pub nonces : ℕ → Base → ℕ
  pub use_nonce : ℕ → Base → Base
  pub hash_typed_data : PointMessage → ℕ
  pub is_valid_signature_now : (signer hash signature : ℕ) → Bool
  pub Token : Type 0
  pub safe_transfer : (to amount : ℕ) → Token → Option Token
  pub safe_transfer_from : (from amount : ℕ) → Token → Option Token
  pub nonces_used : (a : ℕ) (s : Base) → nonces a (use_nonce a s) ≡ nonces a s + 1
  pub nonces_others : (a b : ℕ) (s : Base) → a ≢ b → nonces a (use_nonce b s) ≡ nonces a s
  pub nonces_paused : (a : ℕ) (s s' : Base) → pause s ≡ some s' → nonces a s' ≡ nonces a s
  pub transfer_ownership : (sender new_owner : ℕ) → Base → Option Base
  pub renounce_ownership : (sender : ℕ) → Base → Option Base
  pub nonces_transferred :
      (a sender new_owner : ℕ) (s s' : Base)
      → transfer_ownership sender new_owner s ≡ some s'
      → nonces a s' ≡ nonces a s
  pub nonces_renounced :
      (a sender : ℕ) (s s' : Base)
      → renounce_ownership sender s ≡ some s'
      → nonces a s' ≡ nonces a s
  pub nonces_unpaused : (a : ℕ) (s s' : Base) → unpause s ≡ some s' → nonces a s' ≡ nonces a s

pub data PointEvent : Type 0 where
  manager_granted manager_revoked exchange_rate_updated : ℕ → PointEvent
  valid_user_set : ℕ → Bool → PointEvent
  point_deposited point_withdrawn : (account amount token_amount : ℕ) → PointEvent

pub data Revert : Type 0 where
  not_owner enforced_pause wrong_pause zero_address already_manager no_manager zero_rate : Revert
  ownable_reverted zero_amount valid_is_expired invalid_user invalid_manager invalid_signature :
      Revert
  panic token_reverted : Revert

-- The arguments of `depositPoint` and `withdrawPoint`.
pub record PointDeposit : Type 0 where
  pub account : ℕ
  pub amount : ℕ
  pub valid_until : ℕ
  pub manager : ℕ
  pub signature : ℕ

pub record PointWithdrawal : Type 0 where
  pub account : ℕ
  pub amount : ℕ
  pub valid_until : ℕ
  pub signature : ℕ

-- `msg.sender` and `block.timestamp`.
pub record Caller : Type 0 where
  pub sender : ℕ
  pub timestamp : ℕ

-- Both factors are below 2 ^ 256; the product is checked, and so is the divisor.
abbrev pub token_amount_of : ℕ → ℕ → Option ℕ
token_amount_of amount rate =
    if ltb (amount * 1000000000000000000) (2 ^ 256)
    then if ltb 0 rate then some (amount * 1000000000000000000 / rate) else none
    else none

module _ ⦃z : OpenZeppelin⦄ where
  -- The storage of the contract, with its bases, its token and the events so far.
  pub record ManagerState : Type 0 where
    pub base : z.Base
    pub exchange_rate : ℕ
    pub is_point_manager_account : ℕ → Bool
    pub is_valid_user : ℕ → Bool
    pub token : z.Token
    pub events : List PointEvent

  pub data CallOutcome : Type 0 where
    reverted : Revert → CallOutcome
    done : ManagerState → CallOutcome

  unfoldable pub require : Bool → Revert → CallOutcome → CallOutcome
  require b r k = if b then k else reverted r

  abbrev pub with_event : PointEvent → ManagerState → CallOutcome
  with_event e s = done (record s { events = s.events ++ (e ∷ []) })

  abbrev pub put_flag : ℕ → Bool → (ℕ → Bool) → ℕ → Bool
  put_flag a v f b = if b == a then v else f b

  -- `onlyOwner`
  abbrev pub only_owner : Caller → ManagerState → CallOutcome → CallOutcome
  only_owner c s k = require (c.sender == z.owner s.base) not_owner k

  unfoldable pub grant_manager : ℕ → Caller → ManagerState → CallOutcome
  grant_manager account c s = only_owner c s (
      require (not (account == 0)) zero_address (
        require (not (s.is_point_manager_account account)) already_manager (
          with_event (manager_granted account) (record s {
            is_point_manager_account = put_flag account true s.is_point_manager_account;
          }))))

  unfoldable pub revoke_manager : ℕ → Caller → ManagerState → CallOutcome
  revoke_manager account c s = only_owner c s (
      require (not (account == 0)) zero_address (
        require (s.is_point_manager_account account) no_manager (
          with_event (manager_revoked account) (record s {
            is_point_manager_account = put_flag account false s.is_point_manager_account;
          }))))

  unfoldable pub set_exchange_rate : ℕ → Caller → ManagerState → CallOutcome
  set_exchange_rate rate c s = only_owner c s (
      require (ltb 0 rate) zero_rate
        (with_event (exchange_rate_updated rate) (record s { exchange_rate = rate })))

  unfoldable pub set_valid_user : ℕ → Bool → Caller → ManagerState → CallOutcome
  set_valid_user account valid c s = only_owner c s (
      require (not (account == 0)) zero_address (
        with_event (valid_user_set account valid)
          (record s { is_valid_user = put_flag account valid s.is_valid_user })))

  abbrev pub with_base : Revert → Option z.Base → ManagerState → CallOutcome
  with_base r none s = reverted r
  with_base r (some b) s = done (record s { base = b })

  unfoldable pub pause : Caller → ManagerState → CallOutcome
  pause c s = only_owner c s (with_base wrong_pause (z.pause s.base) s)

  unfoldable pub unpause : Caller → ManagerState → CallOutcome
  unpause c s = only_owner c s (with_base wrong_pause (z.unpause s.base) s)

  -- The transfer of the token, and the event.
  abbrev pub transferred : Option z.Token → PointEvent → ManagerState → CallOutcome
  transferred none e s = reverted token_reverted
  transferred (some t) e s = with_event e (record s { token = t })

  unfoldable pub pay :
      (ℕ → Option z.Token) → (ℕ → PointEvent) → Option ℕ → ManagerState → CallOutcome
  pay send event none s = reverted panic
  pay send event (some n) s = transferred (send n) (event n) s

  -- `_useNonce`, and the check of the signature of `signer`.
  abbrev pub signed_by :
      ℕ → (ℕ → PointMessage) → ℕ → ManagerState → (ManagerState → CallOutcome) → CallOutcome
  signed_by signer message signature s k =
      require
        (z.is_valid_signature_now signer (z.hash_typed_data (message (z.nonces signer s.base)))
          signature)
        invalid_signature (k (record s { base = z.use_nonce signer s.base }))

  unfoldable pub deposit_point : PointDeposit → Caller → ManagerState → CallOutcome
  deposit_point d c s = require (not (z.paused s.base)) enforced_pause (
      require (ltb 0 d.amount) zero_amount (
        require (leb c.timestamp d.valid_until) valid_is_expired (
          require (s.is_valid_user d.account) invalid_user (
            require (s.is_point_manager_account d.manager) invalid_manager (
              signed_by d.manager (deposit_message d.account d.amount d.valid_until d.manager)
                d.signature s
                (λ s'.
                  pay (λ n. z.safe_transfer d.account n s'.token)
                    (point_deposited d.account d.amount) (token_amount_of d.amount s'.exchange_rate)
                    s'))))))

  unfoldable pub withdraw_point : PointWithdrawal → Caller → ManagerState → CallOutcome
  withdraw_point d c s = require (not (z.paused s.base)) enforced_pause (
      require (ltb 0 d.amount) zero_amount (
        require (leb c.timestamp d.valid_until) valid_is_expired (
          require (s.is_valid_user d.account) invalid_user (
            signed_by d.account (withdraw_message d.account d.amount d.valid_until) d.signature s
              (λ s'.
                pay (λ n. z.safe_transfer_from d.account n s'.token)
                  (point_withdrawn d.account d.amount) (token_amount_of d.amount s'.exchange_rate)
                  s')))))
