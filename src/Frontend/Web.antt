-- ===== src/Frontend/Web.antt =====
-- What the hooks take from outside: the wallet (wagmi), the chain (viem), fetch and the clock; and the
-- state of a hook with the calls that it makes. Texts and addresses are numbers, 0 is the empty text.
use web3_point_exchange.Common.{
  ℕ, ℤ, pos, negsuc, ◌%◌, ◌==◌, Bool, true, false, not, Option, none, some, List, zero, suc,
}

-- A number of JavaScript; `true` for a positive fraction or infinity.
pub data Amount : Type 0 where
  integer : ℤ → Amount
  fraction infinity : Bool → Amount
  nan : Amount

-- `!amount || amount <= 0`
abbrev pub not_positive : Amount → Bool
not_positive (integer (pos zero)) = true
not_positive (integer (pos (suc n))) = false
not_positive (integer (negsuc n)) = true
not_positive (fraction p) = not p
not_positive (infinity p) = not p
not_positive nan = true

-- `amount % 100 !== 0`
abbrev pub not_hundreds : Amount → Bool
not_hundreds (integer (pos n)) = not (n % 100 == 0)
not_hundreds (integer (negsuc n)) = not (suc n % 100 == 0)
not_hundreds (fraction p) = true
not_hundreds (infinity p) = true
not_hundreds nan = true

-- `BigInt(amount)`, which throws on what is not an integer.
abbrev pub big_int : Amount → Option ℤ
big_int (integer i) = some i
big_int (fraction p) = none
big_int (infinity p) = none
big_int nan = none

-- `EIP712Domain`
pub record Domain : Type 0 where
  pub name : ℕ
  pub version : ℕ
  pub chain_id : ℕ
  pub verifying_contract : ℕ

pub record PermitMessage : Type 0 where
  pub owner : ℕ
  pub spender : ℕ
  pub value : ℕ
  pub nonce : ℕ
  pub deadline : ℕ

pub record WithdrawMessage : Type 0 where
  pub account : ℕ
  pub amount : ℤ
  pub valid_until : ℕ
  pub nonce : ℕ

-- `SignEIP712Params`, by its primary type.
pub data TypedData : Type 0 where
  permit : Domain → PermitMessage → TypedData
  withdraw_point : Domain → WithdrawMessage → TypedData

pub record PermitBody : Type 0 where
  pub owner : ℕ
  pub value : ℕ
  pub deadline : ℕ
  pub signature : ℕ

pub record DepositBody : Type 0 where
  pub user_id : ℕ
  pub wallet_address : ℕ
  pub amount : Amount

pub record WithdrawBody : Type 0 where
  pub user_id : ℕ
  pub wallet_address : ℕ
  pub amount : Amount
  pub valid_until : ℕ
  pub signature : ℕ
  pub permit_data : Option PermitBody

pub data HttpCall : Type 0 where
  deposit : DepositBody → HttpCall
  withdraw : WithdrawBody → HttpCall
  histories : Option ℕ → HttpCall

-- An item of the swap history, as the hook keeps it.
pub data ItemType : Type 0 where
  deposit_item withdraw_item : ItemType

pub data ItemStatus : Type 0 where
  pending_item success_item failed_item : ItemStatus

pub record SwapHistoryItem : Type 0 where
  pub id : ℕ
  pub type : ItemType
  pub amount : Amount
  pub token_amount : Amount
  pub timestamp : ℕ
  pub status : ItemStatus
  pub tx_hash : Option ℕ

-- The fields that the hooks read of a JSON body; a missing one is undefined.
pub record Json : Type 0 where
  pub message : Option ℕ
  pub swap_id : Option ℕ
  pub histories : Option (List SwapHistoryItem)

-- `json` is `none` when `response.json()` throws.
pub record Answer : Type 0 where
  pub is_ok : Bool
  pub json : Option Json

-- The wallet signs, its user rejects, or it fails.
pub data WalletReply : Type 0 where
  signature : ℕ → WalletReply
  user_rejected wallet_failed : WalletReply

-- `none` when a call throws.
pub record Browser : Type 1 where
  pub Outside : Type 0
  pub fetch : HttpCall → Outside → Option Answer × Outside
  pub read_domain : ℕ → Outside → Option Domain
  pub read_nonce : ℕ → ℕ → Outside → Option ℕ
  pub read_allowance : ℕ → ℕ → ℕ → Outside → Option ℕ
  pub sign_typed_data : TypedData → Outside → WalletReply × Outside
  pub date_now : Outside → ℕ
  pub parse_ether : ℕ → ℕ
  pub address : Option ℕ
  pub is_connected : Bool
  pub point_manager_address : Option ℕ
  pub bloom_token_address : Option ℕ
