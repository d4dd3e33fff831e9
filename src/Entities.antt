-- ===== src/Entities.antt =====
-- The enums and the table rows of the backend: backend/src/modules/{point,swap,token}/constants.ts
-- and the entities beside them. Identifiers (UUIDs, serial ids, wallet addresses, transaction hashes,
-- resource ids) are only compared, so they are numbers; `bigint` columns are integers; dates are the
-- seconds of a clock.
use web3_point_exchange.Common.{ℕ, ℤ, Option, Bool, true, false}

pub data UserStatus : Type 0 where
  pending valid invalid : UserStatus

pub data ConsumptionType : Type 0 where
  shop_purchase event_participation : ConsumptionType

pub data ConsumptionStatus : Type 0 where
  pending completed failed : ConsumptionStatus

pub data GrantType : Type 0 where
  purchase_reward event_participation attendance_check : GrantType

pub data GrantStatus : Type 0 where
  pending completed failed : GrantStatus

pub data SwapType : Type 0 where
  point_to_token token_to_point : SwapType

pub data SwapStatus : Type 0 where
  pending completed failed : SwapStatus

pub data TokenStatus : Type 0 where
  processed confirmed finalized failed : TokenStatus

pub record User : Type 0 where
  pub user_id : ℕ
  pub wallet_address : ℕ
  pub status : UserStatus
  pub created_at : ℕ
  pub updated_at : ℕ

pub record UserPoint : Type 0 where
  pub user_point_id : ℕ
  pub user_id : ℕ
  pub balance : ℤ
  pub created_at : ℕ
  pub updated_at : ℕ

-- The relation `user_point` is kept by its foreign key.
pub record ConsumptionHistory : Type 0 where
  pub consumption_history_id : ℕ
  pub amount : ℤ
  pub type : ConsumptionType
  pub status : ConsumptionStatus
  pub resource_id : Option ℕ
  pub created_at : ℕ
  pub updated_at : ℕ
  pub user_point_id : ℕ

pub record GrantHistory : Type 0 where
  pub grant_history_id : ℕ
  pub amount : ℤ
  pub type : GrantType
  pub status : GrantStatus
  pub resource_id : Option ℕ
  pub created_at : ℕ
  pub updated_at : ℕ
  pub user_point_id : ℕ

-- The relations to the two kinds of transaction are kept by their foreign keys, which are columns.
pub record UserSwapHistory : Type 0 where
  pub user_swap_history_id : ℕ
  pub user_id : ℕ
  pub type : SwapType
  pub amount_point : ℤ
  pub amount_token : ℤ
  pub status : SwapStatus
  pub token_mint_history_id : Option ℕ
  pub token_burn_history_id : Option ℕ
  pub created_at : ℕ
  pub updated_at : ℕ

pub record PointToTokenTransaction : Type 0 where
  pub point_to_token_transaction_id : ℕ
  pub transaction_hash : Option ℕ
  pub status : TokenStatus
  pub amount : ℤ
  pub created_at : ℕ
  pub updated_at : ℕ

pub record TokenToPointTransaction : Type 0 where
  pub token_to_point_transaction_id : ℕ
  pub transaction_hash : Option ℕ
  pub status : TokenStatus
  pub amount : ℤ
  pub created_at : ℕ
  pub updated_at : ℕ

-- `===` on the enums.
abbrev pub is_valid : UserStatus → Bool
is_valid UserStatus.valid = true
is_valid _ = false

abbrev pub is_invalid : UserStatus → Bool
is_invalid UserStatus.invalid = true
is_invalid _ = false

abbrev pub is_pending : SwapStatus → Bool
is_pending SwapStatus.pending = true
is_pending _ = false

-- The numbers of the enums that queries compare.
abbrev pub consumption_type_value : ConsumptionType → ℕ
consumption_type_value ConsumptionType.shop_purchase = 1
consumption_type_value ConsumptionType.event_participation = 2

abbrev pub consumption_status_value : ConsumptionStatus → ℕ
consumption_status_value ConsumptionStatus.pending = 1
consumption_status_value ConsumptionStatus.completed = 2
consumption_status_value ConsumptionStatus.failed = 3

abbrev pub grant_type_value : GrantType → ℕ
grant_type_value GrantType.purchase_reward = 1
grant_type_value GrantType.event_participation = 2
grant_type_value GrantType.attendance_check = 3

abbrev pub grant_status_value : GrantStatus → ℕ
grant_status_value GrantStatus.pending = 1
grant_status_value GrantStatus.completed = 2
grant_status_value GrantStatus.failed = 3

abbrev pub swap_type_value : SwapType → ℕ
swap_type_value SwapType.point_to_token = 1
swap_type_value SwapType.token_to_point = 2

abbrev pub swap_status_value : SwapStatus → ℕ
swap_status_value SwapStatus.pending = 1
swap_status_value SwapStatus.completed = 2
swap_status_value SwapStatus.failed = 3

abbrev pub token_status_value : TokenStatus → ℕ
token_status_value TokenStatus.processed = 1
token_status_value TokenStatus.confirmed = 2
token_status_value TokenStatus.finalized = 3
token_status_value TokenStatus.failed = 4
