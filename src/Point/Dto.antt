-- ===== src/Point/Dto.antt =====
-- The request and response DTOs of `PointService`, and its `map…` methods. Amounts are `BigInt(amount)`
-- of a decimal text on the way in and its `toString()` on the way out; the model keeps the integer.
use web3_point_exchange.Common.{ℕ, ℤ, Bool, Option}
use web3_point_exchange.Entities.{
  UserPoint, ConsumptionHistory, GrantHistory, UserSwapHistory, ConsumptionType, ConsumptionStatus,
  GrantType, GrantStatus, SwapType, SwapStatus,
}
use web3_point_exchange.Platform.{PermitData}

pub record CreateUserPointReq : Type 0 where
  pub user_id : ℕ
  pub wallet_address : Option ℕ
  pub amount : Option ℤ

pub record DepositPointsReq : Type 0 where
  pub user_id : ℕ
  pub wallet_address : ℕ
  pub amount : ℤ

pub record WithdrawPointsReq : Type 0 where
  pub user_id : ℕ
  pub wallet_address : ℕ
  pub amount : ℤ
  pub valid_until : ℕ
  pub signature : ℕ
  pub permit_data : Option PermitData

pub record ConsumePointReq : Type 0 where
  pub amount : ℤ
  pub type : ConsumptionType
  pub resource_id : Option ℕ

pub record GrantPointReq : Type 0 where
  pub amount : ℤ
  pub type : GrantType
  pub resource_id : Option ℕ

pub record ValidateUserReq : Type 0 where
  pub wallet_address : ℕ
  pub is_valid : Bool

pub record UserPointRes : Type 0 where
  pub user_point_id : ℕ
  pub user_id : ℕ
  pub balance : ℤ
  pub created_at : ℕ
  pub updated_at : ℕ

-- `resource_id || ''`: the empty text is `none`.
pub record ConsumptionHistoryRes : Type 0 where
  pub consumption_history_id : ℕ
  pub user_point_id : ℕ
  pub amount : ℤ
  pub type : ConsumptionType
  pub status : ConsumptionStatus
  pub resource_id : Option ℕ
  pub created_at : ℕ
  pub updated_at : ℕ

pub record GrantHistoryRes : Type 0 where
  pub grant_history_id : ℕ
  pub user_point_id : ℕ
  pub amount : ℤ
  pub type : GrantType
  pub status : GrantStatus
  pub resource_id : Option ℕ
  pub created_at : ℕ
  pub updated_at : ℕ

pub record UserSwapHistoryRes : Type 0 where
  pub user_swap_history_id : ℕ
  pub user_id : ℕ
  pub type : SwapType
  pub amount_point : ℤ
  pub amount_token : ℤ
  pub status : SwapStatus
  pub point_to_token_transaction_id : Option ℕ
  pub token_to_point_transaction_id : Option ℕ
  pub created_at : ℕ
  pub updated_at : ℕ

pub map_user_point : UserPoint → UserPointRes
map_user_point e = record {
  user_point_id = e.user_point_id;
  user_id = e.user_id;
  balance = e.balance;
  created_at = e.created_at;
  updated_at = e.updated_at;
}

pub map_consumption_history : ConsumptionHistory → ConsumptionHistoryRes
map_consumption_history e = record {
  consumption_history_id = e.consumption_history_id;
  user_point_id = e.user_point_id;
  amount = e.amount;
  type = e.type;
  status = e.status;
  resource_id = e.resource_id;
  created_at = e.created_at;
  updated_at = e.updated_at;
}

pub map_grant_history : GrantHistory → GrantHistoryRes
map_grant_history e = record {
  grant_history_id = e.grant_history_id;
  user_point_id = e.user_point_id;
  amount = e.amount;
  type = e.type;
  status = e.status;
  resource_id = e.resource_id;
  created_at = e.created_at;
  updated_at = e.updated_at;
}

-- The transactions' ids come from the relations, which only a query loads: an entity that was just
-- created has none.
unfoldable pub map_user_swap_history : UserSwapHistory → UserSwapHistoryRes
map_user_swap_history e = record {
  user_swap_history_id = e.user_swap_history_id;
  user_id = e.user_id;
  type = e.type;
  amount_point = e.amount_point;
  amount_token = e.amount_token;
  status = e.status;
  point_to_token_transaction_id = e.token_mint_history_id;
  token_to_point_transaction_id = e.token_burn_history_id;
  created_at = e.created_at;
  updated_at = e.updated_at;
}
