-- ===== src/Tests/Data.antt =====
-- A small world: two users with points, three swap histories, one transaction of each kind.
use web3_point_exchange.Common.{pos, true, none, some, [], ◌∷◌, ◌==◌, if◌then◌else◌}
use web3_point_exchange.Entities.{
  User, UserStatus, UserPoint, UserSwapHistory, SwapType, SwapStatus, PointToTokenTransaction,
  TokenToPointTransaction, TokenStatus, ConsumptionType, GrantType,
}
use web3_point_exchange.Point.{
  DepositPointsReq, WithdrawPointsReq, ConsumePointReq, GrantPointReq, ValidateUserReq,
}
use web3_point_exchange.World.{World, Db}

abbrev pub alice : User
alice = record {
  user_id = 1;
  wallet_address = 100;
  status = UserStatus.valid;
  created_at = 5;
  updated_at = 5;
}

abbrev pub bob : User
bob = record {
  user_id = 2;
  wallet_address = 200;
  status = UserStatus.pending;
  created_at = 6;
  updated_at = 6;
}

abbrev pub alice_point : UserPoint
alice_point = record {
  user_point_id = 10;
  user_id = 1;
  balance = pos 500;
  created_at = 5;
  updated_at = 5;
}

abbrev pub bob_point : UserPoint
bob_point = record {
  user_point_id = 11;
  user_id = 2;
  balance = pos 50;
  created_at = 6;
  updated_at = 6;
}

-- Waiting for its transaction, which is on the chain but not confirmed.
abbrev pub minting : UserSwapHistory
minting = record {
  user_swap_history_id = 20;
  user_id = 1;
  type = SwapType.point_to_token;
  amount_point = pos 100;
  amount_token = pos 1;
  status = SwapStatus.pending;
  token_mint_history_id = some 30;
  token_burn_history_id = none;
  created_at = 7;
  updated_at = 7;
}

abbrev pub settled : UserSwapHistory
settled = record minting {
  user_swap_history_id = 21;
  status = SwapStatus.completed;
  token_mint_history_id = none;
  created_at = 8;
}

-- Not signed yet.
abbrev pub waiting : UserSwapHistory
waiting = record minting {
  user_swap_history_id = 22;
  user_id = 2;
  token_mint_history_id = none;
  created_at = 9;
}

abbrev pub mint : PointToTokenTransaction
mint = record {
  point_to_token_transaction_id = 30;
  transaction_hash = some 900;
  status = TokenStatus.processed;
  amount = pos 1;
  created_at = 8;
  updated_at = 8;
}

abbrev pub burn : TokenToPointTransaction
burn = record {
  token_to_point_transaction_id = 40;
  transaction_hash = some 901;
  status = TokenStatus.processed;
  amount = pos 1;
  created_at = 8;
  updated_at = 8;
}

abbrev pub tables : Db
tables = record {
  users = alice ∷ bob ∷ [];
  user_points = alice_point ∷ bob_point ∷ [];
  consumption_histories = [];
  grant_histories = [];
  user_swap_histories = minting ∷ settled ∷ waiting ∷ [];
  point_to_token_transactions = mint ∷ [];
  token_to_point_transactions = burn ∷ [];
}

-- The balance of `alice` is cached.
abbrev pub start : World
start = record {
  db = tables;
  working = tables;
  cache = λ u. if u == 1 then some (pos 500) else none;
  sent = [];
  locks = [];
  now = 50;
}

abbrev pub deposit : DepositPointsReq
deposit = record { user_id = 1; wallet_address = 100; amount = pos 200 }

abbrev pub withdrawal : WithdrawPointsReq
withdrawal = record {
  user_id = 1;
  wallet_address = 100;
  amount = pos 200;
  valid_until = 99;
  signature = 7;
  permit_data = none;
}

abbrev pub consumption : ConsumePointReq
consumption = record {
  amount = pos 120;
  type = ConsumptionType.shop_purchase;
  resource_id = some 3;
}

abbrev pub second_consumption : ConsumePointReq
second_consumption = record consumption { amount = pos 30 }

abbrev pub grant : GrantPointReq
grant = record { amount = pos 70; type = GrantType.attendance_check; resource_id = none }

abbrev pub validation : ValidateUserReq
validation = record { wallet_address = 200; is_valid = true }
