-- ===== src/Api/Controllers.antt =====
-- The methods of the controllers: each reads its part of the request and calls one service method.
use web3_point_exchange.Common.{ℕ, ℤ, Bool, Option, none, some, List, [], ◌∷◌}
use web3_point_exchange.Platform.{Platform}
use web3_point_exchange.Repositories.ConsumptionHistories
use web3_point_exchange.Repositories.GrantHistories
use web3_point_exchange.Repositories.UserSwapHistories
use web3_point_exchange.Repositories.PointToTokenTransactions
use web3_point_exchange.Repositories.TokenToPointTransactions
use web3_point_exchange.Point.{
  ListRes, UserPointRes, ConsumptionHistoryRes, GrantHistoryRes, UserSwapHistoryRes,
  CreateUserPointReq, DepositPointsReq, WithdrawPointsReq, ConsumePointReq, GrantPointReq,
  ValidateUserReq, get_user_points, get_user_point, create_user_point, get_consumption_histories,
  get_consumption_history, deposit_points, withdraw_points, consume_point, rollback_consumption,
  get_grant_histories, get_grant_history, grant_point, rollback_grant, get_point_balance,
  validate_user,
}
use web3_point_exchange.Token.{
  PointToTokenRes, TokenToPointRes, Outcome, EventLog, get_user_swap_histories,
  get_user_swap_history, get_point_to_token_transactions, get_point_to_token_transaction,
  process_point_to_token_transaction, get_token_to_point_transactions,
  get_token_to_point_transaction, process_token_to_point_transaction,
}
use web3_point_exchange.World.{
  World, Action, Result, ok, ◌>>=◌, pure, throw, chain_rejected, not_implemented,
}
use web3_point_exchange.Api.Routes.{
  Segment, ParamName, Pattern, lit, param, Method, Handler, get_health, of_point, of_swap, of_token,
  of_blockchain, of_scheduler, PointHandler, SwapHandler, TokenHandler, BlockchainHandler,
  SchedulerHandler, Router, dispatch,
}

-- What the path parameters are, as texts.
pub record Params : Type 0 where
  pub user_point_id : ℕ
  pub consumption_history_id : ℕ
  pub grant_history_id : ℕ
  pub user_swap_history_id : ℕ
  pub point_to_token_transaction_id : ℕ
  pub token_to_point_transaction_id : ℕ

-- What the query and the JSON body read as, for each of the DTOs.
pub record Fields : Type 0 where
  pub user_points : Option ℕ
  pub create_user_point : CreateUserPointReq
  pub consumption_histories : ConsumptionHistories.Query
  pub deposit_points : DepositPointsReq
  pub withdraw_points : WithdrawPointsReq
  pub consume_point : ConsumePointReq
  pub grant_histories : GrantHistories.Query
  pub grant_point : GrantPointReq
  pub user_id : ℕ
  pub validate_user : ValidateUserReq
  pub user_swap_histories : UserSwapHistories.Query
  pub point_to_token_transactions : PointToTokenTransactions.Query
  pub token_to_point_transactions : TokenToPointTransactions.Query
  pub transaction_hash : ℕ
  pub event_logs : List EventLog

-- The body of a response.
pub data Reply : Type 0 where
  health_reply : ℕ → Reply
  user_points_reply : ListRes UserPointRes → Reply
  user_point_reply : UserPointRes → Reply
  consumption_histories_reply : ListRes ConsumptionHistoryRes → Reply
  consumption_history_reply : ConsumptionHistoryRes → Reply
  grant_histories_reply : ListRes GrantHistoryRes → Reply
  grant_history_reply : GrantHistoryRes → Reply
  user_swap_histories_reply : ListRes UserSwapHistoryRes → Reply
  user_swap_history_reply : UserSwapHistoryRes → Reply
  balance_reply : ℤ → Reply
  point_to_token_transactions_reply : ListRes PointToTokenRes → Reply
  point_to_token_transaction_reply : PointToTokenRes → Reply
  token_to_point_transactions_reply : ListRes TokenToPointRes → Reply
  token_to_point_transaction_reply : TokenToPointRes → Reply
  success_reply : Bool → Reply
  outcome_reply : Outcome → Reply
  provider_reply : (network block_number : ℕ) → Reply
  test_reply : ℕ → Reply

-- `AppService.getHealth`, with the time as its timestamp.
abbrev pub health_of : Action Reply
health_of w = (ok (health_reply w.now), w)

-- The texts of the parts of a path, the rate of the exchange, and what the provider of the chain answers
-- at a time, `none` when it rejects.
pub record Server : Type 0 where
  pub text : Segment → ℕ
  pub rate : ℕ
  pub no_params : Params
  pub get_network : ℕ → Option ℕ
  pub get_block_number : ℕ → Option ℕ

abbrev pub set_param : ParamName → ℕ → Params → Params
set_param ParamName.user_point_id v ps = record ps { user_point_id = v }
set_param ParamName.consumption_history_id v ps = record ps { consumption_history_id = v }
set_param ParamName.grant_history_id v ps = record ps { grant_history_id = v }
set_param ParamName.user_swap_history_id v ps = record ps { user_swap_history_id = v }
set_param ParamName.point_to_token_transaction_id v ps = record ps {
  point_to_token_transaction_id = v;
}
set_param ParamName.token_to_point_transaction_id v ps = record ps {
  token_to_point_transaction_id = v;
}

module _ ⦃s : Server⦄ where
  abbrev pub read_params : List Pattern → List Segment → Params
  read_params [] ss = s.no_params
  read_params (p ∷ ps) [] = s.no_params
  read_params (lit w ∷ ps) (x ∷ xs) = read_params ps xs
  read_params (param n ∷ ps) (x ∷ xs) = set_param n (s.text x) (read_params ps xs)

module _ ⦃p : Platform⦄ ⦃s : Server⦄ where
  unfoldable pub call_point : PointHandler → Params → Fields → Action Reply
  call_point PointHandler.get_user_points ps f =
      get_user_points f.user_points >>= λ r. pure (user_points_reply r)
  call_point PointHandler.get_user_point ps f =
      get_user_point ps.user_point_id >>= λ r. pure (user_point_reply r)
  call_point PointHandler.create_user_point ps f =
      create_user_point f.create_user_point >>= λ r. pure (user_point_reply r)
  call_point PointHandler.get_consumption_histories ps f =
      get_consumption_histories ps.user_point_id f.consumption_histories >>= λ r.
      pure (consumption_histories_reply r)
  call_point PointHandler.get_consumption_history ps f =
      get_consumption_history ps.user_point_id ps.consumption_history_id >>= λ r.
      pure (consumption_history_reply r)
  call_point PointHandler.deposit_points ps f =
      deposit_points s.rate f.deposit_points >>= λ r. pure (user_swap_history_reply r)
  call_point PointHandler.withdraw_points ps f =
      withdraw_points s.rate f.withdraw_points >>= λ r. pure (user_swap_history_reply r)
  call_point PointHandler.consume_point ps f =
      consume_point ps.user_point_id f.consume_point >>= λ r. pure (consumption_history_reply r)
  call_point PointHandler.rollback_consumption ps f =
      rollback_consumption ps.user_point_id ps.consumption_history_id >>= λ r.
      pure (consumption_history_reply r)
  call_point PointHandler.get_grant_histories ps f =
      get_grant_histories ps.user_point_id f.grant_histories >>= λ r. pure (grant_histories_reply r)
  call_point PointHandler.get_grant_history ps f =
      get_grant_history ps.user_point_id ps.grant_history_id >>= λ r. pure (grant_history_reply r)
  call_point PointHandler.grant_point ps f =
      grant_point ps.user_point_id f.grant_point >>= λ r. pure (grant_history_reply r)
  call_point PointHandler.rollback_grant ps f =
      rollback_grant ps.user_point_id ps.grant_history_id >>= λ r. pure (grant_history_reply r)
  call_point PointHandler.get_point_balance ps f =
      get_point_balance f.user_id >>= λ r. pure (balance_reply r)
  call_point PointHandler.validate_user ps f =
      validate_user f.validate_user >>= λ r. pure (success_reply r)

  unfoldable pub call_swap : SwapHandler → Params → Fields → Action Reply
  call_swap SwapHandler.get_user_swap_histories ps f =
      get_user_swap_histories f.user_swap_histories >>= λ r. pure (user_swap_histories_reply r)
  call_swap SwapHandler.get_user_swap_history ps f =
      get_user_swap_history ps.user_swap_history_id >>= λ r. pure (user_swap_history_reply r)

  unfoldable pub call_token : TokenHandler → Params → Fields → Action Reply
  call_token TokenHandler.get_point_to_token_transactions ps f =
      get_point_to_token_transactions f.point_to_token_transactions >>= λ r.
      pure (point_to_token_transactions_reply r)
  call_token TokenHandler.get_point_to_token_transaction ps f =
      get_point_to_token_transaction ps.point_to_token_transaction_id >>= λ r.
      pure (point_to_token_transaction_reply r)
  call_token TokenHandler.process_point_to_token_transaction ps f =
      process_point_to_token_transaction f.transaction_hash >>= λ r. pure (outcome_reply r)
  call_token TokenHandler.get_token_to_point_transactions ps f =
      get_token_to_point_transactions f.token_to_point_transactions >>= λ r.
      pure (token_to_point_transactions_reply r)
  call_token TokenHandler.get_token_to_point_transaction ps f =
      get_token_to_point_transaction ps.token_to_point_transaction_id >>= λ r.
      pure (token_to_point_transaction_reply r)
  call_token TokenHandler.process_token_to_point_transaction ps f =
      process_token_to_point_transaction f.transaction_hash f.event_logs >>= λ r.
      pure (outcome_reply r)

  -- `getProviderStatus`
  abbrev pub provider_status : Option ℕ → Option ℕ → Action Reply
  provider_status none b = throw chain_rejected
  provider_status (some n) none = throw chain_rejected
  provider_status (some n) (some b) = pure (provider_reply n b)

  abbrev pub call_blockchain : BlockchainHandler → Action Reply
  call_blockchain BlockchainHandler.get_provider_status w =
      provider_status (s.get_network w.now) (s.get_block_number w.now) w

  -- `getAdminTest` has the time as its timestamp; `getQueueStatus` is not implemented.
  abbrev pub call_scheduler : SchedulerHandler → Action Reply
  call_scheduler SchedulerHandler.get_admin_test w = (ok (test_reply w.now), w)
  call_scheduler SchedulerHandler.get_queue_status w = throw not_implemented w

  unfoldable pub handle : Handler → Params → Fields → Action Reply
  unfolding call_point call_swap call_token
  handle get_health ps f = health_of
  handle (of_point h) ps f = call_point h ps f
  handle (of_swap h) ps f = call_swap h ps f
  handle (of_token h) ps f = call_token h ps f
  handle (of_blockchain h) ps f = call_blockchain h
  handle (of_scheduler h) ps f = call_scheduler h

-- A response: what the handler returned or threw, or that no route matches.
pub data Response : Type 0 where
  answer : Result Reply → Response
  not_found : Response

module _ ⦃p : Platform⦄ ⦃s : Server⦄ ⦃router : Router⦄ where
  abbrev pub answered : Result Reply × World → Response × World
  answered (r, w) = (answer r, w)

  unfoldable pub serve : Method → List Segment → Fields → World → Response × World
  unfolding handle
  serve m path f w = elim (dispatch m path) [
    | none ↦ (not_found, w)
    | some r ↦ answered (handle r.handler (read_params r.path path) f w)
  ]
