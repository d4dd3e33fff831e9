-- ===== src/Tests/ApiRuns.antt =====
-- A router, a server and a request for the tests, and what the routes reach.
use web3_point_exchange.Common.{◌≡◌, ◌≢◌, ◌↔◌, refl, none, some, [], List, first}
use web3_point_exchange.Api.{
  Router, Server, Fields, Segment, word, other, Method, Route, of_point, PointHandler, dispatch,
  route_matches,
}
use web3_point_exchange.Api.Reachable.{reachable_iff}
use web3_point_exchange.Repositories.Query.{Paging}
use web3_point_exchange.Tests.Data.{deposit, withdrawal, consumption, grant, validation}

instance abbrev pub express : Router
express = record {
  find_route = λ rs m path. first (route_matches m path) rs;
  find_route_law = λ rs m path. refl;
}

instance abbrev pub here : Server
here = record {
  text = λ s. elim s [ word w ↦ 0 | other n ↦ n ];
  rate = 100;
  get_network = λ t. some 84532;
  get_block_number = λ t. some t;
  no_params = record {
    user_point_id = 0;
    consumption_history_id = 0;
    grant_history_id = 0;
    user_swap_history_id = 0;
    point_to_token_transaction_id = 0;
    token_to_point_transaction_id = 0;
  };
}

abbrev whole : Paging
whole = record { last_id = none; limit = none; offset = none; order = none }

abbrev pub blank : Fields
blank = record {
  user_points = none;
  create_user_point = record { user_id = 3; wallet_address = none; amount = none };
  consumption_histories = record {
    user_point_id = none;
    type = none;
    status = none;
    paging = whole;
  };
  deposit_points = deposit;
  withdraw_points = withdrawal;
  consume_point = consumption;
  grant_histories = record { user_point_id = none; type = none; status = none; paging = whole };
  grant_point = grant;
  user_id = 1;
  validate_user = validation;
  user_swap_histories = record { user_id = none; type = none; status = none; paging = whole };
  point_to_token_transactions = record { transaction_hash = none; status = none; paging = whole };
  token_to_point_transactions = record { transaction_hash = none; status = none; paging = whole };
  transaction_hash = 0;
  event_logs = [];
}

reachable_iff_example :
    ((m : Method) × (path : List Segment) × (r : Route) × (dispatch m path ≡ some r)
      × (r.handler ≡ of_point PointHandler.get_point_balance))
    ↔ (of_point PointHandler.get_point_balance ≢ of_point PointHandler.get_point_balance)
reachable_iff_example = reachable_iff (of_point PointHandler.get_point_balance)
