-- ===== src/Api/Routes.antt =====
-- Paths, the routes that the controllers declare, in their order, and the choice of a route.
use web3_point_exchange.Common.{
  ℕ, ◌≡◌, first, Bool, true, false, Option, List, [], ◌∷◌, ◌++◌, ◌&&◌, ◌==◌,
}

-- The words that the paths of the routes are made of.
pub data Word : Type 0 where
  health api point v1 user_points balance deposit_points withdraw_points consume grant : Word
  rollback validate_user consumption_histories grant_histories user_swap_histories : Word
  point_to_token_transactions token_to_point_transactions process : Word
  scheduler admin test queue status blockchain provider : Word

abbrev pub number : Word → ℕ
number health = 0
number api = 1
number point = 2
number v1 = 3
number user_points = 4
number balance = 5
number deposit_points = 6
number withdraw_points = 7
number consume = 8
number grant = 9
number rollback = 10
number validate_user = 11
number consumption_histories = 12
number grant_histories = 13
number user_swap_histories = 14
number point_to_token_transactions = 15
number token_to_point_transactions = 16
number process = 17
number Word.scheduler = 18
number Word.admin = 19
number Word.test = 20
number Word.queue = 21
number Word.status = 22
number Word.blockchain = 23
number Word.provider = 24

-- A part of the path of a request: one of the words, in upper or lower case, or another text.
pub data Segment : Type 0 where
  word : Word → Segment
  other : ℕ → Segment

pub data ParamName : Type 0 where
  user_point_id consumption_history_id grant_history_id user_swap_history_id : ParamName
  point_to_token_transaction_id token_to_point_transaction_id : ParamName

-- A part of the path of a route: a literal, or `:name`.
pub data Pattern : Type 0 where
  lit : Word → Pattern
  param : ParamName → Pattern

pub data Method : Type 0 where
  get post : Method

-- The methods of the controllers that have a route.
pub data PointHandler : Type 0 where
  get_user_points get_user_point create_user_point : PointHandler
  get_consumption_histories get_consumption_history deposit_points : PointHandler
  withdraw_points consume_point rollback_consumption get_grant_histories : PointHandler
  get_grant_history grant_point rollback_grant get_point_balance validate_user : PointHandler

pub data SwapHandler : Type 0 where
  get_user_swap_histories get_user_swap_history : SwapHandler

pub data TokenHandler : Type 0 where
  get_point_to_token_transactions get_point_to_token_transaction : TokenHandler
  process_point_to_token_transaction get_token_to_point_transactions : TokenHandler
  get_token_to_point_transaction process_token_to_point_transaction : TokenHandler

pub data BlockchainHandler : Type 0 where
  get_provider_status : BlockchainHandler

pub data SchedulerHandler : Type 0 where
  get_admin_test get_queue_status : SchedulerHandler

pub data Handler : Type 0 where
  get_health : Handler
  of_point : PointHandler → Handler
  of_swap : SwapHandler → Handler
  of_token : TokenHandler → Handler
  of_blockchain : BlockchainHandler → Handler
  of_scheduler : SchedulerHandler → Handler

pub record Route : Type 0 where
  pub method : Method
  pub path : List Pattern
  pub handler : Handler

-- `@Controller('api/point/v1')`
abbrev pub under : List Pattern → List Pattern
under ps = lit api ∷ lit point ∷ lit v1 ∷ ps

abbrev pub route : Method → List Pattern → Handler → Route
route m ps h = record { method = m; path = under ps; handler = h }

abbrev pub app_routes : List Route
app_routes = record { method = get; path = lit health ∷ []; handler = get_health } ∷ []

-- A point, and what follows it.
abbrev pub point_path : List Pattern → List Pattern
point_path ps = lit user_points ∷ param user_point_id ∷ ps

abbrev pub point_routes : List Route
point_routes =
    route get (lit user_points ∷ []) (of_point PointHandler.get_user_points)
    ∷ route get (point_path []) (of_point PointHandler.get_user_point)
    ∷ route post (lit user_points ∷ []) (of_point PointHandler.create_user_point)
    ∷ route get (point_path (lit consumption_histories ∷ []))
        (of_point PointHandler.get_consumption_histories)
    ∷ route get (point_path (lit consumption_histories ∷ param consumption_history_id ∷ []))
        (of_point PointHandler.get_consumption_history)
    ∷ route post (lit user_points ∷ lit Word.deposit_points ∷ [])
        (of_point PointHandler.deposit_points)
    ∷ route post (lit user_points ∷ lit Word.withdraw_points ∷ [])
        (of_point PointHandler.withdraw_points)
    ∷ route post (point_path (lit consume ∷ [])) (of_point PointHandler.consume_point)
    ∷ route post
        (point_path (lit consumption_histories ∷ param consumption_history_id ∷ lit rollback ∷ []))
        (of_point PointHandler.rollback_consumption)
    ∷ route get (point_path (lit grant_histories ∷ [])) (of_point PointHandler.get_grant_histories)
    ∷ route get (point_path (lit grant_histories ∷ param grant_history_id ∷ []))
        (of_point PointHandler.get_grant_history)
    ∷ route post (point_path (lit grant ∷ [])) (of_point PointHandler.grant_point)
    ∷ route post (point_path (lit grant_histories ∷ param grant_history_id ∷ lit rollback ∷ []))
        (of_point PointHandler.rollback_grant)
    ∷ route get (lit user_points ∷ lit balance ∷ []) (of_point PointHandler.get_point_balance)
    ∷ route post (lit user_points ∷ lit Word.validate_user ∷ [])
        (of_point PointHandler.validate_user)
    ∷ []

abbrev pub swap_routes : List Route
swap_routes =
    route get (lit user_swap_histories ∷ []) (of_swap SwapHandler.get_user_swap_histories)
    ∷ route get (lit user_swap_histories ∷ param user_swap_history_id ∷ [])
        (of_swap SwapHandler.get_user_swap_history)
    ∷ []

abbrev pub token_routes : List Route
token_routes =
    route get (lit point_to_token_transactions ∷ [])
      (of_token TokenHandler.get_point_to_token_transactions)
    ∷ route get (lit point_to_token_transactions ∷ param point_to_token_transaction_id ∷ [])
        (of_token TokenHandler.get_point_to_token_transaction)
    ∷ route post (lit point_to_token_transactions ∷ lit process ∷ [])
        (of_token TokenHandler.process_point_to_token_transaction)
    ∷ route get (lit token_to_point_transactions ∷ [])
        (of_token TokenHandler.get_token_to_point_transactions)
    ∷ route get (lit token_to_point_transactions ∷ param token_to_point_transaction_id ∷ [])
        (of_token TokenHandler.get_token_to_point_transaction)
    ∷ route post (lit token_to_point_transactions ∷ lit process ∷ [])
        (of_token TokenHandler.process_token_to_point_transaction)
    ∷ []

-- `@Controller('blockchain')`
abbrev pub blockchain_routes : List Route
blockchain_routes =
    record {
      method = get;
      path = lit Word.blockchain ∷ lit Word.provider ∷ lit Word.status ∷ [];
      handler = of_blockchain BlockchainHandler.get_provider_status;
    }
    ∷ []

-- `@Controller('scheduler')`, whose third method is called by the clock and has no route.
abbrev pub scheduler_routes : List Route
scheduler_routes =
    record {
      method = get;
      path = lit Word.scheduler ∷ lit Word.admin ∷ lit Word.test ∷ [];
      handler = of_scheduler SchedulerHandler.get_admin_test;
    }
    ∷ record {
      method = get;
      path = lit Word.scheduler ∷ lit Word.queue ∷ lit Word.status ∷ [];
      handler = of_scheduler SchedulerHandler.get_queue_status;
    }
    ∷ []

-- `controllers` and `imports` of the app module.
abbrev pub routes : List Route
routes =
    app_routes
    ++ (point_routes ++ (swap_routes ++ (token_routes ++ (blockchain_routes ++ scheduler_routes))))

-- When the router lets a route take a path: a literal takes its word, a parameter any part.
abbrev pub is_word : Word → Segment → Bool
is_word w (word v) = number w == number v
is_word w (other n) = false

abbrev pub path_matches : List Pattern → List Segment → Bool
path_matches [] [] = true
path_matches [] (s ∷ ss) = false
path_matches (p ∷ ps) [] = false
path_matches (lit w ∷ ps) (s ∷ ss) = is_word w s && path_matches ps ss
path_matches (param n ∷ ps) (s ∷ ss) = path_matches ps ss

abbrev pub same_method : Method → Method → Bool
same_method get get = true
same_method get post = false
same_method post get = false
same_method post post = true

abbrev pub route_matches : Method → List Segment → Route → Bool
route_matches m path r = same_method r.method m && path_matches r.path path

-- The router of the web framework (express): a request goes to the first route, in the order of their
-- registration, that has its method and matches its path.
pub record Router : Type 0 where
  pub find_route : List Route → Method → List Segment → Option Route
  pub find_route_law :
      (rs : List Route) (m : Method) (path : List Segment)
      → find_route rs m path ≡ first (route_matches m path) rs

abbrev pub dispatch : ⦃router : Router⦄ → Method → List Segment → Option Route
dispatch ⦃router⦄ m path = router.find_route routes m path
