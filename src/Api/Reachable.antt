-- ===== src/Api/Reachable.antt =====
-- Which methods of the controllers that have a route a request can reach.
use web3_point_exchange.Common.{◌≡◌, refl, sym, ap, ◌∙◌, ◌≢◌, ◌↔◌, some, List, [], ◌∷◌, first}
use web3_point_exchange.Api.Routes.{
  Word, Segment, word, other, Method, get, post, Handler, get_health, of_point, of_swap, of_token,
  of_blockchain, of_scheduler, PointHandler, SwapHandler, TokenHandler, BlockchainHandler,
  SchedulerHandler, Route, routes, Router, dispatch, route_matches, api, point, v1, user_points,
  balance, consume, grant, rollback, consumption_histories, grant_histories, user_swap_histories,
  point_to_token_transactions, token_to_point_transactions, process, health,
}
use web3_point_exchange.Api.Shadow.{first_sound, point_route_matches, only_balance, first-Shadowed}

-- A request for each method of the controllers.
abbrev below : List Segment → List Segment
below ss = word api ∷ word point ∷ word v1 ∷ ss

abbrev request_for : Handler → Method × List Segment
request_for get_health = (get, word health ∷ [])
request_for (of_point PointHandler.get_user_points) = (get, below (word user_points ∷ []))
request_for (of_point PointHandler.get_user_point) = (get, below (word user_points ∷ other 0 ∷ []))
request_for (of_point PointHandler.create_user_point) = (post, below (word user_points ∷ []))
request_for (of_point PointHandler.get_consumption_histories) =
    (get, below (word user_points ∷ other 0 ∷ word consumption_histories ∷ []))
request_for (of_point PointHandler.get_consumption_history) =
    (get, below (word user_points ∷ other 0 ∷ word consumption_histories ∷ other 1 ∷ []))
request_for (of_point PointHandler.deposit_points) =
    (post, below (word user_points ∷ word Word.deposit_points ∷ []))
request_for (of_point PointHandler.withdraw_points) =
    (post, below (word user_points ∷ word Word.withdraw_points ∷ []))
request_for (of_point PointHandler.consume_point) =
    (post, below (word user_points ∷ other 0 ∷ word consume ∷ []))
request_for (of_point PointHandler.rollback_consumption) = (
  post,
  below (word user_points ∷ other 0 ∷ word consumption_histories ∷ other 1 ∷ word rollback ∷ []),
)
request_for (of_point PointHandler.get_grant_histories) =
    (get, below (word user_points ∷ other 0 ∷ word grant_histories ∷ []))
request_for (of_point PointHandler.get_grant_history) =
    (get, below (word user_points ∷ other 0 ∷ word grant_histories ∷ other 1 ∷ []))
request_for (of_point PointHandler.grant_point) =
    (post, below (word user_points ∷ other 0 ∷ word grant ∷ []))
request_for (of_point PointHandler.rollback_grant) =
    (post, below (word user_points ∷ other 0 ∷ word grant_histories ∷ other 1 ∷ word rollback ∷ []))
request_for (of_point PointHandler.get_point_balance) =
    (get, below (word user_points ∷ word balance ∷ []))
request_for (of_point PointHandler.validate_user) =
    (post, below (word user_points ∷ word Word.validate_user ∷ []))
request_for (of_swap SwapHandler.get_user_swap_histories) =
    (get, below (word user_swap_histories ∷ []))
request_for (of_swap SwapHandler.get_user_swap_history) =
    (get, below (word user_swap_histories ∷ other 0 ∷ []))
request_for (of_token TokenHandler.get_point_to_token_transactions) =
    (get, below (word point_to_token_transactions ∷ []))
request_for (of_token TokenHandler.get_point_to_token_transaction) =
    (get, below (word point_to_token_transactions ∷ other 0 ∷ []))
request_for (of_token TokenHandler.process_point_to_token_transaction) =
    (post, below (word point_to_token_transactions ∷ word process ∷ []))
request_for (of_token TokenHandler.get_token_to_point_transactions) =
    (get, below (word token_to_point_transactions ∷ []))
request_for (of_token TokenHandler.get_token_to_point_transaction) =
    (get, below (word token_to_point_transactions ∷ other 0 ∷ []))
request_for (of_token TokenHandler.process_token_to_point_transaction) =
    (post, below (word token_to_point_transactions ∷ word process ∷ []))
request_for (of_blockchain BlockchainHandler.get_provider_status) =
    (get, word Word.blockchain ∷ word Word.provider ∷ word Word.status ∷ [])
request_for (of_scheduler SchedulerHandler.get_admin_test) =
    (get, word Word.scheduler ∷ word Word.admin ∷ word Word.test ∷ [])
request_for (of_scheduler SchedulerHandler.get_queue_status) =
    (get, word Word.scheduler ∷ word Word.queue ∷ word Word.status ∷ [])

abbrev Serves : List Route → Handler → Type 0
Serves rs h =
    (r : Route) × (first (route_matches (request_for h).0 (request_for h).1) rs ≡ some r)
    × (r.handler ≡ h)

request_for-Serves : (h : Handler) → h ≢ of_point PointHandler.get_point_balance → Serves routes h
request_for-Serves get_health n = (_, refl, refl)
request_for-Serves (of_point PointHandler.get_user_points) n = (_, refl, refl)
request_for-Serves (of_point PointHandler.get_user_point) n = (_, refl, refl)
request_for-Serves (of_point PointHandler.create_user_point) n = (_, refl, refl)
request_for-Serves (of_point PointHandler.get_consumption_histories) n = (_, refl, refl)
request_for-Serves (of_point PointHandler.get_consumption_history) n = (_, refl, refl)
request_for-Serves (of_point PointHandler.deposit_points) n = (_, refl, refl)
request_for-Serves (of_point PointHandler.withdraw_points) n = (_, refl, refl)
request_for-Serves (of_point PointHandler.consume_point) n = (_, refl, refl)
request_for-Serves (of_point PointHandler.rollback_consumption) n = (_, refl, refl)
request_for-Serves (of_point PointHandler.get_grant_histories) n = (_, refl, refl)
request_for-Serves (of_point PointHandler.get_grant_history) n = (_, refl, refl)
request_for-Serves (of_point PointHandler.grant_point) n = (_, refl, refl)
request_for-Serves (of_point PointHandler.rollback_grant) n = (_, refl, refl)
request_for-Serves (of_point PointHandler.get_point_balance) n = absurd (n refl)
request_for-Serves (of_point PointHandler.validate_user) n = (_, refl, refl)
request_for-Serves (of_swap SwapHandler.get_user_swap_histories) n = (_, refl, refl)
request_for-Serves (of_swap SwapHandler.get_user_swap_history) n = (_, refl, refl)
request_for-Serves (of_token TokenHandler.get_point_to_token_transactions) n = (_, refl, refl)
request_for-Serves (of_token TokenHandler.get_point_to_token_transaction) n = (_, refl, refl)
request_for-Serves (of_token TokenHandler.process_point_to_token_transaction) n = (_, refl, refl)
request_for-Serves (of_token TokenHandler.get_token_to_point_transactions) n = (_, refl, refl)
request_for-Serves (of_token TokenHandler.get_token_to_point_transaction) n = (_, refl, refl)
request_for-Serves (of_token TokenHandler.process_token_to_point_transaction) n = (_, refl, refl)
request_for-Serves (of_blockchain BlockchainHandler.get_provider_status) n = (_, refl, refl)
request_for-Serves (of_scheduler SchedulerHandler.get_admin_test) n = (_, refl, refl)
request_for-Serves (of_scheduler SchedulerHandler.get_queue_status) n = (_, refl, refl)

module _ ⦃router : Router⦄ where
  balance_unreachable :
      (m : Method) (path : List Segment) (r : Route)
      → dispatch m path ≡ some r
      → r.handler ≢ of_point PointHandler.get_point_balance
  balance_unreachable m path r e h =
      let f : first (route_matches m path) routes ≡ some r =
        sym (router.find_route_law routes m path) ∙ e in
      let (has, t) = first_sound (route_matches m path) routes r f in
      let u = ap (route_matches m path) (sym (only_balance r has h)) ∙ t in
      first-Shadowed (route_matches m path) r (point_route_matches m path u) f h

  -- For a router that takes the first route that matches, and each method of the controllers
  -- that has a route: there is a request that is dispatched to it exactly when it is not
  -- getPointBalance.
  pub reachable_iff :
      (h : Handler)
      → ((m : Method) × (path : List Segment) × (r : Route) × (dispatch m path ≡ some r)
          × (r.handler ≡ h))
        ↔ (h ≢ of_point PointHandler.get_point_balance)
  reachable_iff h = (
    (λ (m, path, r, e, f) g. balance_unreachable m path r e (f ∙ g)),
    (λ n.
        let (r, e, f) = request_for-Serves h n in
        let (m, path) = request_for h in (m, path, r, router.find_route_law routes m path ∙ e, f)),
  )
