-- ===== src/Api/Serve.antt =====
-- A request is handled by the first route that matches.
use web3_point_exchange.Common.{some, List, ◌≡◌, refl, ◌∙◌, first}
use web3_point_exchange.Platform.{Platform}
use web3_point_exchange.World.{World}
use web3_point_exchange.Api.Routes.{Segment, Router, Method, Route, routes, route_matches}
use web3_point_exchange.Api.Controllers.{Fields, Server, serve, handle, read_params, answered}

module _ ⦃p : Platform⦄ ⦃s : Server⦄ ⦃router : Router⦄ where
  pub serve-eq :
      (m : Method) (path : List Segment) (f : Fields) (w : World) (r : Route)
      → first (route_matches m path) routes ≡ some r
      → serve m path f w ≡ answered (handle r.handler (read_params r.path path) f w)
  unfolding serve
  serve-eq m path f w r e = rw (router.find_route_law routes m path ∙ e, serve) refl
