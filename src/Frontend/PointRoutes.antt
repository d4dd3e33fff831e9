-- ===== src/Frontend/PointRoutes.antt =====
-- usePoint (frontend/app/components/hooks/usePoint.ts) on the routes of the frontend: `fetch` of the hook
-- calls the route for grants or the one for consumptions.
use web3_point_exchange.Common.{
  ℕ, ℤ, pos, true, false, Option, none, some, List, ◌≡◌, inl, inr, ap, subst,
}
use web3_point_exchange.Gateway.Texts.{Char, parse_int}
use web3_point_exchange.Gateway.Decimal.{to_text}
use web3_point_exchange.Gateway.Routes.{
  missing, whole, RequestBody, BackendServer, BackendPath, Failure, Refusal, RouteResponse, success,
  created, bad_request, server_error, data_of, failure, ApiAnswer, response_of, post_consume,
  post_grant,
}
use web3_point_exchange.Gateway.Posts.{IdSpec, amount_posts-PostSpec}
use web3_point_exchange.Frontend.{
  PointAction, granting, consuming, PointPost, Posted, posted, PointServer,
}

-- The texts of the routes' errors, and what the body has beside the fields that the routes read: the
-- id and `force`.
pub record Texts : Type 0 where
  pub of_refusal : Refusal → ℕ
  pub of_failure : Failure → ℕ
  pub other_fields : ℕ → ℕ

module _ ⦃t : Texts⦄ where
  abbrev pub post_body : PointPost → RequestBody
  post_body r = record {
    user_id = missing;
    wallet_address = missing;
    amount = r.amount;
    type = whole (pos r.type);
    signature = missing;
    valid_until = none;
    others = t.other_fields r.user_point_id;
  }

  -- A response as `fetch` of the hook has it: status 200 or 201 is ok.
  abbrev pub posted_of : RouteResponse → Posted
  posted_of (success v) = posted true (some none)
  posted_of (created v) = posted true (some none)
  posted_of (bad_request r) = posted false (some (some (t.of_refusal r)))
  posted_of (server_error f) = posted false (some (some (t.of_failure f)))

  module _ ⦃s : BackendServer⦄ where
    -- The route of the URL that `grantPoints` or `consumePoints` asks for.
    abbrev pub post_route : PointPost → PointAction → s.Outside → RouteResponse × s.Outside
    post_route r granting o = post_grant (to_text r.user_point_id) (some (post_body r)) o
    post_route r consuming o = post_consume (to_text r.user_point_id) (some (post_body r)) o

    abbrev pub fetch_route : PointPost → s.Outside → Posted × s.Outside
    fetch_route r o = let (x, o') = post_route r r.action o in (posted_of x, o')

    abbrev pub gateway_server : PointServer
    gateway_server = record { Outside = s.Outside; post = fetch_route }

-- No consumption is answered with 200.
pub not_success :
    ⦃s : BackendServer⦄ (id : List Char) (json : Option RequestBody) (o o' : s.Outside) (v : ℕ)
    → post_consume id json o ≡ (success v, o')
    → ⊥
not_success id json o o' v e =
    let (_, _, spec, _) = amount_posts-PostSpec id json o in
    cases (parse_int id) json (subst (IdSpec (parse_int id) BackendPath.consume json o) e spec)
  where
    made : (a : ApiAnswer) → success v ≡ response_of created a → ⊥
    made (data_of x) e = cc
    made (failure f) e = cc

    cases :
        (i : Option ℤ) (j : Option RequestBody)
        → IdSpec i BackendPath.consume j o (success v, o')
        → ⊥
    cases i none e = cc (ap (λ x. x.0) e)
    cases none (some b) e = cc (ap (λ x. x.0) e)
    cases (some i) (some b) (inl (_, (r, e))) = cc (ap (λ x. x.0) e)
    cases (some i) (some b) (inr (_, e)) = made _ (ap (λ x. x.0) e)
