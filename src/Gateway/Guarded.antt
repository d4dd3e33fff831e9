-- ===== src/Gateway/Guarded.antt =====
-- The routes of the frontend, the routes of the backend and PointService together.
use web3_point_exchange.Common.{
  ℕ, ℤ, pos, negsuc, Option, none, some, List, ◌≡◌, refl, sym, ap, subst, ◌∙◌, inl, inr, ◌≤ℤ◌, ◌-ℤ◌,
  Has, arith,
}
use web3_point_exchange.Entities.{UserPoint}
use web3_point_exchange.Platform.{Platform}
use web3_point_exchange.Repositories.UserPoints
use web3_point_exchange.Point.{ConsumptionHistoryRes, consume_point, get_user_point}
use web3_point_exchange.Point.Consume.{ConsumeGood, consume_point-MethodSpec}
use web3_point_exchange.Point.Hazards.{balance_of_updated, committed}
use web3_point_exchange.World.{World, Result, ok, err, continue, pure}
use web3_point_exchange.Api.{
  word, Router, Method, Fields, Server, Reply, consumption_history_reply, user_point_reply, Word,
  handle, call_point, answered,
}
use web3_point_exchange.Api.Serve.{serve-eq}
use web3_point_exchange.Gateway.Texts.{Char, parse_int}
use web3_point_exchange.Gateway.Routes.{
  RequestBody, BackendPath, ApiCall, Filter, Fetched, RouteResponse, created, success, forward,
  answer_of, response_of, server_error, error_message, message_of, post_consume,
}
use web3_point_exchange.Gateway.Queries.{get_balance, balance_refusal, text_of}
use web3_point_exchange.Gateway.Amounts.{big_int_field, NotNegative}
use web3_point_exchange.Gateway.Posts.{IdSpec, amount_posts-PostSpec}
use web3_point_exchange.Gateway.Backend.{Wire, fetched, replied, backend, segments_of, id_of}

not_negative : (f : _) (a : ℤ) → NotNegative f → big_int_field f ≡ some a → pos 0 ≤ℤ a
not_negative f (pos n) h e = ground arith
not_negative f (negsuc n) h e = absurd (h n e)

module _ ⦃p : Platform⦄ ⦃s : Server⦄ ⦃router : Router⦄ ⦃wire : Wire⦄ where
  -- What a route of the frontend makes of a response.
  abbrev seen_by : (ℕ → RouteResponse) → Fetched × World → RouteResponse × World
  seen_by make x = (response_of make (answer_of x.0), x.1)

  created-ok :
      {A : Type 0} (f : A → Reply) (x : Result A × World) (v : ℕ) (w' : World)
      → ◌≡◌ {A = RouteResponse × World}
          (created v, w')
          (seen_by created (fetched (answered (continue x (λ r. pure (f r))))))
      → (a : A) × (x ≡ (ok a, w'))
  created-ok f (ok a, w) v w' e = (a, ap (λ x. (ok a, x)) (sym (ap (λ x. x.1) e)))
  created-ok f (err e', w) v w' e = cc (ap (λ x. x.0) e)

  consumed :
      (i : ℤ) (b : RequestBody) (w w' : World) (v : ℕ)
      → (created v, w') ≡ forward (BackendPath.consume i) b w
      → (f : Fields) × (res : ConsumptionHistoryRes) × (wire.read
            (record { endpoint = BackendPath.consume i; body = some b })
          ≡ some f)
        × (consume_point (s.text (id_of i)) f.consume_point w ≡ (ok res, w'))
  unfolding handle call_point
  consumed i b w w' v e = go (wire.read call) refl e
    where
      call : ApiCall
      call = record { endpoint = BackendPath.consume i; body = some b }

      go :
          (o : Option Fields)
          → wire.read call ≡ o
          → (created v, w') ≡ seen_by created (replied call o w)
          → (f : Fields) × (res : ConsumptionHistoryRes) × (wire.read call ≡ some f)
            × (consume_point (s.text (id_of i)) f.consume_point w ≡ (ok res, w'))
      go none r e = cc (ap (λ x. x.0) e)
      go (some f) r e =
          let (res, q) =
            created-ok consumption_history_reply
              (consume_point (s.text (id_of i)) f.consume_point w) v w'
              (e
                ∙ ap (λ x. seen_by created (fetched x))
                    (serve-eq Method.post (segments_of (BackendPath.consume i)) f w _ refl)) in
          (f, res, r, q)

  -- The user of the point has in the second world, in every row, the balance of the point's row in the
  -- first less the amount.
  abbrev pub Paid : ℤ → ℤ → World → World → Type 0
  Paid i a w w' =
      (up : UserPoint) × (p.find_one (UserPoints.by_id (s.text (id_of i))) w.db.user_points
        ≡ some up)
      × ((r : UserPoint)
          → Has r w'.db.user_points
          → r.user_id ≡ up.user_id
          → r.balance ≡ up.balance -ℤ a)

  abbrev pub HasPaid : ℤ → World → World → Type 0
  HasPaid i w w' = (a : ℤ) × (pos 0 ≤ℤ a) × Paid i a w w'

  forward-Paid :
      (i : ℤ) (b : RequestBody) (w w' : World) (v : ℕ)
      → (created v, w') ≡ forward (BackendPath.consume i) b w
      → (a : ℤ) × (big_int_field b.amount ≡ some a) × Paid i a w w'
  forward-Paid i b w w' v e =
      let (f, res, r, q) = consumed i b w w' v e in
      let k = s.text (id_of i) in
      let (up, current, g, _, _, (d, _, _)) =
        committed (ConsumeGood k f.consume_point w) w w' (consume_point k f.consume_point w) res
          (consume_point-MethodSpec k f.consume_point w) q in
      (
        f.consume_point.amount,
        wire.read_consume i b f r,
        (
          up,
          g,
          λ r m same.
              balance_of_updated up.user_id (up.balance -ℤ f.consume_point.amount) w.now
                w.db.user_points r (subst (λ t. Has r t.user_points) d m) same,
        ),
      )

  -- What a request that the route for consumptions answers with 201 has done.
  abbrev pub ConsumeDone : List Char → Option RequestBody → World → World → Type 0
  ConsumeDone id json w w' =
      (i : ℤ) × (b : RequestBody) × (a : ℤ) × (parse_int id ≡ some i)
      × (json ≡ some b)
      × NotNegative b.amount
      × (big_int_field b.amount ≡ some a)
      × Paid i a w w'

  pub post_consume-ConsumeDone :
      (id : List Char) (json : Option RequestBody) (w w' : World) (v : ℕ)
      → post_consume id json w ≡ (created v, w')
      → ConsumeDone id json w w'
  post_consume-ConsumeDone id json w w' v e =
      let (_, _, spec, _) = amount_posts-PostSpec id json w in
      cases (parse_int id) json refl
        (subst (IdSpec (parse_int id) BackendPath.consume json w) e spec)
    where
      cases :
          (o : Option ℤ) (j : Option RequestBody)
          → parse_int id ≡ o
          → IdSpec o BackendPath.consume j w (created v, w')
          → ConsumeDone id j w w'
      cases o none p e = cc (ap (λ x. x.0) e)
      cases none (some b) p e = cc (ap (λ x. x.0) e)
      cases (some i) (some b) p (inl (_, (r, e))) = cc (ap (λ x. x.0) e)
      cases (some i) (some b) p (inr ((_, _, n), e)) =
          let (a, q, paid) = forward-Paid i b w w' v e in (i, b, a, p, refl, n, q, paid)

  -- The route of the frontend for consumptions, the routes of the backend and consumePoint
  -- together, on a platform of any behaviour: whatever the id and the body, when the response is
  -- 201, the id is a number and the point of that number has a row, and afterwards every row of
  -- its user has the balance of that row less an amount that is zero or more.
  pub post_consume_never_pays :
      (id : List Char) (json : Option RequestBody) (w w' : World) (v : ℕ)
      → post_consume id json w ≡ (created v, w')
      → (i : ℤ) × (parse_int id ≡ some i) × HasPaid i w w'
  post_consume_never_pays id json w w' v e =
      let (i, b, a, p, _, n, q, paid) = post_consume-ConsumeDone id json w w' v e in
      (i, p, (a, not_negative b.amount a n q, paid))

  -- The response of a GET route to what a method of the service answers or throws.
  abbrev pub answered_by : {A : Type 0} → (A → Reply) → Result A × World → RouteResponse × World
  answered_by f (ok a, w) = (success (wire.reply_json (f a)).whole, w)
  answered_by f (err e, w) = (server_error (error_message 500 (message_of wire.error_json)), w)

  answered_by-eq :
      {A : Type 0} (f : A → Reply) (x : Result A × World)
      → seen_by success (fetched (answered (continue x (λ r. pure (f r))))) ≡ answered_by f x
  answered_by-eq f (ok a, w) = refl
  answered_by-eq f (err e, w) = refl

  -- Where the route of the frontend for the balance of a user lets a request through, the backend
  -- answers with getUserPoint of the text `balance`, and never with getPointBalance.
  pub get_balance-eq :
      (q : Filter) (w : World)
      → balance_refusal q.user_id ≡ none
      → get_balance q w
        ≡ answered_by user_point_reply (get_user_point (s.text (word Word.balance)) w)
  unfolding get_balance handle call_point
  get_balance-eq q w h =
      let e = BackendPath.balance (text_of q.user_id) in
      let (f, r) = wire.read_query e in
      let call : ApiCall = record { endpoint = e; body = none } in
      rw (h, get_balance)
        (ap (λ o. seen_by success (replied call o w)) r
          ∙ ap (λ x. seen_by success (fetched x)) (serve-eq Method.get (segments_of e) f w _ refl)
          ∙ answered_by-eq user_point_reply (get_user_point (s.text (word Word.balance)) w))
