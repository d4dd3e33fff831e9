-- ===== src/Gateway/Backend.antt =====
-- The backend as the server that the routes of the frontend call, on the backend's `World`.
use web3_point_exchange.Common.{ℕ, ◌*◌, ℤ, true, false, Option, none, some, List, [], ◌∷◌, ◌≡◌}
use web3_point_exchange.Platform.{Platform}
use web3_point_exchange.World.{World, ok, err}
use web3_point_exchange.Api.{
  Segment, word, other, Router, Method, Fields, Server, Reply, Response, answer, not_found, serve,
  Word,
}
use web3_point_exchange.Gateway.Texts.{Char}
use web3_point_exchange.Gateway.Routes.{
  RequestBody, BackendPath, ApiCall, ReplyJson, Fetched, response, BackendServer,
}
use web3_point_exchange.Gateway.Amounts.{big_int_field}

-- URLs and JSON between the two programs: the part of a path that a text or a number is, what the DTOs
-- of the backend read of a request (`none` where BigInt throws on an amount) with the amount that
-- BigInt reads, and the JSON of its answers.
pub record Wire : Type 1 where
  pub number_key : ℤ → ℕ
  pub text_key : List Char → Segment
  pub read : ApiCall → Option Fields
  pub read_query :
      (e : BackendPath) → (f : Fields) × (read (record { endpoint = e; body = none }) ≡ some f)
  pub read_consume :
      (i : ℤ) (b : RequestBody) (f : Fields)
      → read (record { endpoint = BackendPath.consume i; body = some b }) ≡ some f
      → big_int_field b.amount ≡ some f.consume_point.amount
  pub reply_json : Reply → ReplyJson
  pub error_json : Option ReplyJson
  pub after_unread : ApiCall → World → World

abbrev pub under_points : List Segment → List Segment
under_points ss = word Word.api ∷ word Word.point ∷ word Word.v1 ∷ word Word.user_points ∷ ss

abbrev pub under_swaps : List Segment → List Segment
under_swaps ss = word Word.api ∷ word Word.point ∷ word Word.v1 ∷ word Word.user_swap_histories ∷ ss

abbrev pub method_of : Option RequestBody → Method
method_of none = Method.get
method_of (some b) = Method.post

module _ ⦃wire : Wire⦄ where
  abbrev pub id_of : ℤ → Segment
  id_of i = other (wire.number_key i)

  -- The path of the URL that a route asks for.
  abbrev pub segments_of : BackendPath → List Segment
  segments_of BackendPath.user_points = under_points []
  segments_of BackendPath.deposit_points = under_points (word Word.deposit_points ∷ [])
  segments_of BackendPath.withdraw_points = under_points (word Word.withdraw_points ∷ [])
  segments_of (BackendPath.consume i) = under_points (id_of i ∷ word Word.consume ∷ [])
  segments_of (BackendPath.grant i) = under_points (id_of i ∷ word Word.grant ∷ [])
  segments_of (BackendPath.user_point i) = under_points (id_of i ∷ [])
  segments_of (BackendPath.balance u) = under_points (word Word.balance ∷ [])
  segments_of (BackendPath.user_point_list q) = under_points []
  segments_of (BackendPath.swap_histories q) = under_swaps []
  segments_of (BackendPath.grant_histories i q) =
      under_points (id_of i ∷ word Word.grant_histories ∷ [])
  segments_of (BackendPath.consumption_histories i q) =
      under_points (id_of i ∷ word Word.consumption_histories ∷ [])
  segments_of (BackendPath.grant_history i h) =
      under_points (id_of i ∷ word Word.grant_histories ∷ wire.text_key h ∷ [])
  segments_of (BackendPath.consumption_history i h) =
      under_points (id_of i ∷ word Word.consumption_histories ∷ wire.text_key h ∷ [])
  segments_of (BackendPath.swap_history h) = under_swaps (wire.text_key h ∷ [])

  -- What `fetch` sees of a response.
  abbrev pub fetched : Response × World → Fetched × World
  fetched (answer (ok r), w) = (response true 200 (some (wire.reply_json r)), w)
  fetched (answer (err e), w) = (response false 500 wire.error_json, w)
  fetched (not_found, w) = (response false 404 wire.error_json, w)

module _ ⦃p : Platform⦄ ⦃s : Server⦄ ⦃router : Router⦄ ⦃wire : Wire⦄ where
  -- By what the DTOs read of the request.
  abbrev pub replied : ApiCall → Option Fields → World → Fetched × World
  replied c none w = (response false 500 wire.error_json, wire.after_unread c w)
  replied c (some f) w = fetched (serve (method_of c.body) (segments_of c.endpoint) f w)

  abbrev pub fetch_backend : ApiCall → World → Fetched × World
  fetch_backend c w = replied c (wire.read c) w

  instance abbrev pub backend : BackendServer
  backend = record { Outside = World; fetch = fetch_backend; date_now = λ w. w.now * 1000 }
