-- ===== src/Polling/Backend.antt =====
-- The backend as the server that the polling script posts to: a request goes through the routes of
-- `Api` to the service methods, on the backend's `World`.
use web3_point_exchange.Common.{
  Bool, false, Option, none, some, List, [], ◌∷◌, map, ◌≡◌, refl, ap, ◌∙◌,
}
use web3_point_exchange.Platform.{Platform}
use web3_point_exchange.Point.{validate_user}
use web3_point_exchange.Token.{
  EventLog, Outcome, success, process_point_to_token_transaction,
  process_token_to_point_transaction,
}
use web3_point_exchange.World.{World, Result, ok, err, continue, pure}
use web3_point_exchange.Api.{
  Segment, word, Router, Method, Fields, Server, success_reply, outcome_reply, Response, answer,
  not_found, serve, Word, handle, call_token, call_point, answered,
}
use web3_point_exchange.Api.Serve.{serve-eq}
use web3_point_exchange.Polling.Network.{
  Outside, point_to_token_process, token_to_point_process, PointEventLog, ApiResponse, Request,
  point_events, valid_user,
}

abbrev pub under_api : List Segment → List Segment
under_api ss = word Word.api ∷ word Word.point ∷ word Word.v1 ∷ ss

abbrev pub path_of : Request → List Segment
path_of (point_events point_to_token_process d) =
    under_api (word Word.point_to_token_transactions ∷ word Word.process ∷ [])
path_of (point_events token_to_point_process d) =
    under_api (word Word.token_to_point_transactions ∷ word Word.process ∷ [])
path_of (valid_user d) = under_api (word Word.user_points ∷ word Word.validate_user ∷ [])

abbrev pub event_log : PointEventLog → EventLog
event_log e = record {
  wallet_address = e.wallet_address;
  point_amount = e.point_amount;
  token_amount = e.token_amount;
}

-- A field that is left out of the JSON is falsy.
abbrev pub truthy : Option Bool → Bool
truthy none = false
truthy (some b) = b

-- The body; `blank` is what the other DTOs would read.
abbrev pub fields_of : Fields → Request → Fields
fields_of blank (point_events e d) = record blank {
  transaction_hash = d.transaction_hash;
  event_logs = map event_log d.event_logs;
}
fields_of blank (valid_user d) = record blank {
  validate_user = record { wallet_address = d.wallet_address; is_valid = truthy d.is_valid };
}

abbrev pub api_response : Bool → Option ApiResponse
api_response b = some (record { success = b; message = none })

-- The statuses of exceptions and of missing routes make axios throw.
abbrev pub reply_of : Response × World → Option ApiResponse × World
reply_of (answer (ok (outcome_reply o)), w) = (api_response (success o), w)
reply_of (answer (ok (success_reply b)), w) = (api_response b, w)
reply_of (answer (ok _), w) = (api_response false, w)
reply_of (answer (err e), w) = (none, w)
reply_of (not_found, w) = (none, w)

-- The response that the script sees for what a service method answers or throws.
abbrev pub seen : {A : Type 0} → (A → Bool) → Result A × World → Option ApiResponse × World
seen f (ok a, w) = (api_response (f a), w)
seen f (err e, w) = (none, w)

module _ ⦃p : Platform⦄ where
  -- The service method for a request of the script.
  abbrev pub method_for : Request → World → Option ApiResponse × World
  method_for (point_events point_to_token_process d) w =
      seen success (process_point_to_token_transaction d.transaction_hash w)
  method_for (point_events token_to_point_process d) w =
      seen success
        (process_token_to_point_transaction d.transaction_hash (map event_log d.event_logs) w)
  method_for (valid_user d) w =
      seen (λ b. b)
        (validate_user (record { wallet_address = d.wallet_address; is_valid = truthy d.is_valid })
          w)

module _ ⦃p : Platform⦄ ⦃s : Server⦄ ⦃router : Router⦄ (blank : Fields) where
  abbrev pub post_backend : Request → World → Option ApiResponse × World
  post_backend r w = reply_of (serve Method.post (path_of r) (fields_of blank r) w)

  abbrev pub with_backend : Outside → Outside
  with_backend o = record {
    Server = World;
    post = post_backend;
    parse_log = o.parse_log;
    to_text = o.to_text;
    parse_int = o.parse_int;
    parse_int_law = o.parse_int_law;
    empty_text = o.empty_text;
    parse_empty = o.parse_empty;
    write_file = o.write_file;
    write_file_law = o.write_file_law;
  }

  reply-outcome :
      (x : Result Outcome × World)
      → reply_of (answered (continue x (λ r. pure (outcome_reply r)))) ≡ seen success x
  reply-outcome (ok a, w) = refl
  reply-outcome (err e, w) = refl

  reply-success :
      (x : Result Bool × World)
      → reply_of (answered (continue x (λ r. pure (success_reply r)))) ≡ seen (λ b. b) x
  reply-success (ok a, w) = refl
  reply-success (err e, w) = refl

  -- Posting a request of the polling script to the backend, through its routes, is a call of
  -- processPointToTokenTransaction, processTokenToPointTransaction or validateUser with the hash
  -- and the logs, or the wallet and the flag, of the request; the script sees the success that
  -- the method answers, and an exception when it throws.
  pub post_backend-eq : (r : Request) (w : World) → post_backend r w ≡ method_for r w
  unfolding handle call_token call_point
  post_backend-eq (point_events point_to_token_process d) w =
      let r = point_events point_to_token_process d in
      ap reply_of (serve-eq Method.post (path_of r) (fields_of blank r) w _ refl) ∙ reply-outcome _
  post_backend-eq (point_events token_to_point_process d) w =
      let r = point_events token_to_point_process d in
      ap reply_of (serve-eq Method.post (path_of r) (fields_of blank r) w _ refl) ∙ reply-outcome _
  post_backend-eq (valid_user d) w =
      let r = valid_user d in
      ap reply_of (serve-eq Method.post (path_of r) (fields_of blank r) w _ refl) ∙ reply-success _
