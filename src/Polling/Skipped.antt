-- ===== src/Polling/Skipped.antt =====
-- The polling script and the backend together, on a withdrawal that did not come through the server.
use web3_point_exchange.Common.{
  ℕ, ◌+◌, ◌<◌, ◌≡◌, refl, true, false, Option, none, some, List, [], ◌∷◌, ltb, arith, map,
}
use web3_point_exchange.Platform.{Platform}
use web3_point_exchange.Repositories.TokenToPointTransactions
use web3_point_exchange.Token.{
  process_token_to_point_transaction, process_failed, Outcome, success, processed,
  no_transaction_found,
}
use web3_point_exchange.Token.Direct.{HasKnownUser, direct_withdrawal_fails}
use web3_point_exchange.World.{World, Result, ok, err}
use web3_point_exchange.Api.{Router, Fields, Server}
use web3_point_exchange.Polling.Network.{
  Outside, Log, PointEventLog, ApiResponse, Request, point_events, token_to_point_process,
}
use web3_point_exchange.Polling.Backend.{
  event_log, post_backend, with_backend, api_response, post_backend-eq, seen,
}
use web3_point_exchange.Polling.Events.{
  parse_event_log, parse_event_logs, group_events_by_transaction, push_logs, push_log,
}
use web3_point_exchange.Polling.Deliver.{
  Link, Attempt, QueryFilter, and_then, log_answer, process_events, send_logs, send_point_logs,
  send_groups, send_event_to_server, send_valid_user_logs,
}
use web3_point_exchange.Polling.Loop.{min, Tick, Poller, settle_batch, poll_to, poll_once}
use web3_point_exchange.Polling.Delivery.{Found}

module _ ⦃o : Outside⦄ where
  abbrev one_request : Log → PointEventLog → Request
  one_request l event =
      point_events token_to_point_process
        (record { transaction_hash = l.transaction_hash; event_logs = event ∷ [] })

  abbrev returns : Link → Attempt
  returns s = (some tt, s)

  -- The end of `processEvents` when the only request has this answer.
  abbrev finished : Request → List Request → Option ApiResponse × o.Server → Attempt
  finished r done x = and_then (and_then (log_answer r done x) returns) returns

  process_events_one :
      (q : QueryFilter) (a b : ℕ) (l : Log) (event : PointEventLog) (s : Link)
      → Found q a b [] (l ∷ []) []
      → parse_event_log l ≡ some event
      → process_events q a b s
        ≡ finished (one_request l event) s.answered (o.post (one_request l event) s.server)
  unfolding process_events send_logs send_point_logs send_groups send_event_to_server
      send_valid_user_logs group_events_by_transaction push_logs push_log parse_event_logs
  process_events_one q a b l event s (e, f, g) h =
      rw (e, process_events) (rw f (rw g (rw (h, send_groups) refl)))

module _ ⦃p : Platform⦄ ⦃s : Server⦄ ⦃router : Router⦄ (blank : Fields) where
  post_direct :
      (hash : ℕ) (es : List PointEventLog) (w : World)
      → HasKnownUser w (map event_log es)
      → p.find (TokenToPointTransactions.by_hash hash) w.db.token_to_point_transactions ≡ []
      → let (a, w') =
          post_backend blank
            (point_events token_to_point_process
              (record { transaction_hash = hash; event_logs = es }))
            w in
        (a ≡ api_response false) × (w'.db ≡ w.db) × (w'.sent ≡ w.sent)
  post_direct hash es w known e =
      let logs = map event_log es in
      rw
        (post_backend-eq blank
          (point_events token_to_point_process
            (record { transaction_hash = hash; event_logs = es }))
          w)
        (go (process_token_to_point_transaction hash logs w)
          (direct_withdrawal_fails hash logs w e known))
    where
      go :
          (x : Result Outcome × World)
          → (x.0 ≡ ok process_failed) × (x.1.db ≡ w.db) × (x.1.sent ≡ w.sent)
          → let (a, w') = seen success x in
            (a ≡ api_response false) × (w'.db ≡ w.db) × (w'.sent ≡ w.sent)
      go (ok processed, w') (f, d, t) = cc
      go (ok no_transaction_found, w') (f, d, t) = cc
      go (ok process_failed, w') (f, d, t) = (refl, d, t)
      go (err e', w') (f, d, t) = cc

  -- The script and the backend together, on a platform of any behaviour: when the range of
  -- blocks of a turn has one log, a withdrawal that parses, by the wallet of a known user, in a
  -- transaction of which the backend has no record, the turn moves on to the end of the range,
  -- and the database and the sent messages of the backend are as before.
  pub direct_withdrawal_skipped :
      (o : Outside) (t : Tick) (n : ℕ) (l : Log) (event : PointEventLog)
      (v : Poller ⦃o = with_backend blank o⦄)
      → let to_block = min n (v.last_processed_block + 100) in
        t.block_number ≡ some n
        → v.last_processed_block < n
        → Found ⦃o = with_backend blank o⦄ t.query_filter
            (v.last_processed_block + 1)
            to_block
            []
            (l ∷ [])
            []
        → parse_event_log ⦃o = o⦄ l ≡ some event
        → p.find
            (TokenToPointTransactions.by_hash l.transaction_hash)
            v.link.server.db.token_to_point_transactions
          ≡ []
        → HasKnownUser v.link.server (event_log event ∷ [])
        → let v' = poll_once ⦃o = with_backend blank o⦄ t v in
          (v'.last_processed_block ≡ to_block)
          × (v'.link.server.db ≡ v.link.server.db)
          × (v'.link.server.sent ≡ v.link.server.sent)
  unfolding poll_once poll_to parse_event_log
  direct_withdrawal_skipped o t n l event v e lt found parsed unknown known =
      let to_block = min n (v.last_processed_block + 100) in
      let w = v.link.server in
      let below : ltb v.last_processed_block n ≡ true = ground arith in
      rw (e, poll_once)
        (rw below (
          rw
            (process_events_one ⦃o = with_backend blank o⦄ t.query_filter
              (v.last_processed_block + 1) to_block l event v.link found parsed)
            (go (post_backend blank (one_request ⦃o = o⦄ l event) w)
              (post_direct l.transaction_hash (event ∷ []) w known unknown))))
    where
      go :
          (x : Option ApiResponse × World)
          → (x.0 ≡ api_response false)
            × (x.1.db ≡ v.link.server.db)
            × (x.1.sent ≡ v.link.server.sent)
          → let v' =
              settle_batch ⦃o = with_backend blank o⦄ (min n (v.last_processed_block + 100)) v (
                finished ⦃o = with_backend blank o⦄
                  (one_request ⦃o = o⦄ l event)
                  v.link.answered
                  x) in
            (v'.last_processed_block ≡ min n (v.last_processed_block + 100))
            × (v'.link.server.db ≡ v.link.server.db)
            × (v'.link.server.sent ≡ v.link.server.sent)
      go (none, w') (f, d, s') = cc
      go (some a, w') (f, d, s') = (refl, d, s')
