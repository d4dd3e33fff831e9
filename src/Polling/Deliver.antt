-- ===== src/Polling/Deliver.antt =====
-- `sendEventToServer`, `sendValidUserEventToServer` and `processEvents`.
use web3_point_exchange.Common.{ℕ, Option, none, some, List, [], ◌∷◌, ◌++◌}
use web3_point_exchange.Polling.Network.{
  Outside, EventName, point_deposited, point_withdrawn, valid_user_set, Log, Endpoint,
  point_to_token_process, token_to_point_process, ApiRequest, ApiResponse, ValidUserApiRequest,
  Request, point_events, valid_user,
}
use web3_point_exchange.Polling.Events.{
  Groups, group_events_by_transaction, parse_event_logs, parse_valid_user_event_log,
}

-- `contract.queryFilter(name, fromBlock, toBlock)` at some moment.
abbrev pub QueryFilter : Type 0
QueryFilter = EventName → ℕ → ℕ → Option (List Log)

module _ ⦃o : Outside⦄ where
  -- The server, and the requests that the script has logged as answered, the last one at the end.
  pub record Link : Type 0 where
    pub server : o.Server
    pub answered : List Request

  -- `none` when the script's function throws.
  abbrev pub Attempt : Type 0
  Attempt = Option (Unit {0}) × Link

  abbrev pub and_then : Attempt → (Link → Attempt) → Attempt
  and_then (none, s) f = (none, s)
  and_then (some _, s) f = f s

  -- The response only goes to the console, whatever it says.
  abbrev pub log_answer : Request → List Request → Option ApiResponse × o.Server → Attempt
  log_answer r done (none, server) = (none, record { server = server; answered = done })
  log_answer r done (some _, server) =
      (some tt, record { server = server; answered = done ++ (r ∷ []) })

  unfoldable pub send_event_to_server : Endpoint → ApiRequest → Link → Attempt
  send_event_to_server e d s =
      log_answer (point_events e d) s.answered (o.post (point_events e d) s.server)

  unfoldable pub send_valid_user_event_to_server : ValidUserApiRequest → Link → Attempt
  send_valid_user_event_to_server d s =
      log_answer (valid_user d) s.answered (o.post (valid_user d) s.server)

  -- `for (const [txHash, logs] of groupedLogs)`
  unfoldable pub send_groups : Endpoint → Groups → Link → Attempt
  unfolding send_event_to_server
  send_groups e [] s = (some tt, s)
  send_groups e ((hash, logs) ∷ gs) s =
      let rest = send_groups e gs in
      elim (parse_event_logs logs) [
        | none ↦ (none, s)
        | some events ↦
            and_then
              (send_event_to_server e (record { transaction_hash = hash; event_logs = events }) s)
              rest
      ]

  -- `if (logs.length > 0)`
  unfoldable pub send_point_logs : Endpoint → List Log → Link → Attempt
  unfolding send_groups
  send_point_logs e [] s = (some tt, s)
  send_point_logs e (l ∷ ls) s = send_groups e (group_events_by_transaction (l ∷ ls)) s

  unfoldable pub send_valid_user_logs : List Log → Link → Attempt
  unfolding send_valid_user_event_to_server
  send_valid_user_logs [] s = (some tt, s)
  send_valid_user_logs (l ∷ ls) s =
      let rest = send_valid_user_logs ls in
      elim (parse_valid_user_event_log l) [
        | none ↦ (none, s)
        | some v ↦
            and_then
              (send_valid_user_event_to_server
                (record { wallet_address = v.wallet_address; is_valid = v.is_valid }) s)
              rest
      ]

  -- The part of `processEvents` after the three queries.
  unfoldable pub send_logs : List Log → List Log → List Log → Link → Attempt
  unfolding send_point_logs send_valid_user_logs
  send_logs deposited withdrawn valid s =
      and_then (send_point_logs point_to_token_process deposited s) λ s1.
        and_then (send_point_logs token_to_point_process withdrawn s1) (send_valid_user_logs valid)

  -- `Promise.all` throws when one of the queries does.
  unfoldable pub process_events : QueryFilter → ℕ → ℕ → Link → Attempt
  unfolding send_logs
  process_events query from_block to_block s = elim (query point_deposited from_block to_block) [
    | none ↦ (none, s)
    | some deposited ↦ elim (query point_withdrawn from_block to_block) [
      | none ↦ (none, s)
      | some withdrawn ↦ elim (query valid_user_set from_block to_block) [
        | none ↦ (none, s)
        | some valid ↦ send_logs deposited withdrawn valid s
      ]
    ]
  ]
