-- ===== src/Polling/Events.antt =====
-- Logs read as requests: `parseEventLog`, `parseValidUserEventLog` and `groupEventsByTransaction`.
use web3_point_exchange.Common.{
  ℕ, pos, Option, none, some, List, [], ◌∷◌, ◌++◌, ◌==◌, if◌then◌else◌,
}
use web3_point_exchange.Polling.Network.{Outside, Log, LogArgs, PointEventLog, ValidUserEventLog}

-- `undefined.toString()` throws.
abbrev pub point_event : LogArgs → Option PointEventLog
point_event a = elim a.amount [
  | none ↦ none
  | some n ↦ elim a.token_amount [
    | none ↦ none
    | some t ↦
        some (record { wallet_address = a.account; point_amount = pos n; token_amount = pos t })
  ]
]

-- A `Map` from transaction hashes to logs, in the order of insertion.
abbrev pub Groups : Type 0
Groups = List (ℕ × List Log)

-- One turn of the loop: `set` when the map lacks the hash, then `push`.
unfoldable pub push_log : Log → Groups → Groups
push_log l [] = (l.transaction_hash, l ∷ []) ∷ []
push_log l ((h, ls) ∷ gs) =
    if h == l.transaction_hash then (h, ls ++ (l ∷ [])) ∷ gs else (h, ls) ∷ push_log l gs

unfoldable pub push_logs : Groups → List Log → Groups
push_logs gs [] = gs
push_logs gs (l ∷ ls) = push_logs (push_log l gs) ls

unfoldable pub group_events_by_transaction : List Log → Groups
group_events_by_transaction = push_logs []

module _ ⦃o : Outside⦄ where
  unfoldable pub parse_event_log : Log → Option PointEventLog
  parse_event_log l = elim (o.parse_log l) [ none ↦ none | some a ↦ point_event a ]

  unfoldable pub parse_valid_user_event_log : Log → Option ValidUserEventLog
  parse_valid_user_event_log l = elim (o.parse_log l) [
    | none ↦ none
    | some a ↦ some (record { wallet_address = a.account; is_valid = a.is_valid })
  ]

  -- `logs.map(log => parseEventLog(log, iface))`
  unfoldable pub parse_event_logs : List Log → Option (List PointEventLog)
  parse_event_logs [] = some []
  parse_event_logs (l ∷ ls) = elim (parse_event_log l) [
    | none ↦ none
    | some e ↦ elim (parse_event_logs ls) [ none ↦ none | some es ↦ some (e ∷ es) ]
  ]
