-- ===== src/Polling/Loop.antt =====
-- The file with the last block, the health check, and the polling loop.
use web3_point_exchange.Common.{
  ℕ, zero, suc, ◌+◌, Bool, false, Option, none, some, List, [], ◌∷◌, ltb, ◌==◌, if◌then◌else◌,
}
use web3_point_exchange.Polling.Network.{Outside, BlockFile, absent, unreadable, content}
use web3_point_exchange.Polling.Deliver.{QueryFilter, Link, Attempt, process_events}

-- `Math.min`
abbrev pub min : ℕ → ℕ → ℕ
min a b = if ltb a b then a else b

abbrev pub block_batch_size : ℕ
block_batch_size = 100

abbrev pub max_retries : ℕ
max_retries = 36

-- An attempt of the health check: a response with its status, or an error of one of the kinds that
-- the script tells apart in its log.
pub data HealthReply : Type 0 where
  status : ℕ → HealthReply
  refused timed_out other_axios_error other_error : HealthReply

-- The check returns after an attempt, or ends the process with exit code 1.
pub data Health : Type 0 where
  healthy : ℕ → Health
  exited : Health

abbrev pub is_ready : HealthReply → Bool
is_ready (status n) = n == 200
is_ready refused = false
is_ready timed_out = false
is_ready other_axios_error = false
is_ready other_error = false

-- The loop from `attempt`, with `left` attempts to go.
unfoldable pub check_health_from : (ℕ → HealthReply) → ℕ → ℕ → Health
check_health_from reply zero attempt = exited
check_health_from reply (suc left) attempt =
    let rest = check_health_from reply left (suc attempt) in
    if is_ready (reply attempt) then healthy attempt else rest

unfoldable pub check_point_server_health : (ℕ → HealthReply) → Health
check_point_server_health reply = check_health_from reply max_retries 1

-- What a turn of the loop sees: the answers of `provider.getBlockNumber` and of the queries.
pub record Tick : Type 0 where
  pub block_number : Option ℕ
  pub query_filter : QueryFilter

module _ ⦃o : Outside⦄ where
  -- NaN and 0 both give 0.
  unfoldable pub get_last_processed_block : BlockFile → ℕ
  get_last_processed_block absent = 0
  get_last_processed_block unreadable = 0
  get_last_processed_block (content text) = elim (o.parse_int text) [ none ↦ 0 | some n ↦ n ]

  unfoldable pub save_last_processed_block : ℕ → BlockFile → BlockFile
  save_last_processed_block n f = o.write_file (o.to_text n) f

  pub record Poller : Type 0 where
    pub last_processed_block : ℕ
    pub file : BlockFile
    pub link : Link

  -- The start of `startEventPolling`: the block to go on from.
  unfoldable pub start_event_polling : Option ℕ → BlockFile → Link → Option Poller
  unfolding get_last_processed_block
  start_event_polling current f s =
      if get_last_processed_block f == 0
      then (elim current [
        | none ↦ none
        | some n ↦ some (record { last_processed_block = n; file = f; link = s })
      ])
      else some (record { last_processed_block = get_last_processed_block f; file = f; link = s })

  -- After `processEvents`: the block moves on, or the `catch` waits and leaves it.
  abbrev pub settle_batch : ℕ → Poller → Attempt → Poller
  settle_batch to_block s (none, l) = record s { link = l }
  settle_batch to_block s (some _, l) = record {
    last_processed_block = to_block;
    file = save_last_processed_block to_block s.file;
    link = l;
  }

  unfoldable pub poll_to : ℕ → QueryFilter → Poller → Poller
  unfolding save_last_processed_block process_events
  poll_to to_block query s =
      settle_batch to_block s (process_events query (s.last_processed_block + 1) to_block s.link)

  -- The body of `while (true)`.
  unfoldable pub poll_once : Tick → Poller → Poller
  unfolding poll_to
  poll_once t s = elim t.block_number [
    | none ↦ s
    | some current ↦
        if ltb s.last_processed_block current
        then poll_to (min current (s.last_processed_block + block_batch_size)) t.query_filter s
        else s
  ]

  unfoldable pub poll : List Tick → Poller → Poller
  unfolding poll_once
  poll [] s = s
  poll (t ∷ ts) s = poll ts (poll_once t s)
