-- ===== src/Scheduler/Rounds.antt =====
-- The loop of `processPointSwapTransactions` over the queue, with
-- `RabbitmqService.processOldestPointSwapTransaction` (backend/src/modules/rabbitmq/rabbitmq.service.ts).
-- The acknowledgement of a message is written to an open channel and does not fail.
use web3_point_exchange.Common.{
  ℕ, zero, suc, ◌-◌, Bool, true, false, Option, none, some, List, [], ◌∷◌, ◌++◌, ltb, ◌==◌,
  if◌then◌else◌,
}
use web3_point_exchange.Chain.{Environment, Ethers, get_multicall_calldata, estimate_gas}
use web3_point_exchange.Platform.{Platform, PointSwapTransaction}
use web3_point_exchange.Scheduler.Machine.{Clients, State}
use web3_point_exchange.Scheduler.Messages.{process_message}
use web3_point_exchange.World.{Result, ok, err}

abbrev pub appropriate_gas_per_transaction : ℕ
appropriate_gas_per_transaction = 300000

abbrev pub average_gas_per_transaction : ℕ
average_gas_per_transaction = 115000

-- What `processOldestPointSwapTransaction` answers: no message, a message that is back in the queue, or
-- one that is acknowledged.
pub data Oldest : Type 0 where
  no_message returned acknowledged : Oldest

-- Whether the loop goes on.
pub data Step : Type 0 where
  next break : Step

module _ ⦃c : Clients⦄ ⦃p : Platform⦄ ⦃env : Environment⦄ ⦃eth : Ethers⦄ where
  unfoldable pub check_queue : State → ℕ
  check_queue s = elim (c.message_count s.queue) [ none ↦ 0 | some n ↦ n ]

  abbrev pub settle : PointSwapTransaction → Result Bool × State → Oldest × State
  settle m (ok true, s) = (acknowledged, s)
  settle m (ok false, s) = (returned, record s { queue = c.requeue m s.queue })
  settle m (err e, s) = (returned, record s { queue = c.requeue m s.queue })

  unfoldable pub process_oldest : State → Oldest × State
  process_oldest s = elim (c.get_message s.queue) [
    | none ↦ (no_message, s)
    | some none ↦ (no_message, s)
    | some (some (m, rest)) ↦ settle m (process_message m (record s { queue = rest }))
  ]

  abbrev pub over_limit : Option ℕ → Bool
  over_limit none = true
  over_limit (some gas) = ltb (appropriate_gas_per_transaction - average_gas_per_transaction) gas

  abbrev pub estimate_batch : Option ℕ → Option ℕ
  estimate_batch none = none
  estimate_batch (some multicall) = estimate_gas multicall

  unfoldable pub gas_reached : List ℕ → List ℕ → Bool
  gas_reached permits [] = false
  gas_reached permits (d ∷ ds) =
      over_limit (estimate_batch (get_multicall_calldata (permits ++ (d ∷ ds))))

  abbrev pub after : Oldest × State → Step × State
  after (no_message, s) = (break, s)
  after (returned, s) = (next, s)
  after (acknowledged, s) = (if gas_reached s.permit_calldatas s.calldatas then break else next, s)

  unfoldable pub round : State → Step × State
  round s = if check_queue s == 0 then (break, s) else after (process_oldest s)

  abbrev pub go_on : (State → Option State) → Step × State → Option State
  go_on loop (break, s) = some s
  go_on loop (next, s) = loop s

  -- `none` when the fuel is used up.
  unfoldable pub process_queue : ℕ → State → Option State
  process_queue zero s = none
  process_queue (suc fuel) s = go_on (process_queue fuel) (round s)
