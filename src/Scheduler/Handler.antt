-- ===== src/Scheduler/Handler.antt =====
-- What `processPointSwapTransactions` does with the batch after its loop, and
-- `handlePointSwapTransaction`.
use web3_point_exchange.Common.{ℕ, ◌+◌, ◌%◌, Option, none, some, List, [], ◌∷◌, ◌++◌}
use web3_point_exchange.Chain.{
  Environment, Ethers, send_multicall_transaction, send_raw_transaction, send_permit_transaction,
}
use web3_point_exchange.Platform.{Platform, LockKey, handle_point_swap_transaction}
use web3_point_exchange.Scheduler.Machine.{
  Clients, State, Run, pure, gets, or_throw, call, modify, ◌>>=◌, ◌>>◌, recover,
  set_current_manager_index, get_current_relayer_index, set_current_relayer_index,
}
use web3_point_exchange.Scheduler.Rounds.{process_queue}
use web3_point_exchange.Token.{process_swap_history_transactions}
use web3_point_exchange.World.{chain_rejected}

module _ ⦃c : Clients⦄ ⦃p : Platform⦄ ⦃env : Environment⦄ ⦃eth : Ethers⦄ where
  -- The hashes of the permits that are mined; `Promise.allSettled` passes over the others.
  unfoldable pub send_permits : ℕ → List ℕ → List ℕ
  send_permits i [] = []
  send_permits i (d ∷ ds) = elim (send_permit_transaction d i) [
    | none ↦ send_permits i ds
    | some h ↦ h ∷ send_permits i ds
  ]

  unfoldable pub handle_permits : List ℕ → Run (Unit {0})
  handle_permits [] = pure tt
  handle_permits (d ∷ ds) = do
    i ← get_current_relayer_index
    modify (λ s. record s { permits_sent = s.permits_sent ++ send_permits i (d ∷ ds) })

  -- `(currentManagerIndex + 1) % maxManagerCount`, when there is an index.
  unfoldable pub advance_manager : Option ℕ → Run (Unit {0})
  advance_manager none = pure tt
  advance_manager (some i) = set_current_manager_index ((i + 1) % env.max_manager_count)

  -- The `try` around the transaction.
  unfoldable pub send_batch : List ℕ → ℕ → Run (Unit {0})
  send_batch calldatas i = do
    signed ← or_throw chain_rejected (send_multicall_transaction calldatas i)
    datas ← gets (λ s. s.tx_datas)
    call (process_swap_history_transactions signed.1 datas)
    hash ← or_throw chain_rejected (send_raw_transaction signed.0)
    modify (λ s. record s { broadcasts = s.broadcasts ++ (hash ∷ []) })
    current ← gets (λ s. s.current_manager_index)
    advance_manager current

  unfoldable pub handle_batch : List ℕ → Run (Unit {0})
  handle_batch [] = pure tt
  handle_batch (d ∷ ds) = do
    i ← get_current_relayer_index
    λ s. recover (send_batch (d ∷ ds) i s) (pure tt)
    set_current_relayer_index ((i + 1) % env.max_relayer_count)

  unfoldable pub finish : Run (Unit {0})
  finish = do
    permits ← gets (λ s. s.permit_calldatas)
    handle_permits permits
    calldatas ← gets (λ s. s.calldatas)
    handle_batch calldatas

  -- The local variables, as a run begins with them.
  abbrev pub begin : State → State
  begin s = record s {
    before_used_signature_nonce = none;
    current_manager_index = none;
    calldatas = [];
    permit_calldatas = [];
    tx_datas = [];
  }

  abbrev pub finish_after : Option State → Option State
  finish_after none = none
  finish_after (some s) = some ((finish s).1)

  unfoldable pub process_point_swap_transactions : ℕ → State → Option State
  process_point_swap_transactions fuel s = finish_after (process_queue fuel (begin s))

  abbrev pub hold : List LockKey → State → State
  hold held s = record s { world = record (s.world) { locks = held } }

  -- A release that fails is caught with the rest.
  abbrev pub let_go : Option State → Option State
  let_go none = none
  let_go (some s) = elim (p.release handle_point_swap_transaction s.world.locks) [
    | none ↦ some s
    | some held ↦ some (hold held s)
  ]

  unfoldable pub handle_swap_transaction : ℕ → State → Option State
  handle_swap_transaction fuel s = elim (p.acquire handle_point_swap_transaction s.world.locks) [
    | none ↦ some s
    | some held ↦ let_go (process_point_swap_transactions fuel (hold held s))
  ]
