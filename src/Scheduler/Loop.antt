-- ===== src/Scheduler/Loop.antt =====
-- When the loop over the queue ends, and when it does not.
use web3_point_exchange.Common.{
  ℕ, zero, suc, ◌≡◌, refl, ap, ◌∙◌, false, none, some, List, [], ◌∷◌, length, arith, ◌==◌,
}
use web3_point_exchange.Chain.{Environment, Ethers}
use web3_point_exchange.Entities.{SwapType, SwapStatus}
use web3_point_exchange.Platform.{Platform, PointSwapTransaction}
use web3_point_exchange.Scheduler.Machine.{Clients, State, head_of, pure, within, continue}
use web3_point_exchange.Scheduler.Messages.{
  signed, process_withdraw_point_transaction, process_transaction_message, fail_message,
  process_message,
}
use web3_point_exchange.Scheduler.Rounds.{
  next, settle, after, process_oldest, check_queue, round, process_queue, returned,
}
use web3_point_exchange.Token.{update_swap_history_status}
use web3_point_exchange.World.{World, Result, ok, err}

-- The broker answers.
pub record IsUp ⦃c : Clients⦄ : Type 0 where
  pub counts : (q : List PointSwapTransaction) → c.message_count q ≡ some (length q)
  pub gives : (q : List PointSwapTransaction) → c.get_message q ≡ some (head_of q)

module _ ⦃c : Clients⦄ ⦃p : Platform⦄ ⦃env : Environment⦄ ⦃eth : Ethers⦄ (up : IsUp) where
  returned-eq :
      (m : PointSwapTransaction) (s : State) (out : Result (Unit {0}) × World)
      → settle m (continue (within s out) (λ _. pure false))
        ≡ (returned, record s { world = out.1; queue = c.requeue m s.queue })
  returned-eq m s (ok a, w) = refl
  returned-eq m s (err e, w) = refl

  -- A withdrawal without signature or deadline is thrown out and back into the queue.
  unsigned-eq :
      (m : PointSwapTransaction) (s : State)
      → m.type ≡ SwapType.token_to_point
      → signed m.signature m.valid_until ≡ none
      → process_message m s ≡ fail_message m s
  unfolding process_message process_transaction_message process_withdraw_point_transaction
  unsigned-eq m s t u = rw (t, process_message) (rw (u, process_message) refl)

  pub check_queue-eq : (s : State) → check_queue s ≡ length s.queue
  unfolding check_queue
  check_queue-eq s = rw (up.counts s.queue, check_queue) refl

  process_oldest-eq :
      (m : PointSwapTransaction) (rest : List PointSwapTransaction) (s : State)
      → s.queue ≡ m ∷ rest
      → process_oldest s ≡ settle m (process_message m (record s { queue = rest }))
  unfolding process_oldest
  process_oldest-eq m rest s q =
      let e : c.get_message s.queue ≡ some (some (m, rest)) =
        up.gives s.queue ∙ ap (λ l. some (head_of l)) q in
      rw (e, process_oldest) refl

  pub round-eq :
      (m : PointSwapTransaction) (rest : List PointSwapTransaction) (s : State)
      → s.queue ≡ m ∷ rest
      → round s ≡ after (settle m (process_message m (record s { queue = rest })))
  unfolding round
  round-eq m rest s q =
      let some_left : (check_queue s == 0) ≡ false =
        rw (check_queue-eq s ∙ ap length q) (ground arith) in
      rw (some_left, round) (rw (process_oldest-eq m rest s q) refl)

  poison-round :
      (m : PointSwapTransaction) (s : State)
      → m.type ≡ SwapType.token_to_point
      → signed m.signature m.valid_until ≡ none
      → s.queue ≡ m ∷ []
      → (s' : State) × (round s ≡ (next, s')) × (s'.queue ≡ m ∷ [])
  unfolding fail_message
  poison-round m s t u q =
      let s0 : State = record s { queue = [] } in
      let out = update_swap_history_status m.user_swap_history_id SwapStatus.failed s.world in
      (
        record s { world = out.1; queue = c.requeue m [] },
        (round-eq m [] s q
            ∙ ap (λ o. after (settle m o)) (unsigned-eq m s0 t u)
            ∙ ap after (returned-eq m s0 out)),
        c.requeue_alone m,
      )

  -- When the broker answers, a queue that holds nothing but a withdrawal without signature or
  -- deadline keeps the loop going for ever: no fuel is enough.
  pub poison_never_ends :
      (m : PointSwapTransaction) (fuel : ℕ) (s : State)
      → m.type ≡ SwapType.token_to_point
      → signed m.signature m.valid_until ≡ none
      → s.queue ≡ m ∷ []
      → process_queue fuel s ≡ none
  unfolding process_queue
  poison_never_ends m zero s t u q = refl
  poison_never_ends m (suc fuel) s t u q =
      let (s', e, q') = poison-round m s t u q in
      rw (e, process_queue) (poison_never_ends m fuel s' t u q')
