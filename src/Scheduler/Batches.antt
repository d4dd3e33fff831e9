-- ===== src/Scheduler/Batches.antt =====
-- Every message that the scheduler takes keeps the batch one of consecutive nonces.
use web3_point_exchange.Common.{
  ℕ, ◌≡◌, refl, subst, ◌⊎◌, inl, inr, Bool, true, false, Option, none, some, List, [], ◌∷◌, ◌++◌,
  if◌then◌else◌, zero, suc, ◌==◌,
}
use web3_point_exchange.Chain.{Environment, Ethers}
use web3_point_exchange.Entities.{SwapStatus}
use web3_point_exchange.Platform.{Platform, PointSwapTransaction}
use web3_point_exchange.Scheduler.Nonces.{
  IsDeposit, IsBatch, no_swap, first_deposit, next_deposit, withdrawal, HasBatch, IsBatch-index,
  IsSame, IsNext, MessageSpec,
}
use web3_point_exchange.Scheduler.Machine.{Clients, State, pure, continue, recover, ◌>>=◌}
use web3_point_exchange.Scheduler.Messages.{
  Processed, process_transaction_message, record_result, fail_message, process_message,
}
use web3_point_exchange.Scheduler.Rounds.{
  Step, Oldest, next, break, settle, after, process_oldest, check_queue, round, go_on,
  process_queue, acknowledged, returned, no_message,
}
use web3_point_exchange.Scheduler.Handler.{begin}
use web3_point_exchange.Scheduler.Steps.{within-rule}
use web3_point_exchange.Token.{update_swap_history_status}
use web3_point_exchange.World.{Result, ok, err}
use web3_point_exchange.Scheduler.Pushes.{transaction_message-MessageSpec}

module _ ⦃c : Clients⦄ ⦃p : Platform⦄ ⦃env : Environment⦄ ⦃eth : Ethers⦄ where
  IsSame-HasBatch : (s s' : State) → IsSame s s' → HasBatch s → HasBatch s'
  IsSame-HasBatch s s' (a, b, c) h = rw a (rw b (rw c h))

  next_deposit-IsBatch :
      (s : State) (i n d : ℕ)
      → HasBatch s
      → IsNext s i n
      → IsDeposit i n d
      → IsBatch (some n) (some i) (s.calldatas ++ (d ∷ []))
  next_deposit-IsBatch s i n d h (inl (e, f)) g =
      first_deposit i n d (subst (λ o. IsBatch o s.current_manager_index s.calldatas) e h) f g
  next_deposit-IsBatch s i n d h (inr (k, e, f, o)) g = with_index (IsBatch-index h) o
    where
      with_index :
          (s.before_used_signature_nonce ≡ none) ⊎ ((j : ℕ) × (s.current_manager_index ≡ some j))
          → (s.current_manager_index ≡ none) ⊎ (s.current_manager_index ≡ some i)
          → IsBatch (some n) (some i) (s.calldatas ++ (d ∷ []))
      with_index (inl z) o = cc
      with_index (inr (j, z)) (inl y) = cc
      with_index (inr (j, z)) (inr y) = rw f (
          next_deposit i k d
            (subst (λ q. IsBatch (some k) q s.calldatas) y
              (subst (λ q. IsBatch q s.current_manager_index s.calldatas) e h))
            (subst (λ q. IsDeposit i q d) f g))

  recorded-HasBatch :
      (m : PointSwapTransaction) (s s' : State) (r : Processed)
      → HasBatch s
      → MessageSpec s (ok r, s')
      → HasBatch (record_result m r s').1
  unfolding record_result
  recorded-HasBatch m s s' r h (t, inl (e, f, (a, b, d))) =
      rw t (rw e (rw f (rw a (rw b (rw d h)))))
  recorded-HasBatch m s s' r h (t, inr (inl (d, e, f, (a, b, g), w))) =
      rw t (rw e (rw f (rw a (rw b (rw g (withdrawal d h w))))))
  recorded-HasBatch m s s' r h (t, inr (inr (i, n, d, e, f, (a, b, g), x, y))) =
      rw t (rw e (rw f (rw g (next_deposit-IsBatch s i n d h x y))))

  failed-HasBatch :
      (m : PointSwapTransaction) (s : State) → HasBatch s → HasBatch (fail_message m s).1
  unfolding fail_message
  failed-HasBatch m s h =
      within-rule (λ out. HasBatch out.1) (λ _. pure false) s
        (update_swap_history_status m.user_swap_history_id SwapStatus.failed s.world) (λ e w. h)
        (λ a w. h)

  recovered-HasBatch :
      (m : PointSwapTransaction) (out : Result Bool × State)
      → HasBatch out.1
      → HasBatch (recover out (fail_message m)).1
  recovered-HasBatch m (ok b, s) h = h
  recovered-HasBatch m (err e, s) h = failed-HasBatch m s h

  process_message-HasBatch :
      (m : PointSwapTransaction) (s : State) → HasBatch s → HasBatch (process_message m s).1
  unfolding process_message
  process_message-HasBatch m s h =
      recovered-HasBatch m ((process_transaction_message m >>= record_result m) s)
        (continued (process_transaction_message m s) (transaction_message-MessageSpec m s))
    where
      continued :
          (out : Result Processed × State)
          → MessageSpec s out
          → HasBatch (continue out (record_result m)).1
      continued (ok r, s') q = recorded-HasBatch m s s' r h q
      continued (err e, s') q = IsSame-HasBatch s s' q h

  settle-HasBatch :
      (m : PointSwapTransaction) (out : Result Bool × State)
      → HasBatch out.1
      → HasBatch (settle m out).1
  settle-HasBatch m (ok true, s) h = h
  settle-HasBatch m (ok false, s) h = h
  settle-HasBatch m (err e, s) h = h

  process_oldest-HasBatch : (s : State) → HasBatch s → HasBatch (process_oldest s).1
  unfolding process_oldest
  process_oldest-HasBatch s h = got (c.get_message s.queue) refl
    where
      got :
          (o : Option (Option (PointSwapTransaction × List PointSwapTransaction)))
          → c.get_message s.queue ≡ o
          → HasBatch (process_oldest s).1
      got none e = rw (e, process_oldest) h
      got (some none) e = rw (e, process_oldest) h
      got (some (some (m, rest))) e =
          rw (e, process_oldest)
            (settle-HasBatch m (process_message m (record s { queue = rest }))
              (process_message-HasBatch m (record s { queue = rest }) h))

  after-HasBatch : (out : Oldest × State) → HasBatch out.1 → HasBatch (after out).1
  after-HasBatch (no_message, s) h = h
  after-HasBatch (returned, s) h = h
  after-HasBatch (acknowledged, s) h = h

  round-HasBatch : (s : State) → HasBatch s → HasBatch (round s).1
  unfolding round
  round-HasBatch s h = cases (check_queue s == 0)
    where
      cases : (b : Bool) → HasBatch (if b then (break, s) else after (process_oldest s)).1
      cases true = h
      cases false = after-HasBatch (process_oldest s) (process_oldest-HasBatch s h)

  queue-HasBatch :
      (fuel : ℕ) (s s' : State) → HasBatch s → process_queue fuel s ≡ some s' → HasBatch s'
  unfolding process_queue
  queue-HasBatch zero s s' h e = cc
  queue-HasBatch (suc fuel) s s' h e = go (round s) (round-HasBatch s h) (queue-HasBatch fuel) e
    where
      go :
          (out : Step × State)
          → HasBatch out.1
          → ((t t' : State) → HasBatch t → process_queue fuel t ≡ some t' → HasBatch t')
          → go_on (process_queue fuel) out ≡ some s'
          → HasBatch s'
      go (break, t) k ih f = ended (subst (λ o. Held o) f k)
        where
          Held : Option State → Type 0
          Held none = ⊥
          Held (some t) = HasBatch t

          ended : Held (some s') → HasBatch s'
          ended x = x
      go (next, t) k ih f = ih t s' k f

  -- When the loop ends, whatever messages it took and whichever of them failed, the calldatas to
  -- send are a batch: its first deposit is signed with the nonce that the chain has for a
  -- manager, each further one by the same manager with the next nonce, and the others are
  -- withdrawals.
  pub process_queue-HasBatch :
      (fuel : ℕ) (s s' : State) → process_queue fuel (begin s) ≡ some s' → HasBatch s'
  process_queue-HasBatch fuel s s' e = queue-HasBatch fuel (begin s) s' no_swap e
