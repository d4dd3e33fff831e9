-- ===== src/Token/Atomic.antt =====
-- `processPointToTokenTransaction` on every platform: it answers, and commits all or nothing.
use web3_point_exchange.Common.{ℕ, ◌≡◌, refl, ap, ◌∙◌, ◌⊎◌, inl, inr, List, [], ◌∷◌, map, arith}
use web3_point_exchange.Entities.{UserSwapHistory, PointToTokenTransaction, SwapStatus, TokenStatus}
use web3_point_exchange.Platform.{Platform}
use web3_point_exchange.Repositories.PointToTokenTransactions
use web3_point_exchange.Repositories.UserSwapHistories
use web3_point_exchange.Token.Swaps.{update_each, update_status_by_mint_ids}
use web3_point_exchange.Token.Process.{
  Outcome, processed, no_transaction_found, process_failed, catch_failure, point_to_token_callback,
  process_point_to_token_transaction,
}
use web3_point_exchange.World.{
  Db, World, Result, manager, ok, err, pure, continue, transaction, end_transaction,
}

-- What an open transaction does to the committed database: nothing.
abbrev KeepsDb : {A : Type 0} → Db → Result A × World → Type 0
KeepsDb d (_, w') = w'.db ≡ d

module _ ⦃p : Platform⦄ where
  update_status-KeepsDb :
      (i : ℕ) (s : SwapStatus) (w : World)
      → KeepsDb w.db (UserSwapHistories.update_status i s manager w)
  unfolding UserSwapHistories.update_status
  update_status-KeepsDb i s w = ground (
    arith,
    p.update_law (UserSwapHistories.by_id i) (UserSwapHistories.set_status s w.now)
        w.working.user_swap_histories,
  )

  update_each-KeepsDb :
      (s : SwapStatus) (hs : List UserSwapHistory) (w : World)
      → KeepsDb w.db (update_each s manager hs w)
  unfolding update_each
  update_each-KeepsDb s [] w = refl
  update_each-KeepsDb s (h ∷ hs) w =
      go (UserSwapHistories.update_status h.user_swap_history_id s manager w)
        (update_status-KeepsDb h.user_swap_history_id s w) (update_each-KeepsDb s hs)
    where
      go :
          (out : Result (Unit {0}) × World)
          → KeepsDb w.db out
          → ((w' : World) → KeepsDb w'.db (update_each s manager hs w'))
          → KeepsDb w.db (continue out (λ _. update_each s manager hs))
      go (ok a, w') k ih = ih w' ∙ k
      go (err e, w') k ih = k

  confirm-KeepsDb :
      (is : List ℕ) (s : TokenStatus) (w : World)
      → KeepsDb w.db (PointToTokenTransactions.update_status_by_ids is s manager w)
  unfolding PointToTokenTransactions.update_status_by_ids
  confirm-KeepsDb [] s w = refl
  confirm-KeepsDb (i ∷ is) s w = ground (
    arith,
    p.update_law (PointToTokenTransactions.among (i ∷ is))
        (PointToTokenTransactions.set_status s w.now) w.working.point_to_token_transactions,
  )

-- `processed`, or no success and the committed database `d`.
abbrev pub AtomicSpec : Db → Result Outcome × World → Type 0
AtomicSpec d (r, w') =
    (r ≡ ok processed) ⊎ (((r ≡ ok no_transaction_found) ⊎ (r ≡ ok process_failed)) × (w'.db ≡ d))

-- The same of the callback, whose work is committed when it returns.
abbrev OpenSpec : Db → Result Outcome × World → Type 0
OpenSpec d (ok o, w') = (o ≡ processed) ⊎ ((o ≡ no_transaction_found) × (w'.working ≡ d))
OpenSpec d (err e, w') = w'.db ≡ d

finish :
    (d : Db) (out : Result Outcome × World)
    → OpenSpec d out
    → AtomicSpec d (catch_failure (end_transaction out))
finish d (ok o, w') (inl e) = inl (ap ok e)
finish d (ok o, w') (inr (e, k)) = inr (inl (ap ok e), k)
finish d (err e, w') k = inr (inr refl, k)

module _ ⦃p : Platform⦄ where
  then_processed :
      (d : Db) (out : Result (Unit {0}) × World)
      → KeepsDb d out
      → OpenSpec d (continue out (λ _. pure processed))
  then_processed d (ok a, w') k = inl refl
  then_processed d (err e, w') k = k

  update_status_by_mint_ids-KeepsDb :
      (is : List ℕ) (s : SwapStatus) (w : World)
      → KeepsDb w.db (update_status_by_mint_ids is s manager w)
  unfolding update_status_by_mint_ids UserSwapHistories.get_with_pagination
  update_status_by_mint_ids-KeepsDb [] s w = refl
  update_status_by_mint_ids-KeepsDb (i ∷ is) s w = update_each-KeepsDb s _ w

  then_complete :
      (d : Db) (is : List ℕ) (out : Result (Unit {0}) × World)
      → KeepsDb d out
      → OpenSpec d (
          continue
            (continue out (λ _. update_status_by_mint_ids is SwapStatus.completed manager))
            (λ _. pure processed))
  then_complete d is (ok a, w') k =
      then_processed d (update_status_by_mint_ids is SwapStatus.completed manager w')
        (update_status_by_mint_ids-KeepsDb is SwapStatus.completed w' ∙ k)
  then_complete d is (err e, w') k = k

  point_to_token_callback-OpenSpec :
      (hash : ℕ) (w : World) → w.working ≡ w.db → OpenSpec w.db (point_to_token_callback hash w)
  unfolding point_to_token_callback PointToTokenTransactions.find_by_transaction_hash
  point_to_token_callback-OpenSpec hash w e =
      split (p.find (PointToTokenTransactions.by_hash hash) w.db.point_to_token_transactions) refl
    where
      split :
          (txs : List PointToTokenTransaction)
          → p.find (PointToTokenTransactions.by_hash hash) w.db.point_to_token_transactions ≡ txs
          → OpenSpec w.db (point_to_token_callback hash w)
      split [] f = rw (f, point_to_token_callback) (inr (refl, e))
      split (t ∷ ts) f =
          let is : List ℕ = map (λ r. r.point_to_token_transaction_id) (t ∷ ts) in
          rw (f, point_to_token_callback)
            (then_complete w.db is
              (PointToTokenTransactions.update_status_by_ids is TokenStatus.confirmed manager w)
              (confirm-KeepsDb is TokenStatus.confirmed w))

  -- The call never throws: it answers that it is processed, or it answers that there is no
  -- transaction or that the processing failed, and then the committed database is as before.
  pub process_point_to_token_atomic :
      (hash : ℕ) (w : World) → AtomicSpec w.db (process_point_to_token_transaction hash w)
  unfolding process_point_to_token_transaction transaction
  process_point_to_token_atomic hash w =
      finish w.db _ (point_to_token_callback-OpenSpec hash (record w { working = w.db }) refl)
