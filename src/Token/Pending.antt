-- ===== src/Token/Pending.antt =====
-- The loop of `processSwapHistoryTransactions` over the histories of a batch.
use web3_point_exchange.Common.{
  ℕ, ℤ, ◌≡◌, refl, sym, subst, inl, inr, Bool, true, false, some, List, [], ◌∷◌, map, arith, ◌==◌,
  set_where, Has, Option-cases, Bool-cases, ==_iff,
}
use web3_point_exchange.Entities.{
  UserSwapHistory, PointToTokenTransaction, SwapType, TokenStatus, is_pending,
}
use web3_point_exchange.Platform.{Platform}
use web3_point_exchange.Repositories.UserSwapHistories
use web3_point_exchange.Repositories.PointToTokenTransactions
use web3_point_exchange.Platform.Found.{found}
use web3_point_exchange.Token.Steps.{create_token-cases}
use web3_point_exchange.Token.Records.{
  create_point_to_token_transactions, create_token_to_point_transactions,
}
use web3_point_exchange.Token.Swaps.{
  link_transaction, process_history, process_histories, process_swap_history_transactions,
}
use web3_point_exchange.World.{
  Db, World, Action, Result, manager, ok, err, ◌>>=◌, continue, transaction, end_transaction,
}

module _ ⦃p : Platform⦄ where
  -- An UPDATE of the row with another key keeps a row.
  Has-update_ne :
      (i : ℕ) (f : UserSwapHistory → UserSwapHistory) (r : UserSwapHistory)
      (rows : List UserSwapHistory)
      → (r.user_swap_history_id == i) ≡ false
      → Has r rows
      → Has r (map (set_where (UserSwapHistories.by_id i) f) rows)
  unfolding UserSwapHistories.by_id
  Has-update_ne i f r [] n m = m
  Has-update_ne i f r (x ∷ xs) n (inl e) = inl (ground arith)
  Has-update_ne i f r (x ∷ xs) n (inr m) = inr (Has-update_ne i f r xs n m)

  -- The primary key.
  abbrev pub HasUniqueIds : World → Type 0
  HasUniqueIds w =
      (r s : UserSwapHistory)
      → Has r w.db.user_swap_histories
      → Has s w.db.user_swap_histories
      → r.user_swap_history_id ≡ s.user_swap_history_id
      → r ≡ s

  -- The row `r` is among the histories of the open transaction, which began at the database `d`.
  abbrev Keeps : {A : Type 0} → UserSwapHistory → Db → Result A × World → Type 0
  Keeps r d (_, w') = (w'.db ≡ d) × Has r w'.working.user_swap_histories

  module _ (r : UserSwapHistory) (d : Db) where
    update-Keeps :
        (h : UserSwapHistory) (assign : UserSwapHistory → UserSwapHistory) (w : World)
        → (r.user_swap_history_id == h.user_swap_history_id) ≡ false
        → Keeps r d (ok tt, w)
        → Keeps r d (UserSwapHistories.update h.user_swap_history_id assign manager w)
    unfolding UserSwapHistories.update
    update-Keeps h assign w n (e, m) =
        elim (Option-cases
          (p.find_one (UserSwapHistories.by_id h.user_swap_history_id) w.db.user_swap_histories)) [
            | inl f ↦ rw (f, UserSwapHistories.update) (e, m)
            | inr (g, f) ↦
                let i = h.user_swap_history_id in
                let saved : UserSwapHistory = record (assign g) { updated_at = w.now } in
                rw (f, UserSwapHistories.update)
                  (elim (p.update_law (UserSwapHistories.by_id i) (λ _. saved)
                    w.working.user_swap_histories) [
                      | inl u ↦ rw u (e, m)
                      | inr u ↦
                          rw u (e, Has-update_ne i (λ _. saved) r w.working.user_swap_histories n m)
                    ])
          ]

    rest-Keeps :
        {A B : Type 0} (m : Action A) (k : A → Action B) (w : World)
        → Keeps r d (m w)
        → ((a : A) (w' : World) → Keeps r d (ok tt, w') → Keeps r d (k a w'))
        → Keeps r d ((m >>= k) w)
    rest-Keeps m k w h f = go (m w) h
      where
        go : (out : Result _ × World) → Keeps r d out → Keeps r d (continue out k)
        go (ok a, w') h = f a w' h
        go (err e, w') h = h

    create_point_to_token-Keeps :
        (hash : ℕ) (status : TokenStatus) (amount : ℤ) (w : World)
        → Keeps r d (ok tt, w)
        → Keeps r d (create_point_to_token_transactions hash status amount manager w)
    unfolding create_point_to_token_transactions PointToTokenTransactions.create
    create_point_to_token-Keeps hash status amount w h =
        let row : PointToTokenTransaction = record {
          point_to_token_transaction_id =
              p.fresh (PointToTokenTransactions.ids w.working.point_to_token_transactions);
          transaction_hash = some hash;
          status = status;
          amount = amount;
          created_at = w.now;
          updated_at = w.now;
        } in
        elim (p.insert_law row w.working.point_to_token_transactions) [
          | inl e ↦ rw (e, PointToTokenTransactions.create, create_point_to_token_transactions) h
          | inr e ↦ rw (e, PointToTokenTransactions.create, create_point_to_token_transactions) h
        ]

    create_token_to_point-Keeps :
        (hash : ℕ) (status : TokenStatus) (amount : ℤ) (w : World)
        → Keeps r d (ok tt, w)
        → Keeps r d (create_token_to_point_transactions hash status amount manager w)
    create_token_to_point-Keeps hash status amount w h =
        elim (create_token-cases hash status amount w) [ inl e ↦ rw e h | inr e ↦ rw e h ]

    link_transaction-Keeps :
        (hash : ℕ) (type : SwapType) (h : UserSwapHistory) (w : World)
        → (r.user_swap_history_id == h.user_swap_history_id) ≡ false
        → Keeps r d (ok tt, w)
        → Keeps r d (link_transaction hash type h w)
    unfolding link_transaction
    link_transaction-Keeps hash SwapType.point_to_token h w n k =
        rest-Keeps
          (create_point_to_token_transactions hash TokenStatus.processed h.amount_token manager) _ w
          (create_point_to_token-Keeps hash TokenStatus.processed h.amount_token w k)
          (λ tx w' k'.
            rest-Keeps (UserSwapHistories.update h.user_swap_history_id _ manager) _ w'
              (update-Keeps h _ w' n k') (λ _ w'' k''. k''))
    link_transaction-Keeps hash SwapType.token_to_point h w n k =
        rest-Keeps
          (create_token_to_point_transactions hash TokenStatus.processed h.amount_point manager) _ w
          (create_token_to_point-Keeps hash TokenStatus.processed h.amount_point w k)
          (λ tx w' k'.
            rest-Keeps (UserSwapHistories.update h.user_swap_history_id _ manager) _ w'
              (update-Keeps h _ w' n k') (λ _ w'' k''. k''))

    -- A pending history has another key than the settled row `r`.
    apart :
        (h : UserSwapHistory)
        → ((s : UserSwapHistory)
            → Has s d.user_swap_histories
            → r.user_swap_history_id ≡ s.user_swap_history_id
            → r ≡ s)
        → is_pending r.status ≡ false
        → Has h d.user_swap_histories
        → is_pending h.status ≡ true
        → (r.user_swap_history_id == h.user_swap_history_id) ≡ false
    apart h unique settled m pend =
        elim (Bool-cases (r.user_swap_history_id == h.user_swap_history_id)) [
          | inl e ↦
              let same = unique h m ((==_iff r.user_swap_history_id h.user_swap_history_id).0 e) in
              absurd (
                no_both (is_pending h.status)
                  (subst (λ s. is_pending s.status ≡ false) same settled) pend)
          | inr n ↦ n
        ]
      where
        no_both : (b : Bool) → b ≡ false → b ≡ true → ⊥
        no_both b f t = cc

    module _
        (unique : (s : UserSwapHistory)
          → Has s d.user_swap_histories
          → r.user_swap_history_id ≡ s.user_swap_history_id
          → r ≡ s)
        (settled : is_pending r.status ≡ false) where
      process_history-Keeps :
          (hash : ℕ) (e : ℕ × SwapType) (w : World)
          → Keeps r d (ok tt, w)
          → Keeps r d (process_history hash e w)
      unfolding process_history UserSwapHistories.find_by_id
      process_history-Keeps hash (i, type) w k =
          elim (Option-cases (p.find_one (UserSwapHistories.by_id i) w.db.user_swap_histories)) [
            | inl f ↦ rw (f, process_history) k
            | inr (h, f) ↦ elim (Bool-cases (is_pending h.status)) [
              | inr s ↦ rw (f, process_history) (rw s k)
              | inl s ↦
                  let m = (found (UserSwapHistories.by_id i) w.db.user_swap_histories f).1 in
                  let n =
                    apart h unique settled (subst (λ t. Has h t.user_swap_histories) k.0 m) s in
                  rw (f, process_history) (rw s (link_transaction-Keeps hash type h w n k))
            ]
          ]

      process_histories-Keeps :
          (hash : ℕ) (ds : List (ℕ × SwapType)) (w : World)
          → Keeps r d (ok tt, w)
          → Keeps r d (process_histories hash ds w)
      unfolding process_histories
      process_histories-Keeps hash [] w k = k
      process_histories-Keeps hash (e ∷ ds) w k =
          rest-Keeps (process_history hash e) _ w (process_history-Keeps hash e w k)
            (λ _ w' k'. process_histories-Keeps hash ds w' k')

  -- In a table without two rows of one key, a history that is not pending stays as it is,
  -- whatever batch is recorded and whether the recording succeeds or throws.
  pub settled_history_kept :
      (hash : ℕ) (ds : List (ℕ × SwapType)) (w : World) (r : UserSwapHistory)
      → HasUniqueIds w
      → Has r w.db.user_swap_histories
      → is_pending r.status ≡ false
      → Has r (process_swap_history_transactions hash ds w).1.db.user_swap_histories
  unfolding process_swap_history_transactions transaction
  settled_history_kept hash ds w r unique m settled =
      let w0 : World = record w { working = w.db } in
      ended (process_histories hash ds w0)
        (process_histories-Keeps r w.db (λ s n e. unique r s m n e) settled hash ds w0 (refl, m))
    where
      ended :
          (out : Result (Unit {0}) × World)
          → Keeps r w.db out
          → Has r (end_transaction out).1.db.user_swap_histories
      ended (ok a, w') (_, k) = k
      ended (err e, w') (e', _) = subst (λ t. Has r t.user_swap_histories) (sym e') m
