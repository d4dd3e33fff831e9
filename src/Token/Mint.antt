-- ===== src/Token/Mint.antt =====
-- `processPointToTokenTransaction`: the records and the histories of a transaction on the chain.
use web3_point_exchange.Common.{
  Has-select, ℕ, ◌≤◌, ◌≡◌, refl, inl, inr, true, some, List, [], ◌∷◌, map, arith, length, select,
  set_where, contains, Has,
}
use web3_point_exchange.Entities.{UserSwapHistory, PointToTokenTransaction, SwapStatus, TokenStatus}
use web3_point_exchange.Platform.{Platform, desc}
use web3_point_exchange.Repositories.PointToTokenTransactions
use web3_point_exchange.Repositories.UserSwapHistories
use web3_point_exchange.Token.Swaps.{
  all_histories, has_mint_id, update_each, update_status_by_mint_ids,
}
use web3_point_exchange.Token.Settle.{AllSet, set_all, set_all-AllSet, length-select-le}
use web3_point_exchange.Token.Process.{
  processed, point_to_token_callback, process_point_to_token_transaction,
}
use web3_point_exchange.World.{Db, World, manager, ok, transaction}
use web3_point_exchange.World.Progress.{IsReliable}

module _ ⦃p : Platform⦄ (rel : IsReliable) where
  abbrev pub with_histories : List UserSwapHistory → World → World
  with_histories rows w = record w { working = record (w.working) { user_swap_histories = rows } }

  update_status-eq :
      (i : ℕ) (s : SwapStatus) (w : World)
      → UserSwapHistories.update_status i s manager w ≡ (
        ok tt,
        with_histories
            (map
              (set_where (UserSwapHistories.by_id i) (UserSwapHistories.set_status s w.now))
              w.working.user_swap_histories)
            w,
      )
  unfolding UserSwapHistories.update_status
  update_status-eq i s w = rw (
    rel.updates (UserSwapHistories.by_id i) (UserSwapHistories.set_status s w.now)
        w.working.user_swap_histories,
    UserSwapHistories.update_status,
  )

  pub update_each-eq :
      (s : SwapStatus) (hs : List UserSwapHistory) (w : World)
      → update_each s manager hs w
        ≡ (ok tt, with_histories (set_all s w.now hs w.working.user_swap_histories) w)
  unfolding update_each set_all
  update_each-eq s [] w = refl
  update_each-eq s (h ∷ hs) w =
      rw (update_status-eq h.user_swap_history_id s w) (update_each-eq s hs _)

  confirm-eq :
      (i : ℕ) (is : List ℕ) (w : World)
      → PointToTokenTransactions.update_status_by_ids (i ∷ is) TokenStatus.confirmed manager w ≡ (
        ok tt,
        record w {
          working = record (w.working) {
            point_to_token_transactions =
                map
                  (set_where
                    (PointToTokenTransactions.among (i ∷ is))
                    (PointToTokenTransactions.set_status TokenStatus.confirmed w.now))
                  w.working.point_to_token_transactions;
          };
        },
      )
  unfolding PointToTokenTransactions.update_status_by_ids
  confirm-eq i is w = rw (
    rel.updates (PointToTokenTransactions.among (i ∷ is))
        (PointToTokenTransactions.set_status TokenStatus.confirmed w.now)
        w.working.point_to_token_transactions,
    PointToTokenTransactions.update_status_by_ids,
  )

  -- The histories on the one page that is read.
  abbrev pub listed : World → List UserSwapHistory
  listed w =
      (p.page (UserSwapHistories.matches all_histories) (λ r. r.created_at) desc 0 1000
        w.db.user_swap_histories).0

  -- The database that the transaction commits, for records with the keys `i ∷ is`.
  abbrev completed_db : ℕ → List ℕ → World → Db
  completed_db i is w = record (w.db) {
    point_to_token_transactions =
        map
          (set_where (PointToTokenTransactions.among (i ∷ is))
            (PointToTokenTransactions.set_status TokenStatus.confirmed w.now))
          w.db.point_to_token_transactions;
    user_swap_histories =
        set_all SwapStatus.completed w.now (select (has_mint_id (i ∷ is)) (listed w))
          w.db.user_swap_histories;
  }

  process_point_to_token-eq :
      (hash : ℕ) (t : PointToTokenTransaction) (ts : List PointToTokenTransaction) (w : World)
      → p.find (PointToTokenTransactions.by_hash hash) w.db.point_to_token_transactions ≡ t ∷ ts
      → let is = map (λ r. r.point_to_token_transaction_id) ts in
        let d = completed_db t.point_to_token_transaction_id is w in
        process_point_to_token_transaction hash w ≡ (ok processed, record w { db = d; working = d })
  unfolding process_point_to_token_transaction point_to_token_callback transaction
      PointToTokenTransactions.find_by_transaction_hash update_status_by_mint_ids
      UserSwapHistories.get_with_pagination
  process_point_to_token-eq hash t ts w f =
      let is : List ℕ = map (λ r. r.point_to_token_transaction_id) ts in
      let w0 : World = record w { working = w.db } in
      rw f (
        rw (confirm-eq t.point_to_token_transaction_id is w0) (
          rw
            (update_each-eq SwapStatus.completed
              (select (has_mint_id (t.point_to_token_transaction_id ∷ is)) (listed w)) _)
            refl))

pub matches_all : (h : UserSwapHistory) → UserSwapHistories.matches all_histories h ≡ true
unfolding UserSwapHistories.matches
matches_all h = refl

has_mint_id-eq :
    (ids : List ℕ) (h : UserSwapHistory) (k : ℕ)
    → h.token_mint_history_id ≡ some k
    → contains k ids ≡ true
    → has_mint_id ids h ≡ true
unfolding has_mint_id
has_mint_id-eq ids h k e c = rw e c

confirmed_status :
    (ids : List ℕ) (now : ℕ) (rows : List PointToTokenTransaction) (r : PointToTokenTransaction)
    → Has r (
        map
          (set_where
            (PointToTokenTransactions.among ids)
            (PointToTokenTransactions.set_status TokenStatus.confirmed now))
          rows)
    → contains r.point_to_token_transaction_id ids ≡ true
    → r.status ≡ TokenStatus.confirmed
unfolding PointToTokenTransactions.among PointToTokenTransactions.set_status
confirmed_status ids now [] r m c = absurd m
confirmed_status ids now (x ∷ xs) r (inl e) c = ground arith
confirmed_status ids now (x ∷ xs) r (inr m) c = confirmed_status ids now xs r m c

module _ ⦃p : Platform⦄ (rel : IsReliable) where
  -- On a platform that rejects no call, for a hash whose records are `t ∷ ts` and a table of at
  -- most 1000 histories: the call answers success, every record with one of their keys is
  -- confirmed, and every history that was linked to one of them is completed.
  pub mint_completes :
      (hash : ℕ) (t : PointToTokenTransaction) (ts : List PointToTokenTransaction) (w : World)
      → p.find (PointToTokenTransactions.by_hash hash) w.db.point_to_token_transactions ≡ t ∷ ts
      → length w.db.user_swap_histories ≤ 1000
      → let ids = map (λ r. r.point_to_token_transaction_id) (t ∷ ts) in
        let (r, w') = process_point_to_token_transaction hash w in
        (r ≡ ok processed)
        × ((x : PointToTokenTransaction)
            → Has x w'.db.point_to_token_transactions
            → contains x.point_to_token_transaction_id ids ≡ true
            → x.status ≡ TokenStatus.confirmed)
        × ((h : UserSwapHistory) (k : ℕ)
            → Has h w.db.user_swap_histories
            → h.token_mint_history_id ≡ some k
            → contains k ids ≡ true
            → AllSet SwapStatus.completed h.user_swap_history_id w'.db.user_swap_histories)
  mint_completes hash t ts w f small =
      let ids : List ℕ = map (λ r. r.point_to_token_transaction_id) (t ∷ ts) in
      rw (process_point_to_token-eq rel hash t ts w f) (
        refl,
        confirmed_status ids w.now w.db.point_to_token_transactions,
        λ h k m e c.
            set_all-AllSet SwapStatus.completed w.now (select (has_mint_id ids) (listed rel w))
              w.db.user_swap_histories h
              (Has-select (has_mint_id ids) h (listed rel w)
                (p.page_complete (UserSwapHistories.matches all_histories) (λ r. r.created_at) desc
                  1000 w.db.user_swap_histories h
                  (omega (
                    arith,
                    length-select-le (UserSwapHistories.matches all_histories)
                        w.db.user_swap_histories,
                  ))
                  m (matches_all h))
                (has_mint_id-eq ids h k e c)),
      )
