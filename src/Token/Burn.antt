-- ===== src/Token/Burn.antt =====
-- `processTokenToPointTransaction` for a transaction that the server sent: the records, the histories,
-- and the messages that raise the balances.
use web3_point_exchange.Common.{
  Has-select, ℕ, ◌≤◌, ℤ, ◌≡◌, refl, sym, ap, ◌∙◌, inl, inr, true, Option, none, some, List, [], ◌∷◌,
  ◌++◌, map, append_assoc, append-nil, arith, length, select, set_where, contains, Has,
}
use web3_point_exchange.Entities.{
  User, UserSwapHistory, TokenToPointTransaction, SwapStatus, TokenStatus,
}
use web3_point_exchange.Platform.{Platform, Message, desc, point_update, increase}
use web3_point_exchange.Point.{find_user_by_wallet_address, send}
use web3_point_exchange.Repositories.Users
use web3_point_exchange.Repositories.UserSwapHistories
use web3_point_exchange.Repositories.TokenToPointTransactions
use web3_point_exchange.Token.Mint.{update_each-eq, listed, matches_all}
use web3_point_exchange.Token.Process.{
  EventLog, processed, collect_increases, send_user_point_increase, send_increases,
  token_to_point_callback, process_token_to_point_transaction,
}
use web3_point_exchange.Token.Settle.{AllSet, set_all, set_all-AllSet, length-select-le}
use web3_point_exchange.Token.Swaps.{all_histories, has_burn_id, update_status_by_burn_ids}
use web3_point_exchange.World.{Db, World, manager, ok, continue, transaction}
use web3_point_exchange.World.Progress.{IsReliable}

abbrev pub increase_message : ℕ × ℤ → Message
increase_message (u, amount) =
    point_update (record { user_id = u; amount = amount; type = increase })

confirmed_status :
    (ids : List ℕ) (now : ℕ) (rows : List TokenToPointTransaction) (r : TokenToPointTransaction)
    → Has r (
        map
          (set_where
            (TokenToPointTransactions.among ids)
            (TokenToPointTransactions.set_status TokenStatus.confirmed now))
          rows)
    → contains r.token_to_point_transaction_id ids ≡ true
    → r.status ≡ TokenStatus.confirmed
unfolding TokenToPointTransactions.among TokenToPointTransactions.set_status
confirmed_status ids now [] r m c = absurd m
confirmed_status ids now (x ∷ xs) r (inl e) c = ground arith
confirmed_status ids now (x ∷ xs) r (inr m) c = confirmed_status ids now xs r m c

has_burn_id-eq :
    (ids : List ℕ) (h : UserSwapHistory) (k : ℕ)
    → h.token_burn_history_id ≡ some k
    → contains k ids ≡ true
    → has_burn_id ids h ≡ true
unfolding has_burn_id
has_burn_id-eq ids h k e c = rw e c

module _ ⦃p : Platform⦄ where
  -- The user and the amount of each log whose wallet is that of a user.
  abbrev pub known_increases : List User → List EventLog → List (ℕ × ℤ)
  known_increases users [] = []
  known_increases users (l ∷ ls) = elim (p.find_one (Users.by_wallet l.wallet_address) users) [
    | none ↦ known_increases users ls
    | some u ↦ (u.user_id, l.point_amount) ∷ known_increases users ls
  ]

  collect_increases-eq :
      (ls : List EventLog) (w : World)
      → collect_increases ls w ≡ (ok (known_increases w.db.users ls), w)
  unfolding collect_increases find_user_by_wallet_address Users.find_by_wallet_address
  collect_increases-eq [] w = refl
  collect_increases-eq (l ∷ ls) w =
      split (p.find_one (Users.by_wallet l.wallet_address) w.db.users) refl
        (collect_increases-eq ls w)
    where
      split :
          (o : Option User)
          → p.find_one (Users.by_wallet l.wallet_address) w.db.users ≡ o
          → collect_increases ls w ≡ (ok (known_increases w.db.users ls), w)
          → collect_increases (l ∷ ls) w ≡ (ok (known_increases w.db.users (l ∷ ls)), w)
      split none f ih = rw (f, collect_increases, known_increases) ih
      split (some u) f ih = rw (f, collect_increases, known_increases) (rw ih refl)

module _ ⦃p : Platform⦄ (rel : IsReliable) where
  send_user_point_increase-eq :
      (i : ℕ × ℤ) (w : World)
      → send_user_point_increase i w
        ≡ (ok tt, record w { sent = w.sent ++ (increase_message i ∷ []) })
  unfolding send_user_point_increase send
  send_user_point_increase-eq (u, amount) w =
      rw (rel.emits (increase_message (u, amount)) w.sent, send_user_point_increase, send) refl

  send_increases-eq :
      (is : List (ℕ × ℤ)) (w : World)
      → send_increases is w ≡ (ok tt, record w { sent = w.sent ++ map increase_message is })
  unfolding send_increases
  send_increases-eq [] w = ap (λ s. (ok tt, record w { sent = s })) (sym (append-nil w.sent))
  send_increases-eq (i ∷ is) w =
      ap (λ o. continue o (λ _. send_increases is)) (send_user_point_increase-eq i w)
      ∙ send_increases-eq is (record w { sent = w.sent ++ (increase_message i ∷ []) })
      ∙ ap (λ s. (ok tt, record w { sent = s }))
          (append_assoc w.sent (increase_message i ∷ []) (map increase_message is))

  confirm-eq :
      (i : ℕ) (is : List ℕ) (w : World)
      → TokenToPointTransactions.update_status_by_ids (i ∷ is) TokenStatus.confirmed manager w ≡ (
        ok tt,
        record w {
          working = record (w.working) {
            token_to_point_transactions =
                map
                  (set_where
                    (TokenToPointTransactions.among (i ∷ is))
                    (TokenToPointTransactions.set_status TokenStatus.confirmed w.now))
                  w.working.token_to_point_transactions;
          };
        },
      )
  unfolding TokenToPointTransactions.update_status_by_ids
  confirm-eq i is w =
      rw
        (
          rel.updates (TokenToPointTransactions.among (i ∷ is))
              (TokenToPointTransactions.set_status TokenStatus.confirmed w.now)
              w.working.token_to_point_transactions,
          TokenToPointTransactions.update_status_by_ids,
        )
        refl

  -- The database that the transaction commits, for records with the keys `i ∷ is`.
  abbrev pub burned_db : ℕ → List ℕ → World → Db
  burned_db i is w = record (w.db) {
    token_to_point_transactions =
        map
          (set_where (TokenToPointTransactions.among (i ∷ is))
            (TokenToPointTransactions.set_status TokenStatus.confirmed w.now))
          w.db.token_to_point_transactions;
    user_swap_histories =
        set_all SwapStatus.completed w.now (select (has_burn_id (i ∷ is)) (listed rel w))
          w.db.user_swap_histories;
  }

  -- What the call does, on a platform that rejects no call.
  pub process_token_to_point-eq :
      (hash : ℕ) (logs : List EventLog) (t : TokenToPointTransaction)
      (ts : List TokenToPointTransaction) (w : World)
      → p.find (TokenToPointTransactions.by_hash hash) w.db.token_to_point_transactions ≡ t ∷ ts
      → let is = map (λ r. r.token_to_point_transaction_id) ts in
        let d = burned_db t.token_to_point_transaction_id is w in
        process_token_to_point_transaction hash logs w ≡ (
          ok processed,
          record w {
            db = d;
            working = d;
            sent = w.sent ++ map increase_message (known_increases w.db.users logs);
          },
        )
  unfolding process_token_to_point_transaction token_to_point_callback transaction
      TokenToPointTransactions.find_by_transaction_hash update_status_by_burn_ids
      UserSwapHistories.get_with_pagination
  process_token_to_point-eq hash logs t ts w f =
      let is : List ℕ = map (λ r. r.token_to_point_transaction_id) ts in
      let w0 : World = record w { working = w.db } in
      rw f (
        rw (collect_increases-eq logs w0) (
          rw (confirm-eq t.token_to_point_transaction_id is w0) (
            rw
              (update_each-eq rel SwapStatus.completed
                (select (has_burn_id (t.token_to_point_transaction_id ∷ is)) (listed rel w)) _)
              (rw (send_increases-eq (known_increases w.db.users logs) _) refl))))

  -- On a platform that rejects no call, for a hash whose records are `t ∷ ts` and a table of at
  -- most 1000 histories: the call answers success, every record with one of their keys is
  -- confirmed, every history that was linked to one of them is completed, and for each log whose
  -- wallet is that of a user one message to raise the balance of that user by the points of the
  -- log is sent, in the order of the logs.
  pub burn_completes :
      (hash : ℕ) (logs : List EventLog) (t : TokenToPointTransaction)
      (ts : List TokenToPointTransaction) (w : World)
      → p.find (TokenToPointTransactions.by_hash hash) w.db.token_to_point_transactions ≡ t ∷ ts
      → length w.db.user_swap_histories ≤ 1000
      → let ids = map (λ r. r.token_to_point_transaction_id) (t ∷ ts) in
        let (r, w') = process_token_to_point_transaction hash logs w in
        (r ≡ ok processed)
        × ((x : TokenToPointTransaction)
            → Has x w'.db.token_to_point_transactions
            → contains x.token_to_point_transaction_id ids ≡ true
            → x.status ≡ TokenStatus.confirmed)
        × ((h : UserSwapHistory) (k : ℕ)
            → Has h w.db.user_swap_histories
            → h.token_burn_history_id ≡ some k
            → contains k ids ≡ true
            → AllSet SwapStatus.completed h.user_swap_history_id w'.db.user_swap_histories)
        × (w'.sent ≡ w.sent ++ map increase_message (known_increases w.db.users logs))
  burn_completes hash logs t ts w f small =
      let ids : List ℕ = map (λ r. r.token_to_point_transaction_id) (t ∷ ts) in
      rw (process_token_to_point-eq hash logs t ts w f) (
        refl,
        confirmed_status ids w.now w.db.token_to_point_transactions,
        (λ h k m e c.
            set_all-AllSet SwapStatus.completed w.now (select (has_burn_id ids) (listed rel w))
              w.db.user_swap_histories h
              (Has-select (has_burn_id ids) h (listed rel w)
                (p.page_complete (UserSwapHistories.matches all_histories) (λ r. r.created_at) desc
                  1000 w.db.user_swap_histories h
                  (omega (
                    arith,
                    length-select-le (UserSwapHistories.matches all_histories)
                        w.db.user_swap_histories,
                  ))
                  m (matches_all h))
                (has_burn_id-eq ids h k e c))),
        refl,
      )
