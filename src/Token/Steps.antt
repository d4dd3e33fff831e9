-- ===== src/Token/Steps.antt =====
-- What each write of `TokenService` and `SwapService` does, as the cases in which it ends.
use web3_point_exchange.Common.{
  ℕ, ℤ, ◌≡◌, refl, ◌⊎◌, false, none, some, List, [], ◌∷◌, arith, contains, Answers,
}
use web3_point_exchange.Entities.{
  UserSwapHistory, SwapType, SwapStatus, TokenToPointTransaction, TokenStatus,
}
use web3_point_exchange.Platform.{Platform}
use web3_point_exchange.Platform.Found.{find_one-eq-none}
use web3_point_exchange.Repositories.UserSwapHistories
use web3_point_exchange.Repositories.TokenToPointTransactions
use web3_point_exchange.Token.Records.{create_token_to_point_transactions, map_token_to_point_tx}
use web3_point_exchange.Token.Swaps.{create_user_swap_history, update_swap_history_by_id}
use web3_point_exchange.World.{World, manager, ok, err, db_rejected, swap_history_not_found}

-- A history with a key that the table does not have is not found.
not_among :
    (i : ℕ) (rows : List UserSwapHistory)
    → contains i (UserSwapHistories.ids rows) ≡ false
    → Answers (UserSwapHistories.by_id i) false rows
unfolding UserSwapHistories.by_id UserSwapHistories.ids
not_among i [] h = tt
not_among i (r ∷ rs) h = ground (arith, not_among i rs)

module _ ⦃p : Platform⦄ where
  abbrev pub direct_row : ℕ → ℤ → ℤ → World → UserSwapHistory
  direct_row u points tokens w = record {
    user_swap_history_id = p.fresh (UserSwapHistories.ids w.working.user_swap_histories);
    user_id = u;
    type = SwapType.token_to_point;
    amount_point = points;
    amount_token = tokens;
    status = SwapStatus.completed;
    token_mint_history_id = none;
    token_burn_history_id = none;
    created_at = w.now;
    updated_at = w.now;
  }

  pub create_direct-cases :
      (u : ℕ) (points tokens : ℤ) (w : World)
      → let row = direct_row u points tokens w in
        let made =
          create_user_swap_history u SwapType.token_to_point points tokens SwapStatus.completed
            manager w in
        (made ≡ (err db_rejected, w))
        ⊎ (made ≡ (
          ok row,
          record w {
            working = record (w.working) {
              user_swap_histories = row ∷ w.working.user_swap_histories;
            };
          },
        ))
  unfolding create_user_swap_history UserSwapHistories.create
  create_direct-cases u points tokens w =
      ground (arith, p.insert_law (direct_row u points tokens w) w.working.user_swap_histories)

  abbrev pub token_row : ℕ → TokenStatus → ℤ → World → TokenToPointTransaction
  token_row hash status amount w = record {
    token_to_point_transaction_id =
        p.fresh (TokenToPointTransactions.ids w.working.token_to_point_transactions);
    transaction_hash = some hash;
    status = status;
    amount = amount;
    created_at = w.now;
    updated_at = w.now;
  }

  pub create_token-cases :
      (hash : ℕ) (status : TokenStatus) (amount : ℤ) (w : World)
      → let row = token_row hash status amount w in
        let made = create_token_to_point_transactions hash status amount manager w in
        (made ≡ (err db_rejected, w))
        ⊎ (made ≡ (
          ok (map_token_to_point_tx row),
          record w {
            working = record (w.working) {
              token_to_point_transactions = row ∷ w.working.token_to_point_transactions;
            };
          },
        ))
  unfolding create_token_to_point_transactions TokenToPointTransactions.create
  create_token-cases hash status amount w =
      ground
        (arith, p.insert_law (token_row hash status amount w) w.working.token_to_point_transactions)

  -- A history whose key is fresh for the committed table is not there for `update`, which looks it up
  -- outside the transaction.
  pub update_fresh :
      (assign : UserSwapHistory → UserSwapHistory) (w : World)
      → update_swap_history_by_id
          (p.fresh (UserSwapHistories.ids w.db.user_swap_histories))
          assign
          manager
          w
        ≡ (err swap_history_not_found, w)
  unfolding update_swap_history_by_id UserSwapHistories.update
  update_fresh assign w =
      let i = p.fresh (UserSwapHistories.ids w.db.user_swap_histories) in
      let e : p.find_one (UserSwapHistories.by_id i) w.db.user_swap_histories ≡ none =
        find_one-eq-none (UserSwapHistories.by_id i) w.db.user_swap_histories (
          not_among i w.db.user_swap_histories
            (p.fresh_law (UserSwapHistories.ids w.db.user_swap_histories))) in
      rw (e, UserSwapHistories.update) refl
