-- ===== src/Token/Swaps.antt =====
-- `SwapService`: the swap histories, the status updates that follow a transaction on the chain, and
-- the transaction records of a batch that was signed.
use web3_point_exchange.Common.{
  ℕ, ℤ, Bool, true, false, none, some, List, [], ◌∷◌, map, contains, select,
}
use web3_point_exchange.Entities.{UserSwapHistory, SwapType, SwapStatus, TokenStatus, is_pending}
use web3_point_exchange.Platform.{Platform}
use web3_point_exchange.Point.{UserSwapHistoryRes, ListRes, map_user_swap_history}
use web3_point_exchange.Repositories.Query.{or_default}
use web3_point_exchange.Repositories.UserSwapHistories
use web3_point_exchange.Token.Records.{
  create_point_to_token_transactions, create_token_to_point_transactions,
}
use web3_point_exchange.World.{
  Action, Conn, manager, pool, ◌>>=◌, ◌>>◌, pure, or_throw, transaction, swap_history_not_found,
}

-- `{ limit: 1000 }`
abbrev pub all_histories : UserSwapHistories.Query
all_histories = record {
  user_id = none;
  type = none;
  status = none;
  paging = record { last_id = none; limit = some 1000; offset = none; order = none };
}

-- `ids.includes(history.token_mint_history_id ?? 0)`, and the same for the other key.
unfoldable pub has_mint_id : List ℕ → UserSwapHistory → Bool
has_mint_id ids h = contains (or_default 0 h.token_mint_history_id) ids

unfoldable pub has_burn_id : List ℕ → UserSwapHistory → Bool
has_burn_id ids h = contains (or_default 0 h.token_burn_history_id) ids

module _ ⦃p : Platform⦄ where
  unfoldable pub get_user_swap_histories :
      UserSwapHistories.Query → Action (ListRes UserSwapHistoryRes)
  get_user_swap_histories q = do
    page ← UserSwapHistories.get_with_pagination q
    pure (record { count = page.1; items = map map_user_swap_history page.0 })

  unfoldable pub get_user_swap_history : ℕ → Action UserSwapHistoryRes
  get_user_swap_history i = do
    found ← UserSwapHistories.find_by_id i
    entity ← or_throw swap_history_not_found found
    pure (map_user_swap_history entity)

  -- The keys of the transactions in the answer, which no caller reads, are those of the new columns; the
  -- source takes them from the relations, as they were loaded before.
  unfoldable pub update_swap_history_by_id :
      ℕ → (UserSwapHistory → UserSwapHistory) → Conn → Action UserSwapHistoryRes
  update_swap_history_by_id i assign c = do
    found ← UserSwapHistories.update i assign c
    entity ← or_throw swap_history_not_found found
    pure (map_user_swap_history entity)

  unfoldable pub update_swap_history_status : ℕ → SwapStatus → Action (Unit {0})
  update_swap_history_status i s = UserSwapHistories.update_status i s pool

  unfoldable pub update_each : SwapStatus → Conn → List UserSwapHistory → Action (Unit {0})
  update_each s c [] = pure tt
  update_each s c (h ∷ hs) =
      UserSwapHistories.update_status h.user_swap_history_id s c >> update_each s c hs

  -- `updateSwapHistoryStatusByTokenMintHistoryIds` and `…BurnHistoryIds`, which differ in the filter.
  unfoldable pub update_status_by_ids :
      (List ℕ → UserSwapHistory → Bool) → List ℕ → SwapStatus → Conn → Action (Unit {0})
  unfolding update_each
  update_status_by_ids has [] s c = pure tt
  update_status_by_ids has (i ∷ is) s c =
      UserSwapHistories.get_with_pagination all_histories >>= λ page.
      update_each s c (select (has (i ∷ is)) page.0)

  unfoldable pub update_status_by_mint_ids : List ℕ → SwapStatus → Conn → Action (Unit {0})
  unfolding update_status_by_ids
  update_status_by_mint_ids = update_status_by_ids has_mint_id

  unfoldable pub update_status_by_burn_ids : List ℕ → SwapStatus → Conn → Action (Unit {0})
  unfolding update_status_by_ids
  update_status_by_burn_ids = update_status_by_ids has_burn_id

  -- The two branches on the type in `processSwapHistoryTransactions`.
  unfoldable pub link_transaction : ℕ → SwapType → UserSwapHistory → Action (Unit {0})
  link_transaction hash SwapType.point_to_token h = do
    tx ← create_point_to_token_transactions hash TokenStatus.processed h.amount_token manager
    UserSwapHistories.update h.user_swap_history_id
        (λ r. record r { token_mint_history_id = some tx.point_to_token_transaction_id }) manager
    pure tt
  link_transaction hash SwapType.token_to_point h = do
    tx ← create_token_to_point_transactions hash TokenStatus.processed h.amount_point manager
    UserSwapHistories.update h.user_swap_history_id
        (λ r. record r { token_burn_history_id = some tx.token_to_point_transaction_id }) manager
    pure tt

  -- One round of the loop: `continue` when the history is missing or not pending.
  unfoldable pub process_history : ℕ → ℕ × SwapType → Action (Unit {0})
  process_history hash (i, type) = UserSwapHistories.find_by_id i >>= λ found. elim found [
    | none ↦ pure tt
    | some h ↦ elim (is_pending h.status) [ false ↦ pure tt | true ↦ link_transaction hash type h ]
  ]

  unfoldable pub process_histories : ℕ → List (ℕ × SwapType) → Action (Unit {0})
  process_histories hash [] = pure tt
  process_histories hash (d ∷ ds) = process_history hash d >> process_histories hash ds

  unfoldable pub process_swap_history_transactions : ℕ → List (ℕ × SwapType) → Action (Unit {0})
  process_swap_history_transactions hash datas = transaction (process_histories hash datas)

  unfoldable pub create_user_swap_history :
      ℕ → SwapType → ℤ → ℤ → SwapStatus → Conn → Action UserSwapHistory
  create_user_swap_history = UserSwapHistories.create
