-- ===== src/Token/Records.antt =====
-- The transaction records of `TokenService`: lists, details, creation and the `map…` methods.
use web3_point_exchange.Common.{ℕ, ℤ, Option, map}
use web3_point_exchange.Entities.{PointToTokenTransaction, TokenToPointTransaction, TokenStatus}
use web3_point_exchange.Platform.{Platform}
use web3_point_exchange.Point.{ListRes}
use web3_point_exchange.Repositories.PointToTokenTransactions
use web3_point_exchange.Repositories.TokenToPointTransactions
use web3_point_exchange.World.{
  Action, Conn, ◌>>=◌, pure, or_throw, point_to_token_transaction_not_found,
  token_to_point_transaction_not_found,
}

-- `transaction_hash ?? ''`: the empty text is `none`.
pub record PointToTokenRes : Type 0 where
  pub point_to_token_transaction_id : ℕ
  pub transaction_hash : Option ℕ
  pub status : TokenStatus
  pub amount : ℤ
  pub created_at : ℕ
  pub updated_at : ℕ

pub record TokenToPointRes : Type 0 where
  pub token_to_point_transaction_id : ℕ
  pub transaction_hash : Option ℕ
  pub status : TokenStatus
  pub amount : ℤ
  pub created_at : ℕ
  pub updated_at : ℕ

unfoldable pub map_point_to_token_tx : PointToTokenTransaction → PointToTokenRes
map_point_to_token_tx e = record {
  point_to_token_transaction_id = e.point_to_token_transaction_id;
  transaction_hash = e.transaction_hash;
  status = e.status;
  amount = e.amount;
  created_at = e.created_at;
  updated_at = e.updated_at;
}

unfoldable pub map_token_to_point_tx : TokenToPointTransaction → TokenToPointRes
map_token_to_point_tx e = record {
  token_to_point_transaction_id = e.token_to_point_transaction_id;
  transaction_hash = e.transaction_hash;
  status = e.status;
  amount = e.amount;
  created_at = e.created_at;
  updated_at = e.updated_at;
}

module _ ⦃p : Platform⦄ where
  unfoldable pub get_point_to_token_transactions :
      PointToTokenTransactions.Query → Action (ListRes PointToTokenRes)
  get_point_to_token_transactions q = do
    page ← PointToTokenTransactions.get_with_pagination q
    pure (record { count = page.1; items = map map_point_to_token_tx page.0 })

  unfoldable pub get_point_to_token_transaction : ℕ → Action PointToTokenRes
  get_point_to_token_transaction i = do
    found ← PointToTokenTransactions.find_by_id i
    entity ← or_throw point_to_token_transaction_not_found found
    pure (map_point_to_token_tx entity)

  unfoldable pub create_point_to_token_transactions :
      ℕ → TokenStatus → ℤ → Conn → Action PointToTokenRes
  unfolding map_point_to_token_tx
  create_point_to_token_transactions hash status amount c = do
    entity ← PointToTokenTransactions.create hash status amount c
    pure (map_point_to_token_tx entity)

  unfoldable pub get_token_to_point_transactions :
      TokenToPointTransactions.Query → Action (ListRes TokenToPointRes)
  get_token_to_point_transactions q = do
    page ← TokenToPointTransactions.get_with_pagination q
    pure (record { count = page.1; items = map map_token_to_point_tx page.0 })

  unfoldable pub get_token_to_point_transaction : ℕ → Action TokenToPointRes
  get_token_to_point_transaction i = do
    found ← TokenToPointTransactions.find_by_id i
    entity ← or_throw token_to_point_transaction_not_found found
    pure (map_token_to_point_tx entity)

  unfoldable pub create_token_to_point_transactions :
      ℕ → TokenStatus → ℤ → Conn → Action TokenToPointRes
  unfolding map_token_to_point_tx
  create_token_to_point_transactions hash status amount c = do
    entity ← TokenToPointTransactions.create hash status amount c
    pure (map_token_to_point_tx entity)
