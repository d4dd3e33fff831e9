-- ===== src/Tests/TokenRuns.antt =====
-- Runs of the methods of `TokenService` and `SwapService`, each an application of a theorem about it.
use web3_point_exchange.Common.{
  ℕ, pos, ◌≡◌, refl, inl, inr, true, some, [], ◌∷◌, List, Has, contains, arith,
}
use web3_point_exchange.Entities.{
  UserSwapHistory, PointToTokenTransaction, TokenToPointTransaction, SwapType, SwapStatus,
  TokenStatus,
}
use web3_point_exchange.Repositories.Users
use web3_point_exchange.Repositories.PointToTokenTransactions
use web3_point_exchange.Repositories.TokenToPointTransactions
use web3_point_exchange.Tests.Sample.{sample, sample-IsReliable}
use web3_point_exchange.Tests.Data.{burn, start, alice, mint, settled}
use web3_point_exchange.Token.Atomic.{AtomicSpec, process_point_to_token_atomic}
use web3_point_exchange.Token.Burn.{increase_message, burn_completes}
use web3_point_exchange.Token.Direct.{HasKnownUser, direct_withdrawal_fails}
use web3_point_exchange.Token.Mint.{mint_completes}
use web3_point_exchange.Token.Settle.{AllSet}
use web3_point_exchange.Token.Pending.{HasUniqueIds, settled_history_kept}
use web3_point_exchange.Token.{
  EventLog, processed, process_failed, process_point_to_token_transaction,
  process_token_to_point_transaction,
}
use web3_point_exchange.Token.{process_swap_history_transactions}
use web3_point_exchange.Token.Twice.{call_twice, burn_twice_pays_twice}
use web3_point_exchange.World.{ok}

process_point_to_token_atomic_example :
    AtomicSpec start.db (process_point_to_token_transaction 900 start)
process_point_to_token_atomic_example = process_point_to_token_atomic 900 start

mint_found :
    sample.find (PointToTokenTransactions.by_hash 900) start.db.point_to_token_transactions
    ≡ mint ∷ []
unfolding PointToTokenTransactions.by_hash
mint_found = refl

mint_completes_example :
    let (r, w') = process_point_to_token_transaction 900 start in
    (r ≡ ok processed)
    × ((x : PointToTokenTransaction)
        → Has x w'.db.point_to_token_transactions
        → contains x.point_to_token_transaction_id (30 ∷ []) ≡ true
        → x.status ≡ TokenStatus.confirmed)
    × ((h : UserSwapHistory) (k : ℕ)
        → Has h start.db.user_swap_histories
        → h.token_mint_history_id ≡ some k
        → contains k (30 ∷ []) ≡ true
        → AllSet SwapStatus.completed h.user_swap_history_id w'.db.user_swap_histories)
mint_completes_example = mint_completes sample-IsReliable 900 mint [] start mint_found (omega arith)

start-HasUniqueIds : HasUniqueIds start
start-HasUniqueIds r s m n e = ground arith

settled_history_kept_example :
    Has settled
      (process_swap_history_transactions 902
        ((21, SwapType.point_to_token) ∷ (22, SwapType.point_to_token) ∷ [])
        start).1.db.user_swap_histories
settled_history_kept_example =
    settled_history_kept 902 ((21, SwapType.point_to_token) ∷ (22, SwapType.point_to_token) ∷ [])
      start settled start-HasUniqueIds (inr (inl refl)) refl

abbrev direct_log : EventLog
direct_log = record { wallet_address = 100; point_amount = pos 100; token_amount = pos 1 }

no_burn_found :
    sample.find (TokenToPointTransactions.by_hash 950) start.db.token_to_point_transactions ≡ []
unfolding TokenToPointTransactions.by_hash
no_burn_found = refl

alice-HasKnownUser : HasKnownUser start (direct_log ∷ [])
unfolding Users.by_wallet
alice-HasKnownUser = inl (alice, refl)

direct_withdrawal_fails_example :
    let (r, w') = process_token_to_point_transaction 950 (direct_log ∷ []) start in
    (r ≡ ok process_failed) × (w'.db ≡ start.db) × (w'.sent ≡ start.sent)
direct_withdrawal_fails_example =
    direct_withdrawal_fails 950 (direct_log ∷ []) start no_burn_found alice-HasKnownUser

-- Two logs, the second of a wallet that nobody has.
abbrev burn_logs : List EventLog
burn_logs = direct_log ∷ record direct_log { wallet_address = 999 } ∷ []

burn_found :
    sample.find (TokenToPointTransactions.by_hash 901) start.db.token_to_point_transactions
    ≡ burn ∷ []
unfolding TokenToPointTransactions.by_hash
burn_found = refl

burn_completes_example :
    let (r, w') = process_token_to_point_transaction 901 burn_logs start in
    (r ≡ ok processed)
    × ((x : TokenToPointTransaction)
        → Has x w'.db.token_to_point_transactions
        → contains x.token_to_point_transaction_id (40 ∷ []) ≡ true
        → x.status ≡ TokenStatus.confirmed)
    × ((h : UserSwapHistory) (k : ℕ)
        → Has h start.db.user_swap_histories
        → h.token_burn_history_id ≡ some k
        → contains k (40 ∷ []) ≡ true
        → AllSet SwapStatus.completed h.user_swap_history_id w'.db.user_swap_histories)
    × (w'.sent ≡ increase_message (1, pos 100) ∷ [])
unfolding Users.by_wallet
burn_completes_example =
    burn_completes sample-IsReliable 901 burn_logs burn [] start burn_found (omega arith)

burn_twice_pays_twice_example :
    let (r1, (r2, w2)) = call_twice (process_token_to_point_transaction 901 burn_logs) start in
    (r1 ≡ ok processed)
    × (r2 ≡ ok processed)
    × (w2.sent ≡ increase_message (1, pos 100) ∷ increase_message (1, pos 100) ∷ [])
unfolding Users.by_wallet
burn_twice_pays_twice_example =
    burn_twice_pays_twice sample-IsReliable 901 burn_logs burn [] start burn_found
