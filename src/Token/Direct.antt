-- ===== src/Token/Direct.antt =====
-- Withdrawals that reach the chain without the server: `processTokenToPointTransaction` has a branch
-- for them, which cannot succeed for a known user.
use web3_point_exchange.Common.{ℕ, ℤ, ◌≡◌, refl, ◌⊎◌, inl, inr, none, some, List, [], ◌∷◌}
use web3_point_exchange.Entities.{User, UserSwapHistory, TokenStatus}
use web3_point_exchange.Platform.{Platform}
use web3_point_exchange.Point.{find_user_by_wallet_address}
use web3_point_exchange.Repositories.Users
use web3_point_exchange.Repositories.TokenToPointTransactions
use web3_point_exchange.Token.Records.{map_token_to_point_tx}
use web3_point_exchange.Token.Steps.{
  direct_row, create_direct-cases, token_row, create_token-cases, update_fresh,
}
use web3_point_exchange.Token.Process.{
  EventLog, process_failed, record_direct, token_to_point_callback,
  process_token_to_point_transaction, catch_failure, send_increases, processed,
}
use web3_point_exchange.World.{
  World, Result, ok, err, ◌>>◌, pure, continue, transaction, end_transaction,
}

module _ ⦃p : Platform⦄ where
  -- Some log has the wallet of a user, the ones before it have not.
  abbrev pub HasKnownUser : World → List EventLog → Type 0
  HasKnownUser w [] = ⊥
  HasKnownUser w (l ∷ ls) =
      ((user : User) × (p.find_one (Users.by_wallet l.wallet_address) w.db.users ≡ some user))
      ⊎ ((p.find_one (Users.by_wallet l.wallet_address) w.db.users ≡ none) × HasKnownUser w ls)

  abbrev Throws : {A : Type 0} → World → Result A × World → Type 0
  Throws w (ok a, w') = ⊥
  Throws w (err e, w') = (w'.db ≡ w.db) × (w'.sent ≡ w.sent)

  record_direct-Throws :
      (hash : ℕ) (logs : List EventLog) (w : World)
      → HasKnownUser w logs
      → Throws w (record_direct hash logs (record w { working = w.db }))
  unfolding record_direct find_user_by_wallet_address Users.find_by_wallet_address
  record_direct-Throws hash [] w h = absurd h
  record_direct-Throws hash (l ∷ ls) w (inr (f, h)) = rw f (record_direct-Throws hash ls w h)
  record_direct-Throws hash (l ∷ ls) w (inl (user, f)) =
      let w0 : World = record w { working = w.db } in
      let row = direct_row user.user_id l.point_amount l.token_amount w0 in
      let w1 : World = record w {
        working = record (w.db) { user_swap_histories = row ∷ w.db.user_swap_histories };
      } in
      let tx = token_row hash TokenStatus.confirmed l.token_amount w1 in
      let w2 : World = record w {
        working = record (w1.working) {
          token_to_point_transactions = tx ∷ w.db.token_to_point_transactions;
        };
      } in
      let link : UserSwapHistory → UserSwapHistory = λ r. record r {
        token_burn_history_id = some (map_token_to_point_tx tx).token_to_point_transaction_id;
      } in
      rw f (elim (create_direct-cases user.user_id l.point_amount l.token_amount w0) [
        | inl e ↦ rw e (refl, refl)
        | inr e ↦ elim (create_token-cases hash TokenStatus.confirmed l.token_amount w1) [
          | inl g ↦ rw e (rw g (refl, refl))
          | inr g ↦ rw e (rw g (rw (update_fresh link w2) (refl, refl)))
        ]
      ])

  -- When no row has the hash of the transaction and some log is of the wallet of a known user,
  -- the call answers that the processing failed, and nothing is committed or sent.
  pub direct_withdrawal_fails :
      (hash : ℕ) (logs : List EventLog) (w : World)
      → p.find (TokenToPointTransactions.by_hash hash) w.db.token_to_point_transactions ≡ []
      → HasKnownUser w logs
      → let (r, w') = process_token_to_point_transaction hash logs w in
        (r ≡ ok process_failed) × (w'.db ≡ w.db) × (w'.sent ≡ w.sent)
  unfolding process_token_to_point_transaction token_to_point_callback transaction
      TokenToPointTransactions.find_by_transaction_hash
  direct_withdrawal_fails hash logs w e h = rw e (
      failed (record_direct hash logs (record w { working = w.db }))
        (record_direct-Throws hash logs w h))
    where
      failed :
          (out : Result (List (ℕ × ℤ)) × World)
          → Throws w out
          → let (r, w') =
              catch_failure
                (end_transaction (continue out (λ is. send_increases is >> pure processed))) in
            (r ≡ ok process_failed) × (w'.db ≡ w.db) × (w'.sent ≡ w.sent)
      failed (ok a, w') t = absurd t
      failed (err e', w') (d, s) = (refl, d, s)
