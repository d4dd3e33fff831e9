-- ===== src/Token/Twice.antt =====
-- `processTokenToPointTransaction` called again for the same transaction.
use web3_point_exchange.Common.{
  ℕ, ◌≡◌, refl, sym, subst, inl, inr, true, List, [], ◌∷◌, ◌++◌, map, set_where, Has, Has-map,
  Bool-cases, append_assoc,
}
use web3_point_exchange.Entities.{TokenToPointTransaction, TokenStatus}
use web3_point_exchange.Platform.{Platform}
use web3_point_exchange.Repositories.TokenToPointTransactions
use web3_point_exchange.Token.Burn.{
  increase_message, known_increases, burned_db, process_token_to_point-eq,
}
use web3_point_exchange.Token.Process.{EventLog, processed, process_token_to_point_transaction}
use web3_point_exchange.World.{World, Action, Result, ok}
use web3_point_exchange.World.Progress.{IsReliable}

kept_hash :
    (hash now : ℕ) (ids : List ℕ) (r : TokenToPointTransaction)
    → TokenToPointTransactions.by_hash hash r ≡ true
    → TokenToPointTransactions.by_hash hash (
        set_where
          (TokenToPointTransactions.among ids)
          (TokenToPointTransactions.set_status TokenStatus.confirmed now)
          r)
      ≡ true
unfolding TokenToPointTransactions.by_hash TokenToPointTransactions.set_status
kept_hash hash now ids r h = elim (Bool-cases (TokenToPointTransactions.among ids r)) [
  | inl t ↦ rw t h
  | inr f ↦ rw f h
]

module _ ⦃p : Platform⦄ where
  abbrev IsFound : ℕ → List TokenToPointTransaction → Type 0
  IsFound hash rows =
      (t : TokenToPointTransaction) × (ts : List TokenToPointTransaction) × (p.find
          (TokenToPointTransactions.by_hash hash) rows
        ≡ t ∷ ts)

  Has-IsFound :
      (hash : ℕ) (rows : List TokenToPointTransaction) (r : TokenToPointTransaction)
      → Has r rows
      → TokenToPointTransactions.by_hash hash r ≡ true
      → IsFound hash rows
  Has-IsFound hash rows r m t =
      go (p.find (TokenToPointTransactions.by_hash hash) rows) refl
        ((p.find_law (TokenToPointTransactions.by_hash hash) rows r).1 m t)
    where
      go :
          (l : List TokenToPointTransaction)
          → p.find (TokenToPointTransactions.by_hash hash) rows ≡ l
          → Has r l
          → IsFound hash rows
      go [] e n = absurd n
      go (t ∷ ts) e n = (t, ts, e)

  -- The records of the hash are still found once they are confirmed.
  confirmed-IsFound :
      (hash i now : ℕ) (ids : List ℕ) (rows : List TokenToPointTransaction)
      → IsFound hash rows
      → IsFound hash (
          map
            (set_where
              (TokenToPointTransactions.among ids)
              (TokenToPointTransactions.set_status TokenStatus.confirmed now))
            rows)
  confirmed-IsFound hash i now ids rows (t, ts, e) =
      let q = TokenToPointTransactions.by_hash hash in
      let (m, h) = (p.find_law q rows t).0 (subst (Has t) (sym e) (inl refl)) in
      let f =
        set_where (TokenToPointTransactions.among ids)
          (TokenToPointTransactions.set_status TokenStatus.confirmed now) in
      Has-IsFound hash (map f rows) (f t) (Has-map f t rows m) (kept_hash hash now ids t h)

-- Two calls one after the other: their results, and the world after both.
abbrev pub call_twice : {A : Type 0} → Action A → World → Result A × (Result A × World)
call_twice m w = ((m w).0, m (m w).1)

module _ ⦃p : Platform⦄ (rel : IsReliable) where
  -- On a platform that rejects no call, when the hash has a record: two calls for the same logs,
  -- one after the other, both answer success, and the sent messages have grown by the messages
  -- that raise the balances of the known users by the points of the logs, twice.
  pub burn_twice_pays_twice :
      (hash : ℕ) (logs : List EventLog) (t : TokenToPointTransaction)
      (ts : List TokenToPointTransaction) (w : World)
      → p.find (TokenToPointTransactions.by_hash hash) w.db.token_to_point_transactions ≡ t ∷ ts
      → let (r1, (r2, w2)) = call_twice (process_token_to_point_transaction hash logs) w in
        let credits = map increase_message (known_increases w.db.users logs) in
        (r1 ≡ ok processed) × (r2 ≡ ok processed) × (w2.sent ≡ w.sent ++ (credits ++ credits))
  burn_twice_pays_twice hash logs t ts w f =
      let ids : List ℕ = map (λ r. r.token_to_point_transaction_id) ts in
      let d = burned_db rel t.token_to_point_transaction_id ids w in
      let credits = map increase_message (known_increases w.db.users logs) in
      let w1 : World = record w { db = d; working = d; sent = w.sent ++ credits } in
      let (t2, ts2, f2) =
        confirmed-IsFound hash 0 w.now (t.token_to_point_transaction_id ∷ ids)
          w.db.token_to_point_transactions (t, ts, f) in
      rw (process_token_to_point-eq rel hash logs t ts w f) (
        rw (process_token_to_point-eq rel hash logs t2 ts2 w1 f2)
          (refl, refl, append_assoc w.sent credits credits))
