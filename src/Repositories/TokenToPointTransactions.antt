-- ===== src/Repositories/TokenToPointTransactions.antt =====
-- backend/src/modules/token/repositories/token-to-point-transaction.repository.ts
use web3_point_exchange.Common.{
  ℕ, ℤ, Bool, true, false, Option, none, some, List, [], ◌∷◌, map, ◌==◌, ◌&&◌, contains,
}
use web3_point_exchange.Entities.{TokenToPointTransaction, TokenStatus, token_status_value}
use web3_point_exchange.Platform.{Platform, desc}
use web3_point_exchange.Repositories.Query.{Paging, or_default, passes, passes_last}
use web3_point_exchange.World.{Db, Action, Conn, pure, ok, err, db_rejected, gets, store, written}

unfoldable pub by_id : ℕ → TokenToPointTransaction → Bool
by_id i r = r.token_to_point_transaction_id == i

-- `transaction_hash = :hash`, which no row with a NULL hash meets.
unfoldable pub by_hash : ℕ → TokenToPointTransaction → Bool
by_hash h r = elim r.transaction_hash [ none ↦ false | some k ↦ k == h ]

-- `= ids[0]` for one id and `In(ids)` for more.
unfoldable pub among : List ℕ → TokenToPointTransaction → Bool
among is r = contains r.token_to_point_transaction_id is

unfoldable pub ids : List TokenToPointTransaction → List ℕ
ids = map λ r. r.token_to_point_transaction_id

unfoldable pub set_status : TokenStatus → ℕ → TokenToPointTransaction → TokenToPointTransaction
set_status s now r = record r { status = s; updated_at = now }

pub record Query : Type 0 where
  pub transaction_hash : Option ℕ
  pub status : Option ℕ
  pub paging : Paging

unfoldable pub matches : Query → TokenToPointTransaction → Bool
unfolding by_hash
matches q r =
    (elim q.transaction_hash [ none ↦ true | some h ↦ by_hash h r ])
    && (passes q.status (token_status_value r.status)
        && passes_last q.paging.last_id (or_default desc q.paging.order)
            r.token_to_point_transaction_id)

module _ ⦃p : Platform⦄ where
  unfoldable pub find_by_id : ℕ → Action (Option TokenToPointTransaction)
  find_by_id i = gets (λ w. p.find_one (by_id i) w.db.token_to_point_transactions)

  unfoldable pub find_by_transaction_hash : ℕ → Action (List TokenToPointTransaction)
  find_by_transaction_hash h = gets (λ w. p.find (by_hash h) w.db.token_to_point_transactions)

  unfoldable pub update_status_by_ids : List ℕ → TokenStatus → Conn → Action (Unit {0})
  update_status_by_ids [] s c = pure tt
  update_status_by_ids (i ∷ is) s c = λ w.
      let d : Db = written c w in
      elim (p.update (among (i ∷ is)) (set_status s w.now) d.token_to_point_transactions) [
        | none ↦ (err db_rejected, w)
        | some t ↦ (ok tt, store c (record d { token_to_point_transactions = t }) w)
      ]

  unfoldable pub get_with_pagination : Query → Action (List TokenToPointTransaction × ℕ)
  get_with_pagination q = gets (λ w.
      p.page (matches q) (λ r. r.token_to_point_transaction_id) (or_default desc q.paging.order)
        (or_default 0 q.paging.offset) (or_default 10 q.paging.limit)
        w.db.token_to_point_transactions)

  unfoldable pub create : ℕ → TokenStatus → ℤ → Conn → Action TokenToPointTransaction
  create hash status amount c w =
      let d : Db = written c w in
      let row : TokenToPointTransaction = record {
        token_to_point_transaction_id = p.fresh (ids d.token_to_point_transactions);
        transaction_hash = some hash;
        status = status;
        amount = amount;
        created_at = w.now;
        updated_at = w.now;
      } in
      elim (p.insert row d.token_to_point_transactions) [
        | none ↦ (err db_rejected, w)
        | some t ↦ (ok row, store c (record d { token_to_point_transactions = t }) w)
      ]
