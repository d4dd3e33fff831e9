-- ===== src/Repositories/Users.antt =====
-- backend/src/modules/point/repositories/user.repository.ts
use web3_point_exchange.Common.{ℕ, Bool, Option, none, some, List, ◌==◌}
use web3_point_exchange.Entities.{User, UserStatus}
use web3_point_exchange.Platform.{Platform}
use web3_point_exchange.World.{Db, Action, Conn, pool, ok, err, db_rejected, gets, store, written}

unfoldable pub by_id : ℕ → User → Bool
by_id u r = r.user_id == u

unfoldable pub by_wallet : ℕ → User → Bool
by_wallet a r = r.wallet_address == a

module _ ⦃p : Platform⦄ where
  unfoldable pub find_by_id : ℕ → Action (Option User)
  find_by_id u = gets (λ w. p.find_one (by_id u) w.db.users)

  unfoldable pub find_by_wallet_address : ℕ → Action (Option User)
  find_by_wallet_address a = gets (λ w. p.find_one (by_wallet a) w.db.users)

  -- `save` of an entity with its id set: an UPDATE of the given columns where the id is taken, and an
  -- INSERT else.
  unfoldable pub create : ℕ → ℕ → Conn → Action User
  create u a c w =
      let fresh_row : User = record {
        user_id = u;
        wallet_address = a;
        status = UserStatus.pending;
        created_at = w.now;
        updated_at = w.now;
      } in
      let d : Db = written c w in
      let rows : Option (List User) = elim (p.find_one (by_id u) d.users) [
        | none ↦ p.insert fresh_row d.users
        | some old ↦
            p.update (by_id u)
              (λ r. record r {
                wallet_address = a;
                status = UserStatus.pending;
                updated_at = w.now;
              })
              d.users
      ] in
      elim rows [
        | none ↦ (err db_rejected, w)
        | some t ↦ (ok fresh_row, store c (record d { users = t }) w)
      ]

  -- `data` is the partial entity, as what `Object.assign` makes of the one that is found.
  unfoldable pub update : ℕ → (User → User) → Action (Option User)
  update u assign w = elim (p.find_one (by_id u) w.db.users) [
    | none ↦ (ok none, w)
    | some r ↦ elim (p.update (by_id u) (λ _. assign r) w.db.users) [
      | none ↦ (err db_rejected, w)
      | some t ↦ (ok (some (assign r)), store pool (record (w.db) { users = t }) w)
    ]
  ]
