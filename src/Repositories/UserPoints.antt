-- ===== src/Repositories/UserPoints.antt =====
-- backend/src/modules/point/repositories/user-point.repository.ts
use web3_point_exchange.Common.{ℕ, ℤ, Bool, Option, none, some, List, map, ◌==◌, length}
use web3_point_exchange.Entities.{UserPoint}
use web3_point_exchange.Platform.{Platform, desc}
use web3_point_exchange.Repositories.Query.{passes}
use web3_point_exchange.World.{Db, Action, Conn, ok, err, db_rejected, gets, store, written}

unfoldable pub by_id : ℕ → UserPoint → Bool
by_id i r = r.user_point_id == i

unfoldable pub by_user : ℕ → UserPoint → Bool
by_user u r = r.user_id == u

unfoldable pub ids : List UserPoint → List ℕ
ids = map λ r. r.user_point_id

unfoldable pub set_balance : ℤ → ℕ → UserPoint → UserPoint
set_balance v now r = record r { balance = v; updated_at = now }

module _ ⦃p : Platform⦄ where
  unfoldable pub find_by_id : ℕ → Action (Option UserPoint)
  find_by_id i = gets (λ w. p.find_one (by_id i) w.db.user_points)

  unfoldable pub find_by_user_id : ℕ → Action (Option UserPoint)
  find_by_user_id u = gets (λ w. p.find_one (by_user u) w.db.user_points)

  -- The unique index on `user_id` may refuse the row.
  unfoldable pub create : ℕ → ℤ → Conn → Action UserPoint
  create u v c w =
      let d : Db = written c w in
      let row : UserPoint = record {
        user_point_id = p.fresh (ids d.user_points);
        user_id = u;
        balance = v;
        created_at = w.now;
        updated_at = w.now;
      } in
      elim (p.insert row d.user_points) [
        | none ↦ (err db_rejected, w)
        | some t ↦ (ok row, store c (record d { user_points = t }) w)
      ]

  unfoldable pub update_balance : ℕ → ℤ → Conn → Action (Unit {0})
  update_balance u v c w =
      let d : Db = written c w in
      elim (p.update (by_user u) (set_balance v w.now) d.user_points) [
        | none ↦ (err db_rejected, w)
        | some t ↦ (ok tt, store c (record d { user_points = t }) w)
      ]

-- `take` is not called, so no page cuts the result.
abbrev matches : Option ℕ → UserPoint → Bool
matches u r = passes u r.user_id

module _ ⦃p : Platform⦄ where
  unfoldable pub get_with_pagination : Option ℕ → Action (List UserPoint × ℕ)
  get_with_pagination u = gets (λ w.
      p.page (matches u) (λ r. r.created_at) desc 0 (length w.db.user_points) w.db.user_points)
