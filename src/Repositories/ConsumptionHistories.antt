-- ===== src/Repositories/ConsumptionHistories.antt =====
-- backend/src/modules/point/repositories/consumption-history.repository.ts
use web3_point_exchange.Common.{ℕ, ℤ, Bool, Option, none, some, List, map, ◌==◌, ◌&&◌}
use web3_point_exchange.Entities.{
  ConsumptionHistory, ConsumptionType, ConsumptionStatus, consumption_type_value,
  consumption_status_value,
}
use web3_point_exchange.Platform.{Platform, desc}
use web3_point_exchange.Repositories.Query.{Paging, or_default, passes, passes_last}
use web3_point_exchange.World.{Db, Action, Conn, ok, err, db_rejected, gets, store, written}

unfoldable pub by_id : ℕ → ConsumptionHistory → Bool
by_id i r = r.consumption_history_id == i

unfoldable pub by_user_point : ℕ → ℕ → ConsumptionHistory → Bool
by_user_point up i r = (r.consumption_history_id == i) && (r.user_point_id == up)

unfoldable pub ids : List ConsumptionHistory → List ℕ
ids = map λ r. r.consumption_history_id

-- The query DTO with the `userPointId` that the service adds.
pub record Query : Type 0 where
  pub user_point_id : Option ℕ
  pub type : Option ℕ
  pub status : Option ℕ
  pub paging : Paging

unfoldable pub matches : Query → ConsumptionHistory → Bool
matches q r =
    passes q.user_point_id r.user_point_id
    && (passes q.type (consumption_type_value r.type)
        && (passes q.status (consumption_status_value r.status)
            && passes_last q.paging.last_id (or_default desc q.paging.order)
                r.consumption_history_id))

module _ ⦃p : Platform⦄ where
  unfoldable pub find_by_id : ℕ → Action (Option ConsumptionHistory)
  find_by_id i = gets (λ w. p.find_one (by_id i) w.db.consumption_histories)

  unfoldable pub find_by_user_point_id : ℕ → ℕ → Action (Option ConsumptionHistory)
  find_by_user_point_id up i =
      gets (λ w. p.find_one (by_user_point up i) w.db.consumption_histories)

  unfoldable pub create :
      ℕ → ℤ → ConsumptionType → ConsumptionStatus → Option ℕ → Conn → Action ConsumptionHistory
  create up amount type status resource c w =
      let d : Db = written c w in
      let row : ConsumptionHistory = record {
        consumption_history_id = p.fresh (ids d.consumption_histories);
        amount = amount;
        type = type;
        status = status;
        resource_id = resource;
        created_at = w.now;
        updated_at = w.now;
        user_point_id = up;
      } in
      elim (p.insert row d.consumption_histories) [
        | none ↦ (err db_rejected, w)
        | some t ↦ (ok row, store c (record d { consumption_histories = t }) w)
      ]

  unfoldable pub get_with_pagination : Query → Action (List ConsumptionHistory × ℕ)
  get_with_pagination q = gets (λ w.
      p.page (matches q) (λ r. r.created_at) (or_default desc q.paging.order)
        (or_default 0 q.paging.offset) (or_default 10 q.paging.limit) w.db.consumption_histories)
