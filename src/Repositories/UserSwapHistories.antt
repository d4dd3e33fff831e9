-- ===== src/Repositories/UserSwapHistories.antt =====
-- backend/src/modules/swap/repositories/user-swap-history.repository.ts
use web3_point_exchange.Common.{ℕ, ℤ, Bool, Option, none, some, List, map, ◌==◌, ◌&&◌}
use web3_point_exchange.Entities.{
  UserSwapHistory, SwapType, SwapStatus, swap_type_value, swap_status_value,
}
use web3_point_exchange.Platform.{Platform, desc}
use web3_point_exchange.Repositories.Query.{Paging, or_default, passes, passes_last}
use web3_point_exchange.World.{Db, Action, Conn, ok, err, db_rejected, gets, store, written}

unfoldable pub by_id : ℕ → UserSwapHistory → Bool
by_id i r = r.user_swap_history_id == i

unfoldable pub ids : List UserSwapHistory → List ℕ
ids = map λ r. r.user_swap_history_id

unfoldable pub set_status : SwapStatus → ℕ → UserSwapHistory → UserSwapHistory
set_status s now r = record r { status = s; updated_at = now }

pub record Query : Type 0 where
  pub user_id : Option ℕ
  pub type : Option ℕ
  pub status : Option ℕ
  pub paging : Paging

unfoldable pub matches : Query → UserSwapHistory → Bool
matches q r =
    passes q.user_id r.user_id
    && (passes q.type (swap_type_value r.type)
        && (passes q.status (swap_status_value r.status)
            && passes_last q.paging.last_id (or_default desc q.paging.order)
                r.user_swap_history_id))

module _ ⦃p : Platform⦄ where
  unfoldable pub find_by_id : ℕ → Action (Option UserSwapHistory)
  find_by_id i = gets (λ w. p.find_one (by_id i) w.db.user_swap_histories)

  unfoldable pub create : ℕ → SwapType → ℤ → ℤ → SwapStatus → Conn → Action UserSwapHistory
  create u type amount_point amount_token status c w =
      let d : Db = written c w in
      let row : UserSwapHistory = record {
        user_swap_history_id = p.fresh (ids d.user_swap_histories);
        user_id = u;
        type = type;
        amount_point = amount_point;
        amount_token = amount_token;
        status = status;
        token_mint_history_id = none;
        token_burn_history_id = none;
        created_at = w.now;
        updated_at = w.now;
      } in
      elim (p.insert row d.user_swap_histories) [
        | none ↦ (err db_rejected, w)
        | some t ↦ (ok row, store c (record d { user_swap_histories = t }) w)
      ]

  unfoldable pub get_with_pagination : Query → Action (List UserSwapHistory × ℕ)
  get_with_pagination q = gets (λ w.
      p.page (matches q) (λ r. r.created_at) (or_default desc q.paging.order)
        (or_default 0 q.paging.offset) (or_default 10 q.paging.limit) w.db.user_swap_histories)

  -- The entity is looked up through the pool, also when the write goes through a transaction. `data`
  -- is given as what `Object.assign` makes of the entity; `save` sets the update date too, which it does
  -- when a column changes: the callers set a key that the entity does not have yet.
  unfoldable pub update :
      ℕ → (UserSwapHistory → UserSwapHistory) → Conn → Action (Option UserSwapHistory)
  update i assign c w = elim (p.find_one (by_id i) w.db.user_swap_histories) [
    | none ↦ (ok none, w)
    | some r ↦
        let d : Db = written c w in
        let saved : UserSwapHistory = record (assign r) { updated_at = w.now } in
        elim (p.update (by_id i) (λ _. saved) d.user_swap_histories) [
          | none ↦ (err db_rejected, w)
          | some t ↦ (ok (some saved), store c (record d { user_swap_histories = t }) w)
        ]
  ]

  unfoldable pub update_status : ℕ → SwapStatus → Conn → Action (Unit {0})
  update_status i s c w =
      let d : Db = written c w in
      elim (p.update (by_id i) (set_status s w.now) d.user_swap_histories) [
        | none ↦ (err db_rejected, w)
        | some t ↦ (ok tt, store c (record d { user_swap_histories = t }) w)
      ]
