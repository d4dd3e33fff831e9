-- ===== src/Tests/PointHookRuns.antt =====
-- The buttons for points: a customer with 500 points buys for 100, and an impatient one presses again.
use web3_point_exchange.Common.{
  ℕ, ◌≤◌, ◌+◌, zero, suc, refl, inl, true, false, none, some, List, [], ◌∷◌,
}
use web3_point_exchange.Repositories.UserPoints
use web3_point_exchange.Repositories.ConsumptionHistories
use web3_point_exchange.Point.{
  consume_point, consume_checks, consume_locked, consume_callback, write_balance, try_set_cache,
  get_point_balance, get_cache,
}
use web3_point_exchange.World.{with_lock, transaction}
use web3_point_exchange.Api.{serve, handle, call_point}
use web3_point_exchange.Gateway.Texts.{parse_int}
use web3_point_exchange.Gateway.Decimal.{to_text}
use web3_point_exchange.Gateway.Routes.{post_consume, typed_refusal}
use web3_point_exchange.Frontend.{
  PointOption, consuming, granting, posted, PointServer, PointHook, idle_state, press_consume,
  handle_consume_points, arrive, settle_action,
}
use web3_point_exchange.Frontend.PointLaws.{
  HookSound, PointOp, grants, consumes, arrives, clears, do_point_ops, do_point_ops-HookSound,
}
use web3_point_exchange.Frontend.PointRoutes.{Texts}
use web3_point_exchange.Frontend.Paid.{ShowsSuccess, Takes, hook_server, press_consume-Takes}
use web3_point_exchange.Tests.ApiRuns.{express, here}
use web3_point_exchange.Tests.GuardedRuns.{lan}
use web3_point_exchange.Tests.Sample.{sample}
use web3_point_exchange.Tests.Data.{start}

abbrev opened : PointHook
opened = record {
  user_point_id = some 10;
  grant_status = idle_state;
  consume_status = idle_state;
  pending = [];
  invalidated = [];
}

abbrev purchase : PointOption
purchase = record { amount = 100; type = 1 }

instance abbrev korean : Texts
korean = record { of_refusal = λ r. 1; of_failure = λ f. 2; other_fields = λ n. n }

purchased : ShowsSuccess (press_consume ⦃s = hook_server⦄ (some purchase) 500 opened start).0
unfolding press_consume handle_consume_points arrive settle_action to_text post_consume
    typed_refusal parse_int serve handle call_point consume_point consume_checks
    UserPoints.find_by_id UserPoints.by_id get_point_balance get_cache consume_locked with_lock
    transaction consume_callback ConsumptionHistories.create ConsumptionHistories.ids write_balance
    UserPoints.update_balance try_set_cache
purchased = refl

press_consume-Takes_example :
    (purchase.amount ≤ 500)
    × Takes purchase opened start
        (press_consume ⦃s = hook_server⦄ (some purchase) 500 opened start).1
press_consume-Takes_example = press_consume-Takes purchase 500 opened start refl refl purchased

-- A server that grants the first request and refuses the others.
abbrev shop : PointServer
shop = record {
  Outside = ℕ;
  post = λ r o. (elim o [ zero ↦ posted true (some none) | suc n ↦ posted false none ], o + 1);
}

opened-HookSound : HookSound opened
opened-HookSound granting = inl refl
opened-HookSound consuming = inl refl

abbrev presses : List PointOp
presses =
    consumes (some purchase) 500
    ∷ grants (some purchase)
    ∷ clears consuming
    ∷ consumes (some purchase) 500
    ∷ arrives 1
    ∷ arrives 0
    ∷ []

do_point_ops-HookSound_example : HookSound (do_point_ops ⦃s = shop⦄ presses opened 0).0
do_point_ops-HookSound_example = do_point_ops-HookSound ⦃s = shop⦄ presses opened 0 opened-HookSound
