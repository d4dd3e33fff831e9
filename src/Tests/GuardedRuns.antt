-- ===== src/Tests/GuardedRuns.antt =====
-- A consumption through the routes of the frontend and of the backend.
use web3_point_exchange.Common.{
  ℕ, ℤ, pos, negsuc, ◌≡◌, refl, Option, none, some, some_inj, List, [], ◌∷◌, ap,
}
use web3_point_exchange.Entities.{ConsumptionType}
use web3_point_exchange.Repositories.UserPoints
use web3_point_exchange.Repositories.ConsumptionHistories
use web3_point_exchange.Point.{
  consume_point, consume_checks, consume_locked, consume_callback, write_balance, try_set_cache,
  get_point_balance, get_cache,
}
use web3_point_exchange.World.{World, with_lock, transaction}
use web3_point_exchange.Api.{Fields, other, serve, handle, call_point}
use web3_point_exchange.Gateway.Texts.{Char, alnum, parse_int, big_int_of}
use web3_point_exchange.Gateway.Routes.{RequestBody, created, post_consume, typed_refusal}
use web3_point_exchange.Gateway.Amounts.{big_int_field}
use web3_point_exchange.Gateway.Backend.{Wire, backend}
use web3_point_exchange.Gateway.Guarded.{HasPaid, post_consume_never_pays}
use web3_point_exchange.Tests.ApiRuns.{express, here, blank}
use web3_point_exchange.Tests.Sample.{sample}
use web3_point_exchange.Tests.Data.{start}
use web3_point_exchange.Tests.GatewayRuns.{twelve, body_of}

abbrev with_amount : Option ℤ → Option Fields
with_amount none = none
with_amount (some a) = some (record blank {
  consume_point = record { amount = a; type = ConsumptionType.shop_purchase; resource_id = none };
})

abbrev read_call : Option RequestBody → Option Fields
read_call none = some blank
read_call (some b) = with_amount (big_int_field b.amount)

pub with_amount-consume :
    (o : Option ℤ) (f : Fields) → with_amount o ≡ some f → o ≡ some f.consume_point.amount
with_amount-consume none f e = cc
with_amount-consume (some a) f e = ap (λ x. some x.consume_point.amount) (some_inj.0 e)

abbrev key : ℤ → ℕ
key (pos n) = n
key (negsuc n) = 1000

instance abbrev pub lan : Wire
lan = record {
  number_key = key;
  text_key = λ t. other 0;
  read = λ c. read_call c.body;
  read_query = λ e. (blank, refl);
  read_consume = λ i b f e. with_amount-consume (big_int_field b.amount) f e;
  reply_json = λ r. record { message = none; whole = 7 };
  error_json = none;
  after_unread = λ c w. w;
}

-- "10"
abbrev ten : List Char
ten = alnum 1 ∷ alnum 0 ∷ []

abbrev after_payment : World
after_payment = (post_consume ten (some (body_of twelve)) start).1

paid_run : post_consume ten (some (body_of twelve)) start ≡ (created 7, after_payment)
unfolding post_consume typed_refusal parse_int big_int_of serve handle call_point consume_point
    consume_checks UserPoints.find_by_id UserPoints.by_id get_point_balance get_cache consume_locked
    with_lock transaction consume_callback ConsumptionHistories.create ConsumptionHistories.ids
    write_balance UserPoints.update_balance try_set_cache
paid_run = refl

post_consume_never_pays_example : (i : ℤ) × (parse_int ten ≡ some i) × HasPaid i start after_payment
post_consume_never_pays_example =
    post_consume_never_pays ten (some (body_of twelve)) start after_payment 7 paid_run
