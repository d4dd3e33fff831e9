-- ===== src/Tests/GatewayRuns.antt =====
-- Runs of the POST routes of the frontend on a backend that answers every call.
use web3_point_exchange.Common.{pos, ◌≡◌, refl, true, Option, none, some, List, [], ◌∷◌}
use web3_point_exchange.Gateway.Texts.{Char, blank, minus, alnum, parse_int, big_int_of}
use web3_point_exchange.Gateway.Routes.{
  text, RequestBody, ApiCall, deposit_points, withdraw_points, consume, grant, Fetched, response,
  created, bad_request, amount_not_positive, BackendServer, post_deposit_points,
  post_withdraw_points, post_consume, post_grant, typed_refusal,
}
use web3_point_exchange.Gateway.Posts.{
  PostSpec, IdSpec, DepositGood, DepositSent, WithdrawGood, WithdrawSent, amount_posts-PostSpec,
}

-- The backend keeps the calls; the time is 1000 seconds.
abbrev fetch_ok : ApiCall → List ApiCall → Fetched × List ApiCall
fetch_ok c cs = (response true 201 (some (record { message = none; whole = 7 })), c ∷ cs)

instance abbrev calm_server : BackendServer
calm_server = record { Outside = List ApiCall; fetch = fetch_ok; date_now = λ o. 1000000 }

abbrev pub body_of : List Char → RequestBody
body_of t = record {
  user_id = text (alnum 10 ∷ []);
  wallet_address = text (alnum 0 ∷ alnum 33 ∷ []);
  amount = text t;
  type = text (alnum 10 ∷ []);
  signature = text (alnum 0 ∷ alnum 33 ∷ []);
  valid_until = some (pos 1001);
  others = 0;
}

-- "12"
abbrev pub twelve : List Char
twelve = alnum 1 ∷ alnum 2 ∷ []

amount_posts-PostSpec_example :
    let json : Option RequestBody = some (body_of twelve) in
    PostSpec DepositGood DepositSent deposit_points json [] (post_deposit_points json [])
    × PostSpec
        (WithdrawGood 1000)
        (WithdrawSent 1000)
        withdraw_points
        json
        []
        (post_withdraw_points json [])
    × IdSpec (parse_int twelve) consume json [] (post_consume twelve json [])
    × IdSpec (parse_int twelve) grant json [] (post_grant twelve json [])
amount_posts-PostSpec_example = amount_posts-PostSpec twelve (some (body_of twelve)) []

-- Twelve points go through, minus twelve do not.
twelve_sent :
    post_consume (alnum 3 ∷ []) (some (body_of twelve)) []
    ≡ (created 7, record { endpoint = consume (pos 3); body = some (body_of twelve) } ∷ [])
unfolding post_consume typed_refusal parse_int
twelve_sent = refl

minus_twelve_refused :
    post_consume (alnum 3 ∷ []) (some (body_of (minus ∷ twelve))) []
    ≡ (bad_request amount_not_positive, [])
unfolding post_consume typed_refusal parse_int
minus_twelve_refused = refl

-- A blank amount goes through, and `BigInt` reads it as 0.
blank_sent :
    post_consume (alnum 3 ∷ []) (some (body_of (blank ∷ []))) []
    ≡ (created 7, record { endpoint = consume (pos 3); body = some (body_of (blank ∷ [])) } ∷ [])
unfolding post_consume typed_refusal parse_int
blank_sent = refl

blank_is_zero : big_int_of (blank ∷ []) ≡ some (pos 0)
unfolding big_int_of
blank_is_zero = refl
