-- ===== src/Gateway/Routes.antt =====
-- The POST handlers of user-points/route.ts and of its routes deposit-points, withdraw-points,
-- [userPointId]/consume and [userPointId]/grant, and `apiRequest` of utils/api-config.ts.
use web3_point_exchange.Common.{
  ℕ, zero, suc, ◌/◌, ℤ, pos, negsuc, Bool, true, false, ◌||◌, leb, if◌then◌else◌, Option, none,
  some, List, [], ◌∷◌,
}
use web3_point_exchange.Gateway.Texts.{Char, parse_int}

-- A field of a JSON body: undefined or null, a text, or a whole number below 10^21.
pub data BodyField : Type 0 where
  missing : BodyField
  text : List Char → BodyField
  whole : ℤ → BodyField

-- `!field`
abbrev pub is_missing : BodyField → Bool
is_missing missing = true
is_missing (text []) = true
is_missing (text (c ∷ t)) = false
is_missing (whole (pos zero)) = true
is_missing (whole (pos (suc n))) = false
is_missing (whole (negsuc n)) = false

-- `number <= 0`, where `none` is NaN.
abbrev pub at_most_zero : Option ℤ → Bool
at_most_zero none = false
at_most_zero (some (pos zero)) = true
at_most_zero (some (pos (suc n))) = false
at_most_zero (some (negsuc n)) = true

-- `parseInt(field)`
abbrev pub parse_field : BodyField → Option ℤ
parse_field missing = none
parse_field (text t) = parse_int t
parse_field (whole i) = some i

-- The fields of the DTOs; a body has those of its route, and further ones that go through.
pub record RequestBody : Type 0 where
  pub user_id : BodyField
  pub wallet_address : BodyField
  pub amount : BodyField
  pub type : BodyField
  pub signature : BodyField
  pub valid_until : Option ℤ
  pub others : ℕ

-- The query of a list, where an empty text is left out.
pub record Filter : Type 0 where
  pub user_id : Option (List Char)
  pub type : Option (List Char)
  pub status : Option (List Char)

pub data BackendPath : Type 0 where
  user_points deposit_points withdraw_points : BackendPath
  consume grant : ℤ → BackendPath
  user_point : ℤ → BackendPath
  balance : List Char → BackendPath
  user_point_list swap_histories : Filter → BackendPath
  grant_histories consumption_histories : ℤ → Filter → BackendPath
  grant_history consumption_history : ℤ → List Char → BackendPath
  swap_history : List Char → BackendPath

-- A request with a body is a POST, one without is a GET.
pub record ApiCall : Type 0 where
  pub endpoint : BackendPath
  pub body : Option RequestBody

-- The JSON of a response: the `message` in it, and the whole.
pub record ReplyJson : Type 0 where
  pub message : Option ℕ
  pub whole : ℕ

-- What `fetch` comes to: a response, whose body may not be JSON, the abort after 10 seconds, another
-- error with its message, or a thrown value that is no error.
pub data Fetched : Type 0 where
  response : Bool → ℕ → Option ReplyJson → Fetched
  aborted : Fetched
  error : ℕ → Fetched
  thrown : Fetched

-- The messages of the errors.
pub data Failure : Type 0 where
  message : ℕ → Failure
  http : ℕ → Failure
  timed_out unknown_error bad_json : Failure

pub data ApiAnswer : Type 0 where
  data_of : ℕ → ApiAnswer
  failure : Failure → ApiAnswer

pub data Refusal : Type 0 where
  user_id_required invalid_user_point_id missing_fields invalid_user_id : Refusal
  history_id_required : Refusal
  amount_not_positive valid_until_past : Refusal

-- The response of a route: 200, 201, 400 or 500.
pub data RouteResponse : Type 0 where
  success created : ℕ → RouteResponse
  bad_request : Refusal → RouteResponse
  server_error : Failure → RouteResponse

-- `date_now` is in milliseconds.
pub record BackendServer : Type 1 where
  pub Outside : Type 0
  pub fetch : ApiCall → Outside → Fetched × Outside
  pub date_now : Outside → ℕ

-- `errorData.message || ...`, where an unreadable body is `{}`.
abbrev pub error_message : ℕ → Option ℕ → Failure
error_message status none = http status
error_message status (some zero) = http status
error_message status (some (suc n)) = message (suc n)

abbrev pub message_of : Option ReplyJson → Option ℕ
message_of none = none
message_of (some j) = j.message

abbrev pub json_answer : Option ReplyJson → ApiAnswer
json_answer none = failure bad_json
json_answer (some j) = data_of j.whole

abbrev pub answer_of : Fetched → ApiAnswer
answer_of (response true status json) = json_answer json
answer_of (response false status json) = failure (error_message status (message_of json))
answer_of aborted = failure timed_out
answer_of (error m) = failure (message m)
answer_of thrown = failure unknown_error

abbrev pub response_of : (ℕ → RouteResponse) → ApiAnswer → RouteResponse
response_of make (data_of v) = make v
response_of make (failure f) = server_error f

-- `parseInt(body.amount) <= 0`
abbrev pub amount_refusal : BodyField → Option Refusal
amount_refusal f = if at_most_zero (parse_field f) then some amount_not_positive else none

unfoldable pub create_refusal : RequestBody → Option Refusal
create_refusal b = if is_missing b.user_id then some user_id_required else none

unfoldable pub typed_refusal : RequestBody → Option Refusal
typed_refusal b =
    if is_missing b.amount || is_missing b.type
    then some missing_fields
    else amount_refusal b.amount

unfoldable pub deposit_refusal : RequestBody → Option Refusal
deposit_refusal b =
    if is_missing b.user_id || is_missing b.wallet_address || is_missing b.amount
    then some missing_fields
    else amount_refusal b.amount

abbrev pub no_time : Option ℤ → Bool
no_time none = true
no_time (some (pos zero)) = true
no_time (some (pos (suc n))) = false
no_time (some (negsuc n)) = false

-- `body.validUntil <= currentTimestamp`
abbrev pub is_past : ℕ → Option ℤ → Bool
is_past now none = false
is_past now (some (pos n)) = leb n now
is_past now (some (negsuc n)) = true

abbrev pub time_refusal : ℕ → Option ℤ → Option Refusal
time_refusal now t = if is_past now t then some valid_until_past else none

unfoldable pub withdraw_refusal : ℕ → RequestBody → Option Refusal
withdraw_refusal now b =
    if is_missing b.user_id
      || is_missing b.wallet_address
      || is_missing b.amount
      || no_time b.valid_until
      || is_missing b.signature
    then some missing_fields
    else elim (amount_refusal b.amount) [ some r ↦ some r | none ↦ time_refusal now b.valid_until ]

module _ ⦃s : BackendServer⦄ where
  abbrev pub api_request : ApiCall → s.Outside → ApiAnswer × s.Outside
  api_request c o = let (f, o') = s.fetch c o in (answer_of f, o')

  abbrev pub forward : BackendPath → RequestBody → s.Outside → RouteResponse × s.Outside
  forward e b o =
      let (a, o') = api_request (record { endpoint = e; body = some b }) o in
      (response_of created a, o')

  -- What the checks refuse is answered with 400; the rest goes to the backend.
  abbrev pub checked_call :
      Option Refusal → BackendPath → RequestBody → s.Outside → RouteResponse × s.Outside
  checked_call (some r) e b o = (bad_request r, o)
  checked_call none e b o = forward e b o

  -- `request.json()` is `none` when it throws.
  unfoldable pub post_user_points : Option RequestBody → s.Outside → RouteResponse × s.Outside
  post_user_points none o = (server_error bad_json, o)
  post_user_points (some b) o = checked_call (create_refusal b) user_points b o

  unfoldable pub post_deposit_points : Option RequestBody → s.Outside → RouteResponse × s.Outside
  post_deposit_points none o = (server_error bad_json, o)
  post_deposit_points (some b) o = checked_call (deposit_refusal b) deposit_points b o

  unfoldable pub post_withdraw_points : Option RequestBody → s.Outside → RouteResponse × s.Outside
  post_withdraw_points none o = (server_error bad_json, o)
  post_withdraw_points (some b) o =
      checked_call (withdraw_refusal (s.date_now o / 1000) b) withdraw_points b o

  -- `parseInt(userPointId)`, which is checked_call after the body is read.
  abbrev pub with_id :
      Option ℤ → (ℤ → BackendPath) → RequestBody → s.Outside → RouteResponse × s.Outside
  with_id none e b o = (bad_request invalid_user_point_id, o)
  with_id (some i) e b o = checked_call (typed_refusal b) (e i) b o

  unfoldable pub post_consume :
      List Char → Option RequestBody → s.Outside → RouteResponse × s.Outside
  post_consume id none o = (server_error bad_json, o)
  post_consume id (some b) o = with_id (parse_int id) consume b o

  unfoldable pub post_grant : List Char → Option RequestBody → s.Outside → RouteResponse × s.Outside
  post_grant id none o = (server_error bad_json, o)
  post_grant id (some b) o = with_id (parse_int id) grant b o
