-- ===== src/Gateway/Queries.antt =====
-- The GET handlers of frontend/app/api/point/v1.
use web3_point_exchange.Common.{
  ℕ, zero, suc, ℤ, Bool, true, false, ◌&&◌, ◌||◌, ltb, if◌then◌else◌, Option, none, some, List, [],
  ◌∷◌,
}
use web3_point_exchange.Gateway.Texts.{Char, blank, plus, minus, alnum, symbol, parse_int, is_alnum}
use web3_point_exchange.Gateway.Routes.{
  Filter, BackendPath, user_point, balance, user_point_list, swap_histories, grant_histories,
  consumption_histories, grant_history, consumption_history, swap_history, Refusal,
  user_id_required, invalid_user_id, invalid_user_point_id, history_id_required, RouteResponse,
  success, bad_request, BackendServer, api_request, response_of,
}

-- The parts of `uuidRegex`, which takes letters in either case.
pub data Part : Type 0 where
  hex four variant dash : Part

abbrev pub is_hex : Char → Bool
is_hex blank = false
is_hex plus = false
is_hex minus = false
is_hex (alnum v) = ltb v 16
is_hex (symbol n) = false

abbrev pub is_minus : Char → Bool
is_minus blank = false
is_minus plus = false
is_minus minus = true
is_minus (alnum v) = false
is_minus (symbol n) = false

abbrev pub is_part : Part → Char → Bool
is_part hex c = is_hex c
is_part four c = is_alnum 4 c
is_part variant c = is_alnum 8 c || is_alnum 9 c || is_alnum 10 c || is_alnum 11 c
is_part dash c = is_minus c

abbrev pub fits : List Part → List Char → Bool
fits [] [] = true
fits [] (c ∷ t) = false
fits (p ∷ ps) [] = false
fits (p ∷ ps) (c ∷ t) = is_part p c && fits ps t

abbrev pub times : ℕ → Part → List Part → List Part
times zero p ps = ps
times (suc n) p ps = p ∷ times n p ps

-- The pattern of the text of a UUID of version 4.
abbrev pub uuid_parts : List Part
uuid_parts = times 8 hex (
    dash
    ∷ times 4 hex
        (dash ∷ four ∷ times 3 hex (dash ∷ variant ∷ times 3 hex (dash ∷ times 12 hex []))))

-- `searchParams.get`, and an `append` only of what is not empty.
abbrev pub given : Option (List Char) → Option (List Char)
given none = none
given (some []) = none
given (some (c ∷ t)) = some (c ∷ t)

abbrev pub is_absent : Option (List Char) → Bool
is_absent none = true
is_absent (some []) = true
is_absent (some (c ∷ t)) = false

abbrev pub text_of : Option (List Char) → List Char
text_of none = []
text_of (some t) = t

-- The query of a request; other parameters, such as those of a page, are not read.
abbrev pub of_user : Filter → Filter
of_user q = record { user_id = given q.user_id; type = none; status = none }

abbrev pub by_kind : Filter → Filter
by_kind q = record { user_id = none; type = given q.type; status = given q.status }

abbrev pub by_all : Filter → Filter
by_all q = record { user_id = given q.user_id; type = given q.type; status = given q.status }

unfoldable pub balance_refusal : Option (List Char) → Option Refusal
balance_refusal u =
    if is_absent u
    then some user_id_required
    else if fits uuid_parts (text_of u)
    then none
    else some invalid_user_id

module _ ⦃s : BackendServer⦄ where
  abbrev pub ask : BackendPath → s.Outside → RouteResponse × s.Outside
  ask e o =
      let (a, o') = api_request (record { endpoint = e; body = none }) o in
      (response_of success a, o')

  abbrev pub asked : Option Refusal → BackendPath → s.Outside → RouteResponse × s.Outside
  asked (some r) e o = (bad_request r, o)
  asked none e o = ask e o

  unfoldable pub get_balance : Filter → s.Outside → RouteResponse × s.Outside
  unfolding balance_refusal
  get_balance q o = asked (balance_refusal q.user_id) (balance (text_of q.user_id)) o

  unfoldable pub get_points : Filter → s.Outside → RouteResponse × s.Outside
  get_points q o = ask (user_point_list (of_user q)) o

  unfoldable pub get_swap_histories : Filter → s.Outside → RouteResponse × s.Outside
  get_swap_histories q o = ask (swap_histories (by_all q)) o

  abbrev pub id_refusal : List Char → Option Refusal
  id_refusal [] = some history_id_required
  id_refusal (c ∷ t) = none

  unfoldable pub get_swap_history : List Char → s.Outside → RouteResponse × s.Outside
  get_swap_history h o = asked (id_refusal h) (swap_history h) o

  -- The routes below a point: its id is checked first.
  abbrev pub of_id :
      Option ℤ → Option Refusal → (ℤ → BackendPath) → s.Outside → RouteResponse × s.Outside
  of_id none r e o = (bad_request invalid_user_point_id, o)
  of_id (some i) r e o = asked r (e i) o

  unfoldable pub get_point : List Char → s.Outside → RouteResponse × s.Outside
  get_point id o = of_id (parse_int id) none user_point o

  unfoldable pub list_grants : List Char → Filter → s.Outside → RouteResponse × s.Outside
  list_grants id q o = of_id (parse_int id) none (λ i. grant_histories i (by_kind q)) o

  unfoldable pub list_consumptions : List Char → Filter → s.Outside → RouteResponse × s.Outside
  list_consumptions id q o = of_id (parse_int id) none (λ i. consumption_histories i (by_kind q)) o

  unfoldable pub get_grant : List Char → List Char → s.Outside → RouteResponse × s.Outside
  get_grant id h o = of_id (parse_int id) (id_refusal h) (λ i. grant_history i h) o

  unfoldable pub get_consumption : List Char → List Char → s.Outside → RouteResponse × s.Outside
  get_consumption id h o = of_id (parse_int id) (id_refusal h) (λ i. consumption_history i h) o
