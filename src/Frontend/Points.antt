-- ===== src/Frontend/Points.antt =====
-- usePoint (frontend/app/components/hooks/usePoint.ts) and the guards of the buttons that call it
-- (frontend/app/components/PointPanel). A pressed button starts a mutation of react-query, whose answer
-- settles later: the hook keeps the answers that are on their way.
use web3_point_exchange.Common.{
  ℕ, zero, suc, Bool, true, false, not, ◌&&◌, ltb, if◌then◌else◌, Option, none, some, List, [], ◌∷◌,
  ◌++◌, pos,
}
use web3_point_exchange.Gateway.Routes.{BodyField, text, whole}
use web3_point_exchange.Gateway.Decimal.{to_text}

-- Of `GrantOption` and `ConsumeOption` what the requests carry.
pub record PointOption : Type 0 where
  pub amount : ℕ
  pub type : ℕ

abbrev pub grant_options : List PointOption
grant_options = record { amount = 1000; type = 3 } ∷ record { amount = 10000; type = 2 } ∷ []

abbrev pub consume_options : List PointOption
consume_options = record { amount = 100; type = 1 } ∷ record { amount = 100; type = 2 } ∷ []

pub data PointError : Type 0 where
  no_user grant_failed consume_failed bad_json : PointError
  error_text : ℕ → PointError

pub record PointActionState : Type 0 where
  pub is_loading : Bool
  pub error : Option PointError
  pub success : Bool

pub data PointAction : Type 0 where
  granting consuming : PointAction

-- The request of `grantPoints` and `consumePoints`; `force` is always false.
pub record PointPost : Type 0 where
  pub action : PointAction
  pub user_point_id : ℕ
  pub amount : BodyField
  pub type : ℕ

-- What `fetch` comes to: a response, with the `error` of its JSON when it has one, or a throw.
pub data Posted : Type 0 where
  posted : Bool → Option (Option ℕ) → Posted
  unreachable : ℕ → Posted

pub record PointServer : Type 1 where
  pub Outside : Type 0
  pub post : PointPost → Outside → Posted × Outside

pub data QueryKey : Type 0 where
  user_point grant_history consumption_history : Option ℕ → QueryKey

-- An answer on its way: an error, or none for a success.
pub record PendingAnswer : Type 0 where
  pub action : PointAction
  pub outcome : Option PointError

pub record PointHook : Type 0 where
  pub user_point_id : Option ℕ
  pub grant_status : PointActionState
  pub consume_status : PointActionState
  pub pending : List PendingAnswer
  pub invalidated : List QueryKey

abbrev pub default_error : PointAction → PointError
default_error granting = grant_failed
default_error consuming = consume_failed

-- `errorData.error || ...`
abbrev pub error_of : PointAction → Option ℕ → PointError
error_of a none = default_error a
error_of a (some zero) = default_error a
error_of a (some (suc n)) = error_text (suc n)

abbrev pub outcome_of : PointAction → Posted → Option PointError
outcome_of a (posted true none) = some bad_json
outcome_of a (posted true (some e)) = none
outcome_of a (posted false none) = some bad_json
outcome_of a (posted false (some e)) = some (error_of a e)
outcome_of a (unreachable m) = some (error_text m)

abbrev pub loading_state : PointActionState
loading_state = record { is_loading = true; error = none; success = false }

abbrev pub succeeded_state : PointActionState
succeeded_state = record { is_loading = false; error = none; success = true }

abbrev pub idle_state : PointActionState
idle_state = record { is_loading = false; error = none; success = false }

abbrev pub failed_state : PointError → PointActionState
failed_state e = record { is_loading = false; error = some e; success = false }

abbrev pub set_action : PointAction → PointActionState → PointHook → PointHook
set_action granting s h = record h { grant_status = s }
set_action consuming s h = record h { consume_status = s }

abbrev pub shown_status : PointAction → PointHook → PointActionState
shown_status granting h = h.grant_status
shown_status consuming h = h.consume_status

-- `onSuccess` and `onError`
unfoldable pub settle_action : PointAction → Option PointError → PointHook → PointHook
settle_action a (some e) h = set_action a (failed_state e) h
settle_action granting none h = record h {
  grant_status = succeeded_state;
  invalidated = user_point h.user_point_id ∷ grant_history h.user_point_id ∷ h.invalidated;
}
settle_action consuming none h = record h {
  consume_status = succeeded_state;
  invalidated = user_point h.user_point_id ∷ consumption_history h.user_point_id ∷ h.invalidated;
}

-- The amount is a text for a grant, and a number for a consumption.
abbrev pub amount_field : PointAction → ℕ → BodyField
amount_field granting n = text (to_text n)
amount_field consuming n = whole (pos n)

module _ ⦃s : PointServer⦄ where
  abbrev pub post_points : PointPost → s.Outside → Option PointError × s.Outside
  post_points r o = let (a, o') = s.post r o in (outcome_of r.action a, o')

  -- `mutate`: `onMutate`, and the request.
  abbrev pub mutate : PointAction → PointPost → PointHook → s.Outside → PointHook × s.Outside
  mutate a r h o =
      let (e, o') = post_points r o in
      let k : PointHook = set_action a loading_state h in
      (record k { pending = k.pending ++ (record { action = a; outcome = e } ∷ []) }, o')

  -- `handleGrantPoints` and `handleConsumePoints`, where no id and the id 0 are falsy.
  abbrev pub handle_points :
      PointAction → Option ℕ → PointOption → PointHook → s.Outside → PointHook × s.Outside
  handle_points a none option h o = (set_action a (failed_state no_user) h, o)
  handle_points a (some zero) option h o = (set_action a (failed_state no_user) h, o)
  handle_points a (some (suc n)) option h o =
      mutate a
        (record {
          action = a;
          user_point_id = suc n;
          amount = amount_field a option.amount;
          type = option.type;
        })
        h o

  unfoldable pub handle_grant_points : PointOption → PointHook → s.Outside → PointHook × s.Outside
  handle_grant_points option h o = handle_points granting h.user_point_id option h o

  unfoldable pub handle_consume_points : PointOption → PointHook → s.Outside → PointHook × s.Outside
  handle_consume_points option h o = handle_points consuming h.user_point_id option h o

  -- `handleGrant` of the button.
  unfoldable pub press_grant : Option PointOption → PointHook → s.Outside → PointHook × s.Outside
  unfolding handle_grant_points
  press_grant none h o = (h, o)
  press_grant (some option) h o =
      if not h.grant_status.is_loading then handle_grant_points option h o else (h, o)

  -- The button is disabled when the balance that it shows does not cover the amount.
  unfoldable pub press_consume :
      Option PointOption → ℕ → PointHook → s.Outside → PointHook × s.Outside
  unfolding handle_consume_points
  press_consume none balance h o = (h, o)
  press_consume (some option) balance h o =
      if not h.consume_status.is_loading && not (ltb balance option.amount)
      then handle_consume_points option h o
      else (h, o)

-- The answer at a place of the list arrives.
abbrev pub take_at : ℕ → List PendingAnswer → Option (PendingAnswer × List PendingAnswer)
take_at n [] = none
take_at zero (a ∷ rest) = some (a, rest)
take_at (suc n) (a ∷ rest) =
    let taken = take_at n rest in elim taken [ none ↦ none | some (b, bs) ↦ some (b, a ∷ bs) ]

abbrev pub settle_taken : Option (PendingAnswer × List PendingAnswer) → PointHook → PointHook
settle_taken none h = h
settle_taken (some (a, left)) h = settle_action a.action a.outcome (record h { pending = left })

unfoldable pub arrive : ℕ → PointHook → PointHook
unfolding settle_action
arrive n h = settle_taken (take_at n h.pending) h

unfoldable pub reset_status : PointAction → PointHook → PointHook
reset_status a h = set_action a idle_state h
