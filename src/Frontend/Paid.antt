-- ===== src/Frontend/Paid.antt =====
-- usePoint (frontend/app/components/hooks/usePoint.ts), the routes of the frontend, those of the backend and
-- PointService together.
use web3_point_exchange.Common.{
  ℕ, zero, suc, ◌≤◌, ltb, if◌then◌else◌, pos, Bool, true, false, ◌&&◌, not, Option, none, some,
  some_inj, List, [], ◌∷◌, ◌++◌, ◌≡◌, refl, sym, ap, subst, ◌∙◌, inl, inr, ◌⊎◌, Bool-cases, arith,
}
use web3_point_exchange.Platform.{Platform}
use web3_point_exchange.World.{World}
use web3_point_exchange.Api.{Router, Server}
use web3_point_exchange.Gateway.Decimal.{to_text, parse_int-to_text}
use web3_point_exchange.Gateway.Routes.{
  whole, RouteResponse, success, created, bad_request, server_error, post_consume,
}
use web3_point_exchange.Gateway.Amounts.{big_int_field}
use web3_point_exchange.Gateway.Backend.{Wire, backend}
use web3_point_exchange.Gateway.Guarded.{Paid, post_consume-ConsumeDone}
use web3_point_exchange.Frontend.PointRoutes.{
  Texts, post_body, posted_of, gateway_server, not_success,
}
use web3_point_exchange.Frontend.{
  no_user, set_action, loading_state, failed_state, PointOption, PointError, PointAction, consuming,
  PointPost, PointServer, PendingAnswer, PointHook, outcome_of, settle_action, handle_points,
  handle_consume_points, press_consume, take_at, settle_taken, arrive,
}

first_arrives :
    (p : PendingAnswer) (ps : List PendingAnswer) (h : PointHook)
    → ps ≡ []
    → settle_taken (take_at 0 (ps ++ (p ∷ []))) h
      ≡ settle_action p.action p.outcome (record h { pending = [] })
first_arrives p [] h e = refl
first_arrives p (q ∷ ps) h e = cc

nothing_arrives :
    (ps : List PendingAnswer) (h : PointHook) → ps ≡ [] → settle_taken (take_at 0 ps) h ≡ h
nothing_arrives [] h e = refl
nothing_arrives (q ∷ ps) h e = cc

-- Without an answer on its way, a hook that shows no success shows none later.
unchanged :
    (h : PointHook)
    → h.pending ≡ []
    → h.consume_status.success ≡ false
    → (arrive 0 h).consume_status.success ≡ true
    → ⊥
unfolding arrive
unchanged h empty idle e =
    cc (sym (ap (λ k. k.consume_status.success) (nothing_arrives h.pending h empty)) ∙ e, idle)

settled_success :
    (o : Option PointError) (h : PointHook)
    → (settle_action consuming o h).consume_status.success ≡ true
    → o ≡ none
unfolding settle_action
settled_success none h e = refl
settled_success (some x) h e = cc

done :
    ⦃t : Texts⦄ (x : RouteResponse)
    → outcome_of consuming (posted_of x) ≡ none
    → (v : ℕ) × ((x ≡ created v) ⊎ (x ≡ success v))
done (success v) e = (v, inr refl)
done (created v) e = (v, inl refl)
done (bad_request r) e = cc
done (server_error f) e = cc

covered :
    (l : Bool) (balance amount : ℕ) → not l && not (ltb balance amount) ≡ true → amount ≤ balance
covered l balance amount e = ground arith

abbrev failed : PointAction → PointHook → PointHook
failed a h = set_action a (failed_state no_user) h

module _ ⦃p : Platform⦄ ⦃server : Server⦄ ⦃router : Router⦄ ⦃wire : Wire⦄ ⦃t : Texts⦄ where
  consumed-Paid :
      (n a : ℕ) (type : ℕ) (x : RouteResponse) (w w' : World)
      → post_consume
          (to_text n)
          (some (
            post_body (record {
              action = consuming;
              user_point_id = n;
              amount = whole (pos a);
              type = type;
            })))
          w
        ≡ (x, w')
      → outcome_of consuming (posted_of x) ≡ none
      → Paid (pos n) (pos a) w w'
  consumed-Paid n a type x w w' e k = go (done x k)
    where
      go : (v : ℕ) × ((x ≡ created v) ⊎ (x ≡ success v)) → Paid (pos n) (pos a) w w'
      go (v, inr s) = absurd (not_success _ _ w w' v (e ∙ ap (λ y. (y, w')) s))
      go (v, inl s) =
          let (i, b, c, parsed, same, _, amount, paid) =
            post_consume-ConsumeDone _ _ w w' v (e ∙ ap (λ y. (y, w')) s) in
          let ie : i ≡ pos n = some_inj.0 (sym parsed ∙ parse_int-to_text n) in
          let ce : c ≡ pos a =
            some_inj.0 (sym amount ∙ ap (λ y. big_int_field y.amount) (sym (some_inj.0 same))) in
          subst (λ y. Paid y (pos a) w w') ie (subst (λ y. Paid i y w w') ce paid)

  -- The hook shows a success of a consumption when the next answer has arrived.
  abbrev pub ShowsSuccess : PointHook → Type 0
  ShowsSuccess h = (arrive 0 h).consume_status.success ≡ true

  -- usePoint on the routes and the backend.
  abbrev pub hook_server : PointServer
  hook_server = gateway_server ⦃s = backend⦄

  -- The user of the hook has paid the option.
  abbrev pub Takes : PointOption → PointHook → World → World → Type 0
  Takes option h w w' = (n : ℕ) × (h.user_point_id ≡ some n) × Paid (pos n) (pos option.amount) w w'

  handled-Takes :
      (id : Option ℕ) (option : PointOption) (h : PointHook) (w : World)
      → h.user_point_id ≡ id
      → h.pending ≡ []
      → ShowsSuccess (handle_points ⦃s = hook_server⦄ consuming id option h w).0
      → Takes option h w (handle_points ⦃s = hook_server⦄ consuming id option h w).1
  unfolding arrive
  handled-Takes none option h w i empty e = absurd (unchanged (failed consuming h) empty refl e)
  handled-Takes (some zero) option h w i empty e =
      absurd (unchanged (failed consuming h) empty refl e)
  handled-Takes (some (suc n)) option h w i empty e =
      let post : PointPost = record {
        action = consuming;
        user_point_id = suc n;
        amount = whole (pos option.amount);
        type = option.type;
      } in
      let x = post_consume ⦃s = backend⦄ (to_text (suc n)) (some (post_body post)) w in
      let k : PointHook = set_action consuming loading_state h in
      let o = outcome_of consuming (posted_of x.0) in
      let answer : PendingAnswer = record { action = consuming; outcome = o } in
      let settled =
        first_arrives answer h.pending (record k { pending = h.pending ++ (answer ∷ []) }) empty in
      let none_left =
        settled_success o (record k { pending = [] })
          (sym (ap (λ y. y.consume_status.success) settled) ∙ e) in
      (suc n, i, consumed-Paid (suc n) option.amount option.type x.0 w x.1 refl none_left)

  -- The button for a consumption, usePoint, the routes of the frontend and of the backend and
  -- consumePoint together, on a platform of any behaviour: when the hook shows no success and
  -- waits for no answer, the button is pressed, and the hook shows a success when the answer has
  -- arrived, then the balance that the page showed covers the amount of the option, the point of
  -- the hook has a row, and afterwards every row of its user has the balance of that row less
  -- the amount.
  pub press_consume-Takes :
      (option : PointOption) (balance : ℕ) (h : PointHook) (w : World)
      → h.pending ≡ []
      → h.consume_status.success ≡ false
      → ShowsSuccess (press_consume ⦃s = hook_server⦄ (some option) balance h w).0
      → (option.amount ≤ balance)
        × Takes option h w (press_consume ⦃s = hook_server⦄ (some option) balance h w).1
  unfolding press_consume handle_consume_points
  press_consume-Takes option balance h w empty idle e =
      let pressed : Bool → PointHook × World =
        λ b. if b then handle_consume_points ⦃s = hook_server⦄ option h w else (h, w) in
      elim (Bool-cases (not h.consume_status.is_loading && not (ltb balance option.amount))) [
        | inl c ↦ (
          covered h.consume_status.is_loading balance option.amount c,
          rw c (
              handled-Takes h.user_point_id option h w refl empty
                (subst (λ b. ShowsSuccess (pressed b).0) c e)),
        )
        | inr c ↦ absurd (unchanged h empty idle (subst (λ b. ShowsSuccess (pressed b).0) c e))
      ]
