-- ===== src/Gateway/Posts.antt =====
-- What the POST routes send to the backend.
use web3_point_exchange.Common.{
  ℕ, zero, suc, ◌/◌, ◌<◌, ◌≡◌, refl, ◌⊎◌, inl, inr, Bool, true, false, ◌||◌, if◌then◌else◌, ℤ, pos,
  negsuc, Option, none, some, List, arith,
}
use web3_point_exchange.Gateway.Texts.{Char, parse_int}
use web3_point_exchange.Gateway.Routes.{
  BodyField, is_missing, RequestBody, BackendPath, deposit_points, withdraw_points, consume, grant,
  Refusal, RouteResponse, bad_request, server_error, bad_json, BackendServer, forward, checked_call,
  amount_refusal, typed_refusal, deposit_refusal, withdraw_refusal, no_time, time_refusal,
  post_deposit_points, post_withdraw_points, post_consume, post_grant, with_id, missing_fields,
  invalid_user_point_id, parse_field,
}
use web3_point_exchange.Gateway.Amounts.{NotNegative, some_not, amount_refusal-NotNegative}

-- The field is given.
abbrev pub IsGiven : BodyField → Type 0
IsGiven f = is_missing f ≡ false

-- A time, in seconds, after `now`.
abbrev pub IsAfter : ℕ → Option ℤ → Type 0
IsAfter now t = (n : ℕ) × (t ≡ some (pos n)) × (now < n)

or-false : (a b : Bool) → (a || b) ≡ false → (a ≡ false) × (b ≡ false)
or-false true b h = cc
or-false false b h = (refl, h)

pass_if :
    (c : Bool) (r : Refusal) (o : Option Refusal)
    → (if c then some r else o) ≡ none
    → (c ≡ false) × (o ≡ none)
pass_if true r o h = cc
pass_if false r o h = (refl, h)

typed-passes :
    (b : RequestBody)
    → typed_refusal b ≡ none
    → IsGiven b.amount × IsGiven b.type × NotNegative b.amount
unfolding typed_refusal
typed-passes b h =
    let (f, g) = pass_if _ missing_fields (amount_refusal b.amount) h in
    let (a, t) = or-false (is_missing b.amount) (is_missing b.type) f in
    (a, t, amount_refusal-NotNegative b.amount g)

deposit-passes :
    (b : RequestBody)
    → deposit_refusal b ≡ none
    → IsGiven b.user_id × IsGiven b.wallet_address × IsGiven b.amount × NotNegative b.amount
unfolding deposit_refusal
deposit-passes b h =
    let (f, g) = pass_if _ missing_fields (amount_refusal b.amount) h in
    let (k, a) =
      or-false (is_missing b.user_id || is_missing b.wallet_address) (is_missing b.amount) f in
    let (u, w) = or-false (is_missing b.user_id) (is_missing b.wallet_address) k in
    (u, w, a, amount_refusal-NotNegative b.amount g)

time-passes :
    (now : ℕ) (t : Option ℤ) → no_time t ≡ false → time_refusal now t ≡ none → IsAfter now t
time-passes now none h e = cc
time-passes now (some (pos n)) h e = (n, refl, ground arith)
time-passes now (some (negsuc n)) h e = cc

both_pass :
    (a : Option Refusal) (t : Option Refusal)
    → elim a [ some r ↦ some r | none ↦ t ] ≡ none
    → (a ≡ none) × (t ≡ none)
both_pass none t h = (refl, h)
both_pass (some r) t h = cc

withdraw-passes :
    (now : ℕ) (b : RequestBody)
    → withdraw_refusal now b ≡ none
    → IsGiven b.user_id
      × IsGiven b.wallet_address
      × IsGiven b.amount
      × IsGiven b.signature
      × NotNegative b.amount
      × IsAfter now b.valid_until
unfolding withdraw_refusal
withdraw-passes now b h =
    let (f, g) = pass_if _ missing_fields _ h in
    let (k, s) = or-false _ (is_missing b.signature) f in
    let (j, t) = or-false _ (no_time b.valid_until) k in
    let (i, a) = or-false _ (is_missing b.amount) j in
    let (u, w) = or-false (is_missing b.user_id) (is_missing b.wallet_address) i in
    let (m, l) = both_pass (amount_refusal b.amount) (time_refusal now b.valid_until) g in
    (u, w, a, s, amount_refusal-NotNegative b.amount m, time-passes now b.valid_until t l)

-- `parseInt` reads a positive number.
abbrev pub IsPositive : BodyField → Type 0
IsPositive f = (n : ℕ) × (parse_field f ≡ some (pos (suc n)))

positive-passes : (f : BodyField) → IsPositive f → amount_refusal f ≡ none
positive-passes f (n, e) = rw e refl

-- A full body with a positive amount (Good), and one whose amount is not negative (Sent).
abbrev pub TypedGood : RequestBody → Type 0
TypedGood b = IsGiven b.amount × IsGiven b.type × IsPositive b.amount

abbrev pub TypedSent : RequestBody → Type 0
TypedSent b = IsGiven b.amount × IsGiven b.type × NotNegative b.amount

abbrev pub DepositGood : RequestBody → Type 0
DepositGood b =
    IsGiven b.user_id × IsGiven b.wallet_address × IsGiven b.amount × IsPositive b.amount

abbrev pub DepositSent : RequestBody → Type 0
DepositSent b =
    IsGiven b.user_id × IsGiven b.wallet_address × IsGiven b.amount × NotNegative b.amount

abbrev pub WithdrawGood : ℕ → RequestBody → Type 0
WithdrawGood now b =
    IsGiven b.user_id
    × IsGiven b.wallet_address
    × IsGiven b.amount
    × IsGiven b.signature
    × IsPositive b.amount
    × IsAfter now b.valid_until

abbrev pub WithdrawSent : ℕ → RequestBody → Type 0
WithdrawSent now b =
    IsGiven b.user_id
    × IsGiven b.wallet_address
    × IsGiven b.amount
    × IsGiven b.signature
    × NotNegative b.amount
    × IsAfter now b.valid_until

typed_good : (b : RequestBody) → TypedGood b → typed_refusal b ≡ none
unfolding typed_refusal
typed_good b (a, t, n) = rw (a, t) (positive-passes b.amount n)

deposit_good : (b : RequestBody) → DepositGood b → deposit_refusal b ≡ none
unfolding deposit_refusal
deposit_good b (u, w, a, n) = rw (u, w, a) (positive-passes b.amount n)

time_good :
    (now : ℕ) (t : Option ℤ) → IsAfter now t → (no_time t ≡ false) × (time_refusal now t ≡ none)
time_good now t (n, e, l) = rw e (time_after now n l)
  where
    time_after :
        (now n : ℕ)
        → now < n
        → (no_time (some (pos n)) ≡ false) × (time_refusal now (some (pos n)) ≡ none)
    time_after now zero l = ground arith
    time_after now (suc n) l = (refl, ground arith)

withdraw_good : (now : ℕ) (b : RequestBody) → WithdrawGood now b → withdraw_refusal now b ≡ none
unfolding withdraw_refusal
withdraw_good now b (u, w, a, g, n, t) =
    let (e, f) = time_good now b.valid_until t in rw (u, w, a, g, e, positive-passes b.amount n) f

module _ ⦃s : BackendServer⦄ where
  -- The route answers 500 for a body that is no JSON, or 400 for one that is not `Good`, without a
  -- call; or it makes one call, of `e` and with the body that it was sent, which is `Sent`, and answers
  -- by what comes back.
  abbrev pub PostSpec :
      (Good Sent : RequestBody → Type 0)
      → BackendPath
      → Option RequestBody
      → s.Outside
      → RouteResponse × s.Outside
      → Type 0
  PostSpec Good Sent e none o res = res ≡ (server_error bad_json, o)
  PostSpec Good Sent e (some b) o res =
      (¬ Good b × ((r : Refusal) × (res ≡ (bad_request r, o)))) ⊎ (Sent b × (res ≡ forward e b o))

  -- A route with an id, which is the one that `parseInt` reads of its text.
  abbrev pub IdSpec :
      Option ℤ
      → (ℤ → BackendPath)
      → Option RequestBody
      → s.Outside
      → RouteResponse × s.Outside
      → Type 0
  IdSpec id f none o res = res ≡ (server_error bad_json, o)
  IdSpec none f (some b) o res = res ≡ (bad_request invalid_user_point_id, o)
  IdSpec (some i) f (some b) o res = PostSpec TypedGood TypedSent (f i) (some b) o res

  checked_call-PostSpec :
      (Good Sent : RequestBody → Type 0) (refusal : Option Refusal) (e : BackendPath)
      (b : RequestBody) (o : s.Outside)
      → (Good b → refusal ≡ none)
      → (refusal ≡ none → Sent b)
      → PostSpec Good Sent e (some b) o (checked_call refusal e b o)
  checked_call-PostSpec Good Sent none e b o g h = inr (h refl, refl)
  checked_call-PostSpec Good Sent (some r) e b o g h = inl ((λ x. some_not (g x)), (r, refl))

  with_id-IdSpec :
      (id : Option ℤ) (f : ℤ → BackendPath) (b : RequestBody) (o : s.Outside)
      → IdSpec id f (some b) o (with_id id f b o)
  with_id-IdSpec none f b o = refl
  with_id-IdSpec (some i) f b o =
      checked_call-PostSpec TypedGood TypedSent (typed_refusal b) (f i) b o (typed_good b)
        (typed-passes b)

  -- The four POST routes of the frontend that take an amount. A body that is no JSON is answered
  -- with 500, and then, for a consumption or a grant, a point id that parseInt does not read
  -- with 400, without a call. A body that misses a required field, whose time limit has passed,
  -- or whose amount BigInt reads as negative, is never sent on. A body that has the fields, an
  -- amount that parseInt reads as positive and for a withdrawal a later time limit, always is.
  -- What is not sent is answered with 400 without a call; what is sent goes to the endpoint of
  -- the route unchanged in one call, whose result is the response.
  pub amount_posts-PostSpec :
      (id : List Char) (json : Option RequestBody) (o : s.Outside)
      → let now = s.date_now o / 1000 in
        PostSpec DepositGood DepositSent deposit_points json o (post_deposit_points json o)
        × PostSpec
            (WithdrawGood now)
            (WithdrawSent now)
            withdraw_points
            json
            o
            (post_withdraw_points json o)
        × IdSpec (parse_int id) consume json o (post_consume id json o)
        × IdSpec (parse_int id) grant json o (post_grant id json o)
  unfolding post_deposit_points post_withdraw_points post_consume post_grant
  amount_posts-PostSpec id none o = (refl, refl, refl, refl)
  amount_posts-PostSpec id (some b) o =
      let now = s.date_now o / 1000 in
      (
        checked_call-PostSpec DepositGood DepositSent (deposit_refusal b) deposit_points b o
            (deposit_good b) (deposit-passes b),
        checked_call-PostSpec (WithdrawGood now) (WithdrawSent now) (withdraw_refusal now b)
            withdraw_points b o (withdraw_good now b) (withdraw-passes now b),
        with_id-IdSpec (parse_int id) consume b o,
        with_id-IdSpec (parse_int id) grant b o,
      )
