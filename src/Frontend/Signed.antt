-- ===== src/Frontend/Signed.antt =====
-- Every withdrawal that `useSwap` posts is signed, with the values that it has.
use web3_point_exchange.Common.{
  ℕ, pos, ◌/ℤ◌, ◌≡◌, refl, subst, inl, inr, ◌||◌, Option, none, some, List, [], ◌∷◌, Has, ◌==◌,
  Bool-cases,
}
use web3_point_exchange.Frontend.Web.{
  Amount, integer, not_positive, not_hundreds, Domain, DepositBody, deposit, histories, Json,
  Browser,
}
use web3_point_exchange.Frontend.Hooks.{
  Page, Try, returned, threw, read, or_library_error, deposit_failed, wallet_missing,
  domain_missing, token_missing,
}
use web3_point_exchange.Frontend.Swap.{
  try_withdraw, use_swap_withdraw_points, use_swap_deposit_points, finish, fetch_swap_history,
  fetch_contract_info, reset_state, keep_histories, loading, show_error, keep_contract_info,
}
use web3_point_exchange.Frontend.Backed.{
  InHundreds, amount-InHundreds, or_false, Post, and_then-Post, AllBacked, Grown, Grown-AllBacked,
  or_library_error-rule, Permitted,
}
use web3_point_exchange.Frontend.Posts.{
  permit_if_short-Post, add_call-AllBacked, ok_body-AllBacked, post_withdrawal-Post,
}

module _ ⦃b : Browser⦄ where
  -- The operations of the hook.
  pub data HookOp : Type 0 where
    do_deposit : ℕ → ℕ → Amount → HookOp
    do_withdraw : ℕ → Amount → HookOp
    do_fetch_history : Option ℕ → HookOp
    do_fetch_contract_info do_reset : HookOp

  abbrev pub do_op : HookOp → Page → Page
  do_op (do_deposit user wallet amount) p = use_swap_deposit_points user wallet amount p
  do_op (do_withdraw user amount) p = use_swap_withdraw_points user amount p
  do_op (do_fetch_history i) p = fetch_swap_history i p
  do_op do_fetch_contract_info p = fetch_contract_info p
  do_op do_reset p = reset_state p

  abbrev pub do_ops : List HookOp → Page → Page
  do_ops [] p = p
  do_ops (o ∷ os) p = do_ops os (do_op o p)

  keep_histories-AllBacked :
      (x : Try Json × Page) → Post (λ j q. AllBacked q) AllBacked x → AllBacked (keep_histories x)
  keep_histories-AllBacked (returned j, p) h = h
  keep_histories-AllBacked (threw m, p) h = h

  fetch_swap_history-AllBacked :
      (i : Option ℕ) (p : Page) → AllBacked p → AllBacked (fetch_swap_history i p)
  unfolding fetch_swap_history
  fetch_swap_history-AllBacked i p all = keep_histories-AllBacked _ (
      and_then-Post (λ a q. AllBacked q) (λ j q. AllBacked q) AllBacked AllBacked _ _
        (add_call-AllBacked (histories i) p (b.fetch (histories i) p.outside) tt all)
        (λ a q h. elim (Bool-cases a.is_ok) [ inl t ↦ rw t (json q h a.json) | inr f ↦ rw f h ])
        (λ q h. h))
    where
      json :
          (q : Page)
          → AllBacked q
          → (j : Option Json) → Post (λ k r. AllBacked r) AllBacked (or_library_error j q)
      json q h none = h
      json q h (some j) = h

  finish-AllBacked :
      (x : Try Json × Page) → Post (λ j q. AllBacked q) AllBacked x → AllBacked (finish x)
  unfolding finish
  finish-AllBacked (returned j, p) h = fetch_swap_history-AllBacked none _ h
  finish-AllBacked (threw m, p) h = h

  try_withdraw-Post :
      (domain : Domain) (manager : Option ℕ) (token account user n : ℕ) (amount : Amount) (p : Page)
      → InHundreds amount n
      → AllBacked p
      → Post
          (λ j q. AllBacked q)
          AllBacked
          (try_withdraw domain manager token account user amount p)
  unfolding try_withdraw
  try_withdraw-Post domain manager token account user n amount p h all =
      let (is_integer, positive, hundreds) = h in
      rw is_integer (
        or_library_error-rule (λ j q. AllBacked q) AllBacked manager p _
          (λ m.
            and_then-Post (Permitted account p) (λ j q. AllBacked q) (Grown p) AllBacked _ _
              (permit_if_short-Post token account m (pos n /ℤ 100) p)
              (λ x q g.
                post_withdrawal-Post domain m account user (integer (pos n)) n x q
                  (refl, positive, hundreds) (Grown-AllBacked p q g.0 all) g.1)
              (λ q g. Grown-AllBacked p q g all))
          all)

  use_swap_withdraw_points-AllBacked :
      (user : ℕ) (amount : Amount) (p : Page)
      → AllBacked p
      → AllBacked (use_swap_withdraw_points user amount p)
  unfolding use_swap_withdraw_points
  use_swap_withdraw_points-AllBacked user amount p all =
      elim (Bool-cases ((user == 0) || not_positive amount)) [
        | inl t ↦ rw (t, use_swap_withdraw_points) all
        | inr f ↦ elim (Bool-cases (not_hundreds amount)) [
          | inl t ↦ rw (f, use_swap_withdraw_points) (rw t all)
          | inr g ↦
              rw (f, use_swap_withdraw_points)
                (rw g (
                  go b.address p.hook.eip712_domain b.bloom_token_address
                    (amount-InHundreds amount (or_false (user == 0) (not_positive amount) f).1 g)))
        ]
      ]
    where
      go :
          (a : Option ℕ) (d : Option Domain) (t : Option ℕ)
          → ((n : ℕ) × InHundreds amount n)
          → AllBacked (elim a [
            | none ↦ show_error wallet_missing p
            | some account ↦ elim d [
              | none ↦ show_error domain_missing p
              | some domain ↦ elim t [
                | none ↦ show_error token_missing p
                | some token ↦ finish (
                    try_withdraw domain b.point_manager_address token account user amount
                      (loading p))
              ]
            ]
          ])
      go none d t h = all
      go (some a) none t h = all
      go (some a) (some d) none h = all
      go (some a) (some d) (some t) (n, h) =
          finish-AllBacked _
            (try_withdraw-Post d b.point_manager_address t a user n amount (loading p) h all)

  use_swap_deposit_points-AllBacked :
      (user wallet : ℕ) (amount : Amount) (p : Page)
      → AllBacked p
      → AllBacked (use_swap_deposit_points user wallet amount p)
  unfolding use_swap_deposit_points
  use_swap_deposit_points-AllBacked user wallet amount p all =
      elim (Bool-cases ((user == 0) || ((wallet == 0) || not_positive amount))) [
        | inl t ↦ rw (t, use_swap_deposit_points) all
        | inr f ↦ elim (Bool-cases (not_hundreds amount)) [
          | inl t ↦ rw (f, use_swap_deposit_points) (rw t all)
          | inr g ↦
              let (_, f1) = or_false (user == 0) ((wallet == 0) || not_positive amount) f in
              let (_, f2) = or_false (wallet == 0) (not_positive amount) f1 in
              let body : DepositBody = record {
                user_id = user;
                wallet_address = wallet;
                amount = amount;
              } in
              rw (f, use_swap_deposit_points)
                (rw g (
                  finish-AllBacked _ (
                    and_then-Post (λ a q. AllBacked q) (λ j q. AllBacked q) AllBacked AllBacked _ _
                      (add_call-AllBacked (deposit body) (loading p)
                        (b.fetch (deposit body) p.outside) (amount-InHundreds amount f2 g) all)
                      (λ a q h. ok_body-AllBacked deposit_failed a q h) (λ q h. h))))
        ]
      ]

  fetch_contract_info-AllBacked : (p : Page) → AllBacked p → AllBacked (fetch_contract_info p)
  unfolding fetch_contract_info
  fetch_contract_info-AllBacked p all = go b.point_manager_address refl b.address refl
    where
      kept : (d : Domain) (x : Option ℕ) → AllBacked (keep_contract_info d (or_library_error x p))
      kept d none = all
      kept d (some n) = all

      found :
          (m a : ℕ) (d : Option Domain)
          → AllBacked
              (elim d [ none ↦ p | some d ↦ keep_contract_info d (read (b.read_nonce m a) p) ])
      found m a none = all
      found m a (some d) = kept d (b.read_nonce m a p.outside)

      go :
          (m : Option ℕ)
          → b.point_manager_address ≡ m
          → (a : Option ℕ) → b.address ≡ a
          → AllBacked (fetch_contract_info p)
      go none e a f = rw (e, fetch_contract_info) all
      go (some m) e none f = rw (e, fetch_contract_info) (rw f all)
      go (some m) e (some a) f =
          rw (e, fetch_contract_info) (rw f (found m a (b.read_domain m p.outside)))

  reset_state-AllBacked : (p : Page) → AllBacked p → AllBacked (reset_state p)
  unfolding reset_state
  reset_state-AllBacked p all = all

  -- Starting from a page that has made no call: after any operations of the hook, whatever the
  -- server, the chain and the wallet answer, every exchange that was posted is of a positive
  -- number of hundreds, and every withdrawal has a signature that the wallet has made for the
  -- posted wallet, amount and time limit, and, if it has a permit, a signature that the wallet
  -- has made for the owner, value and deadline of that, with the posted wallet as the owner.
  pub posted_calls-AllBacked :
      (ops : List HookOp) (p : Page) → p.calls ≡ [] → AllBacked (do_ops ops p)
  posted_calls-AllBacked ops p e = go ops p (λ c m. absurd (subst (Has c) e m))
    where
      step : (o : HookOp) (p : Page) → AllBacked p → AllBacked (do_op o p)
      step (do_deposit user wallet amount) p h =
          use_swap_deposit_points-AllBacked user wallet amount p h
      step (do_withdraw user amount) p h = use_swap_withdraw_points-AllBacked user amount p h
      step (do_fetch_history i) p h = fetch_swap_history-AllBacked i p h
      step do_fetch_contract_info p h = fetch_contract_info-AllBacked p h
      step do_reset p h = reset_state-AllBacked p h

      go : (ops : List HookOp) (p : Page) → AllBacked p → AllBacked (do_ops ops p)
      go [] p h = h
      go (o ∷ os) p h = go os (do_op o p) (step o p h)
