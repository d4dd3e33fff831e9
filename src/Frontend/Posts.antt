-- ===== src/Frontend/Posts.antt =====
-- The two signatures and the request of `withdrawPoints`.
use web3_point_exchange.Common.{
  ℕ, ℤ, pos, refl, sym, subst, inl, inr, Option, none, some, [], ◌∷◌, ◌++◌, Has, Has-split, ltb_ℤ,
  Bool-cases,
}
use web3_point_exchange.Frontend.Web.{
  Amount, Domain, permit, withdraw_point, PermitBody, WithdrawBody, HttpCall, withdraw, Json,
  Answer, Browser,
}
use web3_point_exchange.Frontend.Hooks.{
  Page, fetched, SwapError, ok_body, permit_cancelled, withdraw_cancelled, or_library_error,
  withdraw_failed,
}
use web3_point_exchange.Frontend.Swap.{
  request_permit, permit_if_short, post_withdrawal, in_ten_minutes,
}
use web3_point_exchange.Frontend.Backed.{
  InHundreds, PermitBacked, Backed, PermitBacked-later, Post, and_then-Post, AllBacked, Grown,
  Grown-AllBacked, or_library_error-rule, signed-Post, Permitted, Grown-refl,
}

module _ ⦃b : Browser⦄ where
  pub request_permit-Post :
      (token account manager : ℕ) (p : Page)
      → Post
          (λ x q. Permitted account p (some x) q)
          (Grown p)
          (request_permit token account manager p)
  unfolding request_permit
  request_permit-Post token account manager p =
      or_library_error-rule _ (Grown p) (b.read_domain token p.outside) p _
        (λ domain.
          or_library_error-rule _ (Grown p) (b.read_nonce token account p.outside) p _
            (λ nonce.
              let d = permit domain (record {
                owner = account;
                spender = manager;
                value = b.parse_ether 10000000;
                nonce = nonce;
                deadline = in_ten_minutes p;
              }) in
              and_then-Post (λ s q. Grown p q × Has (d, s) q.signed) _ (Grown p) (Grown p) _ _
                (signed-Post permit_cancelled d p)
                (λ s q h. (h.0, (domain, manager, nonce, refl, h.1))) (λ q h. h))
            (Grown-refl p))
        (Grown-refl p)

  pub permit_if_short-Post :
      (token account manager : ℕ) (required : ℤ) (p : Page)
      → Post (Permitted account p) (Grown p) (permit_if_short token account manager required p)
  unfolding permit_if_short
  permit_if_short-Post token account manager required p =
      or_library_error-rule _ (Grown p) (b.read_allowance token account manager p.outside) p _
        (λ allowance. elim (Bool-cases (ltb_ℤ (pos allowance) required)) [
          | inl t ↦ rw t (
              and_then-Post (λ x q. Permitted account p (some x) q) (Permitted account p) (Grown p)
                (Grown p) (request_permit token account manager p) _
                (request_permit-Post token account manager p) (λ x q h. h) (λ q h. h))
          | inr f ↦ rw f (Grown-refl p, tt)
        ])
        (Grown-refl p)

  pub add_call-AllBacked :
      (c : HttpCall) (p : Page) (x : Option Answer × b.Outside)
      → Backed p.signed c
      → AllBacked p
      → Post (λ a q. AllBacked q) AllBacked (fetched c p x)
  add_call-AllBacked c p x h all = go x
    where
      added : (k : HttpCall) → Has k (p.calls ++ (c ∷ [])) → Backed p.signed k
      added k m = elim (Has-split k p.calls (c ∷ []) m) [
        | inl n ↦ all k n
        | inr (inl e) ↦ subst (Backed p.signed) (sym e) h
        | inr (inr n) ↦ absurd n
      ]

      go : (x : Option Answer × b.Outside) → Post (λ a q. AllBacked q) AllBacked (fetched c p x)
      go (none, o) = added
      go (some a, o) = added

  pub ok_body-AllBacked :
      (m : SwapError) (a : Answer) (p : Page)
      → AllBacked p
      → Post (λ j q. AllBacked q) AllBacked (ok_body m a p)
  unfolding ok_body
  ok_body-AllBacked m a p all = elim (Bool-cases a.is_ok) [
    | inl t ↦ rw t (go a.json)
    | inr f ↦ rw f (or_library_error-rule (λ j q. AllBacked q) AllBacked a.json p _ (λ j. all) all)
  ]
    where
      go : (j : Option Json) → Post (λ k q. AllBacked q) AllBacked (or_library_error j p)
      go none = all
      go (some j) = all

  pub post_withdrawal-Post :
      (domain : Domain) (manager account user : ℕ) (amount : Amount) (n : ℕ) (x : Option PermitBody)
      (p : Page)
      → InHundreds amount n
      → AllBacked p
      → PermitBacked p.signed account x
      → Post
          (λ j q. AllBacked q)
          AllBacked
          (post_withdrawal domain manager account user amount (pos n) x p)
  unfolding post_withdrawal
  post_withdrawal-Post domain manager account user amount n x p h all pb =
      or_library_error-rule _ AllBacked (b.read_nonce manager account p.outside) p _
        (λ nonce.
          let d = withdraw_point domain (record {
            account = account;
            amount = pos n;
            valid_until = in_ten_minutes p;
            nonce = nonce;
          }) in
          and_then-Post (λ s q. Grown p q × Has (d, s) q.signed) _ (Grown p) AllBacked _ _
            (signed-Post withdraw_cancelled d p)
            (λ s q g.
              let body : WithdrawBody = record {
                user_id = user;
                wallet_address = account;
                amount = amount;
                valid_until = in_ten_minutes p;
                signature = s;
                permit_data = x;
              } in
              and_then-Post (λ a r. AllBacked r) _ AllBacked AllBacked _ _
                (add_call-AllBacked (withdraw body) q (b.fetch (withdraw body) q.outside)
                  (
                    n,
                    h,
                    (domain, nonce, g.1),
                    PermitBacked-later p.signed q.signed account x g.0.1 pb,
                  )
                  (Grown-AllBacked p q g.0 all))
                (λ a r k. ok_body-AllBacked withdraw_failed a r k) (λ r k. k))
            (λ q g. Grown-AllBacked p q g all))
        all
