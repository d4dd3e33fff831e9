-- ===== src/Frontend/Backed.antt =====
-- When an exchange that `useSwap` posts is backed by a signature, and rules for the methods of the hook.
use web3_point_exchange.Common.{
  ℕ, zero, suc, ◌<◌, ◌%◌, pos, negsuc, ◌≡◌, refl, subst, inl, inr, Bool, true, false, ◌||◌, Option,
  none, some, List, Has, Has-left, Has-right, ◌==◌, arith, Bool-cases,
}
use web3_point_exchange.Frontend.Web.{
  Amount, integer, fraction, infinity, nan, not_positive, not_hundreds, Domain, TypedData, permit,
  withdraw_point, PermitBody, HttpCall, deposit, withdraw, histories, WalletReply, signature,
  user_rejected, wallet_failed, Browser,
}
use web3_point_exchange.Frontend.Hooks.{
  Page, Try, returned, threw, Run, and_then, SwapError, wallet_answer, or_library_error,
}
use web3_point_exchange.Frontend.Swap.{sign_eip712, or_cancelled}

abbrev pub Signatures : Type 0
Signatures = List (TypedData × ℕ)

-- A positive number of hundreds.
abbrev pub InHundreds : Amount → ℕ → Type 0
InHundreds a n = (a ≡ integer (pos n)) × (0 < n) × (n % 100 ≡ 0)

-- The owner has signed the permit.
abbrev pub PermitBacked : Signatures → ℕ → Option PermitBody → Type 0
PermitBacked sg account none = Unit
PermitBacked sg account (some x) =
    (domain : Domain) × (spender nonce : ℕ) × (x.owner ≡ account)
    × Has
        (
          permit domain (record {
            owner = x.owner;
            spender = spender;
            value = x.value;
            nonce = nonce;
            deadline = x.deadline;
          }),
          x.signature,
        )
        sg

-- The amount of an exchange is a positive number of hundreds, and the wallet of a withdrawal has
-- signed its amount and its time limit.
abbrev pub Backed : Signatures → HttpCall → Type 0
Backed sg (deposit d) = (n : ℕ) × InHundreds d.amount n
Backed sg (withdraw w) =
    (n : ℕ) × InHundreds w.amount n
    × ((domain : Domain) × (nonce : ℕ) × Has
          (
            withdraw_point domain (record {
              account = w.wallet_address;
              amount = pos n;
              valid_until = w.valid_until;
              nonce = nonce;
            }),
            w.signature,
          )
          sg)
    × PermitBacked sg w.wallet_address w.permit_data
Backed sg (histories i) = Unit

abbrev pub Within : Signatures → Signatures → Type 0
Within sg sg' = (e : TypedData × ℕ) → Has e sg → Has e sg'

pub PermitBacked-later :
    (sg sg' : Signatures) (a : ℕ) (x : Option PermitBody)
    → Within sg sg'
    → PermitBacked sg a x
    → PermitBacked sg' a x
PermitBacked-later sg sg' a none w h = tt
PermitBacked-later sg sg' a (some x) w (d, s, n, e, m) = (d, s, n, e, w _ m)

pub Backed-later : (sg sg' : Signatures) (c : HttpCall) → Within sg sg' → Backed sg c → Backed sg' c
Backed-later sg sg' (deposit d) w h = h
Backed-later sg sg' (withdraw x) w (n, h, (d, k, m), q) =
    (n, h, (d, k, w _ m), PermitBacked-later sg sg' x.wallet_address x.permit_data w q)
Backed-later sg sg' (histories i) w h = tt

pub amount-InHundreds :
    (a : Amount) → not_positive a ≡ false → not_hundreds a ≡ false → (n : ℕ) × InHundreds a n
amount-InHundreds (integer (pos zero)) p h = cc
amount-InHundreds (integer (pos (suc n))) p h = (suc n, (refl, omega arith, ground arith))
amount-InHundreds (integer (negsuc n)) p h = cc
amount-InHundreds (fraction p) q h = cc
amount-InHundreds (infinity p) q h = cc
amount-InHundreds nan q h = cc

pub or_false : (a c : Bool) → (a || c) ≡ false → (a ≡ false) × (c ≡ false)
or_false true c h = cc
or_false false c h = (refl, h)

module _ ⦃b : Browser⦄ where
  -- What holds of the outcome: `Q` of a value and the page, `E` of the page after a throw.
  abbrev pub Post : {A : Type 0} → (A → Page → Type 0) → (Page → Type 0) → Try A × Page → Type 0
  Post Q E (returned a, p) = Q a p
  Post Q E (threw m, p) = E p

  pub and_then-Post :
      {A B : Type 0} (Q : A → Page → Type 0) (R : B → Page → Type 0) (E F : Page → Type 0)
      (x : Try A × Page) (f : A → Run B)
      → Post Q E x
      → ((a : A) (p : Page) → Q a p → Post R F (f a p))
      → ((p : Page) → E p → F p)
      → Post R F (and_then x f)
  and_then-Post Q R E F (returned a, p) f h k g = k a p h
  and_then-Post Q R E F (threw m, p) f h k g = g p h

  abbrev pub AllBacked : Page → Type 0
  AllBacked p = (c : HttpCall) → Has c p.calls → Backed p.signed c

  -- No call was made, and no signature is lost.
  abbrev pub Grown : Page → Page → Type 0
  Grown p q = (q.calls ≡ p.calls) × Within p.signed q.signed

  pub Grown-AllBacked : (p q : Page) → Grown p q → AllBacked p → AllBacked q
  Grown-AllBacked p q (e, w) all c m =
      Backed-later p.signed q.signed c w (all c (subst (Has c) e m))

  -- The rest of a method after a value that may be missing.
  pub or_library_error-rule :
      {A B : Type 0} (R : B → Page → Type 0) (F : Page → Type 0) (x : Option A) (p : Page)
      (f : A → Run B)
      → ((a : A) → Post R F (f a p))
      → F p
      → Post R F (and_then (or_library_error x p) f)
  or_library_error-rule R F none p f h e = e
  or_library_error-rule R F (some a) p f h e = h a

  abbrev pub SignedFor : TypedData → Page → Option ℕ → Page → Type 0
  SignedFor d p none q = Grown p q
  SignedFor d p (some s) q = Grown p q × Has (d, s) q.signed

  pub wallet_answer-Post :
      (d : TypedData) (p : Page) (x : WalletReply × b.Outside)
      → Post (SignedFor d p) (Grown p) (wallet_answer d p x)
  wallet_answer-Post d p (signature s, o) =
      ((refl, λ e m. Has-left e p.signed _ m), Has-right (d, s) p.signed _ (inl refl))
  wallet_answer-Post d p (user_rejected, o) = (refl, λ e m. m)
  wallet_answer-Post d p (wallet_failed, o) = (refl, λ e m. m)

  pub sign_eip712-Post :
      (d : TypedData) (p : Page) → Post (SignedFor d p) (Grown p) (sign_eip712 d p)
  unfolding sign_eip712
  sign_eip712-Post d p = go b.address refl b.is_connected refl
    where
      go :
          (a : Option ℕ)
          → b.address ≡ a
          → (c : Bool) → b.is_connected ≡ c
          → Post (SignedFor d p) (Grown p) (sign_eip712 d p)
      go none e c f = rw (e, sign_eip712) (refl, λ x m. m)
      go (some a) e true f =
          rw (e, sign_eip712) (rw f (wallet_answer-Post d p (b.sign_typed_data d p.outside)))
      go (some a) e false f = rw (e, sign_eip712) (rw f (refl, λ x m. m))

  pub or_cancelled-Post :
      (m : SwapError) (d : TypedData) (p q : Page) (s : Option ℕ)
      → SignedFor d p s q
      → Post (λ n r. Grown p r × Has (d, n) r.signed) (Grown p) (or_cancelled m s q)
  or_cancelled-Post m d p q none h = h
  or_cancelled-Post m d p q (some s) h = elim (Bool-cases (s == 0)) [
    | inl t ↦ rw t (h.0)
    | inr f ↦ rw f h
  ]

  -- A signature that was asked for, or an error.
  pub signed-Post :
      (m : SwapError) (d : TypedData) (p : Page)
      → Post
          (λ n r. Grown p r × Has (d, n) r.signed)
          (Grown p)
          (and_then (sign_eip712 d p) (or_cancelled m))
  signed-Post m d p =
      and_then-Post (SignedFor d p) _ (Grown p) (Grown p) (sign_eip712 d p) (or_cancelled m)
        (sign_eip712-Post d p) (λ s q h. or_cancelled-Post m d p q s h) (λ q h. h)

  -- What a permit is good for on a later page.
  abbrev pub Permitted : ℕ → Page → Option PermitBody → Page → Type 0
  Permitted account p x q = Grown p q × PermitBacked q.signed account x

  pub Grown-refl : (p : Page) → Grown p p
  Grown-refl p = (refl, λ e m. m)
