-- ===== src/Contract/Rounding.antt =====
-- The tokens that the contract (blockchain/contracts/PointManagerImpl.sol) moves for an amount of points and
-- those that the backend (backend/src/modules/point/point.service.ts) counts for it.
use native.Mathlib.Nat.{
  mod-lt, div-add-mod', div-mul-le_self, le-div_iff_mul-le, mul-le-mul_right,
  le_of_mul-le-mul_right, mul_right_comm, add-mul, le_antisymm,
}
use web3_point_exchange.Common.{
  ℕ, zero, suc, ◌+◌, ◌*◌, ◌/◌, ◌%◌, ◌≤◌, ◌<◌, ◌≡◌, refl, sym, ap, subst, ◌∙◌, pos, ◌/ℤ◌, ◌↔◌, some,
  arith,
}
use web3_point_exchange.Contract.{token_amount_of}
use web3_point_exchange.Contract.Payments.{token_amount_of-IsWorth}

at_least : (a r e : ℕ) → 0 < r → a / r * e ≤ a * e / r
at_least a r e h =
    (le-div_iff_mul-le h).1 (
      subst (λ x. x ≤ a * e) (mul_right_comm (a / r) r e)
        (mul-le-mul_right e (div-mul-le_self a r)))

no_more : (x : ℕ) → x + 1 ≤ x → ⊥
no_more x h = omega arith

not_below : (x y : ℕ) → (y ≤ x → ⊥) → x < y
not_below x y h = ground arith

below_next : (a r e : ℕ) → 0 < r → 0 < e → a * e / r < (a / r + 1) * e
below_next a r e h g = not_below (a * e / r) ((a / r + 1) * e) (λ q.
    let k = (le-div_iff_mul-le h).0 q in
    let l : (a / r + 1) * r ≤ a =
      le_of_mul-le-mul_right (subst (λ x. x ≤ a * e) (mul_right_comm (a / r + 1) e r) k) g in
    no_more (a / r) ((le-div_iff_mul-le h).1 l))

-- A product of a sum of quotient and rest.
spread : (a r e : ℕ) → a * e ≡ a / r * e * r + a % r * e
spread a r e =
    ap (λ x. x * e) (sym (div-add-mod' a r))
    ∙ add-mul (a / r * r) (a % r) e
    ∙ ap (λ x. x + a % r * e) (mul_right_comm (a / r) r e)

whole : (a r e : ℕ) → a % r ≡ 0 → 0 < r → a * e / r ≤ a / r * e
whole a r e z h =
    let same : a * e ≡ a / r * e * r =
      spread a r e ∙ ap (λ x. a / r * e * r + x * e) z ∙ (omega arith) in
    le_of_mul-le-mul_right (subst (λ x. a * e / r * r ≤ x) same (div-mul-le_self (a * e) r)) h

no_rest : (m e k : ℕ) → m * e ≡ k → k < e → m ≡ 0
no_rest zero e k p h = refl
no_rest (suc m) e k p h =
    let least = mul-le-mul_right {m = 1} {n = suc m} e (omega arith) in absurd (omega arith)

cancel : (x y z : ℕ) → x + y ≡ x + z → y ≡ z
cancel x y z h = omega arith

only_whole : (a r e : ℕ) → 0 < r → r ≤ e → a * e / r ≡ a / r * e → a % r ≡ 0
only_whole a r e h g q =
    let rest : a / r * e * r + a % r * e ≡ a / r * e * r + a * e % r =
      sym (spread a r e) ∙ sym (div-add-mod' (a * e) r) ∙ ap (λ x. x * r + a * e % r) q in
    let small : a * e % r < r = mod-lt (a * e) h in
    no_rest (a % r) e (a * e % r) (cancel _ _ _ rest) (before (a * e % r) r e small g)
  where
    before : (x y z : ℕ) → x < y → y ≤ z → x < z
    before x y z p q = omega arith

-- The contract and the backend count the tokens for an amount of points at a rate that is at
-- most 10^18. When the contract has a number of wei for the amount, the backend has k whole
-- tokens; the wei are at least those of k tokens and fewer than those of k + 1, and they are
-- those of k tokens exactly when the rate divides the amount.
pub token_amount_of-Rounding :
    (amount rate n : ℕ)
    → rate ≤ 1000000000000000000
    → token_amount_of amount rate ≡ some n
    → (k : ℕ) × (pos amount /ℤ rate ≡ pos k)
      × (k * 1000000000000000000 ≤ n)
      × (n < (k + 1) * 1000000000000000000)
      × ((n ≡ k * 1000000000000000000) ↔ (amount % rate ≡ 0))
unfolding ◌/ℤ◌
token_amount_of-Rounding amount rate n small e =
    let wei : ℕ = 1000000000000000000 in
    let (_, positive, q) = token_amount_of-IsWorth amount rate n e in
    let low = at_least amount rate wei positive in
    (
      amount / rate,
      refl,
      subst (λ x. amount / rate * wei ≤ x) (sym q) low,
      subst (λ x. x < (amount / rate + 1) * wei) (sym q)
          (below_next amount rate wei positive (omega arith)),
      (
        λ h. only_whole amount rate wei positive small (sym q ∙ h),
        λ z. q ∙ le_antisymm (whole amount rate wei z positive) low,
      ),
    )
