-- ===== src/Gateway/Amounts.antt =====
-- What `BigInt` reads of the amounts that `parseInt` does not find to be zero or less.
use web3_point_exchange.Common.{
  ℕ, zero, suc, ◌≡◌, ◌≢◌, refl, sym, ap, ◌∙◌, inl, inr, true, false, ltb, if◌then◌else◌, ℤ, pos,
  negsuc, Option, none, some, List, [], ◌∷◌, Bool-cases, Option-cases, arith,
}
use web3_point_exchange.Gateway.Texts.{
  Char, blank, plus, minus, alnum, symbol, skip_blanks, blank_before, trim_end, value, after_mark,
  digit_prefix, all_digits, minus_of, map_option_int, parse_unsigned, parse_signed, parse_int,
  whole_number, unsigned_big_int, signed_big_int, big_int_of,
}
use web3_point_exchange.Gateway.Routes.{
  BodyField, missing, text, whole, at_most_zero, parse_field, amount_refusal, amount_not_positive,
}

-- `BigInt(field)`, `none` when it throws.
abbrev pub big_int_field : BodyField → Option ℤ
big_int_field missing = none
big_int_field (text t) = big_int_of t
big_int_field (whole i) = some i

none_not {ℓ} : {A : Type ℓ} {a : A} → none ≢ some a
none_not e = cc

pub some_not {ℓ} : {A : Type ℓ} {a : A} → some a ≢ none
some_not e = cc

-- `0x` does not start a number of decimal digits.
after_mark-digits :
    (v : ℕ) (u : List Char) (ds : List ℕ)
    → all_digits 10 (trim_end u) ≡ some ds
    → after_mark 33 (alnum v ∷ u) ≡ none
after_mark-digits v [] ds h = refl
after_mark-digits v (blank ∷ u) ds h = ground arith
after_mark-digits v (plus ∷ u) ds h = ground arith
after_mark-digits v (minus ∷ u) ds h = ground arith
after_mark-digits v (symbol n ∷ u) ds h = ground arith
after_mark-digits v (alnum d ∷ u) ds h = ground arith

blank_before-none : (t : List Char) → whole_number 10 (blank_before t) ≡ none
blank_before-none [] = refl
blank_before-none (c ∷ t) = refl

no_digit-none : (v : ℕ) (t : List Char) → ltb v 10 ≡ false → whole_number 10 (alnum v ∷ t) ≡ none
no_digit-none v t e = rw (whole_number, e) refl

-- A text of decimal digits is a number for `parseInt` too, whatever blanks follow.
parse-digits :
    (u : List Char) (k : ℕ)
    → whole_number 10 (trim_end u) ≡ some k
    → (m : ℕ) × (parse_unsigned u ≡ some m)
parse-digits [] k h = cc
parse-digits (blank ∷ u) k h = absurd (none_not (sym (blank_before-none (trim_end u)) ∙ h))
parse-digits (plus ∷ u) k h = cc
parse-digits (minus ∷ u) k h = cc
parse-digits (symbol n ∷ u) k h = cc
parse-digits (alnum v ∷ u) k h = elim (Option-cases (all_digits 10 (trim_end u))) [
  | inl e ↦ ground (arith, e)
  | inr (ds, e) ↦ elim (Bool-cases (ltb v 10)) [
    | inl f ↦ (
      value 10 0 (v ∷ digit_prefix 10 u),
      rw (parse_unsigned, after_mark-digits v u ds e, digit_prefix, f) refl,
    )
    | inr f ↦ absurd (none_not (sym (no_digit-none v (trim_end u) f) ∙ h))
  ]
]

positive-NotNegative : (o : Option ℕ) (n : ℕ) → map_option_int pos o ≢ some (negsuc n)
positive-NotNegative none n h = cc
positive-NotNegative (some k) n h = cc

minus-AtMostZero : (m : ℕ) → at_most_zero (some (minus_of m)) ≡ true
minus-AtMostZero zero = refl
minus-AtMostZero (suc m) = refl

negative_trimmed :
    (u : List Char) (n : ℕ)
    → signed_big_int (trim_end u) ≡ some (negsuc n)
    → at_most_zero (parse_signed u) ≡ true
negative_trimmed [] n h = cc
negative_trimmed (blank ∷ u) n h = ground arith
negative_trimmed (plus ∷ u) n h = absurd (positive-NotNegative (whole_number 10 (trim_end u)) n h)
negative_trimmed (symbol c ∷ u) n h = cc
negative_trimmed (alnum v ∷ u) n h =
    absurd (positive-NotNegative (unsigned_big_int (alnum v ∷ trim_end u)) n h)
negative_trimmed (minus ∷ u) n h = elim (Option-cases (whole_number 10 (trim_end u))) [
  | inl e ↦ absurd (none_not (sym (ap (map_option_int minus_of) e) ∙ h))
  | inr (k, e) ↦ let (m, f) = parse-digits u k e in rw f (minus-AtMostZero m)
]

-- An amount that `BigInt` reads as negative is refused.
pub negative_refused :
    (f : BodyField) (n : ℕ)
    → big_int_field f ≡ some (negsuc n)
    → at_most_zero (parse_field f) ≡ true
unfolding big_int_of parse_int
negative_refused missing n h = cc
negative_refused (text t) n h = negative_trimmed (skip_blanks t) n h
negative_refused (whole i) n h = ap (λ o. at_most_zero o) h

-- `BigInt` reads no negative number.
abbrev pub NotNegative : BodyField → Type 0
NotNegative f = (n : ℕ) → big_int_field f ≢ some (negsuc n)

pub amount_refusal-NotNegative : (f : BodyField) → amount_refusal f ≡ none → NotNegative f
amount_refusal-NotNegative f h n e = absurd (
    some_not
      (sym (ap (λ b. if b then some amount_not_positive else none) (negative_refused f n e)) ∙ h))
