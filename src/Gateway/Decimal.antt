-- ===== src/Gateway/Decimal.antt =====
-- Numbers in URLs and JSON: `toString` of a whole number that is not negative, as JavaScript has it for
-- numbers below 10^21, and `parseInt` of it.
use web3_point_exchange.Common.{
  ℕ, zero, suc, ◌/◌, ◌%◌, ◌<◌, ◌≡◌, refl, ap, sym, subst, ◌∙◌, true, false, ltb, if◌then◌else◌, pos,
  none, some, List, [], ◌∷◌, Bool-cases, inl, inr, arith,
}
use web3_point_exchange.Gateway.Texts.{
  Char, blank, plus, minus, alnum, symbol, skip_blanks, after_mark, value, digit_prefix, number_of,
  map_option_int, parse_unsigned, parse_signed, parse_int,
}

-- The digits of `n` before a text, on fuel.
pub decimal : ℕ → ℕ → List Char → List Char
decimal zero n acc = acc
decimal (suc f) n acc =
    let rest = decimal f (n / 10) (alnum (n % 10) ∷ acc) in if ltb n 10 then alnum n ∷ acc else rest

unfoldable pub to_text : ℕ → List Char
unfolding decimal
to_text n = decimal (suc n) n []

abbrev IsDecimal : List Char → Type 0
IsDecimal [] = Unit {0}
IsDecimal (blank ∷ t) = ⊥
IsDecimal (plus ∷ t) = ⊥
IsDecimal (minus ∷ t) = ⊥
IsDecimal (alnum v ∷ t) = (v < 10) × IsDecimal t
IsDecimal (symbol n ∷ t) = ⊥

-- A text that starts with a digit, after which the digits of `acc` follow the value `n`.
abbrev Reads : ℕ → List Char → List Char → Type 0
Reads n acc t =
    (v : ℕ) × (u : List Char) × (t ≡ alnum v ∷ u)
    × IsDecimal t
    × (value 10 0 (digit_prefix 10 t) ≡ value 10 n (digit_prefix 10 acc))

digit_prefix-digit :
    (v : ℕ) (t : List Char) → v < 10 → digit_prefix 10 (alnum v ∷ t) ≡ v ∷ digit_prefix 10 t
digit_prefix-digit v t h = ground arith

below_ten : (n : ℕ) → ltb n 10 ≡ true → n < 10
below_ten n h = ground arith

tenth : (n f : ℕ) → n < suc f → ltb n 10 ≡ false → n / 10 < f
tenth n f h k = ground arith

decimal-Reads : (f n : ℕ) (acc : List Char) → n < f → IsDecimal acc → Reads n acc (decimal f n acc)
unfolding decimal
decimal-Reads zero n acc h d = elim h [ ]
decimal-Reads (suc f) n acc h d = elim (Bool-cases (ltb n 10)) [
  | inl small ↦
      let h9 = below_ten n small in
      rw small (
        n,
        acc,
        refl,
        (h9, d),
        ap (value 10 0) (digit_prefix-digit n acc h9)
            ∙ ap (λ x. value 10 x (digit_prefix 10 acc)) (omega arith),
      )
  | inr big ↦
      let (v, u, e, k, q) =
        decimal-Reads f (n / 10) (alnum (n % 10) ∷ acc) (tenth n f h big) (omega arith, d) in
      rw big (
        v,
        u,
        e,
        k,
        q
            ∙ ap (value 10 (n / 10)) (digit_prefix-digit (n % 10) acc (omega arith))
            ∙ ap (λ x. value 10 x (digit_prefix 10 acc)) (omega arith),
      )
]

-- Decimal digits do not start with `0x`.
after_mark-decimal : (t : List Char) → IsDecimal t → after_mark 33 t ≡ none
after_mark-decimal [] d = refl
after_mark-decimal (blank ∷ t) d = absurd d
after_mark-decimal (plus ∷ t) d = absurd d
after_mark-decimal (minus ∷ t) d = absurd d
after_mark-decimal (symbol n ∷ t) d = absurd d
after_mark-decimal (alnum v ∷ []) d = refl
after_mark-decimal (alnum v ∷ blank ∷ t) (h, d) = absurd d
after_mark-decimal (alnum v ∷ plus ∷ t) (h, d) = absurd d
after_mark-decimal (alnum v ∷ minus ∷ t) (h, d) = absurd d
after_mark-decimal (alnum v ∷ symbol n ∷ t) (h, d) = absurd d
after_mark-decimal (alnum v ∷ alnum u ∷ t) (h, (k, d)) = ground arith

parse-digits_head :
    (n v : ℕ) (u : List Char)
    → IsDecimal (alnum v ∷ u)
    → value 10 0 (digit_prefix 10 (alnum v ∷ u)) ≡ n
    → parse_signed (alnum v ∷ u) ≡ some (pos n)
parse-digits_head n v u (h, d) q =
    let p = digit_prefix-digit v u h in
    let read : parse_unsigned (alnum v ∷ u) ≡ some n =
      rw (parse_unsigned, after_mark-decimal (alnum v ∷ u) (h, d))
        (ap (number_of 10) p ∙ ap (λ x. some x) (sym (ap (value 10 0) p) ∙ q)) in
    ap (map_option_int pos) read

parse-decimal : (n : ℕ) (t : List Char) → Reads n [] t → parse_signed (skip_blanks t) ≡ some (pos n)
parse-decimal n t (v, u, e, d, q) =
    ap (λ x. parse_signed (skip_blanks x)) e
    ∙ parse-digits_head n v u (subst IsDecimal e d)
        (sym (ap (λ x. value 10 0 (digit_prefix 10 x)) e) ∙ q)

-- `parseInt` reads back the text of a number.
pub parse_int-to_text : (n : ℕ) → parse_int (to_text n) ≡ some (pos n)
unfolding parse_int to_text
parse_int-to_text n = parse-decimal n (to_text n) (decimal-Reads (suc n) n [] (omega arith) tt)
