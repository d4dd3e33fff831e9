-- ===== src/Gateway/Texts.antt =====
-- `parseInt` and `BigInt` of a text, as JavaScript has them.
use web3_point_exchange.Common.{
  ℕ, zero, suc, ◌+◌, ◌*◌, ltb, ◌==◌, Bool, false, ◌&&◌, ℤ, pos, negsuc, if◌then◌else◌, Option, none,
  some, List, [], ◌∷◌,
}

-- A character: white space, a sign, one that stands for `v` in base 36 (a decimal digit, or a letter
-- in either case), or another.
pub data Char : Type 0 where
  blank plus minus : Char
  alnum : ℕ → Char
  symbol : ℕ → Char

abbrev pub skip_blanks : List Char → List Char
skip_blanks [] = []
skip_blanks (blank ∷ t) = skip_blanks t
skip_blanks (plus ∷ t) = plus ∷ t
skip_blanks (minus ∷ t) = minus ∷ t
skip_blanks (alnum v ∷ t) = alnum v ∷ t
skip_blanks (symbol n ∷ t) = symbol n ∷ t

-- A blank before nothing but blanks is dropped.
abbrev pub blank_before : List Char → List Char
blank_before [] = []
blank_before (c ∷ t) = blank ∷ c ∷ t

abbrev pub trim_end : List Char → List Char
trim_end [] = []
trim_end (blank ∷ t) = blank_before (trim_end t)
trim_end (plus ∷ t) = plus ∷ trim_end t
trim_end (minus ∷ t) = minus ∷ trim_end t
trim_end (alnum v ∷ t) = alnum v ∷ trim_end t
trim_end (symbol n ∷ t) = symbol n ∷ trim_end t

abbrev pub trim : List Char → List Char
trim t = trim_end (skip_blanks t)

-- The digit that a character is in a radix.
abbrev pub digit : ℕ → Char → Option ℕ
digit r blank = none
digit r plus = none
digit r minus = none
digit r (alnum v) = if ltb v r then some v else none
digit r (symbol n) = none

abbrev pub is_alnum : ℕ → Char → Bool
is_alnum v blank = false
is_alnum v plus = false
is_alnum v minus = false
is_alnum v (alnum u) = u == v
is_alnum v (symbol n) = false

-- What follows `0x`, `0o` or `0b`, by the value of the letter.
abbrev pub after_mark : ℕ → List Char → Option (List Char)
after_mark v [] = none
after_mark v (c ∷ []) = none
after_mark v (c ∷ d ∷ t) = if is_alnum 0 c && is_alnum v d then some t else none

abbrev pub value : ℕ → ℕ → List ℕ → ℕ
value r n [] = n
value r n (d ∷ ds) = value r (n * r + d) ds

-- The digits that a text starts with.
abbrev pub digit_prefix : ℕ → List Char → List ℕ
digit_prefix r [] = []
digit_prefix r (c ∷ t) =
    let rest = digit_prefix r t in elim (digit r c) [ none ↦ [] | some d ↦ d ∷ rest ]

-- The digits of a text, when it is nothing but digits.
abbrev pub all_digits : ℕ → List Char → Option (List ℕ)
all_digits r [] = some []
all_digits r (c ∷ t) =
    let rest = all_digits r t in
    elim (digit r c) [ none ↦ none | some d ↦ elim rest [ none ↦ none | some ds ↦ some (d ∷ ds) ] ]

-- A number needs a digit.
abbrev pub number_of : ℕ → List ℕ → Option ℕ
number_of r [] = none
number_of r (d ∷ ds) = some (value r 0 (d ∷ ds))

abbrev pub minus_of : ℕ → ℤ
minus_of zero = pos 0
minus_of (suc n) = negsuc n

abbrev pub map_option_int : (ℕ → ℤ) → Option ℕ → Option ℤ
map_option_int f none = none
map_option_int f (some n) = some (f n)

abbrev pub parse_unsigned : List Char → Option ℕ
parse_unsigned t = elim (after_mark 33 t) [
  | none ↦ number_of 10 (digit_prefix 10 t)
  | some u ↦ number_of 16 (digit_prefix 16 u)
]

abbrev pub parse_signed : List Char → Option ℤ
parse_signed [] = none
parse_signed (blank ∷ t) = none
parse_signed (plus ∷ t) = map_option_int pos (parse_unsigned t)
parse_signed (minus ∷ t) = map_option_int minus_of (parse_unsigned t)
parse_signed (alnum v ∷ t) = map_option_int pos (parse_unsigned (alnum v ∷ t))
parse_signed (symbol n ∷ t) = none

-- `parseInt(text)`, `none` when it is NaN. The number is exact: the code reads only its sign, which
-- rounding keeps, and the small ids of points.
unfoldable pub parse_int : List Char → Option ℤ
parse_int t = parse_signed (skip_blanks t)

abbrev pub whole_number : ℕ → List Char → Option ℕ
whole_number r t = elim (all_digits r t) [ none ↦ none | some ds ↦ number_of r ds ]

-- `0x`, `0o` and `0b` take no sign.
abbrev pub unsigned_big_int : List Char → Option ℕ
unsigned_big_int t = elim (after_mark 33 t) [
  | some u ↦ whole_number 16 u
  | none ↦ elim (after_mark 24 t) [
    | some u ↦ whole_number 8 u
    | none ↦ elim (after_mark 11 t) [ some u ↦ whole_number 2 u | none ↦ whole_number 10 t ]
  ]
]

abbrev pub signed_big_int : List Char → Option ℤ
signed_big_int [] = some (pos 0)
signed_big_int (blank ∷ t) = none
signed_big_int (plus ∷ t) = map_option_int pos (whole_number 10 t)
signed_big_int (minus ∷ t) = map_option_int minus_of (whole_number 10 t)
signed_big_int (alnum v ∷ t) = map_option_int pos (unsigned_big_int (alnum v ∷ t))
signed_big_int (symbol n ∷ t) = none

-- `BigInt(text)`, `none` when it throws.
unfoldable pub big_int_of : List Char → Option ℤ
big_int_of t = signed_big_int (trim t)
