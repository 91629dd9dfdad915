-- ===== src/Address/Number.antt =====
-- JavaScript's `Number(s)` on a text, as far as auth/cidr.ts uses it: its callers refuse whatever is
-- not a whole number from 0 to 255, so the answer is that number or none.
use gatehouse.Common.{
  ℕ, ◌+◌, ◌-◌, ◌*◌, ◌/◌, ◌^◌, Text, trim, length, Bool, true, false, not, ◌&&◌, ◌||◌, Option, none,
  some, [], ◌∷◌, ◌++◌, ltb, leb, ◌==◌, if◌then◌else◌, is_digit, digits_value,
}

-- The value of a hexadecimal digit of either case, 16 and above for anything else.
unfoldable pub digit_of : ℕ → ℕ
digit_of c =
    if is_digit c
    then c - b'0'
    else if leb b'a' c && leb c b'f'
    then c - b'a' + 10
    else if leb b'A' c && leb c b'F'
    then c - b'A' + 10
    else 16

unfoldable pub radix_value : ℕ → ℕ → Text → Option ℕ
radix_value radix acc [] = some acc
radix_value radix acc (c ∷ s) =
    let rest = radix_value radix (acc * radix + digit_of c) s in
    if ltb (digit_of c) radix then rest else none

-- The leading digits of a text, and what follows them.
unfoldable pub digits_run : Text → Text × Text
digits_run [] = ([], [])
digits_run (c ∷ s) =
    let (ds, rest) = digits_run s in if is_digit c then (c ∷ ds, rest) else ([], c ∷ s)

-- The exponent part: its sign, true for minus, and its digits.
abbrev exponent_digits : Bool → Text → Option (Bool × ℕ)
exponent_digits minus [] = none
exponent_digits minus (d ∷ ds) = elim (digits_value 0 (d ∷ ds)) [
  | none ↦ none
  | some n ↦ some (minus, n)
]

abbrev exponent_sign : Text → Option (Bool × ℕ)
exponent_sign [] = none
exponent_sign (c ∷ s) =
    if c == b'-'
    then exponent_digits true s
    else if c == b'+'
    then exponent_digits false s
    else exponent_digits false (c ∷ s)

unfoldable pub exponent : Text → Option (Bool × ℕ)
exponent [] = some (false, 0)
exponent (c ∷ s) = if c == b'e' || c == b'E' then exponent_sign s else none

abbrev log2 : ℕ → ℕ
log2 n =
    if ltb n 2
    then 0
    else if ltb n 4
    then 1
    else if ltb n 8
    then 2
    else if ltb n 16
    then 3
    else if ltb n 32
    then 4
    else if ltb n 64
    then 5
    else if ltb n 128
    then 6
    else 7

-- Half the distance from a whole number up to 255 to the next double, in units of 2 ^ -1075.
abbrev half_gap : Bool → ℕ → ℕ
half_gap above n =
    if n == 0
    then 1
    else if not above && (2 ^ log2 n == n)
    then 2 ^ (1021 + log2 n)
    else 2 ^ (1022 + log2 n)

-- The double nearest to `num / den`, if it is a whole number up to 255. A tie goes to the whole
-- number, whose last bit is even.
unfoldable pub nearest_whole : ℕ → ℕ → Option ℕ
nearest_whole num den =
    let n = (2 * num + den) / (2 * den) in
    let off = num - n * den + (n * den - num) in
    if leb n 255 && leb (off * 2 ^ 1075) (half_gap (leb (n * den) num) n * den)
    then some n
    else none

-- Below zero only what rounds to -0 is a whole number that is not negative.
abbrev signed : Bool → Option ℕ → Option ℕ
signed minus none = none
signed minus (some n) = if minus && not (n == 0) then none else some n

unfoldable pub decimal_parts : Bool → Text → Text → Text → Option ℕ
unfolding exponent nearest_whole
decimal_parts minus whole fraction rest = elim (whole ++ fraction) [
  | [] ↦ none
  | d ∷ ds ↦ elim (digits_value 0 (d ∷ ds)) [
    | none ↦ none
    | some m ↦ elim (exponent rest) [
      | none ↦ none
      | some (true, e) ↦ signed minus (nearest_whole m (10 ^ (length fraction + e)))
      | some (false, e) ↦ signed minus (nearest_whole (m * 10 ^ e) (10 ^ length fraction))
    ]
  ]
]

unfoldable pub unsigned_decimal : Bool → Text → Option ℕ
unfolding digits_run decimal_parts
unsigned_decimal minus s =
    let (whole, rest) = digits_run s in
    elim rest [
      | [] ↦ decimal_parts minus whole [] []
      | c ∷ after ↦
          if c == b'.'
          then (let (fraction, rest') = digits_run after in
              decimal_parts minus whole fraction rest')
          else decimal_parts minus whole [] (c ∷ after)
    ]

abbrev decimal : Text → Option ℕ
unfolding unsigned_decimal
decimal [] = some 0
decimal (c ∷ s) =
    if c == b'-'
    then unsigned_decimal true s
    else if c == b'+'
    then unsigned_decimal false s
    else unsigned_decimal false (c ∷ s)

abbrev up_to_255 : Option ℕ → Option ℕ
up_to_255 none = none
up_to_255 (some n) = if leb n 255 then some n else none

-- `0x`, `0o` and `0b` with at least one digit.
abbrev radix_of : ℕ → ℕ
radix_of c =
    if c == b'x' || c == b'X'
    then 16
    else if c == b'o' || c == b'O'
    then 8
    else if c == b'b' || c == b'B'
    then 2
    else 0

unfoldable pub number_literal : Text → Option ℕ
unfolding radix_value decimal
number_literal (z ∷ r ∷ d ∷ ds) =
    if z == b'0' && not (radix_of r == 0)
    then up_to_255 (radix_value (radix_of r) 0 (d ∷ ds))
    else decimal (z ∷ r ∷ d ∷ ds)
number_literal s = decimal s

-- `Number(s)`, if it is a whole number from 0 to 255. The empty text is 0.
unfoldable pub number_up_to_255 : Text → Option ℕ
unfolding number_literal
number_up_to_255 s = number_literal (trim s)
