-- ===== src/Text/Number.antt =====
-- The C library's numbers as text: sprintf of "%d" and "%u", and atoll, atoi and strtoul of base 10.
pub mod Digits
use testcluster.Prelude.{
  ℕ, zero, suc, ◌+◌, ◌-◌, ◌*◌, ◌/◌, ◌%◌, ◌^◌, ◌<◌, ◌≤◌, ◌≡◌, refl, Bool, true, false, ◌&&◌, ◌||◌,
  List, [], ◌∷◌, ◌++◌, ltb, leb, ◌==◌, if◌then◌else◌, min, arith,
}
use testcluster.Pack.Order.{Bytes}

unfoldable pub is_digit : ℕ → Bool
is_digit c = leb 48 c && leb c 57

unfoldable pub is_space : ℕ → Bool
is_space c = (c == 32) || (leb 9 c && leb c 13)

-- The value of the digits that a text starts with, behind a value.
unfoldable pub digits_value : ℕ → Bytes → ℕ
digits_value value [] = value
digits_value value (c ∷ rest) =
    let more = digits_value (value * 10 + (c - 48)) rest in if is_digit c then more else value

unfoldable pub skip_space : Bytes → Bytes
skip_space [] = []
skip_space (c ∷ rest) = let behind = skip_space rest in if is_space c then behind else (c ∷ rest)

-- Is there a minus sign, and the value behind the sign.
unfoldable pub sign_and_value : Bytes → Bool × ℕ
sign_and_value [] = (false, 0)
sign_and_value (c ∷ rest) =
    if c == 45
    then (true, digits_value 0 rest)
    else if c == 43
    then (false, digits_value 0 rest)
    else (false, digits_value 0 (c ∷ rest))

-- The bit pattern of the int64_t; a value out of range is the nearest one.
unfoldable pub atoll : Bytes → ℕ
unfolding skip_space sign_and_value digits_value is_digit is_space
atoll text =
    let (negative, value) = sign_and_value (skip_space text) in
    if negative then (2 ^ 64 - min value (2 ^ 63)) % 2 ^ 64 else min value (2 ^ 63 - 1)

-- The bit pattern of the int, which is the low half of the long.
unfoldable pub atoi : Bytes → ℕ
unfolding atoll
atoi text = atoll text % 2 ^ 32

-- A value out of range is ULONG_MAX; a minus sign negates it.
unfoldable pub strtoul : Bytes → ℕ
unfolding skip_space sign_and_value
strtoul text =
    let (negative, value) = sign_and_value (skip_space text) in
    if ltb (2 ^ 64 - 1) value
    then 2 ^ 64 - 1
    else if negative
    then (2 ^ 64 - value) % 2 ^ 64
    else value

-- The last `fuel` digits of a number, in front of `behind`.
unfoldable pub digits : ℕ → ℕ → Bytes → Bytes
digits zero n behind = behind
digits (suc fuel) n behind =
    let more = digits fuel (n / 10) ((48 + n % 10) ∷ behind) in
    if ltb n 10 then (48 + n % 10) ∷ behind else more

-- sprintf of "%u": a uint32_t has at most ten digits.
unfoldable pub print_u32 : ℕ → Bytes
unfolding digits
print_u32 n = digits 10 n []

-- sprintf of "%d", of the bit pattern of an int.
unfoldable pub print_i32 : ℕ → Bytes
unfolding print_u32
print_i32 w = if ltb w (2 ^ 31) then print_u32 w else (45 ∷ print_u32 (2 ^ 32 - w))

-- std::to_string of a long that is not negative, which has at most nineteen digits.
unfoldable pub to_string : ℕ → Bytes
unfolding digits
to_string n = digits 19 n []
