-- ===== src/Text/Number/Digits.antt =====
-- Numbers as digits: what sprintf prints, atoll and strtoul read.
use testcluster.Prelude.{
  ℕ, zero, suc, ◌+◌, ◌-◌, ◌*◌, ◌/◌, ◌%◌, ◌^◌, ◌<◌, ◌≤◌, ◌≡◌, true, false, Bool-cases, inl, inr, [],
  ◌∷◌, ltb, leb, ltb_of_le, ==_of_ne, length, ◌&&◌, arith,
}
use native.Mathlib.Numerals.{unary_clauses}
use testcluster.Pack.Order.{Bytes}
use testcluster.Text.Number.{
  is_digit, is_space, digits_value, skip_space, sign_and_value, strtoul, digits, print_u32,
}
use testcluster.Text.Divide.{Lacks}

digit_value :
    (n value total : ℕ) (rest : Bytes)
    → n < 10
    → total ≡ value * 10 + n
    → digits_value value ((48 + n) ∷ rest) ≡ digits_value total rest
unfolding digits_value is_digit
digit_value n value total rest small e =
    let same : value * 10 + (48 + n - 48) ≡ total = omega arith in
    let digit : (leb 48 (48 + n) && leb (48 + n) 57) ≡ true = ground arith in rw (digit, same)

power_step : (fuel : ℕ) → 10 ^ suc fuel ≡ 10 * 10 ^ fuel
power_step fuel = simp unary_clauses (omega arith)

power_pos : (k : ℕ) → 1 ≤ 10 ^ k
power_pos zero = omega arith
power_pos (suc k) = let step = power_step k in let more = power_pos k in omega arith

tenth : (n fuel : ℕ) → n < 10 ^ suc fuel → n / 10 < 10 ^ fuel
tenth n fuel small = let e = power_step fuel in omega arith

tenth_le : (n fuel : ℕ) → 10 ^ suc fuel ≤ n → 10 ^ fuel ≤ n / 10
tenth_le n fuel large = let e = power_step fuel in omega arith

pub digits_value-digits :
    (fuel n : ℕ) (behind : Bytes)
    → n < 10 ^ fuel
    → digits_value 0 (digits fuel n behind) ≡ digits_value n behind
unfolding digits
digits_value-digits zero n behind small = let none_left : n ≡ 0 = omega arith in rw (none_left)
digits_value-digits (suc fuel) n behind small = elim (Bool-cases (ltb n 10)) [
  | inl e ↦
      let one : n % 10 ≡ n = ground arith in
      rw (e, one) (digit_value n 0 n behind (ground arith) (omega arith))
  | inr e ↦
      rw (e, digits_value-digits fuel (n / 10) ((48 + n % 10) ∷ behind) (tenth n fuel small))
        (digit_value (n % 10) (n / 10) n behind (omega arith) (omega arith))
]

at_least : (fuel n : ℕ) (behind : Bytes) → length behind ≤ length (digits fuel n behind)
unfolding digits
at_least zero n behind = omega arith
at_least (suc fuel) n behind = elim (Bool-cases (ltb n 10)) [
  | inl e ↦ rw (e) (omega arith)
  | inr e ↦ let more = at_least fuel (n / 10) ((48 + n % 10) ∷ behind) in rw (e) (omega arith)
]

-- A number below 10 ^ k has at most k digits, and one from 10 ^ k on has more.
pub length-digits_le :
    (fuel k n : ℕ) (behind : Bytes)
    → 1 ≤ k
    → n < 10 ^ k
    → length (digits fuel n behind) ≤ k + length behind
unfolding digits
length-digits_le zero k n behind some_digit small = omega arith
length-digits_le (suc fuel) zero n behind some_digit small = absurd (omega arith)
length-digits_le (suc fuel) (suc zero) n behind some_digit small =
    let e : ltb n 10 ≡ true = ground arith in rw (e) (omega arith)
length-digits_le (suc fuel) (suc (suc k)) n behind some_digit small = elim (Bool-cases (ltb n 10)) [
  | inl e ↦ rw (e) (omega arith)
  | inr e ↦
      let more =
        length-digits_le fuel (suc k) (n / 10) ((48 + n % 10) ∷ behind) (omega arith)
          (tenth n (suc k) small) in
      rw (e) (omega arith)
]

pub length-digits_ge :
    (fuel k n : ℕ) (behind : Bytes)
    → k < fuel
    → 10 ^ k ≤ n
    → k + 1 + length behind ≤ length (digits fuel n behind)
unfolding digits
length-digits_ge zero k n behind enough large = absurd (omega arith)
length-digits_ge (suc fuel) zero n behind enough large = elim (Bool-cases (ltb n 10)) [
  | inl e ↦ rw (e) (omega arith)
  | inr e ↦ let more = at_least fuel (n / 10) ((48 + n % 10) ∷ behind) in rw (e) (omega arith)
]
length-digits_ge (suc fuel) (suc k) n behind enough large =
    let step = power_step k in
    let some_power = power_pos k in
    let e : ltb n 10 ≡ false = ltb_of_le n 10 (omega arith) in
    let more =
      length-digits_ge fuel k (n / 10) ((48 + n % 10) ∷ behind) (omega arith)
        (tenth_le n k large) in
    rw (e) (omega arith)

-- A text that starts with a digit.
abbrev Leads : Bytes → Type 0
Leads [] = ⊥
Leads (c ∷ rest) = (48 ≤ c) × (c ≤ 57)

leads : (fuel n : ℕ) (behind : Bytes) → Leads behind → Leads (digits fuel n behind)
unfolding digits
leads zero n behind h = h
leads (suc fuel) n behind h = elim (Bool-cases (ltb n 10)) [
  | inl e ↦ rw (e) (omega arith, omega arith)
  | inr e ↦ rw (e) (leads fuel (n / 10) ((48 + n % 10) ∷ behind) (omega arith, omega arith))
]

print_u32-Leads : (n : ℕ) → Leads (print_u32 n)
unfolding print_u32 digits
print_u32-Leads n = elim (Bool-cases (ltb n 10)) [
  | inl e ↦ rw (e) (omega arith, omega arith)
  | inr e ↦ rw (e) (leads 9 (n / 10) ((48 + n % 10) ∷ []) (omega arith, omega arith))
]

Lacks-digits :
    (stop fuel n : ℕ) (behind : Bytes)
    → stop < 48
    → Lacks stop behind
    → Lacks stop (digits fuel n behind)
unfolding digits
Lacks-digits stop zero n behind low lacks = lacks
Lacks-digits stop (suc fuel) n behind low lacks = elim (Bool-cases (ltb n 10)) [
  | inl e ↦ rw (e) (omega arith, lacks)
  | inr e ↦
      rw (e) (Lacks-digits stop fuel (n / 10) ((48 + n % 10) ∷ behind) low (omega arith, lacks))
]

pub print_u32-Lacks : (stop n : ℕ) → stop < 48 → Lacks stop (print_u32 n)
unfolding print_u32
print_u32-Lacks stop n low = Lacks-digits stop 10 n [] low tt

sign_and_value-Leads :
    (text : Bytes) → Leads text → sign_and_value (skip_space text) ≡ (false, digits_value 0 text)
unfolding sign_and_value skip_space is_space
sign_and_value-Leads [] h = absurd h
sign_and_value-Leads (c ∷ rest) h =
    let no_space : is_space c ≡ false = ground arith in
    rw (no_space, ==_of_ne c 45 (ground arith), ==_of_ne c 43 (ground arith))

-- strtoul reads what sprintf prints of a uint32_t.
pub strtoul-print_u32 : (n : ℕ) → n < 2 ^ 32 → strtoul (print_u32 n) ≡ n
unfolding strtoul print_u32 digits_value
strtoul-print_u32 n small = rw (
  sign_and_value-Leads (print_u32 n) (print_u32-Leads n),
  digits_value-digits 10 n [] (omega arith),
  ltb_of_le (2 ^ 64 - 1) n (omega arith),
)
