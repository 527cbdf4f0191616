-- ===== src/Text/Parm/Numbers.antt =====
-- The numbers that TextParm (cpp/common/Pack.h) keeps as text.
use testcluster.Prelude.{
  ℕ, ◌%◌, ◌^◌, ◌<◌, ◌≤◌, ◌≡◌, ◌⊎◌, inl, inr, Bool-cases, none, some, [], length, ltb, lt→ltb,
  ltb_of_le, arith,
}
use testcluster.Pack.Order.{Bytes}
use testcluster.Text.Number.{print_u32, digits}
use testcluster.Text.Number.Digits.{
  length-digits_le, length-digits_ge, print_u32-Lacks, strtoul-print_u32,
}
use testcluster.Text.Sorted.{put, get_entry-put}
use testcluster.Text.Parm.{TextParm, insert, insert_uint, print_to, get_uint, get, get_string}
use testcluster.Text.Parm.Trip.{c_string_all}

-- The array of insert_uint holds nine digits and the end mark.
print_to_u32 : (n : ℕ) → n < 10 ^ 9 → print_to (print_u32 n) ≡ some (print_u32 n)
unfolding print_to print_u32
print_to_u32 n small =
    let short = length-digits_le 10 9 n [] (omega arith) small in
    rw (lt→ltb (length (digits 10 n [])) 10 (omega arith))

print_to_u32_large : (n : ℕ) → 10 ^ 9 ≤ n → print_to (print_u32 n) ≡ none
unfolding print_to print_u32
print_to_u32_large n large =
    let long = length-digits_ge 10 9 n [] (omega arith) large in
    rw (ltb_of_le (length (digits 10 n [])) 10 (omega arith))

pub get_string-insert :
    (p : TextParm) (key value : Bytes)
    → get_string (record p { entries = put key value p.entries }) key ≡ value
unfolding get_string
get_string-insert p key value = rw (get_entry-put key value p.entries, get_string)

-- A uint32_t below 10^9 is read by get_uint as insert_uint was given it; a larger one is printed behind the end of the
-- array of insert_uint.
pub insert_uint_cases :
    (p : TextParm) (key : Bytes) (value : ℕ)
    → value < 2 ^ 32
    → ((value < 10 ^ 9)
        × ((q : TextParm) × (insert_uint p key value ≡ some q) × (get_uint q key ≡ value)))
      ⊎ ((10 ^ 9 ≤ value) × (insert_uint p key value ≡ none))
unfolding insert_uint insert get_uint get
insert_uint_cases p key value word = elim (Bool-cases (ltb value (10 ^ 9))) [
  | inl e ↦
      let small : value < 10 ^ 9 = ground arith in
      let q : TextParm = record p { entries = put key (print_u32 value) p.entries } in
      let stays : value % 2 ^ 32 ≡ value = omega arith in
      inl (
        small,
        (
          q,
          rw (print_to_u32 value small),
          rw (
            get_string-insert p key (print_u32 value),
            c_string_all (print_u32 value) (print_u32-Lacks 0 value (omega arith)),
            strtoul-print_u32 value word,
            stays,
          ),
        ),
      )
  | inr e ↦
      let large : 10 ^ 9 ≤ value = ground arith in inr (large, rw (print_to_u32_large value large))
]
