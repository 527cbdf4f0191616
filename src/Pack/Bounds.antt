-- ===== src/Pack/Bounds.antt =====
-- Which packets InPack reads without leaving their memory (Pack.cpp).
use testcluster.Prelude.{
  ℕ, ◌+◌, ◌-◌, ◌*◌, ◌^◌, ◌<◌, ◌≤◌, ◌≡◌, ◌≢◌, ◌↔◌, ◌⊎◌, inl, inr, refl, ◌∙◌, sym, Bool, false, ◌||◌,
  none, some, [], ◌∷◌, drop, length, length-drop, ltb, ltb→lt, le_of_ltb, leb_of_le, Bool-cases,
  arith,
}
use testcluster.Pack.Order.{Bytes, read16, read32, load64}
use testcluster.Pack.Decode.{
  InPack, Access, decode_fields, decode_stream, copy, less, inner_reset, out_reset,
}
use testcluster.Pack.Delivery.{known_size_given}

read16_enough : (m : Bytes) → 2 ≤ length m → (v : ℕ) × (read16 m ≡ some v)
unfolding read16
read16_enough (a ∷ b ∷ rest) h = (a * 2 ^ 8 + b, refl)
read16_enough (a ∷ []) h = absurd (omega arith)
read16_enough [] h = absurd (omega arith)

read16_short : (m : Bytes) → length m < 2 → read16 m ≡ none
unfolding read16
read16_short (a ∷ b ∷ rest) h = absurd (omega arith)
read16_short (a ∷ []) h = refl
read16_short [] h = refl

read32_cases :
    (m : Bytes)
    → ((length m < 4) × (read32 m ≡ none)) ⊎ ((4 ≤ length m) × ((v : ℕ) × (read32 m ≡ some v)))
unfolding read32
read32_cases (a ∷ b ∷ c ∷ d ∷ rest) =
    inr (omega arith, (a * 2 ^ 24 + b * 2 ^ 16 + c * 2 ^ 8 + d, refl))
read32_cases (a ∷ b ∷ c ∷ []) = inl (omega arith, refl)
read32_cases (a ∷ b ∷ []) = inl (omega arith, refl)
read32_cases (a ∷ []) = inl (omega arith, refl)
read32_cases [] = inl (omega arith, refl)

load64_cases :
    (m : Bytes)
    → ((length m < 8) × (load64 m ≡ none)) ⊎ ((8 ≤ length m) × ((v : ℕ) × (load64 m ≡ some v)))
unfolding load64
load64_cases (a ∷ b ∷ c ∷ d ∷ e ∷ f ∷ g ∷ h ∷ rest) = inr (
  omega arith,
  (
    a + b * 2 ^ 8 + c * 2 ^ 16 + d * 2 ^ 24 + e * 2 ^ 32 + f * 2 ^ 40 + g * 2 ^ 48 + h * 2 ^ 56,
    refl,
  ),
)
load64_cases (a ∷ b ∷ c ∷ d ∷ e ∷ f ∷ g ∷ []) = inl (omega arith, refl)
load64_cases (a ∷ b ∷ c ∷ d ∷ e ∷ f ∷ []) = inl (omega arith, refl)
load64_cases (a ∷ b ∷ c ∷ d ∷ e ∷ []) = inl (omega arith, refl)
load64_cases (a ∷ b ∷ c ∷ d ∷ []) = inl (omega arith, refl)
load64_cases (a ∷ b ∷ c ∷ []) = inl (omega arith, refl)
load64_cases (a ∷ b ∷ []) = inl (omega arith, refl)
load64_cases (a ∷ []) = inl (omega arith, refl)
load64_cases [] = inl (omega arith, refl)

-- The result and that it is one.
abbrev Reads : Access (Bool × InPack) → Type 0
Reads a = (r : Bool × InPack) × (a ≡ some r)

some-Reads : (r : Bool × InPack) → Reads (some r)
some-Reads r = (r, refl)

decode_fields_fit :
    (p : InPack) (m : Bytes) (size n : ℕ) → 2 + n + 4 ≤ length m → Reads (decode_fields p m size n)
unfolding decode_fields copy
decode_fields_fit p m size n fits =
    let name : n ≤ length (drop 2 m) = rw (length-drop 2 m) (omega arith) in
    let room : 4 ≤ length (drop (2 + n) m) = rw (length-drop (2 + n) m) (omega arith) in
    elim (read32_cases (drop (2 + n) m)) [
      | inl (few, e) ↦ absurd (omega arith)
      | inr (many, (v, e)) ↦ rw (leb_of_le n (length (drop 2 m)) name, e) (some-Reads _)
    ]

decode_stream_fit : (p : InPack) (m : Bytes) → 2 ≤ length m → Reads (decode_stream p m (length m))
unfolding decode_stream
decode_stream_fit p m h =
    let (n, e) = read16_enough m h in
    elim (Bool-cases (ltb (length m) (2 + n + 4) || ltb 50 n)) [
      | inl bad ↦ rw (e, bad) (some-Reads (false, p))
      | inr good ↦
          let fits : 2 + n + 4 ≤ length m = ground arith in
          rw (e, good) (decode_fields_fit p m (length m) n fits)
    ]

decode_stream_short :
    (p : InPack) (m : Bytes) (size : ℕ) → length m < 2 → decode_stream p m size ≡ none
unfolding decode_stream
decode_stream_short p m size h = rw (read16_short m h)

-- A read that leaves the memory gives no result.
not_none : (a : Access (Bool × InPack)) → Reads a → a ≢ none
not_none a (r, e) n = ground arith

-- What stands in front of the length of the name is given up by both the memory and the size.
decode_stream_bounds :
    (p : InPack) (m : Bytes) (k size : ℕ)
    → k ≤ length m
    → size ≡ length m - k
    → (decode_stream p (drop k m) size ≡ none) ↔ (length m < k + 2)
decode_stream_bounds p m k size front e =
    let rest : length (drop k m) ≡ size = length-drop k m ∙ sym e in
    elim (Bool-cases (ltb (length (drop k m)) 2)) [
      | inl few ↦
          let short : length (drop k m) < 2 = ltb→lt (length (drop k m)) 2 few in
          ((λ h. omega arith), (λ h. decode_stream_short p (drop k m) size short))
      | inr many ↦
          let long : 2 ≤ length (drop k m) = le_of_ltb (length (drop k m)) 2 many in
          let reads : Reads (decode_stream p (drop k m) size) =
            rw (sym rest) (decode_stream_fit p (drop k m) long) in
          (
            (λ h. absurd (not_none (decode_stream p (drop k m) size) reads h)),
            (λ h. absurd (omega arith)),
          )
    ]

-- inner_reset of a packet of 1 to 2^32 - 1 bytes, with its size, reads outside it exactly if it is shorter than 10 bytes,
-- the uid and the length of the name.
pub inner_reset_bounds :
    (p : InPack) (packet : Bytes)
    → 1 ≤ length packet
    → length packet < 2 ^ 32
    → (inner_reset p packet (length packet) ≡ none) ↔ (length packet < 10)
unfolding inner_reset less
inner_reset_bounds p packet some_byte word =
    rw (known_size_given packet (length packet) some_byte) (elim (load64_cases packet) [
      | inl (few, e) ↦ rw (e) ((λ h. omega arith), (λ h. refl))
      | inr (many, (v, e)) ↦
          rw (e) (decode_stream_bounds _ packet 8 (less (length packet) 8) many (omega arith))
    ])

-- out_reset of a packet of 1 to 2^32 - 1 bytes, with its size, reads outside it exactly if it is shorter than 6 bytes.
pub out_reset_bounds :
    (p : InPack) (packet : Bytes)
    → 1 ≤ length packet
    → length packet < 2 ^ 32
    → (out_reset p packet (length packet) ≡ none) ↔ (length packet < 6)
unfolding out_reset less
out_reset_bounds p packet some_byte word =
    rw (known_size_given packet (length packet) some_byte) (elim (read32_cases packet) [
      | inl (few, e) ↦ rw (e) ((λ h. omega arith), (λ h. refl))
      | inr (many, (v, e)) ↦
          rw (e) (decode_stream_bounds _ packet 4 (less (length packet) 4) many (omega arith))
    ])
