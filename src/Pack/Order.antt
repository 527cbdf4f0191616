-- ===== src/Pack/Order.antt =====
-- Byte order: the fields of a packet in memory (htonl, htons, ntohl, ntohs with memcpy, and ntoh64,
-- hton64 of cpp/common/Pack.h), on a little-endian host.
use testcluster.Prelude.{
  ℕ, ◌+◌, ◌*◌, ◌/◌, ◌%◌, ◌^◌, ◌<◌, ◌≡◌, refl, Option, none, some, List, [], ◌∷◌, ◌++◌, arith,
}

abbrev pub Bytes : Type 0
Bytes = List ℕ

-- memcpy of htons(n), htonl(n): network order, highest byte first. The value is cut to its width.
unfoldable pub be16 : ℕ → Bytes
be16 n = (n / 2 ^ 8 % 256) ∷ (n % 256) ∷ []

unfoldable pub be32 : ℕ → Bytes
be32 n = (n / 2 ^ 24 % 256) ∷ (n / 2 ^ 16 % 256) ∷ (n / 2 ^ 8 % 256) ∷ (n % 256) ∷ []

-- The bytes of a uint64_t as `ntoh64` stores them to `data[0]` to `data[7]`, and as the host holds it.
unfoldable pub high_first : ℕ → Bytes
high_first n =
    (n / 2 ^ 56 % 256)
    ∷ (n / 2 ^ 48 % 256)
    ∷ (n / 2 ^ 40 % 256)
    ∷ (n / 2 ^ 32 % 256)
    ∷ (n / 2 ^ 24 % 256)
    ∷ (n / 2 ^ 16 % 256)
    ∷ (n / 2 ^ 8 % 256)
    ∷ (n % 256)
    ∷ []

unfoldable pub store64 : ℕ → Bytes
store64 n =
    (n % 256)
    ∷ (n / 2 ^ 8 % 256)
    ∷ (n / 2 ^ 16 % 256)
    ∷ (n / 2 ^ 24 % 256)
    ∷ (n / 2 ^ 32 % 256)
    ∷ (n / 2 ^ 40 % 256)
    ∷ (n / 2 ^ 48 % 256)
    ∷ (n / 2 ^ 56 % 256)
    ∷ []

-- A read through a pointer; `none` is a read outside the memory there.
unfoldable pub load64 : Bytes → Option ℕ
load64 (a ∷ b ∷ c ∷ d ∷ e ∷ f ∷ g ∷ h ∷ rest) =
    some
      (a + b * 2 ^ 8 + c * 2 ^ 16 + d * 2 ^ 24 + e * 2 ^ 32 + f * 2 ^ 40 + g * 2 ^ 48 + h * 2 ^ 56)
load64 _ = none

unfoldable pub read16 : Bytes → Option ℕ
read16 (a ∷ b ∷ rest) = some (a * 2 ^ 8 + b)
read16 _ = none

unfoldable pub read32 : Bytes → Option ℕ
read32 (a ∷ b ∷ c ∷ d ∷ rest) = some (a * 2 ^ 24 + b * 2 ^ 16 + c * 2 ^ 8 + d)
read32 _ = none

-- `rval` is read back from the bytes that were stored to it, which are eight.
unfoldable pub ntoh64 : ℕ → ℕ
ntoh64 input = elim (load64 (high_first input)) [ none ↦ 0 | some rval ↦ rval ]

unfoldable pub hton64 : ℕ → ℕ
hton64 input = ntoh64 input

pub read16-be16 : (n : ℕ) (rest : Bytes) → n < 2 ^ 16 → read16 (be16 n ++ rest) ≡ some n
unfolding read16 be16
read16-be16 n rest h = ground arith

pub read32-be32 : (n : ℕ) (rest : Bytes) → n < 2 ^ 32 → read32 (be32 n ++ rest) ≡ some n
unfolding read32 be32
read32-be32 n rest h = ground arith

-- A stored word is loaded as it was, and eight bytes are always read.
pub load64-store64 : (n : ℕ) (rest : Bytes) → n < 2 ^ 64 → load64 (store64 n ++ rest) ≡ some n
unfolding load64 store64
load64-store64 n rest h = ground arith

load64-store64_all : (n : ℕ) → n < 2 ^ 64 → load64 (store64 n) ≡ some n
unfolding load64 store64
load64-store64_all n h = ground arith

-- The value of eight bytes, lowest first.
abbrev low_value : (a b c d e f g h : ℕ) → ℕ
low_value a b c d e f g h =
    a + b * 2 ^ 8 + c * 2 ^ 16 + d * 2 ^ 24 + e * 2 ^ 32 + f * 2 ^ 40 + g * 2 ^ 48 + h * 2 ^ 56

high_first_value :
    (a b c d e f g h : ℕ)
    → a < 256
    → b < 256
    → c < 256
    → d < 256
    → e < 256
    → f < 256
    → g < 256
    → h < 256
    → high_first (low_value a b c d e f g h) ≡ h ∷ g ∷ f ∷ e ∷ d ∷ c ∷ b ∷ a ∷ []
unfolding high_first
high_first_value a b c d e f g h pa pb pc pd pe pf pg ph = ground arith

-- The eight bytes of `n` in the other order.
swapped : ℕ → ℕ
swapped n =
    low_value (n / 2 ^ 56 % 256) (n / 2 ^ 48 % 256) (n / 2 ^ 40 % 256) (n / 2 ^ 32 % 256)
      (n / 2 ^ 24 % 256) (n / 2 ^ 16 % 256) (n / 2 ^ 8 % 256) (n % 256)

hton64_value : (n : ℕ) → hton64 n ≡ swapped n
unfolding hton64 ntoh64 load64 high_first swapped
hton64_value n = refl

high_first-swapped : (n : ℕ) → high_first (swapped n) ≡ store64 n
unfolding swapped store64
high_first-swapped n =
    high_first_value (n / 2 ^ 56 % 256) (n / 2 ^ 48 % 256) (n / 2 ^ 40 % 256) (n / 2 ^ 32 % 256)
      (n / 2 ^ 24 % 256) (n / 2 ^ 16 % 256) (n / 2 ^ 8 % 256) (n % 256) (omega arith) (omega arith)
      (omega arith) (omega arith) (omega arith) (omega arith) (omega arith) (omega arith)

-- A uid goes through the network unchanged.
pub ntoh64-hton64 : (n : ℕ) → n < 2 ^ 64 → ntoh64 (hton64 n) ≡ n
unfolding ntoh64
ntoh64-hton64 n lt =
    rw (hton64_value n, high_first-swapped n, ntoh64) (rw (load64-store64_all n lt, ntoh64))

pub hton64-lt : (n : ℕ) → hton64 n < 2 ^ 64
unfolding swapped
hton64-lt n = rw (hton64_value n) (omega arith)
