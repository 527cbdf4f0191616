-- ===== src/Cluster/Wire.antt =====
-- Fields of cluster packets: the size header and the 32-bit words (fill_uint32, fill_header,
-- unpack_uint32 of cpp/beecluster/lua-beecluster.c).
use testcluster.Prelude.{
  ℕ, ◌+◌, ◌*◌, ◌/◌, ◌%◌, ◌^◌, ◌<◌, ◌≡◌, Option, none, some, List, [], ◌∷◌, ◌++◌, arith, ltb,
  if◌then◌else◌,
}

-- A run of bytes.
abbrev pub Bytes : Type 0
Bytes = List ℕ

-- TEMP_LENGTH, the size of each `uint8_t buf[TEMP_LENGTH]` that a packet is written to.
abbrev pub temp_length : ℕ
temp_length = 0x8200

-- MULTI_PART, the size of a part of a long message.
abbrev pub multi_part : ℕ
multi_part = 0x8000

-- The four bytes at `buf`, lowest first.
unfoldable pub fill_uint32 : ℕ → Bytes
fill_uint32 n = (n % 256) ∷ (n / 2 ^ 8 % 256) ∷ (n / 2 ^ 16 % 256) ∷ (n / 2 ^ 24 % 256) ∷ []

-- The two bytes at `buf`, highest first; `none` is a failed `assert(sz < 0x10000)`.
unfoldable pub fill_header : ℕ → Option Bytes
fill_header sz = if ltb sz 0x10000 then some ((sz / 2 ^ 8 % 256) ∷ (sz % 256) ∷ []) else none

-- The word at the front of `buf`; `none` is a read behind the end of the buffer.
-- On bytes the `|` of the shifted bytes is their sum.
unfoldable pub unpack_uint32 : Bytes → Option ℕ
unpack_uint32 (a ∷ b ∷ c ∷ d ∷ rest) = some (a + b * 2 ^ 8 + c * 2 ^ 16 + d * 2 ^ 24)
unpack_uint32 _ = none

-- The size that the reader of a stream finds in the header: the first WORD, big-endian.
unfoldable pub header_size : Bytes → Option ℕ
header_size (hi ∷ lo ∷ rest) = some (hi * 2 ^ 8 + lo)
header_size _ = none

-- A word is read back as it was written, whatever follows it.
pub unpack_uint32-fill_uint32 :
    (n : ℕ) (rest : Bytes) → n < 2 ^ 32 → unpack_uint32 (fill_uint32 n ++ rest) ≡ some n
unfolding unpack_uint32 fill_uint32
unpack_uint32-fill_uint32 n rest h = ground arith
