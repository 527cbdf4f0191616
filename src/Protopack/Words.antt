-- ===== src/Protopack/Words.antt =====
-- The words of packets, as string.pack and string.unpack (lua/lib/protopack.lua) and Pack.h write and read them.
use testcluster.Prelude.{ℕ, ◌+◌, ◌*◌, ◌/◌, ◌%◌, ◌^◌, ◌<◌, ◌≡◌, some, [], ◌∷◌, ◌++◌, arith}
use testcluster.Pack.Order.{Bytes, high_first, store64, hton64, load64, ntoh64}
use testcluster.Protopack.{read64}

store64_value :
    (a b c d e f g h : ℕ)
    → a < 256
    → b < 256
    → c < 256
    → d < 256
    → e < 256
    → f < 256
    → g < 256
    → h < 256
    → store64 (
        a + b * 2 ^ 8 + c * 2 ^ 16 + d * 2 ^ 24 + e * 2 ^ 32 + f * 2 ^ 40 + g * 2 ^ 48 + h * 2 ^ 56)
      ≡ a ∷ b ∷ c ∷ d ∷ e ∷ f ∷ g ∷ h ∷ []
unfolding store64
store64_value a b c d e f g h pa pb pc pd pe pf pg ph = ground arith

-- A uid that hton64 turned round and the host stores has its highest byte first.
pub store64-hton64 : (uid : ℕ) → store64 (hton64 uid) ≡ high_first uid
unfolding hton64 ntoh64 load64 high_first
store64-hton64 uid =
    store64_value (uid / 2 ^ 56 % 256) (uid / 2 ^ 48 % 256) (uid / 2 ^ 40 % 256)
      (uid / 2 ^ 32 % 256) (uid / 2 ^ 24 % 256) (uid / 2 ^ 16 % 256) (uid / 2 ^ 8 % 256) (uid % 256)
      (omega arith) (omega arith) (omega arith) (omega arith) (omega arith) (omega arith)
      (omega arith) (omega arith)

pub read64-high_first :
    (uid : ℕ) (rest : Bytes) → uid < 2 ^ 64 → read64 (high_first uid ++ rest) ≡ some uid
unfolding read64 high_first
read64-high_first uid rest lt = ground arith
