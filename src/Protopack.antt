-- ===== src/Protopack.antt =====
-- lua/lib/protopack.lua: the message packets of cpp/common/Pack.cpp, made and read by Lua services.
pub mod Words
pub mod Interop
mod Tests
use testcluster.Prelude.{
  ℕ, ◌+◌, ◌-◌, ◌*◌, ◌^◌, Bool, true, false, Option, none, some, [], ◌∷◌, ◌++◌, length, drop, ltb,
  if◌then◌else◌,
}
use testcluster.Pack.Order.{Bytes, be16, be32, high_first, read16, read32}
use testcluster.Pack.Decode.{Access, ◌>>=◌, copy}

-- The protobuf library of Lua: messages by type name. decode gives false for data that does not parse.
pub record LuaProtobuf : Type 1 where
  pub Message : Type 0
  pub encode : Bytes → Message → Bytes
  pub decode : Bytes → Bytes → Option Message

-- string.pack of one integer with "> H", "> I" and "> L", and string.unpack at the front of a string; `none` is a Lua
-- error. An integer is its bit pattern of 64 bits, so that one that does not fit, negative ones included, is too large.
unfoldable pub pack_half : ℕ → Option Bytes
pack_half n = if ltb n (2 ^ 16) then some (be16 n) else none

unfoldable pub pack_int : ℕ → Option Bytes
pack_int n = if ltb n (2 ^ 32) then some (be32 n) else none

unfoldable pub pack_long : ℕ → Bytes
unfolding high_first
pack_long n = high_first n

unfoldable pub read64 : Bytes → Option ℕ
read64 (a ∷ b ∷ c ∷ d ∷ e ∷ f ∷ g ∷ h ∷ rest) =
    some
      (a * 2 ^ 56 + b * 2 ^ 48 + c * 2 ^ 40 + d * 2 ^ 32 + e * 2 ^ 24 + f * 2 ^ 16 + g * 2 ^ 8 + h)
read64 _ = none

-- A roomid that is nil.
unfoldable pub room_or_zero : Option ℕ → ℕ
room_or_zero none = 0
room_or_zero (some roomid) = roomid

-- "> H c%d I c%d" with the length of the name, the name, the room and the data: what every packet ends with.
unfoldable pub pack_named : Bytes → Bytes → ℕ → Option Bytes
unfolding pack_half pack_int
pack_named name pbstr room = do
  namelen ← pack_half (length name)
  roomid ← pack_int room
  some (namelen ++ (name ++ (roomid ++ pbstr)))

-- The length of the name behind a head of a packet, and "> c%d I c%d" behind that; a format with the %d of a negative
-- number is refused by string.unpack. The room is read and not returned.
unfoldable pub unpack_named : ℕ → Bytes → Access (Bytes × Bytes)
unfolding copy
unpack_named head str = do
  namelen ← read16 (drop head str)
  if ltb (length str) (head + 6 + namelen) then none else (do
    name ← copy namelen (drop (head + 2) str)
    roomid ← read32 (drop (head + 2 + namelen) str)
    pbstr ← copy (length str - (head + 6) - namelen) (drop (head + 2 + namelen + 4) str)
    some (name, pbstr))

module _ (protobuf : LuaProtobuf) where
  unfoldable pub pack_raw : ℕ → ℕ → Bytes → protobuf.Message → Option ℕ → Option Bytes
  unfolding pack_named pack_int pack_long room_or_zero
  pack_raw type uid name msg roomid = do
    sub_type ← pack_int type
    named ← pack_named name (protobuf.encode name msg) (room_or_zero roomid)
    some (sub_type ++ (pack_long uid ++ named))

  -- The message, or false.
  unfoldable pub unpack_raw : Bytes → Access (ℕ × Bytes × Option protobuf.Message)
  unfolding read64
  unpack_raw str = do
    uid ← read64 (drop 4 str)
    (name, pbstr) ← unpack_named 12 str
    some (uid, name, protobuf.decode name pbstr)

  unfoldable pub unpack_agent : Bytes → Access (ℕ × Bytes × Option protobuf.Message)
  unfolding read64
  unpack_agent str = do
    uid ← read64 str
    (name, pbstr) ← unpack_named 8 str
    some (uid, name, protobuf.decode name pbstr)

  unfoldable pub pack_agent : ℕ → Bytes → protobuf.Message → Option ℕ → Option Bytes
  unfolding pack_named pack_int room_or_zero
  pack_agent type name msg roomid = do
    let pbstr = protobuf.encode name msg
    sub_type ← pack_int type
    datalen ← pack_int (2 + length name + 4 + length pbstr)
    named ← pack_named name pbstr (room_or_zero roomid)
    some (sub_type ++ (datalen ++ named))

  unfoldable pub pack : Bytes → protobuf.Message → Option ℕ → Option Bytes
  unfolding pack_named pack_int room_or_zero
  pack name msg roomid = do
    let pbstr = protobuf.encode name msg
    datalen ← pack_int (2 + length name + 4 + length pbstr)
    named ← pack_named name pbstr (room_or_zero roomid)
    some (datalen ++ named)

  unfoldable pub unpack : Bytes → Access (Bytes × Option protobuf.Message)
  unpack str = do (name, pbstr) ← unpack_named 4 str; some (name, protobuf.decode name pbstr)
