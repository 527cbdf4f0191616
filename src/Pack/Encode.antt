-- ===== src/Pack/Encode.antt =====
-- OutPack of cpp/common/Pack.h and Pack.cpp: the encoding of packets, and the functions that serialize
-- a message for a client or for another service.
use testcluster.Prelude.{
  ℕ, ◌+◌, Bool, true, false, Option, ◌≡◌, none, some, [], ◌++◌, length, ◌==◌, if◌then◌else◌,
}
use testcluster.Pack.Order.{Bytes, be16, be32, store64, hton64}
use testcluster.Pack.Decode.{Protobuf}

pub record OutPack : Type 0 where
  pub pb_data : Bytes
  pub type_name : Bytes

abbrev pub empty : OutPack
empty = record { pb_data = []; type_name = [] }

-- SUBTYPE_AGENT of cpp/common/common.h.
abbrev pub subtype_agent : ℕ
subtype_agent = 20

-- OutPack::reset: the result, and the pack.
unfoldable pub reset : (pb : Protobuf) → OutPack → pb.Message → Bool × OutPack
reset pb o msg =
    let (done, text) = pb.serialize msg in
    if done
    then (true, record { pb_data = text; type_name = pb.get_type_name msg })
    else (false, record o { pb_data = text })

-- kTypeNameLen, the name, the roomid and the data: what every packet ends with.
unfoldable pub named_data : OutPack → ℕ → Bytes
named_data o roomid = be16 (length o.type_name) ++ (o.type_name ++ (be32 roomid ++ o.pb_data))

-- For a client. Any other subtype leaves `result` and `size` unset: `none`.
unfoldable pub new_outpack : OutPack → ℕ → ℕ → Option Bytes
unfolding named_data
new_outpack o sub_type roomid =
    let data_len = length o.pb_data + 2 + length o.type_name + 4 in
    if sub_type == 0
    then some (be32 data_len ++ named_data o roomid)
    else if sub_type == subtype_agent
    then some (be32 subtype_agent ++ (be32 data_len ++ named_data o roomid))
    else none

-- For a service: the uid in front.
unfoldable pub new_innerpack : OutPack → ℕ → ℕ → Bytes
unfolding named_data
new_innerpack o uid roomid = store64 (hton64 uid) ++ named_data o roomid

-- For a service: a subtype and the uid.
unfoldable pub new_innerpack_type : OutPack → ℕ → ℕ → ℕ → Bytes
unfolding named_data
new_innerpack_type o uid type roomid = be32 type ++ (store64 (hton64 uid) ++ named_data o roomid)

-- The result of reset is not looked at.
unfoldable pub serialize_msg : (pb : Protobuf) → pb.Message → ℕ → ℕ → Option Bytes
unfolding reset new_outpack
serialize_msg pb msg sub_type roomid =
    let (done, o) = reset pb empty msg in new_outpack o sub_type roomid

unfoldable pub serialize_imsg : (pb : Protobuf) → pb.Message → ℕ → ℕ → Bytes
unfolding reset new_innerpack
serialize_imsg pb msg uid roomid = let (done, o) = reset pb empty msg in new_innerpack o uid roomid

unfoldable pub serialize_imsg_type : (pb : Protobuf) → pb.Message → ℕ → ℕ → ℕ → Bytes
unfolding reset new_innerpack_type
serialize_imsg_type pb msg uid sub_type roomid =
    let (done, o) = reset pb empty msg in new_innerpack_type o uid sub_type roomid

-- The pack of a message that can be serialized.
abbrev pub pack_of : (pb : Protobuf) → pb.Message → Bytes → OutPack
pack_of pb msg text = record { pb_data = text; type_name = pb.get_type_name msg }

pub serialize_imsg_done :
    (pb : Protobuf) (msg : pb.Message) (text : Bytes) (uid roomid : ℕ)
    → pb.serialize msg ≡ (true, text)
    → serialize_imsg pb msg uid roomid ≡ new_innerpack (pack_of pb msg text) uid roomid
unfolding serialize_imsg reset
serialize_imsg_done pb msg text uid roomid done =
    let packed : reset pb empty msg ≡ (true, pack_of pb msg text) = rw (done, reset) in rw (packed)

pub serialize_msg_done :
    (pb : Protobuf) (msg : pb.Message) (text : Bytes) (sub_type roomid : ℕ)
    → pb.serialize msg ≡ (true, text)
    → serialize_msg pb msg sub_type roomid ≡ new_outpack (pack_of pb msg text) sub_type roomid
unfolding serialize_msg reset
serialize_msg_done pb msg text sub_type roomid done =
    let packed : reset pb empty msg ≡ (true, pack_of pb msg text) = rw (done, reset) in rw (packed)

pub serialize_imsg_type_done :
    (pb : Protobuf) (msg : pb.Message) (text : Bytes) (uid sub_type roomid : ℕ)
    → pb.serialize msg ≡ (true, text)
    → serialize_imsg_type pb msg uid sub_type roomid
      ≡ be32 sub_type ++ new_innerpack (pack_of pb msg text) uid roomid
unfolding serialize_imsg_type reset new_innerpack new_innerpack_type
serialize_imsg_type_done pb msg text uid sub_type roomid done =
    let packed : reset pb empty msg ≡ (true, pack_of pb msg text) = rw (done, reset) in rw (packed)
