-- ===== src/Protopack/Interop.antt =====
-- Lua services (lua/lib/protopack.lua) and C++ services (cpp/common/Pack.cpp) make and read the same packets.
use testcluster.Prelude.{
  ℕ, ◌+◌, ◌-◌, ◌^◌, ◌<◌, ◌≡◌, refl, true, some, ◌++◌, length, drop, length-append, lt→ltb,
  ltb_of_le, drop-append_past, drop-append_length, arith,
}
use testcluster.Pack.Order.{Bytes, be32, high_first, read16, read16-be16, read32-be32}
use testcluster.Pack.Decode.{Protobuf}
use testcluster.Pack.Encode.{
  OutPack, named_data, new_outpack, new_innerpack, serialize_msg, serialize_imsg,
  serialize_imsg_type, subtype_agent, pack_of, serialize_imsg_type_done, serialize_imsg_done,
  serialize_msg_done,
}
use testcluster.Pack.Trip.{copy_front, length-named_data, name_at, room_at, data_at}
use testcluster.Pack.Delivery.{client_packet, copy_exact, drop-outpack}
use testcluster.Protopack.{
  LuaProtobuf, pack_half, pack_int, pack_long, read64, pack_named, unpack_named, pack_raw,
  unpack_raw, pack_agent, unpack_agent, pack, unpack,
}
use testcluster.Protopack.Words.{store64-hton64, read64-high_first}

-- A message of a Lua service and one of a C++ service that are the same bytes, of fewer than 2^31, under the same type name,
-- of fewer than 2^16.
pub record SameMessage (pb : Protobuf) (lua : LuaProtobuf) (msg : pb.Message) (table : lua.Message)
    : Type 0 where
  pub text : Bytes
  pub serialized : pb.serialize msg ≡ (true, text)
  pub encoded : lua.encode (pb.get_type_name msg) table ≡ text
  pub short : length (pb.get_type_name msg) < 2 ^ 16
  pub small : length text < 2 ^ 31

pack_int_fits : (n : ℕ) → n < 2 ^ 32 → pack_int n ≡ some (be32 n)
unfolding pack_int
pack_int_fits n lt = rw (lt→ltb n (2 ^ 32) lt)

pack_named-named_data :
    (o : OutPack) (roomid : ℕ)
    → length o.type_name < 2 ^ 16
    → roomid < 2 ^ 32
    → pack_named o.type_name o.pb_data roomid ≡ some (named_data o roomid)
unfolding pack_named pack_half named_data
pack_named-named_data o roomid short room =
    rw (lt→ltb (length o.type_name) (2 ^ 16) short, pack_int_fits roomid room)

read16-named_data :
    (o : OutPack) (roomid : ℕ)
    → length o.type_name < 2 ^ 16
    → read16 (named_data o roomid) ≡ some (length o.type_name)
unfolding named_data
read16-named_data o roomid short =
    read16-be16 (length o.type_name) (o.type_name ++ (be32 roomid ++ o.pb_data)) short

-- Behind a head of any length.
unpack_named-named_data :
    (head : ℕ) (front : Bytes) (o : OutPack) (roomid : ℕ)
    → length front ≡ head
    → length o.type_name < 2 ^ 16
    → roomid < 2 ^ 32
    → unpack_named head (front ++ named_data o roomid) ≡ some (o.type_name, o.pb_data)
unfolding unpack_named
unpack_named-named_data head front o roomid size short room =
    let n = length o.type_name in
    let whole : length (front ++ named_data o roomid) ≡ head + (6 + n + length o.pb_data) =
      rw (length-append front (named_data o roomid), length-named_data o roomid, size) refl in
    let left : head + (6 + n + length o.pb_data) - (head + 6) - n ≡ length o.pb_data =
      omega arith in
    rw (
      drop-append_length head front (named_data o roomid) size,
      read16-named_data o roomid short,
      whole,
      ltb_of_le (head + (6 + n + length o.pb_data)) (head + 6 + n) (omega arith),
      drop-append_past front (named_data o roomid) (head + 2) 2 (omega arith),
      name_at o roomid,
      copy_front o.type_name (be32 roomid ++ o.pb_data),
      drop-append_past front (named_data o roomid) (head + 2 + n) (2 + n) (omega arith),
      room_at o roomid,
      read32-be32 roomid o.pb_data room,
      drop-append_past front (named_data o roomid) (head + 2 + n + 4) (2 + n + 4) (omega arith),
      data_at o roomid,
      left,
      copy_exact o.pb_data,
    )

module _ (o : OutPack) (roomid : ℕ) (short : length o.type_name < 2 ^ 16)
    (room : roomid < 2 ^ 32) where
  unpack_typed :
      (type uid : ℕ)
      → unpack_named 12 (be32 type ++ (high_first uid ++ named_data o roomid))
        ≡ some (o.type_name, o.pb_data)
  unfolding be32 high_first
  unpack_typed type uid =
      unpack_named-named_data 12 (be32 type ++ high_first uid) o roomid refl short room

  unpack_uid :
      (uid : ℕ)
      → unpack_named 8 (high_first uid ++ named_data o roomid) ≡ some (o.type_name, o.pb_data)
  unfolding high_first
  unpack_uid uid = unpack_named-named_data 8 (high_first uid) o roomid refl short room

  unpack_sized :
      (size : ℕ) → unpack_named 4 (be32 size ++ named_data o roomid) ≡ some (o.type_name, o.pb_data)
  unfolding be32
  unpack_sized size = unpack_named-named_data 4 (be32 size) o roomid refl short room

module _ (pb : Protobuf) (lua : LuaProtobuf) (msg : pb.Message) (table : lua.Message)
    (same : SameMessage pb lua msg table) (uid roomid : ℕ) (wide : uid < 2 ^ 64)
    (room : roomid < 2 ^ 32) where
  abbrev name : Bytes
  name = pb.get_type_name msg

  abbrev made : OutPack
  made = pack_of pb msg same.text

  -- Lua and C++ make the same packet of the same message: pack_raw that of serialize_imsg_type, pack that of serialize_msg
  -- for a client, and pack_agent that for an agent.
  pub packs_the_same :
      (type : ℕ)
      → type < 2 ^ 32
      → (pack_raw lua type uid name table (some roomid)
          ≡ some (serialize_imsg_type pb msg uid type roomid))
        × (pack lua name table (some roomid) ≡ serialize_msg pb msg 0 roomid)
        × (pack_agent lua subtype_agent name table (some roomid)
            ≡ serialize_msg pb msg subtype_agent roomid)
  unfolding pack_raw pack pack_agent new_outpack new_innerpack pack_long
  packs_the_same type fits =
      let named = pack_named-named_data made roomid same.short room in
      let short = same.short in
      let small = same.small in
      let whole = 2 + length name + 4 + length same.text in
      let order : whole ≡ length same.text + 2 + length name + 4 = omega arith in
      (
        rw (
          serialize_imsg_type_done pb msg same.text uid type roomid same.serialized,
          pack_int_fits type fits,
          same.encoded,
          named,
          store64-hton64 uid,
        ),
        rw (
          serialize_msg_done pb msg same.text 0 roomid same.serialized,
          same.encoded,
          pack_int_fits whole (omega arith),
          named,
          order,
        ),
        rw (
          serialize_msg_done pb msg same.text subtype_agent roomid same.serialized,
          same.encoded,
          pack_int_fits whole (omega arith),
          named,
          order,
        ),
      )

  -- The uid behind the type of a packet.
  pub raw_uid : (type : ℕ) → read64 (drop 4 (serialize_imsg_type pb msg uid type roomid)) ≡ some uid
  unfolding new_innerpack
  raw_uid type =
      let named = named_data made roomid in
      rw (serialize_imsg_type_done pb msg same.text uid type roomid same.serialized) (
        rw (store64-hton64 uid)
          (rw (drop-outpack type (high_first uid ++ named)) (read64-high_first uid named wide)))

  -- The packets that C++ services make are read by Lua services: the uid, the type name and what the data decodes to.
  pub reads_the_same :
      (type : ℕ)
      → (unpack_raw lua (serialize_imsg_type pb msg uid type roomid)
          ≡ some (uid, name, lua.decode name same.text))
        × (unpack_agent lua (serialize_imsg pb msg uid roomid)
            ≡ some (uid, name, lua.decode name same.text))
        × ((packet : Bytes) × (serialize_msg pb msg 0 roomid ≡ some packet)
            × (unpack lua packet ≡ some (name, lua.decode name same.text)))
  unfolding unpack_raw unpack_agent unpack new_innerpack new_outpack
  reads_the_same type =
      let named = named_data made roomid in
      let uid_read : read64 (high_first uid ++ named) ≡ some uid =
        read64-high_first uid named wide in
      (
        rw (serialize_imsg_type_done pb msg same.text uid type roomid same.serialized) (
            rw (store64-hton64 uid) (
              rw (
                drop-outpack type (high_first uid ++ named),
                uid_read,
                unpack_typed made roomid same.short room type uid,
              ))),
        rw (serialize_imsg_done pb msg same.text uid roomid same.serialized)
            (rw (store64-hton64 uid) (rw (uid_read, unpack_uid made roomid same.short room uid))),
        (
          client_packet made roomid,
          serialize_msg_done pb msg same.text 0 roomid same.serialized,
          rw (unpack_sized made roomid same.short room (length same.text + 2 + length name + 4)),
        ),
      )
