-- ===== src/Pack/Zip/Delivery.antt =====
-- What a client gets of a packet that is compressed on the way (compress_row_msg, serialize_msg_with_compress of
-- cpp/common/Pack.cpp).
use testcluster.Prelude.{
  ℕ, ◌+◌, ◌-◌, ◌*◌, ◌%◌, ◌^◌, ◌<◌, ◌≤◌, ◌≡◌, ◌∙◌, refl, true, Option, some, ◌++◌, length, drop,
  drop-append_past, lt→ltb, arith,
}
use testcluster.Pack.Order.{Bytes, be32, read16, read32-be32, read16-be16}
use testcluster.Pack.Decode.{InPack, Protobuf, out_reset}
use testcluster.Pack.Encode.{OutPack, named_data, new_outpack, pack_of, empty}
use testcluster.Pack.Trip.{received, name_at, room_at, data_at, copy_front}
use testcluster.Pack.Delivery.{client_packet, size_of, out_trip, copy_exact, drop-outpack}
use testcluster.Pack.Zip.{
  Zlib, done, chunk, zlib_compress, zip_reset, zip_output, zip_reset_row, zip_row, compress_roomid,
  compress_row_msg, serialize_msg_with_compress,
}
use testcluster.Pack.Zip.Deflate.{Promises, zlib_compress-inflates}

compress_roomid-lt : (room : ℕ) → room < 2 ^ 32 → compress_roomid room < 2 ^ 32
unfolding compress_roomid
compress_roomid-lt room small = ground arith

-- The fields of a packet for a client, by their places.
past_head :
    (n m k : ℕ) (o : OutPack) (roomid : ℕ)
    → m ≡ 4 + k
    → drop m (be32 n ++ named_data o roomid) ≡ drop k (named_data o roomid)
unfolding be32
past_head n m k o roomid e = drop-append_past (be32 n) (named_data o roomid) m k e

name_length :
    (o : OutPack) (roomid : ℕ)
    → length o.type_name < 2 ^ 16
    → read16 (named_data o roomid) ≡ some (length o.type_name)
unfolding named_data
name_length o roomid small =
    read16-be16 (length o.type_name) (o.type_name ++ (be32 roomid ++ o.pb_data)) small

module _ (z : Zlib) (inflate : Bytes → Option Bytes) (deflate_bound : ℕ → ℕ)
    (p : Promises z inflate deflate_bound) where
  -- The pack with other data.
  abbrev pub with_data : OutPack → Bytes → OutPack
  with_data o output = record { pb_data = output; type_name = o.type_name }

  pub zip_reset_row-client :
      (rounds : ℕ) (given o : OutPack) (roomid : ℕ) (output : Bytes)
      → length o.type_name ≤ 50
      → length o.pb_data < 2 ^ 31
      → roomid < 2 ^ 32
      → zlib_compress z rounds o.pb_data ≡ done output
      → zip_reset_row z rounds given (client_packet o roomid) ≡ some (with_data o output, roomid)
  unfolding zip_reset_row zip_row
  zip_reset_row-client rounds given o roomid output short small room runs =
      let len = length o.type_name in
      let whole = length o.pb_data + 2 + len + 4 in
      let left : (whole + 2 ^ 32 - (2 + len + 4)) % 2 ^ 32 ≡ length o.pb_data = omega arith in
      rw (
        read32-be32 whole (named_data o roomid) (omega arith),
        drop-outpack whole (named_data o roomid),
        name_length o roomid (omega arith),
        past_head whole 6 2 o roomid refl,
        name_at o roomid,
        copy_front o.type_name (be32 roomid ++ o.pb_data),
        past_head whole (6 + len) (2 + len) o roomid (omega arith),
        room_at o roomid,
        read32-be32 roomid o.pb_data room,
        left,
        lt→ltb (length o.pb_data) (2 ^ 31) small,
        past_head whole (6 + len + 4) (2 + len + 4) o roomid (omega arith),
        data_at o roomid,
        copy_exact o.pb_data,
        runs,
      )

  pub compress_row_msg-client :
      (rounds : ℕ) (o : OutPack) (roomid : ℕ) (output : Bytes)
      → length o.type_name ≤ 50
      → length o.pb_data < 2 ^ 31
      → roomid < 2 ^ 32
      → zlib_compress z rounds o.pb_data ≡ done output
      → compress_row_msg z rounds (client_packet o roomid)
        ≡ new_outpack (with_data o output) 0 (compress_roomid roomid)
  unfolding compress_row_msg
  compress_row_msg-client rounds o roomid output short small room runs =
      rw (zip_reset_row-client rounds empty o roomid output short small room runs)

  pub serialize_msg_with_compress-packs :
      (rounds : ℕ) (pb : Protobuf) (msg : pb.Message) (text : Bytes) (roomid : ℕ) (output : Bytes)
      → pb.serialize msg ≡ (true, text)
      → zlib_compress z rounds text ≡ done output
      → serialize_msg_with_compress z rounds pb msg roomid
        ≡ new_outpack (pack_of pb msg output) 0 (compress_roomid roomid)
  unfolding serialize_msg_with_compress zip_reset zip_output
  serialize_msg_with_compress-packs rounds pb msg text roomid output ok runs = rw (ok, runs)

  -- A packet that new_outpack made for a client (a type name of at most 50 bytes, fewer than 2^31 bytes of data, a room that
  -- fits), compressed by compress_row_msg with rounds for deflateBound of the data, which is below 2^31: the packet is made,
  -- out_reset takes it, with the type name, the room with its highest bit set, and data that inflates to the message's.
  pub compress_row_msg-out_reset :
      (rounds : ℕ) (q : InPack) (o : OutPack) (roomid : ℕ)
      → length o.type_name ≤ 50
      → length o.pb_data < 2 ^ 31
      → roomid < 2 ^ 32
      → deflate_bound (length o.pb_data) < 2 ^ 31
      → deflate_bound (length o.pb_data) < rounds * chunk
      → (packet : Bytes) × (r : InPack) × (compress_row_msg z rounds (client_packet o roomid)
          ≡ some packet)
        × (out_reset q packet (length packet) ≡ some (true, r))
        × (r.type_name ≡ o.type_name)
        × (r.roomid ≡ compress_roomid roomid)
        × (r.pb_data_len ≡ length r.pb_data)
        × (inflate r.pb_data ≡ some o.pb_data)
  compress_row_msg-out_reset rounds q o roomid short small room bound within =
      let (output, runs, same, size) =
        zlib_compress-inflates z inflate deflate_bound p rounds o.pb_data within in
      let high = compress_roomid roomid in
      let (made, read) =
        out_trip q (with_data o output) high short (omega arith) (compress_roomid-lt roomid room) in
      (
        client_packet (with_data o output) high,
        received (record q { data_len = size_of (with_data o output) 4 }) (with_data o output) high,
        compress_row_msg-client rounds o roomid output short small room runs ∙ made,
        read,
        refl,
        refl,
        refl,
        same,
      )

  -- A message that serialize_msg_with_compress packs in the same way.
  pub serialize_msg_with_compress-out_reset :
      (rounds : ℕ) (pb : Protobuf) (msg : pb.Message) (text : Bytes) (q : InPack) (roomid : ℕ)
      → pb.serialize msg ≡ (true, text)
      → length (pb.get_type_name msg) ≤ 50
      → roomid < 2 ^ 32
      → deflate_bound (length text) < 2 ^ 31
      → deflate_bound (length text) < rounds * chunk
      → (packet : Bytes) × (r : InPack) × (serialize_msg_with_compress z rounds pb msg roomid
          ≡ some packet)
        × (out_reset q packet (length packet) ≡ some (true, r))
        × (r.type_name ≡ pb.get_type_name msg)
        × (r.roomid ≡ compress_roomid roomid)
        × (r.pb_data_len ≡ length r.pb_data)
        × (inflate r.pb_data ≡ some text)
  serialize_msg_with_compress-out_reset rounds pb msg text q roomid ok short room bound within =
      let (output, runs, same, size) =
        zlib_compress-inflates z inflate deflate_bound p rounds text within in
      let high = compress_roomid roomid in
      let o : OutPack = pack_of pb msg output in
      let (made, read) = out_trip q o high short (omega arith) (compress_roomid-lt roomid room) in
      (
        client_packet o high,
        received (record q { data_len = size_of o 4 }) o high,
        serialize_msg_with_compress-packs rounds pb msg text roomid output ok runs ∙ made,
        read,
        refl,
        refl,
        refl,
        same,
      )
