-- ===== src/Pack/Delivery.antt =====
-- From serialize_msg, serialize_imsg and serialize_imsg_type to create_message (Pack.cpp).
use testcluster.Prelude.{
  ℕ, zero, suc, ◌+◌, ◌^◌, ◌<◌, ◌≤◌, ◌≡◌, ◌∙◌, refl, true, false, some, ◌++◌, drop, take_all, length,
  length-append, leb_of_le, arith,
}
use testcluster.Pack.Order.{
  Bytes, be32, store64, hton64, read32-be32, load64-store64, ntoh64-hton64, hton64-lt,
}
use testcluster.Pack.Decode.{
  InPack, Protobuf, known_size, copy, less, inner_reset, out_reset, create_message,
}
use testcluster.Pack.Encode.{
  OutPack, named_data, new_outpack, new_innerpack, serialize_msg, serialize_imsg, pack_of,
  serialize_imsg_done, serialize_msg_done,
}
use testcluster.Pack.Trip.{
  received, length-named_data, decode_stream-named_data, decode_stream_refuses,
}

-- The packet of `o` for a room, of `size` bytes in all.
abbrev pub size_of : OutPack → ℕ → ℕ
size_of o front = front + (6 + length o.type_name + length o.pb_data)

-- A size that is not 0 is taken as it is given.
pub known_size_given : (memory : Bytes) (n : ℕ) → 1 ≤ n → known_size memory n ≡ some n
unfolding known_size
known_size_given memory zero h = absurd (omega arith)
known_size_given memory (suc n) h = refl

pub length-innerpack :
    (o : OutPack) (uid roomid : ℕ) → length (new_innerpack o uid roomid) ≡ size_of o 8
unfolding new_innerpack store64
length-innerpack o uid roomid =
    let e = length-named_data o roomid in
    rw (length-append (store64 (hton64 uid)) (named_data o roomid), e)

length-outpack : (o : OutPack) (n roomid : ℕ) → length (be32 n ++ named_data o roomid) ≡ size_of o 4
unfolding be32
length-outpack o n roomid =
    let e = length-named_data o roomid in rw (length-append (be32 n) (named_data o roomid), e)

drop-innerpack : (n : ℕ) (rest : Bytes) → drop 8 (store64 n ++ rest) ≡ rest
unfolding store64 drop
drop-innerpack n rest = refl

pub drop-outpack : (n : ℕ) (rest : Bytes) → drop 4 (be32 n ++ rest) ≡ rest
unfolding be32 drop
drop-outpack n rest = refl

-- A packet for a service, of a name of at most 50 bytes, is read as it was made.
pub inner_trip :
    (p : InPack) (o : OutPack) (uid roomid : ℕ)
    → length o.type_name ≤ 50
    → length o.pb_data < 2 ^ 31
    → uid < 2 ^ 64
    → roomid < 2 ^ 32
    → inner_reset p (new_innerpack o uid roomid) (length (new_innerpack o uid roomid))
      ≡ some (true, received (record p { data_len = size_of o 8; uid = uid }) o roomid)
unfolding inner_reset new_innerpack less
inner_trip p o uid roomid short small wide room =
    let left : less (size_of o 8) 8 ≡ 6 + length o.type_name + length o.pb_data = omega arith in
    rw
      (
        length-innerpack o uid roomid,
        known_size_given (new_innerpack o uid roomid) (size_of o 8) (omega arith),
        load64-store64 (hton64 uid) (named_data o roomid) (hton64-lt uid),
        drop-innerpack (hton64 uid) (named_data o roomid),
        ntoh64-hton64 uid wide,
        left,
      )
      (decode_stream-named_data (record p { data_len = size_of o 8; uid = uid }) o roomid short
        room)

-- The packet for a client.
abbrev pub client_packet : OutPack → ℕ → Bytes
client_packet o roomid = be32 (length o.pb_data + 2 + length o.type_name + 4) ++ named_data o roomid

-- A packet for a client (sub_type 0), of a name of at most 50 bytes, is made and is read as it was made.
pub out_trip :
    (p : InPack) (o : OutPack) (roomid : ℕ)
    → length o.type_name ≤ 50
    → length o.pb_data < 2 ^ 31
    → roomid < 2 ^ 32
    → (new_outpack o 0 roomid ≡ some (client_packet o roomid))
      × (out_reset p (client_packet o roomid) (length (client_packet o roomid))
          ≡ some (true, received (record p { data_len = size_of o 4 }) o roomid))
unfolding out_reset new_outpack less
out_trip p o roomid short small room =
    let whole = length o.pb_data + 2 + length o.type_name + 4 in
    let left : less (size_of o 4) 4 ≡ 6 + length o.type_name + length o.pb_data = omega arith in
    (
      refl,
      rw
          (
            length-outpack o whole roomid,
            known_size_given (client_packet o roomid) (size_of o 4) (omega arith),
            read32-be32 whole (named_data o roomid) (omega arith),
            drop-outpack whole (named_data o roomid),
            left,
          )
          (decode_stream-named_data (record p { data_len = size_of o 4 }) o roomid short room),
    )

-- The encoder does not check the length of the type name: from 51 to 65535 bytes, with fewer than 2^31
-- bytes of data, it makes packets for a service and for a client that the decoder refuses.
pub long_type_name :
    (p : InPack) (o : OutPack) (uid roomid : ℕ)
    → 50 < length o.type_name
    → length o.type_name < 2 ^ 16
    → length o.pb_data < 2 ^ 31
    → uid < 2 ^ 64
    → (inner_reset p (new_innerpack o uid roomid) (length (new_innerpack o uid roomid))
        ≡ some (false, record p { data_len = size_of o 8; uid = uid }))
      × (new_outpack o 0 roomid ≡ some (client_packet o roomid))
      × (out_reset p (client_packet o roomid) (length (client_packet o roomid))
          ≡ some (false, record p { data_len = size_of o 4 }))
unfolding inner_reset out_reset new_innerpack new_outpack
long_type_name p o uid roomid long word small wide =
    let whole = length o.pb_data + 2 + length o.type_name + 4 in
    (
      rw
          (
            length-innerpack o uid roomid,
            known_size_given (new_innerpack o uid roomid) (size_of o 8) (omega arith),
            load64-store64 (hton64 uid) (named_data o roomid) (hton64-lt uid),
            drop-innerpack (hton64 uid) (named_data o roomid),
            ntoh64-hton64 uid wide,
          )
          (decode_stream_refuses (record p { data_len = size_of o 8; uid = uid }) o roomid
            (less (size_of o 8) 8) long word),
      refl,
      rw
          (
            length-outpack o whole roomid,
            known_size_given (client_packet o roomid) (size_of o 4) (omega arith),
            read32-be32 whole (named_data o roomid) (omega arith),
            drop-outpack whole (named_data o roomid),
          )
          (decode_stream_refuses (record p { data_len = size_of o 4 }) o roomid
            (less (size_of o 4) 4) long word),
    )

-- What a packet is asked for after it was read: the uid, the room, and the message.
abbrev pub Holds : (pb : Protobuf) → pb.Message → ℕ → ℕ → InPack → Type 0
Holds pb message uid roomid p =
    (p.uid ≡ uid) × (p.roomid ≡ roomid) × (create_message pb p ≡ some (some message))

pub copy_exact : (xs : Bytes) → copy (length xs) xs ≡ some xs
unfolding copy
copy_exact xs =
    let enough : length xs ≤ length xs = omega arith in
    rw (leb_of_le (length xs) (length xs) enough, take_all (length xs) xs enough)

-- The hypothesis on protobuf: what a message is serialized to is parsed, under its type name, to it.
module _ (pb : Protobuf)
    (parse-serialize : (m : pb.Message) (text : Bytes)
      → pb.serialize m ≡ (true, text)
      → pb.parse (pb.get_type_name m) text ≡ some m)
    (message : pb.Message) (text : Bytes) (done : pb.serialize message ≡ (true, text))
    (short : length (pb.get_type_name message) ≤ 50) (small : length text < 2 ^ 31) where
  abbrev made : OutPack
  made = pack_of pb message text

  pub created :
      (p : InPack) (roomid : ℕ) → create_message pb (received p made roomid) ≡ some (some message)
  unfolding create_message
  created p roomid = rw (copy_exact text, parse-serialize message text done)

  -- A message that serialize_imsg packs (serialized to fewer than 2^31 bytes, with a type name of at most 50 bytes, and
  -- parsed back by protobuf) is what inner_reset and create_message give, with its uid and room, if these fit.
  pub message_to_service :
      (p : InPack) (uid roomid : ℕ)
      → uid < 2 ^ 64
      → roomid < 2 ^ 32
      → (q : InPack) × (inner_reset p
            (serialize_imsg pb message uid roomid)
            (length (serialize_imsg pb message uid roomid))
          ≡ some (true, q))
        × Holds pb message uid roomid q
  message_to_service p uid roomid wide room =
      let head : InPack = record p { data_len = size_of made 8; uid = uid } in
      rw (serialize_imsg_done pb message text uid roomid done) (
        received head made roomid,
        inner_trip p made uid roomid short small wide room,
        (refl, refl, created head roomid),
      )

  -- A message that serialize_msg packs for a client (sub_type 0; serialized to fewer than 2^31 bytes, with a type name of
  -- at most 50 bytes, and parsed back by protobuf) is what out_reset and create_message give; the uid is
  -- left as it was.
  pub message_to_client :
      (p : InPack) (roomid : ℕ)
      → roomid < 2 ^ 32
      → (packet : Bytes) × (serialize_msg pb message 0 roomid ≡ some packet)
        × (q : InPack) × (out_reset p packet (length packet) ≡ some (true, q))
        × Holds pb message p.uid roomid q
  message_to_client p roomid room =
      let head : InPack = record p { data_len = size_of made 4 } in
      let (packed, read) = out_trip p made roomid short small room in
      (
        client_packet made roomid,
        serialize_msg_done pb message text 0 roomid done ∙ packed,
        received head made roomid,
        read,
        (refl, refl, created head roomid),
      )
