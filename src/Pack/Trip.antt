-- ===== src/Pack/Trip.antt =====
-- A packet that OutPack makes (Pack.cpp) is read by InPack as it was made.
use testcluster.Prelude.{
  ℕ, ◌+◌, ◌-◌, ◌^◌, ◌<◌, ◌≤◌, ◌≡◌, ◌∙◌, refl, true, false, some, ◌++◌, drop, length, length-append,
  take-append_length, drop-append_length, drop-append_past, ltb, ltb_of_le, lt→ltb, leb_of_le,
  Bool-cases, inl, inr, arith,
}
use testcluster.Pack.Order.{Bytes, be16, be32, read16-be16, read32-be32}
use testcluster.Pack.Decode.{InPack, decode_stream, decode_fields, copy}
use testcluster.Pack.Encode.{OutPack, named_data}

-- The pack after the packet of `o` for a room is read.
abbrev pub received : InPack → OutPack → ℕ → InPack
received p o roomid = record p {
  type_name = o.type_name;
  roomid = roomid;
  pb_data = o.pb_data;
  pb_data_len = length o.pb_data;
}

pub length-named_data :
    (o : OutPack) (roomid : ℕ)
    → length (named_data o roomid) ≡ 6 + length o.type_name + length o.pb_data
unfolding named_data be16 be32
length-named_data o roomid =
    let field : length (be32 roomid) ≡ 4 = refl in
    rw
      (
        length-append o.type_name (be32 roomid ++ o.pb_data),
        length-append (be32 roomid) o.pb_data,
        field,
      )
      (omega arith)

pub copy_front : (xs ys : Bytes) → copy (length xs) (xs ++ ys) ≡ some xs
unfolding copy
copy_front xs ys = rw (
  length-append xs ys,
  leb_of_le (length xs) (length xs + length ys) (omega arith),
  take-append_length (length xs) xs ys refl,
)

pub name_at :
    (o : OutPack) (roomid : ℕ)
    → drop 2 (named_data o roomid) ≡ o.type_name ++ (be32 roomid ++ o.pb_data)
unfolding named_data be16 drop
name_at o roomid = refl

pub room_at :
    (o : OutPack) (roomid : ℕ)
    → drop (2 + length o.type_name) (named_data o roomid) ≡ be32 roomid ++ o.pb_data
unfolding named_data be16
room_at o roomid =
    drop-append_past (be16 (length o.type_name)) (o.type_name ++ (be32 roomid ++ o.pb_data))
      (2 + length o.type_name) (length o.type_name) refl
    ∙ drop-append_length (length o.type_name) o.type_name (be32 roomid ++ o.pb_data) refl

pub data_at :
    (o : OutPack) (roomid : ℕ) → drop (2 + length o.type_name + 4) (named_data o roomid) ≡ o.pb_data
unfolding named_data be16 be32 drop
data_at o roomid =
    drop-append_past (be16 (length o.type_name)) (o.type_name ++ (be32 roomid ++ o.pb_data))
      (2 + length o.type_name + 4) (length o.type_name + 4) (omega arith)
    ∙ drop-append_past o.type_name (be32 roomid ++ o.pb_data) (length o.type_name + 4) 4 refl

-- Behind the length of the name.
decode_fields-named_data :
    (p : InPack) (o : OutPack) (roomid : ℕ)
    → roomid < 2 ^ 32
    → decode_fields p
        (named_data o roomid)
        (6 + length o.type_name + length o.pb_data)
        (length o.type_name)
      ≡ some (true, received p o roomid)
unfolding decode_fields
decode_fields-named_data p o roomid room =
    let left : 6 + length o.type_name + length o.pb_data - 2 - length o.type_name - 4
        ≡ length o.pb_data =
      omega arith in
    rw (
      name_at o roomid,
      room_at o roomid,
      data_at o roomid,
      copy_front o.type_name (be32 roomid ++ o.pb_data),
      read32-be32 roomid o.pb_data room,
      left,
    )

pub decode_stream-named_data :
    (p : InPack) (o : OutPack) (roomid : ℕ)
    → length o.type_name ≤ 50
    → roomid < 2 ^ 32
    → decode_stream p (named_data o roomid) (6 + length o.type_name + length o.pb_data)
      ≡ some (true, received p o roomid)
unfolding decode_stream named_data
decode_stream-named_data p o roomid short room =
    let n = length o.type_name in
    let size = 6 + n + length o.pb_data in
    rw
      (
        read16-be16 n (o.type_name ++ (be32 roomid ++ o.pb_data)) (omega arith),
        ltb_of_le size (2 + n + 4) (omega arith),
        ltb_of_le 50 n short,
      )
      (decode_fields-named_data p o roomid room)

-- A name that is too long is refused, whatever the size.
pub decode_stream_refuses :
    (p : InPack) (o : OutPack) (roomid size : ℕ)
    → 50 < length o.type_name
    → length o.type_name < 2 ^ 16
    → decode_stream p (named_data o roomid) size ≡ some (false, p)
unfolding decode_stream named_data
decode_stream_refuses p o roomid size long word =
    let n = length o.type_name in
    rw (read16-be16 n (o.type_name ++ (be32 roomid ++ o.pb_data)) word, lt→ltb 50 n long)
      (elim (Bool-cases (ltb size (2 + n + 4))) [ inl e ↦ rw (e) | inr e ↦ rw (e) ])
