-- ===== src/Pack/Decode.antt =====
-- InPack of cpp/common/Pack.h and Pack.cpp: the decoding of packets. A pointer to received data is the
-- memory from there on; `size` is the uint32_t that the caller passes with it.
use testcluster.Prelude.{
  ℕ, zero, suc, ◌+◌, ◌-◌, ◌%◌, ◌^◌, Bool, true, false, ◌||◌, Option, none, some, [], ◌∷◌, take,
  drop, length, ltb, leb, ◌==◌, if◌then◌else◌,
}
use testcluster.Pack.Order.{Bytes, read16, read32, load64, ntoh64}

-- The state of an InPack. `pb_data` is the memory that m_pb_data points to; an int32_t and an int64_t
-- are kept as their bit patterns. m_data, which nothing reads, is left out.
pub record InPack : Type 0 where
  pub type_name : Bytes
  pub roomid : ℕ
  pub data_len : ℕ
  pub pb_data : Bytes
  pub pb_data_len : ℕ
  pub uid : ℕ

-- A result, or a read outside the memory.
abbrev pub Access {ℓ} : Type ℓ → Type ℓ
Access A = Option A

infixl 5 ◌>>=◌
abbrev pub ◌>>=◌ {ℓ κ} : {A : Type ℓ} {B : Type κ} → Access A → (A → Access B) → Access B
none >>= f = none
some a >>= f = f a

abbrev pub type_name_len : ℕ
type_name_len = 2

abbrev pub max_type_name_len : ℕ
max_type_name_len = 50

abbrev pub roomid_len : ℕ
roomid_len = 4

abbrev pub message_len : ℕ
message_len = 4

-- InPack::InPack()
unfoldable pub new_in_pack : InPack
new_in_pack = record {
  type_name = [];
  roomid = 0;
  data_len = 0;
  pb_data = [];
  pb_data_len = 0;
  uid = 0;
}

-- memcpy of `n` bytes.
unfoldable pub copy : ℕ → Bytes → Access Bytes
copy n memory = if leb n (length memory) then some (take n memory) else none

-- strlen
unfoldable pub strlen : Bytes → Access ℕ
strlen [] = none
strlen (c ∷ rest) = let more = strlen rest in if c == 0 then some 0 else (do n ← more; some (n + 1))

-- The fields behind the length of the type name, once the head is known to fit.
unfoldable pub decode_fields : InPack → Bytes → ℕ → ℕ → Access (Bool × InPack)
decode_fields p memory size name_len = do
  name ← copy name_len (drop type_name_len memory)
  room ← read32 (drop (type_name_len + name_len) memory)
  some (
    true,
    record p {
      type_name = name;
      roomid = room;
      pb_data = drop (type_name_len + name_len + roomid_len) memory;
      pb_data_len = size - type_name_len - name_len - roomid_len;
    },
  )

unfoldable pub decode_stream : InPack → Bytes → ℕ → Access (Bool × InPack)
unfolding decode_fields
decode_stream p memory size = do
  name_len ← read16 memory
  if ltb size (type_name_len + name_len + roomid_len) || ltb max_type_name_len name_len
      then some (false, p)
      else decode_fields p memory size name_len

-- A size of 0 stands for a C string.
unfoldable pub known_size : Bytes → ℕ → Access ℕ
unfolding strlen
known_size memory zero = do n ← strlen memory; some (n % 2 ^ 32)
known_size memory (suc size) = some (suc size)

-- Without a uid.
unfoldable pub reset : InPack → Bytes → ℕ → Access (Bool × InPack)
unfolding known_size
reset p memory given = do
  size ← known_size memory given
  decode_stream (record p { data_len = size }) memory size

-- `size -= n` on a uint32_t wraps.
unfoldable pub less : ℕ → ℕ → ℕ
less size n = (size + 2 ^ 32 - n) % 2 ^ 32

-- With the length of the whole message in front, which is read and not used.
unfoldable pub out_reset : InPack → Bytes → ℕ → Access (Bool × InPack)
unfolding known_size less
out_reset p memory given = do
  size ← known_size memory given
  pack_head ← read32 memory
  decode_stream (record p { data_len = size }) (drop message_len memory) (less size message_len)

-- With a uid in front.
unfoldable pub inner_reset : InPack → Bytes → ℕ → Access (Bool × InPack)
unfolding known_size less
inner_reset p memory given = do
  size ← known_size memory given
  uid ← load64 memory
  decode_stream (record p { data_len = size; uid = ntoh64 uid }) (drop 8 memory) (less size 8)

-- get_uid_from_stream of a pointer that is not NULL.
unfoldable pub get_uid_from_stream : Bytes → Access ℕ
get_uid_from_stream memory = do uid ← load64 memory; some (ntoh64 uid)

-- What the program uses of protobuf: messages by type name, with their bytes. `serialize` gives the result of
-- SerializeToString and what it leaves in the string.
pub record Protobuf : Type 1 where
  pub Message : Type 0
  pub parse : Bytes → Bytes → Option Message
  pub serialize : Message → Bool × Bytes
  pub get_type_name : Message → Bytes

-- InPack::create_message: NULL if the type is unknown or the data does not parse.
unfoldable pub create_message : (pb : Protobuf) → InPack → Access (Option pb.Message)
unfolding copy
create_message pb p = do
  data_bytes ← copy p.pb_data_len p.pb_data
  some (pb.parse p.type_name data_bytes)
