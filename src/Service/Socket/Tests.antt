-- ===== src/Service/Socket/Tests.antt =====
-- Packets to a socket (cpp/common/ServiceContext.h), with the zlib that stores.
use testcluster.Prelude.{◌≡◌, refl, true, some, [], ◌∷◌, length, arith}
use testcluster.Pack.Order.{Bytes}
use testcluster.Pack.Decode.{Protobuf}
use testcluster.Pack.Encode.{serialize_msg}
use testcluster.Pack.Zip.Store.{store, same_bytes, same_size, store-Promises}
use testcluster.Service.Socket.{
  socket_send_msg, socket_send_packet, socket_send_same, next_pack_context_id,
}

abbrev plain : Protobuf
plain = record {
  Message = Bytes;
  parse = λ name text. some text;
  serialize = λ message. (true, message);
  get_type_name = λ message. b'p' ∷ [];
}

abbrev message : Bytes
message = 1 ∷ 2 ∷ []

context_id_run : next_pack_context_id 65535 ≡ 0
unfolding next_pack_context_id
context_id_run = refl

socket_send_same_example :
    (packet : Bytes) × (serialize_msg plain message 0 5 ≡ some packet)
    × (socket_send_msg store 2 plain 3 message 5 2 9 true
        ≡ socket_send_packet store 2 3 packet (length packet) 2 9 true)
socket_send_same_example =
    socket_send_same store same_bytes same_size store-Promises 2 plain message message 3 5 2 9 true
      refl (omega arith) (omega arith) (omega arith) (omega arith)
