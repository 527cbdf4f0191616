-- ===== src/Service/Socket.antt =====
-- ServiceContext of cpp/common/ServiceContext.h: packets to the socket of a client, or to the gate that has it.
mod Tests
use testcluster.Prelude.{
  ℕ, ◌+◌, ◌*◌, ◌^◌, ◌<◌, ◌≤◌, ◌≡◌, Bool, true, false, Option, some, length, leb, ◌==◌,
  if◌then◌else◌,
}
use testcluster.Pack.Order.{Bytes}
use testcluster.Pack.Decode.{Access, ◌>>=◌, Protobuf, copy}
use testcluster.Pack.Encode.{OutPack, pack_of, new_outpack, serialize_msg, serialize_msg_done}
use testcluster.Pack.Delivery.{client_packet, copy_exact}
use testcluster.Pack.Zip.{Zlib, chunk, compress_row_msg, serialize_msg_with_compress}
use testcluster.Pack.Zip.Deflate.{Promises, zlib_compress-inflates}
use testcluster.Pack.Zip.Delivery.{compress_row_msg-client, serialize_msg_with_compress-packs}
use testcluster.Service.Send.{SendResult, skynet_send_noleak, ptype_client}

-- Where a packet goes: through skynet_send_noleak to the gate, or to skynet_socket_send with the id.
pub data SocketSend : Type 0 where
  to_gate : SendResult → SocketSend
  to_socket : ℕ → Bytes → SocketSend

-- A socket_type of 2 is a user who has logged in.
unfoldable pub send_packet : ℕ → ℕ → ℕ → Bytes → SocketSend
send_packet id socket_type gate packet =
    if socket_type == 2
    then to_gate (skynet_send_noleak 0 gate ptype_client true id (some packet))
    else to_socket id packet

-- get_pack_context_id
unfoldable pub next_pack_context_id : ℕ → ℕ
next_pack_context_id id = if leb 65535 id then 0 else id + 1

module _ (z : Zlib) (rounds : ℕ) where
  -- skynet_wrap_socket_send of a message.
  unfoldable pub socket_send_msg :
      (pb : Protobuf) → ℕ → pb.Message → ℕ → ℕ → ℕ → Bool → Option SocketSend
  unfolding send_packet
  socket_send_msg pb id msg roomid socket_type gate compress = do
    packet ←
        if compress
        then serialize_msg_with_compress z rounds pb msg roomid
        else serialize_msg pb msg 0 roomid
    some (send_packet id socket_type gate packet)

  -- skynet_wrap_socket_send of a packet.
  unfoldable pub socket_send_packet : ℕ → Bytes → ℕ → ℕ → ℕ → Bool → Access SocketSend
  unfolding send_packet
  socket_send_packet id memory size socket_type gate compress = do
    given ← copy size memory
    packet ← if compress then compress_row_msg z rounds given else some given
    some (send_packet id socket_type gate packet)

module _ (z : Zlib) (inflate : Bytes → Option Bytes) (deflate_bound : ℕ → ℕ)
    (p : Promises z inflate deflate_bound) (rounds : ℕ) (pb : Protobuf) (msg : pb.Message)
    (text : Bytes) where
  -- To send a message to a client, and to send the packet that serialize_msg makes of it, are the same, compressed or
  -- not: for a message that is serialized to fewer than 2^31 bytes, with a type name of at most 50 bytes and a room that
  -- fits, over a zlib that keeps its promises and with rounds for deflateBound of the message.
  pub socket_send_same :
      (id roomid socket_type gate : ℕ) (compress : Bool)
      → pb.serialize msg ≡ (true, text)
      → length (pb.get_type_name msg) ≤ 50
      → length text < 2 ^ 31
      → roomid < 2 ^ 32
      → deflate_bound (length text) < rounds * chunk
      → (packet : Bytes) × (serialize_msg pb msg 0 roomid ≡ some packet)
        × (socket_send_msg z rounds pb id msg roomid socket_type gate compress
            ≡ socket_send_packet z rounds id packet (length packet) socket_type gate compress)
  unfolding socket_send_msg socket_send_packet new_outpack
  socket_send_same id roomid socket_type gate false ok short small room within =
      let packet = client_packet (pack_of pb msg text) roomid in
      let made : serialize_msg pb msg 0 roomid ≡ some packet =
        serialize_msg_done pb msg text 0 roomid ok in
      (packet, made, rw (made, copy_exact packet))
  socket_send_same id roomid socket_type gate true ok short small room within =
      let o : OutPack = pack_of pb msg text in
      let packet = client_packet o roomid in
      let made : serialize_msg pb msg 0 roomid ≡ some packet =
        serialize_msg_done pb msg text 0 roomid ok in
      let (output, runs, same, size) =
        zlib_compress-inflates z inflate deflate_bound p rounds text within in
      let left =
        serialize_msg_with_compress-packs z inflate deflate_bound p rounds pb msg text roomid output
          ok runs in
      let right =
        compress_row_msg-client z inflate deflate_bound p rounds o roomid output short small room
          runs in
      (packet, made, rw (copy_exact packet, left, right))
