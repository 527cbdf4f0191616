-- ===== src/Service/Rpc/Trip.antt =====
-- A remote call and its answer, through both services (RPC.cpp and the sub_type that Service::service_poll of
-- cpp/common/Service.cpp takes off).
use testcluster.Prelude.{
  ℕ, ◌-◌, ◌^◌, ◌<◌, ◌≤◌, ◌≡◌, true, some, ◌++◌, length, drop, ◌==◌, length-append, arith,
}
use testcluster.Pack.Order.{Bytes, be32}
use testcluster.Pack.Decode.{InPack, Protobuf, new_in_pack, inner_reset}
use testcluster.Pack.Encode.{
  OutPack, pack_of, new_innerpack, serialize_imsg_type, serialize_imsg_type_done,
}
use testcluster.Pack.Trip.{received}
use testcluster.Pack.Delivery.{size_of, inner_trip, created, drop-outpack}
use testcluster.Service.Table.{same_name, find}
use testcluster.Service.Rpc.{
  func, RpcClient, Runs, rpc_event_client, answer, RpcServer, Serves, rpc_event_server,
  rpc_init_server, serve,
}

-- What is behind the sub_type of a packet.
abbrev pub behind : Bytes → Bytes
behind packet = drop 4 packet

-- A message that can be serialized, to `text`, into a packet that the decoder takes.
pub record Sendable (pb : Protobuf) (message : pb.Message) : Type 0 where
  pub text : Bytes
  pub done : pb.serialize message ≡ (true, text)
  pub short : length (pb.get_type_name message) ≤ 50
  pub small : length text < 2 ^ 31

-- What a message is serialized to is parsed, under its type name, to it.
abbrev pub Parses : Protobuf → Type 0
Parses pb =
    (m : pb.Message) (text : Bytes)
    → pb.serialize m ≡ (true, text)
    → pb.parse (pb.get_type_name m) text ≡ some m

length_behind : (n : ℕ) (rest : Bytes) → length (be32 n ++ rest) - 4 ≡ length rest
unfolding be32
length_behind n rest = rw (length-append (be32 n) rest) (omega arith)

module _ (pb : Protobuf) (parses : Parses pb) (message : pb.Message) (s : Sendable pb message) where
  abbrev pack : OutPack
  pack = pack_of pb message s.text

  abbrev head : ℕ → InPack
  head uid = record new_in_pack { data_len = size_of pack 8; uid = uid }

  abbrev packet : ℕ → ℕ → Bytes
  packet uid sub_type = serialize_imsg_type pb message uid sub_type 0

  -- Behind the sub_type is the packet for a service.
  read_back :
      (uid sub_type : ℕ)
      → uid < 2 ^ 64
      → inner_reset new_in_pack (behind (packet uid sub_type)) (length (packet uid sub_type) - 4)
        ≡ some (true, received (head uid) pack 0)
  read_back uid sub_type wide =
      let inner = new_innerpack pack uid 0 in
      let size : length (be32 sub_type ++ inner) - 4 ≡ length inner =
        length_behind sub_type inner in
      rw
        (
          serialize_imsg_type_done pb message s.text uid sub_type 0 s.done,
          size,
          drop-outpack sub_type inner,
        )
        (inner_trip new_in_pack pack uid 0 s.short s.small wide (omega arith))

  -- The client's callback is run with the message, and its session is forgotten.
  pub client_answers :
      {F W : Type 0} (run : Runs pb F W) (c : RpcClient F W) (f : F) (uid sub_type session : ℕ)
      → uid < 2 ^ 64
      → find ◌==◌ session c.rpc ≡ some (func f)
      → rpc_event_client pb run c
          (behind (packet uid sub_type))
          (length (packet uid sub_type) - 4)
          session
        ≡ some (answer pb run f session c (some message))
  unfolding rpc_event_client
  client_answers run c f uid sub_type session wide waiting =
      let parsed = created pb parses message s.text s.done s.short s.small (head uid) 0 in
      rw (waiting, rpc_event_client, read_back uid sub_type wide, parsed)

  -- The server's callback is run with the message.
  pub server_serves :
      {G W : Type 0} (run : Serves pb G W) (server : RpcServer G W) (g : G)
      (uid sub_type source session : ℕ)
      → uid < 2 ^ 64
      → find same_name (pb.get_type_name message) server.callbacks ≡ some g
      → rpc_event_server pb run
          (rpc_init_server server)
          (behind (packet uid sub_type))
          (length (packet uid sub_type) - 4)
          source
          session
        ≡ some (serve pb run g (rpc_init_server server) source session uid (some message))
  unfolding rpc_event_server rpc_init_server
  server_serves run server g uid sub_type source session wide registered =
      let parsed = created pb parses message s.text s.done s.short s.small (head uid) 0 in
      rw (read_back uid sub_type wide, registered, parsed)
