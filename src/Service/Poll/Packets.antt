-- ===== src/Service/Poll/Packets.antt =====
-- The packets that services exchange, as service_poll (cpp/common/Service.cpp) takes them apart.
use testcluster.Prelude.{ℕ, ◌^◌, ◌<◌, ◌≡◌, true, some, ◌++◌, length, drop, length-append, arith}
use testcluster.Pack.Order.{
  Bytes, be32, read32, hton64, read32-be32, load64-store64, ntoh64-hton64, hton64-lt,
}
use testcluster.Pack.Decode.{
  InPack, Protobuf, new_in_pack, inner_reset, less, create_message, get_uid_from_stream,
}
use testcluster.Pack.Encode.{
  OutPack, pack_of, named_data, new_innerpack, serialize_imsg_type, serialize_imsg_type_done,
}
use testcluster.Pack.Trip.{received}
use testcluster.Pack.Delivery.{size_of, inner_trip, created, length-innerpack, drop-outpack}
use testcluster.Service.Rpc.Trip.{Sendable, Parses}

module _ (pb : Protobuf) (message : pb.Message) (s : Sendable pb message)
    (uid sub_type roomid : ℕ) where
  abbrev pub pack : OutPack
  pack = pack_of pb message s.text

  -- What is behind the sub_type.
  abbrev pub inner : Bytes
  inner = new_innerpack pack uid roomid

  abbrev pub packet : Bytes
  packet = serialize_imsg_type pb message uid sub_type roomid

  -- What the decoder makes of it.
  abbrev pub decoded : InPack
  decoded = received (record new_in_pack { data_len = size_of pack 8; uid = uid }) pack roomid

  pub packet_eq : packet ≡ be32 sub_type ++ inner
  packet_eq = serialize_imsg_type_done pb message s.text uid sub_type roomid s.done

  pub read32-packet : sub_type < 2 ^ 32 → read32 packet ≡ some sub_type
  read32-packet small = rw (packet_eq) (read32-be32 sub_type inner small)

  pub drop-packet : drop 4 packet ≡ inner
  drop-packet = rw (packet_eq) (drop-outpack sub_type inner)

  pub less-length : less (length packet) 4 ≡ length inner
  unfolding less be32
  less-length =
      let size : length inner ≡ size_of pack 8 = length-innerpack pack uid roomid in
      let small = s.small in
      let short = s.short in rw (packet_eq, length-append (be32 sub_type) inner, size) (omega arith)

  pub uid-inner : uid < 2 ^ 64 → get_uid_from_stream inner ≡ some uid
  unfolding get_uid_from_stream new_innerpack
  uid-inner wide =
      rw (
        load64-store64 (hton64 uid) (named_data pack roomid) (hton64-lt uid),
        ntoh64-hton64 uid wide,
      )

  pub inner_reset-inner :
      uid < 2 ^ 64
      → roomid < 2 ^ 32
      → inner_reset new_in_pack inner (length inner) ≡ some (true, decoded)
  inner_reset-inner wide room = inner_trip new_in_pack pack uid roomid s.short s.small wide room

  pub created-decoded : Parses pb → create_message pb decoded ≡ some (some message)
  created-decoded parses =
      created pb parses message s.text s.done s.short s.small
        (record new_in_pack { data_len = size_of pack 8; uid = uid }) roomid
