-- ===== src/Pack/Tests.antt =====
-- Runs of InPack and OutPack (cpp/common/Pack.cpp) on small packets, and their theorems at concrete inputs.
use testcluster.Prelude.{
  ◌≡◌, ◌↔◌, ◌<◌, refl, ap, sym, true, false, none, some, [], ◌∷◌, length, replicate, arith,
}
use testcluster.Pack.Order.{Bytes, be16, be32, store64, ntoh64, hton64, load64, high_first}
use testcluster.Pack.Decode.{InPack, Protobuf, new_in_pack, inner_reset, out_reset}
use testcluster.Pack.Encode.{
  OutPack, named_data, new_outpack, new_innerpack, serialize_imsg, serialize_msg,
}
use testcluster.Pack.Delivery.{
  size_of, client_packet, Holds, long_type_name, message_to_service, message_to_client,
}
use testcluster.Pack.Bounds.{inner_reset_bounds, out_reset_bounds}

abbrev ping : Bytes
ping = b'p' ∷ b'i' ∷ b'n' ∷ b'g' ∷ []

abbrev pack : OutPack
pack = record { pb_data = 8 ∷ 1 ∷ []; type_name = ping }

-- Messages that are their own bytes.
abbrev plain : Protobuf
plain = record {
  Message = Bytes;
  parse = λ name text. some text;
  serialize = λ message. (true, message);
  get_type_name = λ message. ping;
}

same_text : (m text : Bytes) → plain.serialize m ≡ (true, text) → some text ≡ some m
same_text m text e = ap (λ r. some (r.1)) (sym e)

client_bytes :
    new_outpack pack 0 5
    ≡ some (0 ∷ 0 ∷ 0 ∷ 12 ∷ 0 ∷ 4 ∷ b'p' ∷ b'i' ∷ b'n' ∷ b'g' ∷ 0 ∷ 0 ∷ 0 ∷ 5 ∷ 8 ∷ 1 ∷ [])
unfolding new_outpack named_data be16 be32
client_bytes = refl

service_bytes :
    new_innerpack pack 258 5
    ≡ 0 ∷ 0 ∷ 0 ∷ 0 ∷ 0 ∷ 0 ∷ 1 ∷ 2 ∷ 0 ∷ 4 ∷ b'p' ∷ b'i' ∷ b'n' ∷ b'g' ∷ 0 ∷ 0 ∷ 0 ∷ 5 ∷ 8 ∷ 1 ∷ []
unfolding new_innerpack named_data be16 be32 store64 hton64 ntoh64 load64 high_first
service_bytes = refl

message_to_service_example :
    (q : InPack) × (inner_reset new_in_pack
        (serialize_imsg plain (8 ∷ 1 ∷ []) 258 5)
        (length (serialize_imsg plain (8 ∷ 1 ∷ []) 258 5))
      ≡ some (true, q))
    × Holds plain (8 ∷ 1 ∷ []) 258 5 q
message_to_service_example =
    message_to_service plain same_text (8 ∷ 1 ∷ []) (8 ∷ 1 ∷ []) refl (omega arith) (omega arith)
      new_in_pack 258 5 (omega arith) (omega arith)

message_to_client_example :
    (packet : Bytes) × (serialize_msg plain (8 ∷ 1 ∷ []) 0 5 ≡ some packet)
    × (q : InPack) × (out_reset new_in_pack packet (length packet) ≡ some (true, q))
    × Holds plain (8 ∷ 1 ∷ []) (new_in_pack.uid) 5 q
message_to_client_example =
    message_to_client plain same_text (8 ∷ 1 ∷ []) (8 ∷ 1 ∷ []) refl (omega arith) (omega arith)
      new_in_pack 5 (omega arith)

abbrev long_pack : OutPack
long_pack = record { pb_data = 8 ∷ 1 ∷ []; type_name = replicate 51 b'a' }

long_type_name_example :
    (inner_reset new_in_pack
        (new_innerpack long_pack 258 5)
        (length (new_innerpack long_pack 258 5))
      ≡ some (false, record new_in_pack { data_len = size_of long_pack 8; uid = 258 }))
    × (new_outpack long_pack 0 5 ≡ some (client_packet long_pack 5))
    × (out_reset new_in_pack (client_packet long_pack 5) (length (client_packet long_pack 5))
        ≡ some (false, record new_in_pack { data_len = size_of long_pack 4 }))
unfolding replicate
long_type_name_example =
    long_type_name new_in_pack long_pack 258 5 (omega arith) (omega arith) (omega arith)
      (omega arith)

inner_reset_bounds_example : (inner_reset new_in_pack (0 ∷ 0 ∷ []) 2 ≡ none) ↔ (2 < 10)
inner_reset_bounds_example = inner_reset_bounds new_in_pack (0 ∷ 0 ∷ []) (omega arith) (omega arith)

out_reset_bounds_example : (out_reset new_in_pack (0 ∷ 0 ∷ []) 2 ≡ none) ↔ (2 < 6)
out_reset_bounds_example = out_reset_bounds new_in_pack (0 ∷ 0 ∷ []) (omega arith) (omega arith)
