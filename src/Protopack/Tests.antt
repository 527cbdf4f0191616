-- ===== src/Protopack/Tests.antt =====
-- Packets of lua/lib/protopack.lua, and its theorems at a concrete message.
use testcluster.Prelude.{◌≡◌, refl, true, some, [], ◌∷◌, arith}
use testcluster.Pack.Order.{Bytes}
use testcluster.Pack.Decode.{Protobuf}
use testcluster.Pack.Encode.{serialize_msg, serialize_imsg, serialize_imsg_type, subtype_agent}
use testcluster.Protopack.{
  LuaProtobuf, pack_raw, unpack_raw, pack_agent, unpack_agent, pack, unpack,
}
use testcluster.Protopack.Interop.{SameMessage, packs_the_same, reads_the_same}

abbrev ping : Bytes
ping = b'p' ∷ b'i' ∷ b'n' ∷ b'g' ∷ []

-- Messages that are their own bytes.
abbrev plain : Protobuf
plain = record {
  Message = Bytes;
  parse = λ name text. some text;
  serialize = λ message. (true, message);
  get_type_name = λ message. ping;
}

abbrev plain_lua : LuaProtobuf
plain_lua = record {
  Message = Bytes;
  encode = λ name message. message;
  decode = λ name text. some text;
}

abbrev body : Bytes
body = 8 ∷ 1 ∷ []

abbrev body_same : SameMessage plain plain_lua body body
body_same = record {
  text = body;
  serialized = refl;
  encoded = refl;
  short = omega arith;
  small = omega arith;
}

packs_the_same_example :
    (pack_raw plain_lua 3 258 ping body (some 5) ≡ some (serialize_imsg_type plain body 258 3 5))
    × (pack plain_lua ping body (some 5) ≡ serialize_msg plain body 0 5)
    × (pack_agent plain_lua subtype_agent ping body (some 5)
        ≡ serialize_msg plain body subtype_agent 5)
packs_the_same_example =
    packs_the_same plain plain_lua body body body_same 258 5 (omega arith) (omega arith) 3
      (omega arith)

reads_the_same_example :
    (unpack_raw plain_lua (serialize_imsg_type plain body 258 3 5) ≡ some (258, ping, some body))
    × (unpack_agent plain_lua (serialize_imsg plain body 258 5) ≡ some (258, ping, some body))
    × ((packet : Bytes) × (serialize_msg plain body 0 5 ≡ some packet)
        × (unpack plain_lua packet ≡ some (ping, some body)))
reads_the_same_example =
    reads_the_same plain plain_lua body body body_same 258 5 (omega arith) (omega arith) 3
