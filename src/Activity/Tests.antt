-- ===== src/Activity/Tests.antt =====
-- A packet for user 257 with three services, and the packet of all users.
use testcluster.Prelude.{ℕ, ◌≡◌, refl, some, List, [], ◌∷◌, map, true, arith}
use testcluster.Pack.Order.{Bytes}
use testcluster.Pack.Decode.{Protobuf}
use testcluster.Pack.Encode.{serialize_imsg_type}
use testcluster.Protopack.{LuaProtobuf}
use testcluster.Protopack.Interop.{SameMessage}
use testcluster.Prelude.Int.{pos}
use testcluster.Activity.{get_addrs, insert_service, text}
use testcluster.Activity.Routing.{IsRoute, text_routed}

abbrev ping : Bytes
ping = b'p' ∷ b'i' ∷ b'n' ∷ b'g' ∷ []

-- Messages that are their own bytes.
abbrev plain : Protobuf
plain = record {
  Message = Bytes;
  parse = λ name text. some text;
  serialize = λ message. (true, message);
  get_type_name = λ message. ping;
}

abbrev plain_lua : LuaProtobuf
plain_lua = record {
  Message = Bytes;
  encode = λ name message. message;
  decode = λ name text. some text;
}

abbrev body : Bytes
body = 8 ∷ 1 ∷ []

abbrev body_same : SameMessage plain plain_lua body body
body_same = record {
  text = body;
  serialized = refl;
  encoded = refl;
  short = omega arith;
  small = omega arith;
}

abbrev services : List ℕ
services = 21 ∷ 22 ∷ 23 ∷ []

abbrev first_one : ℕ → ℕ
first_one size = 0

one_service : get_addrs first_one services (some (pos 257)) ≡ some (23 ∷ [])
unfolding get_addrs insert_service
one_service = refl

all_services : get_addrs first_one services (some (pos 0)) ≡ some services
unfolding get_addrs
all_services = refl

text_routed_example :
    (addrs : List ℕ) × IsRoute services 257 addrs
    × (text first_one plain_lua services (serialize_imsg_type plain body 257 3 5)
        ≡ some (map (λ addr. (addr, serialize_imsg_type plain body 257 3 5)) addrs))
text_routed_example =
    text_routed first_one services (omega arith) (omega arith) plain plain_lua body body body_same
      257 5 3 (omega arith) (omega arith)
