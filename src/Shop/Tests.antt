-- ===== src/Shop/Tests.antt =====
-- The shop (cpp/shop) at small messages, and its theorem at a concrete one.
use testcluster.Prelude.{◌≡◌, refl, true, some, [], ◌∷◌, ◌++◌}
use testcluster.Pack.Order.{Bytes}
use testcluster.Pack.Decode.{Protobuf}
use testcluster.Text.Number.{to_string}
use testcluster.Text.Parm.{TextParm}
use testcluster.Service.Table.{same_name}
use testcluster.Shop.{cmd, cmd_ping, pong, response}

abbrev plain : Protobuf
plain = record {
  Message = Bytes;
  parse = λ name text. some text;
  serialize = λ message. (true, message);
  get_type_name = λ message. [];
}

abbrev uid : Bytes
uid = b'4' ∷ b'2' ∷ []

abbrev parm : TextParm
parm = record { entries = (cmd, cmd_ping) ∷ []; stream = [] }

response_run :
    response 1700000000 cmd_ping
    ≡ pong ++ b'1' ∷ b'7' ∷ b'0' ∷ b'0' ∷ b'0' ∷ b'0' ∷ b'0' ∷ b'0' ∷ b'0' ∷ b'0' ∷ []
unfolding response same_name to_string
response_run = refl
