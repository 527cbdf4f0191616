-- ===== src/Shop/Ping.antt =====
-- What the shop (cpp/shop/Shop.cpp) answers to a text message from Lua, through service_poll of cpp/common/Service.cpp.
use testcluster.Prelude.{ℕ, ◌∷◌, ◌++◌, ◌==◌, if◌then◌else◌}
use testcluster.Pack.Order.{Bytes, be32}
use testcluster.Text.Parm.{TextParm, serilize}
use testcluster.Service.Send.{ptype_response}
use testcluster.Service.Rpc.Exchange.{sends}
use testcluster.Service.State.{Service}
use testcluster.Service.Poll.{subtype_plain_text}
use testcluster.Service.Outgoing.{post}
use testcluster.Shop.{lua, ShopCallback}

-- "lua", the uid, and what serilize makes of the parameters, with its end mark.
abbrev pub command_text : Bytes → TextParm → Bytes
command_text uid p = lua ++ 32 ∷ (uid ++ 32 ∷ ((serilize p).0))

-- The packet.
abbrev pub command_packet : Bytes → TextParm → Bytes
command_packet uid p = be32 subtype_plain_text ++ command_text uid p

module _ {W : Type 0} (now : ℕ) where
  abbrev pub answered : Service ShopCallback W → ℕ → ℕ → Bytes → Service ShopCallback W
  answered s source session text =
      if session == 0 then s else post s (sends source ptype_response session text)
