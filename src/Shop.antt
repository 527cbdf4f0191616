-- ===== src/Shop.antt =====
-- The shop service (cpp/shop/Shop.cpp, Shop.h, service_shop.cpp): a Service that answers text messages.
pub mod Ping
mod Tests
use testcluster.Prelude.{
  ℕ, Bool, true, false, Option, none, some, List, [], ◌∷◌, ◌++◌, ◌==◌, if◌then◌else◌,
}
use testcluster.Pack.Order.{Bytes}
use testcluster.Pack.Decode.{Access, ◌>>=◌, Protobuf}
use testcluster.Text.Number.{to_string}
use testcluster.Text.Strsep.{strsep}
use testcluster.Text.Parm.{TextParm, new_text_parm, text_parm, get}
use testcluster.Service.Table.{same_name}
use testcluster.Service.State.{Service, Program}
use testcluster.Service.Poll.{service_poll}
use testcluster.Service.Outgoing.{text_response}

abbrev pub lua : Bytes
lua = b'l' ∷ b'u' ∷ b'a' ∷ []

abbrev pub cmd : Bytes
cmd = b'c' ∷ b'm' ∷ b'd' ∷ []

abbrev pub cmd_ping : Bytes
cmd_ping = b'c' ∷ b'm' ∷ b'd' ∷ b'_' ∷ b'p' ∷ b'i' ∷ b'n' ∷ b'g' ∷ []

-- "pong "
abbrev pub pong : Bytes
pong = b'p' ∷ b'o' ∷ b'n' ∷ b'g' ∷ 32 ∷ []

-- strsep of a pointer that may be NULL, which gives NULL and stays.
unfoldable pub strsep_null : ℕ → Option Bytes → Access (Option Bytes × Option Bytes)
unfolding strsep
strsep_null gap none = some (none, none)
strsep_null gap (some memory) = do (word, left) ← strsep gap memory; some (some word, left)

-- TextParm::TextParm(const char*)
unfoldable pub text_parm_null : Option Bytes → Access TextParm
unfolding text_parm
text_parm_null none = some new_text_parm
text_parm_null (some memory) = text_parm memory

-- The answer to a command; `now` is time(NULL).
unfoldable pub response : ℕ → Bytes → Bytes
response now command = if same_name command cmd_ping then pong ++ to_string now else []

-- No callback is registered, so that there is none to run.
abbrev pub ShopCallback : Type 0
ShopCallback = ⊥

module _ {W : Type 0} (now : ℕ) where
  -- What follows the first word, if it is "lua".
  unfoldable pub lua_message :
      Option Bytes → ℕ → Service ShopCallback W → Access (Service ShopCallback W)
  unfolding strsep_null text_parm_null response text_response
  lua_message c session s = do
    (uid, left) ← strsep_null 32 c
    parm ← text_parm_null left
    let answered = text_response s (response now (get parm cmd))
    some (if session == 0 then s else answered)

  unfoldable pub text_message :
      Bytes → ℕ → ℕ → ℕ → Service ShopCallback W → Access (Service ShopCallback W)
  unfolding lua_message strsep
  text_message msg sz source session s = do
    (from, c) ← strsep 32 msg
    if same_name from lua then lua_message c session s else some s

  -- The class Shop. What it does not override does nothing.
  abbrev pub shop : (pb : Protobuf) → Program pb ShopCallback W
  shop pb = record {
    on_timer = λ f. absurd f;
    on_answer = λ f. absurd f;
    on_request = λ f. absurd f;
    on_message = λ f. absurd f;
    on_init = λ f. absurd f;
    text_message = text_message;
    message = λ content size agent s. some s;
  }

  unfoldable pub shop_cb :
      (pb : Protobuf)
      → Service ShopCallback W
      → ℕ
      → ℕ
      → ℕ
      → Bytes
      → ℕ
      → Access (Service ShopCallback W)
  unfolding service_poll
  shop_cb pb s type session source msg sz = service_poll (shop pb) s msg sz source session type
