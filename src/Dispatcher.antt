-- ===== src/Dispatcher.antt =====
-- lua/lib/dispatcher.lua: which function handles a protobuf message, and its answer.
pub mod Words
pub mod Handling
mod Tests
use testcluster.Prelude.{
  ℕ, ◌+◌, ◌≡◌, Bool, true, false, ◌||◌, ◌&&◌, Option, none, some, List, [], ◌∷◌, ◌++◌, leb, ◌==◌,
  if◌then◌else◌,
}
use testcluster.Pack.Order.{Bytes}
use testcluster.Pack.Decode.{Access, ◌>>=◌}
use testcluster.Protopack.{LuaProtobuf, pack_raw, unpack_raw}
use testcluster.Service.Table.{same_name}

-- The class %a of patterns, in the C locale.
unfoldable pub is_letter : ℕ → Bool
is_letter c = (leb b'A' c && leb c b'Z') || (leb b'a' c && leb c b'z')

-- A run of letters that ends replaces the last one.
unfoldable pub end_word : Bytes → Option Bytes → Option Bytes
end_word [] last = last
end_word (c ∷ word) last = some (c ∷ word)

-- for i in string.gmatch(name, "%a+") do funcname = i end
unfoldable pub last_word_from : Bytes → Bytes → Option Bytes → Option Bytes
unfolding is_letter end_word
last_word_from [] word last = end_word word last
last_word_from (c ∷ name) word last =
    if is_letter c
    then last_word_from name (word ++ c ∷ []) last
    else last_word_from name [] (end_word word last)

unfoldable pub last_word : Bytes → Option Bytes
unfolding last_word_from
last_word name = last_word_from name [] none

pub record Handler (F : Type 0) : Type 0 where
  pub f : F
  pub obj : Option ℕ

pub record Dispatcher (F : Type 0) : Type 0 where
  pub map : Bytes → Option (Handler F)
  pub ftable : Bytes → Option F
  pub last_name : Bytes

module _ {F : Type 0} where
  unfoldable pub new : (Bytes → Option F) → Dispatcher F
  new ftable = record { map = λ name. none; ftable = ftable; last_name = [] }

  unfoldable pub register : Dispatcher F → Bytes → F → Option ℕ → Dispatcher F
  register self name f obj = record self {
    map = λ n. if same_name name n then some (record { f = f; obj = obj }) else self.map n;
  }

  -- self.ftable[funcname], where a name without letters has nil for it.
  unfoldable pub function_of : Dispatcher F → Option Bytes → Option F
  function_of self none = none
  function_of self (some funcname) = self.ftable funcname

  unfoldable pub reg_by : Dispatcher F → Bytes → Option ℕ → Option F → Dispatcher F
  unfolding register
  reg_by self name obj none = self
  reg_by self name obj (some f) = register self name f obj

  unfoldable pub reg : Dispatcher F → Bytes → Option ℕ → Dispatcher F
  unfolding reg_by function_of last_word
  reg self name obj = reg_by self name obj (function_of self (last_word name))

  -- string.sub of a funcname that is nil is an error. The warning and the names that are collected have no effect.
  unfoldable pub after_reg : Dispatcher F → Option Bytes → Option (Dispatcher F)
  after_reg self none = none
  after_reg self (some funcname) = some self

  unfoldable pub regs : Dispatcher F → List Bytes → Option ℕ → Option (Dispatcher F)
  unfolding reg after_reg
  regs self [] obj = some self
  regs self (v ∷ names) obj = do
    next ← after_reg (reg self v obj) (last_word v)
    regs next names obj

-- Messages of SUBTYPE_RPC_CLIENT answer calls of a C++ service.
abbrev pub subtype_rpc_client : ℕ
subtype_rpc_client = 17

abbrev pub pb_prefix : Bytes
pb_prefix = b'p' ∷ b'b' ∷ b'.' ∷ []

-- What a dispatcher does: it calls a function, and sends an answer to the source.
pub data Event (F Message : Type 0) : Type 0 where
  called :
      (f : F) (obj : Option ℕ) (uid : ℕ) (msg : Option Message) (session source : ℕ)
      → Event F Message
  redirected : (source session : ℕ) (rpc_data : Bytes) → Event F Message

-- `reply` is what the functions return, a name and a message or nothing; `registered` tells whether a protocol rpc_response is
-- registered, without which skynet.redirect is an error.
module _ (protobuf : LuaProtobuf) {F : Type 0}
    (reply : F → ℕ → Option protobuf.Message → ℕ → ℕ → Option (Bytes × protobuf.Message))
    (registered : Bool) where
  unfoldable pub redirect : ℕ → ℕ → Bytes → Option (List (Event F protobuf.Message))
  redirect source session rpc_data =
      if registered then some (redirected source session rpc_data ∷ []) else none

  unfoldable pub answer_rpc :
      ℕ → ℕ → ℕ → Option (Bytes × protobuf.Message) → Option (List (Event F protobuf.Message))
  unfolding redirect
  answer_rpc uid session source none = some []
  answer_rpc uid session source (some (rsp_pb_name, rsp)) = if session == 0 then some [] else (do
    rpc_data ← pack_raw protobuf subtype_rpc_client uid (pb_prefix ++ rsp_pb_name) rsp none
    redirect source session rpc_data)

  unfoldable pub handle_by :
      Option (Handler F)
      → ℕ
      → Option protobuf.Message
      → ℕ
      → ℕ
      → Option (List (Event F protobuf.Message))
  unfolding answer_rpc
  handle_by none uid msg session source = some []
  handle_by (some handler) uid msg session source = do
    answers ← answer_rpc uid session source (reply handler.f uid msg session source)
    some (called handler.f handler.obj uid msg session source ∷ answers)

  -- Without the workload that it sends where set_yunlog_ctx was called.
  unfoldable pub dispatch :
      Dispatcher F
      → ℕ
      → Bytes
      → Option protobuf.Message
      → ℕ
      → ℕ
      → Option (Dispatcher F × List (Event F protobuf.Message))
  unfolding handle_by
  dispatch self uid name msg session source = do
    events ← handle_by (self.map name) uid msg session source
    some (record self { last_name = name }, events)

  -- What activity.lua and lpersistence.lua do with a packet.
  unfoldable pub text :
      Dispatcher F → Bytes → ℕ → ℕ → Option (Dispatcher F × List (Event F protobuf.Message))
  unfolding dispatch
  text dispatcher netmsg session source = do
    (uid, name, msg) ← unpack_raw protobuf netmsg
    dispatch dispatcher uid name msg session source
