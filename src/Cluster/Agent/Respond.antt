-- ===== src/Cluster/Agent/Respond.antt =====
-- The rest of dispatch_request of lua/BeeCluster/bee_clusteragent.lua: what the agent does with a request that is
-- delivered, and what it writes to the socket.
use testcluster.Prelude.{
  ℕ, Bool, true, false, Option, none, some, List, [], ◌∷◌, ◌++◌, map, length, ◌==◌, if◌then◌else◌,
}
use testcluster.Prelude.Int.{pos, to_u64}
use testcluster.Cluster.Wire.{Bytes}
use testcluster.Cluster.Lua.{
  Value, boolean, light_userdata, integer, string, table, LuaApi, M, pure, crash, ◌>>=◌, ◌>>◌,
  to_userdata, check_integer, new_block, skynet_free,
}
use testcluster.Cluster.Memory.{read_block}
use testcluster.Cluster.Unpack.{word}
use testcluster.Cluster.Name.{starts_with_at}
use testcluster.Cluster.Response.{to_boolean, lpackresponse}
use testcluster.Cluster.Agent.{
  LargeRequests, Gathered, trace, waiting, invalid_large, deliver, receive,
}

-- What becomes of skynet.rawcall under pcall: the bytes that the service answers, or an error message.
pub data Called : Type 0 where
  returned : Bytes → Called
  failed : Bytes → Called

-- What the agent needs of its node: a service, by address, that is called with a message; the name that skynet.unpack
-- finds in a query; what skynet.packstring makes of an address; and register_name, which asks clusterd for names
-- that it does not have.
pub record Node : Type 0 where
  pub rawcall : Value → Bytes → Called
  pub unpack_name : Bytes → Bytes
  pub pack_address : Value → Bytes
  pub register_name : Bytes → Option Value

-- What can be seen of the agent: calls and sends to services of its node, and packets on the socket.
pub data Event : Type 0 where
  call : (addr : Value) (content : Bytes) → Event
  send : (addr : Value) (content : Bytes) → Event
  write : (packet : Bytes) → Event

abbrev pub invalid_large_req : Bytes
invalid_large_req =
    b'I' ∷ b'n' ∷ b'v' ∷ b'a' ∷ b'l' ∷ b'i' ∷ b'd' ∷ b' ' ∷ b'l' ∷ b'a' ∷ b'r' ∷ b'g' ∷ b'e' ∷ b' '
    ∷ b'r' ∷ b'e' ∷ b'q' ∷ []

abbrev pub invalid_name : Bytes
invalid_name =
    b'I' ∷ b'n' ∷ b'v' ∷ b'a' ∷ b'l' ∷ b'i' ∷ b'd' ∷ b' ' ∷ b'n' ∷ b'a' ∷ b'm' ∷ b'e' ∷ []

abbrev pub name_not_found : Bytes
name_not_found =
    b'n' ∷ b'a' ∷ b'm' ∷ b'e' ∷ b' ' ∷ b'n' ∷ b'o' ∷ b't' ∷ b' ' ∷ b'f' ∷ b'o' ∷ b'u' ∷ b'n' ∷ b'd'
    ∷ []

-- One packet, or each packet of a table.
unfoldable pub writes : List Value → M (List Event)
writes (string packet ∷ []) = pure (write packet ∷ [])
writes (table packets ∷ []) = pure (map (λ packet. write packet) packets)
writes _ = crash

-- cluster.packresponse(session, ok, ...), and the writes of its result.
unfoldable pub respond : LuaApi → ℕ → Bool → List Value → M (List Event)
unfolding writes
respond lua session is_ok msg = lpackresponse lua (word session ∷ boolean is_ok ∷ msg) >>= writes

-- The message is handed over: whoever gets it frees it.
unfoldable pub take_message : LuaApi → Value → Value → M Bytes
unfolding to_userdata
take_message lua msg sz = do
  size ← check_integer lua (sz ∷ []) 1
  content ← read_block (to_userdata msg) (to_u64 size)
  skynet_free (to_userdata msg) >> pure content

-- The answer to a call is in a block that skynet frees later.
unfoldable pub respond_called : LuaApi → ℕ → Called → M (List Event)
unfolding respond
respond_called lua session (returned reply) = do
  p ← new_block reply
  respond lua session true (light_userdata p ∷ word (length reply) ∷ [])
respond_called lua session (failed message) = respond lua session false (string message ∷ [])

-- An address that is found, or none.
unfoldable pub dispatch_to :
    LuaApi → Node → Option Value → ℕ → Value → Value → Value → M (List Event)
unfolding take_message respond_called respond
dispatch_to lua node none session msg sz is_push =
    respond lua session false (string invalid_name ∷ [])
dispatch_to lua node (some addr) session msg sz is_push = take_message lua msg sz >>= λ content.
    if to_boolean is_push then pure (send addr content ∷ []) else (do
      events ← respond_called lua session (node.rawcall addr content)
      pure (call addr content ∷ events))

-- The name that a query asks for.
unfoldable pub query_name : LuaApi → Node → Option Value → ℕ → M (List Event)
unfolding respond
query_name lua node none session = respond lua session false (string name_not_found ∷ [])
query_name lua node (some addr) session =
    respond lua session true (string (node.pack_address addr) ∷ [])

-- An address that is neither nil nor false.
unfoldable pub truthy : Value → Option Value
truthy addr = if to_boolean addr then some addr else none

-- cluster.isname, register_name of a name, and the test of the address behind them: the last part of a request that is not
-- known has the address false, which is refused.
unfoldable pub resolve : LuaApi → Node → Value → Option Value
unfolding starts_with_at truthy
resolve lua node addr = elim (lua.to_lstring addr) [
  | none ↦ truthy addr
  | some name ↦ if starts_with_at name then node.register_name name else truthy addr
]

-- addr == 0
unfoldable pub is_zero : Value → Bool
is_zero (integer (pos n)) = n == 0
is_zero _ = false

unfoldable pub dispatch_delivered :
    LuaApi → Node → Value → ℕ → Value → Value → Value → M (List Event)
unfolding take_message query_name dispatch_to resolve is_zero
dispatch_delivered lua node addr session msg sz is_push =
    if is_zero addr
    then (do
      content ← take_message lua msg sz
      query_name lua node (node.register_name (b'@' ∷ node.unpack_name content)) session)
    else dispatch_to lua node (resolve lua node addr) session msg sz is_push

unfoldable pub dispatch_gathered : LuaApi → Node → Gathered → M (List Event)
unfolding dispatch_delivered respond
dispatch_gathered lua node trace = pure []
dispatch_gathered lua node waiting = pure []
dispatch_gathered lua node (invalid_large session) =
    respond lua session false (string invalid_large_req ∷ [])
dispatch_gathered lua node (deliver addr session msg sz is_push) =
    dispatch_delivered lua node addr session msg sz is_push

-- A packet of the stream, and all of it.
unfoldable pub serve : LuaApi → Node → LargeRequests → Bytes → M (LargeRequests × List Event)
unfolding dispatch_gathered
serve lua node large packet = receive lua large packet >>= λ (large', gathered).
    dispatch_gathered lua node gathered >>= λ events. pure (large', events)

unfoldable pub serve_all :
    LuaApi → Node → LargeRequests → List Bytes → M (LargeRequests × List Event)
serve_all lua node large [] = pure (large, [])
serve_all lua node large (packet ∷ packets) = serve lua node large packet >>= λ (large', events).
    serve_all lua node large' packets >>= λ (last, more). pure (last, events ++ more)
