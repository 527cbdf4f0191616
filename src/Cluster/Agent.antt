-- ===== src/Cluster/Agent.antt =====
-- The part of dispatch_request of lua/BeeCluster/bee_clusteragent.lua that gathers the parts of a
-- long request with cluster.append and cluster.concat, up to the request's delivery.
pub mod LongRequest
pub mod Delivery
pub mod Respond
pub mod Traffic
use testcluster.Prelude.{
  ℕ, zero, suc, ◌+◌, ◌≡◌, Bool, true, false, Option, none, some, List, [], ◌∷◌, drop, ◌==◌,
  if◌then◌else◌,
}
use testcluster.Prelude.Int.{pos, negsuc}
use testcluster.Cluster.Wire.{Bytes}
use testcluster.Cluster.Lua.{
  Value, nil, boolean, integer, string, other, LuaApi, Error, M, pure, crash, ◌>>=◌, arg,
}
use testcluster.Cluster.Unpack.{lunpackrequest}
use testcluster.Cluster.Response.{to_boolean}
use testcluster.Cluster.Assemble.{lappend, lconcat}

-- An entry of large_request: { addr = addr, is_push = is_push }, and its array part.
pub record LargeRequest : Type 0 where
  pub addr : Value
  pub is_push : Value
  pub parts : List Value

-- large_request, by session.
abbrev pub LargeRequests : Type 0
LargeRequests = ℕ → Option LargeRequest

abbrev pub assign : LargeRequests → ℕ → Option LargeRequest → LargeRequests
assign large session req s = if session == s then req else large s

-- What a packet comes to: a trace, a part more to wait for, a long request whose parts do not join
-- (the answer is "Invalid large req"), or a request to deliver.
pub data Gathered : Type 0 where
  trace : Gathered
  waiting : Gathered
  invalid_large : ℕ → Gathered
  deliver : (addr : Value) (session : ℕ) (msg sz is_push : Value) → Gathered

abbrev pub Step : Type 0
Step = LargeRequests × Gathered

-- `large_request[session] or { addr = addr, is_push = is_push }`
unfoldable pub or_new : Option LargeRequest → Value → Value → LargeRequest
or_new none addr is_push = record { addr = addr; is_push = is_push; parts = [] }
or_new (some req) addr is_push = req

-- if not msg
unfoldable pub deliver_or_fail : LargeRequests → Value → ℕ → List Value → Value → Step
deliver_or_fail large addr session [] is_push = (large, invalid_large session)
deliver_or_fail large addr session (nil ∷ rest) is_push = (large, invalid_large session)
deliver_or_fail large addr session (msg ∷ rest) is_push =
    (large, deliver addr session msg (arg rest 1) is_push)

-- cluster.append(req, msg, sz); the first argument is the table.
unfoldable pub append_part : LuaApi → LargeRequest → Value → Value → M (List Value)
append_part lua req msg sz = lappend lua (some req.parts) (other 0 ∷ msg ∷ sz ∷ [])

-- A packet with padding.
unfoldable pub gather_part : LuaApi → LargeRequests → ℕ → List Value → M Step
gather_part lua large session vs = do
  let req = or_new (large session) (arg vs 1) (arg vs 6)
  parts ← append_part lua req (arg vs 3) (arg vs 4)
  pure (assign large session (some (record req { parts = parts })), waiting)

-- The last part of `req`.
unfoldable pub gather_last : LuaApi → LargeRequests → ℕ → LargeRequest → List Value → M Step
gather_last lua large session req vs = do
  parts ← append_part lua req (arg vs 3) (arg vs 4)
  joined ← lconcat lua (some parts)
  pure (deliver_or_fail (assign large session none) req.addr session joined req.is_push)

unfoldable pub gather_end : LuaApi → LargeRequests → ℕ → Option LargeRequest → List Value → M Step
gather_end lua large session (some req) vs = gather_last lua large session req vs
gather_end lua large session none vs =
    pure (deliver_or_fail large (arg vs 1) session (arg vs 3 ∷ arg vs 4 ∷ []) (arg vs 6))

-- The values of lunpackrequest: the session is a word, or missing.
unfoldable pub gather : LuaApi → LargeRequests → Value → List Value → M Step
gather lua large (integer (pos session)) vs =
    if to_boolean (arg vs 5)
    then gather_part lua large session vs
    else gather_end lua large session (large session) vs
gather lua large (integer (negsuc n)) vs = crash
gather lua large nil vs = pure (large, trace)
gather lua large _ vs = crash

unfoldable pub dispatch_request : LuaApi → LargeRequests → List Value → M Step
dispatch_request lua large vs = gather lua large (arg vs 2) vs

-- One packet of the stream, behind its header.
unfoldable pub receive : LuaApi → LargeRequests → Bytes → M Step
receive lua large packet = do
  vs ← lunpackrequest lua (string (drop 2 packet) ∷ [])
  dispatch_request lua large vs

unfoldable pub receive_all : LuaApi → LargeRequests → List Bytes → M (LargeRequests × List Gathered)
receive_all lua large [] = pure (large, [])
receive_all lua large (packet ∷ packets) = receive lua large packet >>= λ (large', g).
    receive_all lua large' packets >>= λ (last, gs). pure (last, g ∷ gs)
