-- ===== src/Cluster/Sender.antt =====
-- lua/BeeCluster/bee_clustersender.lua: the service that sends requests to another node, and reads its answers.
use testcluster.Prelude.{ℕ, ◌≡◌, true, false, Option, none, some, List, [], ◌∷◌}
use testcluster.Prelude.Int.{pos}
use testcluster.Cluster.Wire.{Bytes}
use testcluster.Cluster.Lua.{
  Value, nil, boolean, integer, string, table, LuaApi, M, pure, crash, ◌>>=◌, arg,
}
use testcluster.Cluster.Unpack.{word}
use testcluster.Cluster.Request.{lpackrequest, lpackpush}
use testcluster.Cluster.Assemble.{lconcat}
use testcluster.Cluster.Response.Trip.{gathered_data}

-- What channel:request returns or raises: the data of the answer, a table with those of each part, or an error.
pub data Received : Type 0 where
  single : Value → Received
  many : List Value → Received
  raised_by : Value → Received

-- The socket channel of skynet: what a request waits for, of the values that read_response gives for its session.
pub record Channel : Type 0 where
  pub answer : List (List Value) → Option Received

-- All but the last are padded.
abbrev pub IsPadded : ℕ → List (List Value) → Type 0
IsPadded session [] = ⊥
IsPadded session (vs ∷ []) = vs ≡ word session ∷ boolean true ∷ arg vs 3 ∷ []
IsPadded session (vs ∷ ws ∷ rest) =
    (vs ≡ word session ∷ boolean true ∷ arg vs 3 ∷ boolean true ∷ []) × IsPadded session (ws ∷ rest)

-- What a channel whose response function returns sessions does: an answer without padding ends the wait, and those with
-- padding in front are gathered with it.
pub record Gathers (channel : Channel) : Type 0 where
  pub one :
      (session : ℕ) (content : Value)
      → channel.answer ((word session ∷ boolean true ∷ content ∷ []) ∷ []) ≡ some (single content)
  pub error :
      (session : ℕ) (message : Value)
      → channel.answer ((word session ∷ boolean false ∷ message ∷ []) ∷ [])
        ≡ some (raised_by message)
  pub padded :
      (session : ℕ) (vs ws : List Value) (rest : List (List Value))
      → IsPadded session (vs ∷ ws ∷ rest)
      → channel.answer (vs ∷ ws ∷ rest) ≡ some (many (gathered_data (vs ∷ ws ∷ rest)))

-- What the caller of the sender gets: values, or a failure.
pub data Returned : Type 0 where
  ret : List Value → Returned
  ret_failed : Returned

-- The packets that channel:request writes: the request, and the padding if there is any.
unfoldable pub request_packets : Value → Value → Option (List Bytes)
request_packets (string request) nil = some (request ∷ [])
request_packets (string request) (table padding) = some (request ∷ padding)
request_packets _ _ = none

unfoldable pub packets_or_crash : ℕ → Option (List Bytes) → M (ℕ × List Bytes)
packets_or_crash session none = crash
packets_or_crash session (some packets) = pure (session, packets)

-- `session = new_session`
unfoldable pub session_of : Value → M ℕ
session_of (integer (pos session)) = pure session
session_of _ = crash

-- send_request up to the wait: the next session, and the packets.
unfoldable pub send_request : LuaApi → ℕ → Value → Value → Value → M (ℕ × List Bytes)
unfolding request_packets packets_or_crash session_of
send_request lua session addr msg sz = do
  vs ← lpackrequest lua (addr ∷ word session ∷ msg ∷ sz ∷ [])
  next ← session_of (arg vs 2)
  packets_or_crash next (request_packets (arg vs 1) (arg vs 3))

-- command.req behind the wait.
unfoldable pub finish_req : LuaApi → Received → M Returned
finish_req lua (single msg) = pure (ret (msg ∷ []))
finish_req lua (many parts) = do vs ← lconcat lua (some parts); pure (ret vs)
finish_req lua (raised_by message) = pure ret_failed

-- command.push: a session is used up by a push in parts.
unfoldable pub push_session : ℕ → Value → Value → M ℕ
unfolding session_of
push_session session new nil = pure session
push_session session new padding = session_of new

unfoldable pub push : LuaApi → ℕ → Value → Value → Value → M (ℕ × List Bytes)
unfolding request_packets packets_or_crash push_session
push lua session addr msg sz = do
  vs ← lpackpush lua (addr ∷ word session ∷ msg ∷ sz ∷ [])
  next ← push_session session (arg vs 2) (arg vs 3)
  packets_or_crash next (request_packets (arg vs 1) (arg vs 3))
