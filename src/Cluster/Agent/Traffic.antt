-- ===== src/Cluster/Agent/Traffic.antt =====
-- The packets of many requests on one connection (lua/BeeCluster/bee_clusteragent.lua): the parts of long requests come
-- between those of others, and short requests between them all.
pub mod Gathering
mod Tests
use testcluster.Prelude.{
  ℕ, suc, ◌+◌, ◌^◌, ◌<◌, ◌≤◌, ◌≡◌, ◌≢◌, refl, ◌∙◌, sym, ap, Bool, true, false, Option, none, some,
  List, [], ◌∷◌, ◌++◌, length, ◌==◌, ==_of_ne, ==_refl, inl, inr, Bool-cases, if◌then◌else◌, arith,
}
use testcluster.Cluster.Wire.{Bytes}
use testcluster.Cluster.Lua.{Value, nil, boolean, light_userdata, string, LuaApi, ok, Heap, ◌>>=◌}
use testcluster.Cluster.Unpack.{word, push_marks}
use testcluster.Cluster.Unpack.Bodies.{
  with_block, lunpackrequest-framed, unpack_number_body, unpack_multi_number_body,
  unpack_multi_string_body,
}
use testcluster.Cluster.Request.Packets.{
  framed, number_body, string_body, multi_number_body, multi_string_body, part_body,
}
use testcluster.Cluster.Request.Parts.{join}
use testcluster.Cluster.Assemble.Calls.{strings, strings-append}
use testcluster.Cluster.Response.{to_boolean}
use testcluster.Cluster.Agent.{
  LargeRequest, LargeRequests, assign, Gathered, waiting, deliver, receive, receive_all,
  dispatch_request, gather, gather_end, deliver_or_fail,
}
use testcluster.Cluster.Agent.LongRequest.{passed, receive_part, receive_last}
use testcluster.Cluster.Agent.Delivery.{begin_received}

-- A request as its sender means it.
pub record Request : Type 0 where
  pub addr : Value
  pub session : ℕ
  pub is_push : Bool
  pub content : Bytes

-- A long request of which some parts have come.
pub record Open : Type 0 where
  pub addr : Value
  pub is_push : Bool
  pub content : Bytes
  pub parts : List Bytes

-- The requests that are open, by session.
abbrev pub Opens : Type 0
Opens = ℕ → Option Open

abbrev pub put : Opens → ℕ → Option Open → Opens
put opened session o s = if session == s then o else opened s

-- The first packet of a long request: to a number, or to a name.
pub data Begin (session : ℕ) (is_push : Bool) (sz : ℕ) (addr : Value) (body : Bytes) : Type 0 where
  to_number :
      (n : ℕ)
      → n < 2 ^ 32
      → addr ≡ word n
      → body ≡ multi_number_body is_push n session sz
      → Begin session is_push sz addr body
  to_name :
      (name : Bytes)
      → addr ≡ string name
      → body ≡ multi_string_body is_push name session sz
      → Begin session is_push sz addr body

-- The packet of a short request, to a number or to a name; of a push, the session is 0.
pub data Single (session : ℕ) (content : Bytes) (addr : Value) (body : Bytes) : Type 0 where
  single_to_number :
      (n : ℕ)
      → n < 2 ^ 32
      → addr ≡ word n
      → body ≡ number_body n session content
      → Single session content addr body
  single_to_name :
      (name : Bytes)
      → addr ≡ string name
      → body ≡ string_body name session content
      → Single session content addr body

-- Packets that come while some long requests are open, and leave others open, with the requests that are complete in their
-- order. Whose packet comes next is not laid down; the parts of one request come in their order. What follows
-- the two bytes of a header has fewer than 2^16 bytes.
pub data Traffic (close : Opens) : Opens → List Bytes → List Request → Type 0 where
  quiet : {opened : Opens} → opened ≡ close → Traffic close opened [] []
  begin :
      {opened : Opens} {packets : List Bytes} {requests : List Request} (session : ℕ) (addr : Value)
      (is_push : Bool) (content body : Bytes)
      → opened session ≡ none
      → session < 2 ^ 32
      → length content < 2 ^ 31
      → length body < 2 ^ 16
      → Begin session is_push (length content) addr body
      → Traffic close
          (put opened session
            (some (record { addr = addr; is_push = is_push; content = content; parts = [] })))
          packets
          requests
      → Traffic close opened (framed body ∷ packets) requests
  part :
      {opened : Opens} {packets : List Bytes} {requests : List Request} (session : ℕ) (o : Open)
      (chunk : Bytes)
      → opened session ≡ some o
      → session < 2 ^ 32
      → length chunk + 5 < 2 ^ 16
      → Traffic close
          (put opened session (some (record o { parts = o.parts ++ chunk ∷ [] })))
          packets
          requests
      → Traffic close opened (framed (part_body true session chunk) ∷ packets) requests
  last :
      {opened : Opens} {packets : List Bytes} {requests : List Request} (session : ℕ) (o : Open)
      (chunk : Bytes)
      → opened session ≡ some o
      → session < 2 ^ 32
      → length chunk + 5 < 2 ^ 16
      → length o.content < 2 ^ 31
      → join (o.parts ++ chunk ∷ []) ≡ o.content
      → Traffic close (put opened session none) packets requests
      → Traffic close opened (framed (part_body false session chunk) ∷ packets) (
          record { addr = o.addr; session = session; is_push = o.is_push; content = o.content }
          ∷ requests)
  short :
      {opened : Opens} {packets : List Bytes} {requests : List Request} (session : ℕ) (addr : Value)
      (content body : Bytes)
      → opened session ≡ none
      → session < 2 ^ 32
      → length body < 2 ^ 16
      → Single session content addr body
      → Traffic close opened packets requests
      → Traffic close opened (framed body ∷ packets) (
          record { addr = addr; session = session; is_push = session == 0; content = content }
          ∷ requests)

-- What the agent made of the packets: nothing yet, or the request, in a block of its own.
pub data Delivered (heap : Heap) : List Request → List Gathered → Type 0 where
  nothing : Delivered heap [] []
  waits :
      {requests : List Request} {gs : List Gathered}
      → Delivered heap requests gs
      → Delivered heap requests (waiting ∷ gs)
  gets :
      {requests : List Request} {gs : List Gathered} (r : Request) (p : ℕ) (push : Value)
      → heap.block p ≡ some r.content
      → to_boolean push ≡ r.is_push
      → Delivered heap requests gs
      → Delivered heap
          (r ∷ requests)
          (deliver r.addr r.session (light_userdata p) (word (length r.content)) push ∷ gs)

-- The entry of large_request for it.
abbrev pub req_of : Open → LargeRequest
req_of o = record {
  addr = o.addr;
  is_push = boolean o.is_push;
  parts = word (length o.content) ∷ strings o.parts;
}

abbrev pub entry_of : Option Open → Option LargeRequest
entry_of none = none
entry_of (some o) = some (req_of o)

-- The agent has the requests that are open.
abbrev pub Keeps : Opens → LargeRequests → Type 0
Keeps opened large = (s : ℕ) → large s ≡ entry_of (opened s)

pub record Received (lua : LuaApi) (close : Opens) (large : LargeRequests) (packets : List Bytes)
    (requests : List Request) (h : Heap) : Type 0 where
  pub last : LargeRequests
  pub gathered : List Gathered
  pub heap : Heap
  pub runs : receive_all lua large packets h ≡ (ok (last, gathered), heap)
  pub delivered : Delivered heap requests gathered
  pub left : Keeps close last
  pub blocks : (q : ℕ) → q < h.next → heap.block q ≡ h.block q
  pub grows : h.next ≤ heap.next
