-- ===== src/Cluster/Call.antt =====
-- A call from one node to another: from the sender (lua/BeeCluster/bee_clustersender.lua) through the agent
-- (bee_clusteragent.lua) to the service that is called, and back.
pub mod Serving
pub mod Answering
pub mod Arriving
mod Tests
use testcluster.Prelude.{
  ℕ, zero, suc, ◌+◌, ◌%◌, ◌^◌, ◌<◌, ◌≤◌, ◌≡◌, ◌≢◌, refl, ◌∙◌, sym, ap, Bool, true, false, none,
  some, List, [], ◌∷◌, map, length, arith,
}
use testcluster.Prelude.Int.{pos, to_u64}
use testcluster.Cluster.Wire.{Bytes}
use testcluster.Cluster.Lua.{Value, light_userdata, LuaApi, ok, Heap, check_integer_eq, ◌>>=◌}
use testcluster.Cluster.Memory.{read_block, read_block_whole}
use testcluster.Cluster.Unpack.{word}
use testcluster.Cluster.Request.{next_session}
use testcluster.Cluster.Request.Whole.{freed, IsRequest, skynet_free_eq}
use testcluster.Cluster.Response.{to_boolean}
use testcluster.Cluster.Response.Trip.{unpack_all}
use testcluster.Cluster.Agent.{LargeRequests, deliver}
use testcluster.Cluster.Agent.Respond.{
  Node, Event, call, write, take_message, dispatch_to, dispatch_delivered, dispatch_gathered,
  resolve, is_zero, respond_called, serve_all,
}
use testcluster.Cluster.Sender.{Channel, Gathers, Received, Returned, send_request, finish_req}
use testcluster.Cluster.Call.Serving.{serve_all-answers}
use testcluster.Cluster.Call.Answering.{Answers, Fits, Yields, called-Answers}
use testcluster.Cluster.Call.Arriving.{Destination, Arrives, arrives}

-- A remote call: the sender writes `packets` and frees the message; the agent, on these, calls the service once, with
-- the content, and writes `answered`; the sender reads that, and its caller gets what the service made of the call. The agent
-- keeps the long requests of other sessions, and none of this one.
pub record RemoteCall (lua : LuaApi) (node : Node) (channel : Channel) (value : Value) (h : Heap)
    (session msg : ℕ) (content : Bytes) (service : Value) (large : LargeRequests)
    (there here : Heap) : Type 0 where
  pub packets : List Bytes
  pub sent :
      send_request lua session value (light_userdata msg) (word (length content)) h
      ≡ (ok (next_session session, packets), freed h msg)
  pub last : LargeRequests
  pub after : Heap
  pub answered : List Bytes
  pub served :
      serve_all lua node large packets there
      ≡ (ok (last, call service content ∷ map (λ packet. write packet) answered), after)
  pub forgotten : last session ≡ none
  pub others : (s : ℕ) → s ≢ session → last s ≡ large s
  pub values : List (List Value)
  pub read : unpack_all lua answered here ≡ (ok values, here)
  pub received : Received
  pub waited : channel.answer values ≡ some received
  pub result : Returned
  pub back : Heap
  pub finished : finish_req lua received here ≡ (ok result, back)
  pub yields : Yields (node.rawcall service content) result back

module _ (lua : LuaApi) (node : Node) where
  pub taken :
      (ptr : ℕ) (content : Bytes) (heap : Heap)
      → heap.block ptr ≡ some content
      → length content < 2 ^ 31
      → take_message lua (light_userdata ptr) (word (length content)) heap
        ≡ (ok content, freed heap ptr)
  unfolding take_message to_u64
  taken ptr content heap holds small =
      let same : length content % 2 ^ 64 ≡ length content = omega arith in
      rw
        (check_integer_eq lua (word (length content) ∷ []) 1 heap (pos (length content)) refl, same)
        (rw (read_block_whole ptr content heap holds) (rw (skynet_free_eq heap ptr content holds)))

  delivered_called :
      (addr service : Value) (session ptr : ℕ) (content : Bytes) (is_push : Value)
      (heap after : Heap) (events : List Event)
      → is_zero addr ≡ false
      → resolve lua node addr ≡ some service
      → to_boolean is_push ≡ false
      → heap.block ptr ≡ some content
      → length content < 2 ^ 31
      → respond_called lua session (node.rawcall service content) (freed heap ptr)
        ≡ (ok events, after)
      → dispatch_gathered lua node
          (deliver addr session (light_userdata ptr) (word (length content)) is_push)
          heap
        ≡ (ok (call service content ∷ events), after)
  unfolding dispatch_gathered dispatch_delivered dispatch_to
  delivered_called addr service session ptr content is_push heap after events real found no_push
        holds small responded =
      rw (real) (
        rw (found, dispatch_to)
          (rw (taken ptr content heap holds small) (rw (no_push) (rw (responded)))))

-- A call of a service of another node, by number or by a name of 1 to 255 bytes that the agent resolves to a service, with a
-- message of fewer than 2^31 bytes: the request goes there in one packet or in parts, the agent calls the service once,
-- with the whole message, and the caller gets the bytes that the service answers (fewer than 2^31, in one packet or
-- in parts), or a failure if the service fails. The agent must have no long request of that session, and the channel must gather
-- answers as a socket channel does.
pub remote_call :
    (lua : LuaApi) (node : Node) (channel : Channel)
    → Gathers channel
    → (value : Value) {h : Heap} {session msg : ℕ} {content : Bytes}
    → IsRequest h session msg content
    → length content < 2 ^ 31
    → (addr service : Value) → Destination lua value addr
    → is_zero addr ≡ false
    → resolve lua node addr ≡ some service
    → Fits (node.rawcall service content)
    → (large : LargeRequests) → large session ≡ none
    → (there here : Heap) → 1 ≤ there.next
    → RemoteCall lua node channel value h session msg content service large there here
remote_call lua node channel gathers value {h} {session} {msg} {content} r small addr service dest
      real found fits large fresh there here live =
    let a = arrives lua value r addr large fresh there dest small live in
    let called = node.rawcall service content in
    let low = r.session_lt in
    let back =
      called-Answers lua channel gathers session (omega arith) (freed a.heap a.ptr) here called
        fits in
    record {
      packets = a.packets;
      sent = a.sent;
      last = a.last;
      after = back.after;
      answered = back.packets;
      served =
          serve_all-answers lua node a.packets a.waits _ large a.last there a.heap back.after _
            a.runs
            (delivered_called lua node addr service session a.ptr content a.is_push a.heap
              back.after _ real found a.no_push a.holds small back.responded);
      forgotten = a.forgotten;
      others = a.others;
      values = back.values;
      read = back.read;
      received = back.received;
      waited = back.waited;
      result = back.result;
      back = back.back;
      finished = back.finished;
      yields = back.yields;
    }
