-- ===== src/Cluster/Push.antt =====
-- A push from one node to another: from command.push of the sender (lua/BeeCluster/bee_clustersender.lua) through the agent
-- (bee_clusteragent.lua) to the service, which does not answer.
mod Tests
use testcluster.Prelude.{
  ℕ, suc, ◌+◌, ◌-◌, ◌/◌, ◌^◌, ◌<◌, ◌≤◌, ◌≡◌, ◌≢◌, refl, ap, ◌⊎◌, inl, inr, true, false, none, some,
  List, [], ◌∷◌, length, ==_refl, arith,
}
use native.Mathlib.Decide.{dec_lt}
use testcluster.Prelude.Int.{to_u64}
use testcluster.Cluster.Wire.{Bytes, multi_part}
use testcluster.Cluster.Lua.{
  Value, nil, boolean, light_userdata, string, table, LuaApi, ok, Heap, arg,
}
use testcluster.Cluster.Unpack.{word}
use testcluster.Cluster.Unpack.Bodies.{with_block}
use testcluster.Cluster.Request.{packrequest, lpackpush, is_number, next_session}
use testcluster.Cluster.Request.Whole.{freed, request_args, IsRequest}
use testcluster.Cluster.Request.ShortTrip.{Carried, short_number_request, short_name_request}
use testcluster.Cluster.Response.{to_boolean}
use testcluster.Cluster.Agent.{
  LargeRequests, deliver, receive, receive_all, dispatch_request, gather, gather_end,
  deliver_or_fail,
}
use testcluster.Cluster.Agent.LongRequest.{answers}
use testcluster.Cluster.Agent.Delivery.{Sent, long_number_request, long_name_request}
use testcluster.Cluster.Agent.Respond.{
  Node, Event, send, take_message, dispatch_to, dispatch_delivered, dispatch_gathered, resolve,
  is_zero, serve_all,
}
use testcluster.Cluster.Sender.{push, push_session, request_packets}
use testcluster.Cluster.Call.{taken}
use testcluster.Cluster.Call.Serving.{serve_all-answers}
use testcluster.Cluster.Call.Arriving.{Destination, number, name}

-- The sender writes packets and frees the message; the agent, on these, sends the service the whole content once, and writes
-- nothing. A short push uses up no session.
pub record RemotePush (lua : LuaApi) (node : Node) (value : Value) (h : Heap) (session msg : ℕ)
    (content : Bytes) (service : Value) (large : LargeRequests) (there : Heap) : Type 0 where
  pub packets : List Bytes
  pub next : ℕ
  pub used :
      ((length content < multi_part) × (next ≡ session))
      ⊎ ((multi_part ≤ length content) × (next ≡ next_session session))
  pub sent :
      push lua session value (light_userdata msg) (word (length content)) h
      ≡ (ok (next, packets), freed h msg)
  pub last : LargeRequests
  pub after : Heap
  pub served :
      serve_all lua node large packets there ≡ (ok (last, send service content ∷ []), after)
  pub forgotten : last session ≡ none
  pub others : (s : ℕ) → s ≢ session → last s ≡ large s

module _ (lua : LuaApi) (node : Node) (value : Value) {h : Heap} {session msg : ℕ} {content : Bytes}
    (r : IsRequest h session msg content) (small : length content < 2 ^ 31) (addr service : Value)
    (real : is_zero addr ≡ false) (found : resolve lua node addr ≡ some service)
    (large : LargeRequests) (fresh : large session ≡ none) (there : Heap) where
  delivered_sent :
      (session' ptr : ℕ) (is_push : Value) (heap : Heap)
      → to_boolean is_push ≡ true
      → heap.block ptr ≡ some content
      → dispatch_gathered lua node
          (deliver addr session' (light_userdata ptr) (word (length content)) is_push)
          heap
        ≡ (ok (send service content ∷ []), freed heap ptr)
  unfolding dispatch_gathered dispatch_delivered dispatch_to
  delivered_sent session' ptr is_push heap pushes holds =
      rw (real)
        (rw (found, dispatch_to) (rw (taken lua node ptr content heap holds small) (rw (pushes))))

  pushed_as :
      (packets : List Bytes) (request padding : Value) (next : ℕ)
      → request_packets request padding ≡ some packets
      → (vs : List Value) → arg vs 1 ≡ request
      → arg vs 3 ≡ padding
      → push_session session (arg vs 2) padding (freed h msg) ≡ (ok next, freed h msg)
      → packrequest lua (request_args value session msg content) true h ≡ (ok vs, freed h msg)
      → push lua session value (light_userdata msg) (word (length content)) h
        ≡ (ok (next, packets), freed h msg)
  unfolding push lpackpush
  pushed_as packets request padding next p vs e1 e3 n packed =
      rw (packed) (rw (e1, e3) (rw (n) (rw (p))))

  short_pushed :
      length content < multi_part
      → large 0 ≡ none
      → Carried lua value true h session msg content addr there
      → RemotePush lua node value h session msg content service large there
  unfolding receive_all receive dispatch_request gather gather_end deliver_or_fail to_boolean
      request_packets push_session
  short_pushed short zero_fresh c = record {
    packets = c.packet ∷ [];
    next = session;
    used = inl (short, refl);
    sent = pushed_as (c.packet ∷ []) (string c.packet) nil session refl _ refl refl refl c.packed;
    last = large;
    after = freed (with_block there content) there.next;
    served =
        serve_all-answers lua node (c.packet ∷ []) 0
          (deliver addr 0 (light_userdata there.next) (word (length content)) (boolean true)) large
          large there (with_block there content) _ _
          (rw (c.unpacked) (rw (zero_fresh, gather_end) refl))
          (delivered_sent 0 there.next (boolean true) (with_block there content) refl
            (rw (==_refl there.next)));
    forgotten = fresh;
    others = λ s ne. refl;
  }

  long_pushed :
      multi_part ≤ length content
      → Sent lua value true h session msg content addr large there
      → RemotePush lua node value h session msg content service large there
  unfolding request_packets push_session to_boolean
  long_pushed long s =
      let ptr = there.next + (length content - 1) / multi_part + 1 in
      let count = suc ((length content - 1) / multi_part) in
      record {
        packets = s.first ∷ s.packets;
        next = next_session session;
        used = inr (long, refl);
        sent =
            pushed_as (s.first ∷ s.packets) (string s.first) (table s.packets)
              (next_session session) refl _ refl refl refl s.packed;
        last = s.delivered.last;
        after = freed s.delivered.heap ptr;
        served =
            serve_all-answers lua node (s.first ∷ s.packets) count
              (deliver addr session (light_userdata ptr) (word (length content)) (boolean true))
              large s.delivered.last there s.delivered.heap _ _ s.delivered.runs
              (delivered_sent session ptr (boolean true) s.delivered.heap refl s.delivered.holds);
        forgotten = s.delivered.forgotten;
        others = s.delivered.others;
      }

  -- A push to a service of another node, by number or by a name of 1 to 255 bytes that the agent resolves to a service, with a
  -- message of fewer than 2^31 bytes: the sender writes it in one packet, with the session kept, or in parts, which use one up;
  -- the agent sends the service the whole message once and writes nothing. The agent must have no long request of that
  -- session, nor of the session 0, which short pushes carry.
  pub remote_push :
      Destination lua value addr
      → large 0 ≡ none
      → 1 ≤ there.next
      → RemotePush lua node value h session msg content service large there
  remote_push (number num e) zero_fresh live = elim (dec_lt (length content) multi_part) [
    | yes short ↦
        short_pushed short zero_fresh
          (rw (e) (short_number_request lua value true r there short num))
    | no long ↦ long_pushed (omega arith) (
        rw (e)
          (long_number_request lua value true r large there num (omega arith) small fresh live))
  ]
  remote_push (name text num is lo hi e) zero_fresh live =
      elim (dec_lt (length content) multi_part) [
        | yes short ↦
            short_pushed short zero_fresh
              (rw (e) (short_name_request lua value true r there short text num is lo hi))
        | no long ↦ long_pushed (omega arith) (
            rw (e) (
              long_name_request lua value true r large there text num is lo hi (omega arith) small
                fresh live))
      ]
