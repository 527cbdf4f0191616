-- ===== src/Cluster/Call/Arriving.antt =====
-- A request of any size, from the sender (bee_clustersender.lua) to its delivery by the agent (bee_clusteragent.lua).
use testcluster.Prelude.{
  ℕ, suc, ◌+◌, ◌-◌, ◌/◌, ◌^◌, ◌<◌, ◌≤◌, ◌≡◌, ◌≢◌, refl, true, false, none, some, List, [], ◌∷◌,
  length, ==_of_ne, ==_refl, arith,
}
use native.Mathlib.Decide.{dec_lt}
use testcluster.Prelude.Int.{to_u32}
use testcluster.Cluster.Wire.{Bytes, multi_part}
use testcluster.Cluster.Lua.{
  Value, nil, boolean, light_userdata, string, table, LuaApi, ok, Heap, arg, to_integer_or_zero,
}
use testcluster.Cluster.Unpack.{word}
use testcluster.Cluster.Unpack.Bodies.{with_block}
use testcluster.Cluster.Request.{packrequest, lpackrequest, is_number, next_session}
use testcluster.Cluster.Request.Whole.{freed, request_args, IsRequest}
use testcluster.Cluster.Request.ShortTrip.{Carried, short_number_request, short_name_request}
use testcluster.Cluster.Response.{to_boolean}
use testcluster.Cluster.Agent.{
  LargeRequests, deliver, receive, receive_all, dispatch_request, gather, gather_end,
  deliver_or_fail,
}
use testcluster.Cluster.Agent.LongRequest.{answers}
use testcluster.Cluster.Agent.Delivery.{Sent, long_number_request, long_name_request}
use testcluster.Cluster.Sender.{send_request, request_packets}

-- An address that packrequest takes, and as what the agent gets it.
pub data Destination (lua : LuaApi) (value addr : Value) : Type 0 where
  number :
      is_number value ≡ true
      → addr ≡ word (to_u32 (to_integer_or_zero lua value))
      → Destination lua value addr
  name :
      (text : Bytes)
      → is_number value ≡ false
      → lua.to_lstring value ≡ some text
      → 1 ≤ length text
      → length text ≤ 255
      → addr ≡ string text
      → Destination lua value addr

-- The sender writes packets; an agent that gets them delivers the message whole, in the block at `ptr`, as no push.
pub record Arrives (lua : LuaApi) (value : Value) (h : Heap) (session msg : ℕ) (content : Bytes)
    (addr : Value) (large : LargeRequests) (there : Heap) : Type 0 where
  pub packets : List Bytes
  pub sent :
      send_request lua session value (light_userdata msg) (word (length content)) h
      ≡ (ok (next_session session, packets), freed h msg)
  pub last : LargeRequests
  pub heap : Heap
  pub waits : ℕ
  pub ptr : ℕ
  pub is_push : Value
  pub no_push : to_boolean is_push ≡ false
  pub runs : receive_all lua large packets there ≡ (
    ok (
      last,
      answers waits (deliver addr session (light_userdata ptr) (word (length content)) is_push),
    ),
    heap,
  )
  pub holds : heap.block ptr ≡ some content
  pub forgotten : last session ≡ none
  pub others : (s : ℕ) → s ≢ session → last s ≡ large s

module _ (lua : LuaApi) (value : Value) {h : Heap} {session msg : ℕ} {content : Bytes}
    (r : IsRequest h session msg content) (addr : Value) (large : LargeRequests)
    (fresh : large session ≡ none) (there : Heap) where
  sent_as :
      (packets : List Bytes) (request padding : Value)
      → request_packets request padding ≡ some packets
      → (vs : List Value) → arg vs 1 ≡ request
      → arg vs 2 ≡ word (next_session session)
      → arg vs 3 ≡ padding
      → packrequest lua (request_args value session msg content) false h ≡ (ok vs, freed h msg)
      → send_request lua session value (light_userdata msg) (word (length content)) h
        ≡ (ok (next_session session, packets), freed h msg)
  unfolding send_request lpackrequest
  sent_as packets request padding p vs e1 e2 e3 packed = rw (packed) (rw (e1, e2, e3) (rw (p)))

  session-ne-zero : session ≢ 0
  session-ne-zero e = let least = r.session_pos in omega arith

  Carried-Arrives :
      Carried lua value false h session msg content addr there
      → Arrives lua value h session msg content addr large there
  unfolding receive_all receive dispatch_request gather gather_end deliver_or_fail to_boolean
      request_packets
  Carried-Arrives c = record {
    packets = c.packet ∷ [];
    sent = sent_as (c.packet ∷ []) (string c.packet) nil refl _ refl refl refl c.packed;
    last = large;
    heap = with_block there content;
    waits = 0;
    ptr = there.next;
    is_push = nil;
    no_push = refl;
    runs = rw (c.unpacked) (rw (==_of_ne session 0 session-ne-zero) (rw (fresh, gather_end) refl));
    holds = rw (==_refl there.next);
    forgotten = fresh;
    others = λ s ne. refl;
  }

  Sent-Arrives :
      Sent lua value false h session msg content addr large there
      → Arrives lua value h session msg content addr large there
  unfolding request_packets to_boolean
  Sent-Arrives s = record {
    packets = s.first ∷ s.packets;
    sent =
        sent_as (s.first ∷ s.packets) (string s.first) (table s.packets) refl _ refl refl refl
          s.packed;
    last = s.delivered.last;
    heap = s.delivered.heap;
    waits = suc ((length content - 1) / multi_part);
    ptr = there.next + (length content - 1) / multi_part + 1;
    is_push = boolean false;
    no_push = refl;
    runs = s.delivered.runs;
    holds = s.delivered.holds;
    forgotten = s.delivered.forgotten;
    others = s.delivered.others;
  }

  pub arrives :
      Destination lua value addr
      → length content < 2 ^ 31
      → 1 ≤ there.next
      → Arrives lua value h session msg content addr large there
  arrives (number num e) small live = elim (dec_lt (length content) multi_part) [
    | yes short ↦ Carried-Arrives (rw (e) (short_number_request lua value false r there short num))
    | no long ↦ Sent-Arrives (
        rw (e)
          (long_number_request lua value false r large there num (omega arith) small fresh live))
  ]
  arrives (name text num is lo hi e) small live = elim (dec_lt (length content) multi_part) [
    | yes short ↦
        Carried-Arrives
          (rw (e) (short_name_request lua value false r there short text num is lo hi))
    | no long ↦ Sent-Arrives (
        rw (e) (
          long_name_request lua value false r large there text num is lo hi (omega arith) small
            fresh live))
  ]
