-- ===== src/Cluster/Agent/Delivery.antt =====
-- A long request, from the call of packrequest to its delivery by the receiving agent.
use testcluster.Prelude.{
  ℕ, suc, ◌+◌, ◌-◌, ◌/◌, ◌^◌, ◌≤◌, ◌<◌, ◌≡◌, refl, Bool, true, false, some, none, List, [], ◌∷◌,
  ◌++◌, length, length-append, arith, ==_refl,
}
use testcluster.Prelude.Int.{to_u32, to_u32-lt}
use testcluster.Cluster.Wire.{Bytes, multi_part, fill_uint32}
use testcluster.Cluster.Lua.{
  Value, nil, boolean, light_userdata, string, table, other, LuaApi, ok, Heap, to_integer_or_zero,
}
use testcluster.Cluster.Unpack.{word, unpack_request}
use testcluster.Cluster.Unpack.Bodies.{
  lunpackrequest-framed, unpack_multi_number_body, unpack_multi_string_body,
}
use testcluster.Cluster.Request.{packrequest, is_number, next_session, part_count}
use testcluster.Cluster.Request.Packets.{framed, multi_number_body, multi_string_body}
use testcluster.Cluster.Request.Parts.{part_frames, join}
use testcluster.Cluster.Request.Whole.{
  freed, request_args, IsRequest, packrequest_number_multi, packrequest_string_multi,
}
use testcluster.Cluster.Assemble.Calls.{lappend_size}
use testcluster.Cluster.Response.{to_boolean}
use testcluster.Cluster.Agent.{
  LargeRequests, assign, waiting, deliver, receive, receive_all, dispatch_request, gather,
  gather_part, append_part, or_new, Gathered,
}
use testcluster.Cluster.Agent.LongRequest.{answers, Delivers, parts_delivered}

-- What one call of packrequest gives for a long message, and that an agent which has the packets
-- in order delivers the message.
pub record Sent (lua : LuaApi) (value : Value) (is_push : Bool) (h : Heap) (session msg : ℕ)
    (content : Bytes) (addr : Value) (large : LargeRequests) (there : Heap) : Type 0 where
  pub first : Bytes
  pub packets : List Bytes
  pub packed :
      packrequest lua (request_args value session msg content) is_push h
      ≡ (ok (string first ∷ word (next_session session) ∷ table packets ∷ []), freed h msg)
  pub delivered :
      Delivers lua large session
        (first ∷ packets)
        there
        (waiting
          ∷ answers ((length content - 1) / multi_part) (
              deliver addr session
                (light_userdata (there.next + (length content - 1) / multi_part + 1))
                (word (length content))
                (boolean is_push)))
        (there.next + (length content - 1) / multi_part + 1)
        content

part_count-suc : (sz : ℕ) → part_count sz ≡ suc ((sz - 1) / multi_part)
unfolding part_count
part_count-suc sz = omega arith

module _ (lua : LuaApi) (large : LargeRequests) (session : ℕ) (fresh : large session ≡ none)
    (there : Heap) (addr : Value) (is_push : Bool) (content : Bytes) where
  pub begin_received :
      (body : Bytes)
      → length body < 2 ^ 31
      → unpack_request body there ≡ (
        ok (
            addr
            ∷ word session
            ∷ nil
            ∷ word (length content)
            ∷ boolean true
            ∷ boolean is_push
            ∷ []),
        there,
      )
      → receive lua large (framed body) there ≡ (
        ok (
          assign large session (
              some (record {
                addr = addr;
                is_push = boolean is_push;
                parts = word (length content) ∷ [];
              })),
          waiting,
        ),
        there,
      )
  unfolding receive dispatch_request gather gather_part append_part or_new to_boolean
  begin_received body framed_lt unpacked =
      rw (lunpackrequest-framed lua body there framed_lt)
        (rw unpacked (rw (fresh, or_new) (rw (lappend_size lua (other 0) (length content) there))))

  begin_delivered :
      (body : Bytes) (packets : List Bytes) (gs : List Gathered) (ptr : ℕ)
      → length body < 2 ^ 31
      → unpack_request body there ≡ (
        ok (
            addr
            ∷ word session
            ∷ nil
            ∷ word (length content)
            ∷ boolean true
            ∷ boolean is_push
            ∷ []),
        there,
      )
      → Delivers lua
          (assign large session (
            some (record {
              addr = addr;
              is_push = boolean is_push;
              parts = word (length content) ∷ [];
            })))
          session
          packets
          there
          gs
          ptr
          content
      → Delivers lua large session (framed body ∷ packets) there (waiting ∷ gs) ptr content
  unfolding receive_all
  begin_delivered body packets gs ptr framed_lt unpacked d = record {
    last = d.last;
    heap = d.heap;
    runs = rw (begin_received body framed_lt unpacked) (rw d.runs);
    holds = d.holds;
    forgotten = d.forgotten;
    others = λ s ne. ground (arith, d.others s ne);
    no_leak = d.no_leak;
  }

-- Every part behind a first packet that opens the request.
all_delivered :
    (lua : LuaApi) (large : LargeRequests) (session : ℕ) (there : Heap) (addr : Value)
    (is_push : Bool) (content body : Bytes)
    → large session ≡ none
    → session < 2 ^ 32
    → 1 ≤ there.next
    → length content < 2 ^ 31
    → length body < 2 ^ 31
    → unpack_request body there ≡ (
      ok (addr ∷ word session ∷ nil ∷ word (length content) ∷ boolean true ∷ boolean is_push ∷ []),
      there,
    )
    → Delivers lua large session
        (framed body ∷ part_frames (part_count (length content)) session content)
        there
        (waiting
          ∷ answers ((length content - 1) / multi_part) (
              deliver addr session
                (light_userdata (there.next + (length content - 1) / multi_part + 1))
                (word (length content))
                (boolean is_push)))
        (there.next + (length content - 1) / multi_part + 1)
        content
unfolding join
all_delivered lua large session there addr is_push content body fresh lt live content_lt framed_lt
      unpacked =
    let n = (length content - 1) / multi_part in
    let ptr = there.next + n + 1 in
    rw (part_count-suc (length content)) (
      begin_delivered lua large session fresh there addr is_push content body
        (part_frames (suc n) session content) _ ptr framed_lt unpacked
        (parts_delivered lua session lt addr (boolean is_push) content content_lt ptr n [] content _
          there (part_count-suc (length content)) refl (rw (==_refl session)) live refl))

module _ (lua : LuaApi) (value : Value) (is_push : Bool) {h : Heap} {session msg : ℕ}
    {content : Bytes} (r : IsRequest h session msg content) (large : LargeRequests)
    (there : Heap) where
  -- A request or push of at least MULTI_PART and fewer than 2^31 bytes to a numeric address:
  -- packrequest returns a first packet, the next session and the parts, and frees the message. An
  -- agent with no entry for the session answers `waiting` to each packet but the last; the last
  -- delivers the message whole, with the address and the push flag, in a new block; the entry is
  -- removed, the entries of other sessions are kept, and every other new block is freed.
  pub long_number_request :
      is_number value ≡ true
      → multi_part ≤ length content
      → length content < 2 ^ 31
      → large session ≡ none
      → 1 ≤ there.next
      → Sent lua value is_push h session msg content
          (word (to_u32 (to_integer_or_zero lua value)))
          large
          there
  unfolding multi_number_body fill_uint32
  long_number_request num long content_lt fresh live = record {
    first = _;
    packets = _;
    packed = packrequest_number_multi lua value is_push r num long;
    delivered =
        all_delivered lua large session there _ is_push content _ fresh
          (omega (arith, r.session_lt)) live content_lt (omega arith)
          (unpack_multi_number_body there session (omega (arith, r.session_lt)) is_push
            (to_u32 (to_integer_or_zero lua value)) (length content) (to_u32-lt _) r.size_lt);
  }

  -- The same for a name of 1 to 255 bytes in place of a numeric address: the name is delivered.
  pub long_name_request :
      (name : Bytes)
      → is_number value ≡ false
      → lua.to_lstring value ≡ some name
      → 1 ≤ length name
      → length name ≤ 255
      → multi_part ≤ length content
      → length content < 2 ^ 31
      → large session ≡ none
      → 1 ≤ there.next
      → Sent lua value is_push h session msg content (string name) large there
  unfolding multi_string_body fill_uint32
  long_name_request name num is_name lo hi long content_lt fresh live = record {
    first = _;
    packets = _;
    packed = packrequest_string_multi lua value is_push r name is_name lo hi num long;
    delivered =
        all_delivered lua large session there _ is_push content _ fresh
          (omega (arith, r.session_lt)) live content_lt
          (omega (arith, length-append name (fill_uint32 session ++ fill_uint32 (length content))))
          (unpack_multi_string_body there session (omega (arith, r.session_lt)) name is_push
            (length content) r.size_lt);
  }
