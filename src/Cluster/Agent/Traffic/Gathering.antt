-- ===== src/Cluster/Agent/Traffic/Gathering.antt =====
-- The agent (lua/BeeCluster/bee_clusteragent.lua) gathers each long request, whatever comes between its parts.
use testcluster.Prelude.{
  ℕ, ◌+◌, ◌^◌, ◌<◌, ◌≤◌, ◌≡◌, refl, ◌∙◌, ap, Bool, true, Option, none, some, List, [], ◌∷◌, ◌++◌,
  length, ◌==◌, if◌then◌else◌, ==_refl, inl, inr, Bool-cases, arith,
}
use testcluster.Cluster.Wire.{Bytes}
use testcluster.Cluster.Lua.{Value, nil, boolean, light_userdata, string, LuaApi, ok, Heap}
use testcluster.Cluster.Unpack.{word, unpack_request, append_values, push_marks}
use testcluster.Cluster.Unpack.Bodies.{
  with_block, new_buffer, lunpackrequest-framed, unpack_number_body, unpack_string_body,
  unpack_multi_number_body, unpack_multi_string_body,
}
use testcluster.Cluster.Request.Packets.{framed}
use testcluster.Cluster.Assemble.Calls.{strings-append}
use testcluster.Cluster.Response.{to_boolean}
use testcluster.Cluster.Agent.{
  LargeRequest, LargeRequests, assign, Gathered, waiting, deliver, receive, receive_all,
  dispatch_request, gather, gather_end, deliver_or_fail,
}
use testcluster.Cluster.Agent.LongRequest.{passed, receive_part, receive_last}
use testcluster.Cluster.Agent.Delivery.{begin_received}
use testcluster.Cluster.Agent.Traffic.{
  Request, Open, Opens, put, Begin, to_number, to_name, Single, single_to_number, single_to_name,
  Traffic, quiet, begin, part, last, short, nothing, waits, gets, req_of, entry_of, Keeps, Received,
}

-- The blocks that were there are left as they were.
record After (h after : Heap) : Type 0 where
  kept : (q : ℕ) → q < h.next → after.block q ≡ h.block q
  grown : h.next ≤ after.next

same-After : (h : Heap) → After h h
same-After h = record { kept = λ q lt. refl; grown = omega arith }

block-After : (h : Heap) (content : Bytes) → After h (with_block h content)
block-After h content = record { kept = λ q lt. ground arith; grown = omega arith }

passed-After : (h : Heap) (content : Bytes) → After h (passed h content)
passed-After h content = record { kept = λ q lt. ground arith; grown = omega arith }

joined-After : (h : Heap) (chunk content : Bytes) → After h (with_block (passed h chunk) content)
joined-After h chunk content = record { kept = λ q lt. ground arith; grown = omega arith }

module _ (lua : LuaApi) (close : Opens) where
  receive_all-cons :
      (packet : Bytes) (packets : List Bytes) (large next final : LargeRequests) (g : Gathered)
      (gs : List Gathered) (h between heap : Heap)
      → receive lua large packet h ≡ (ok (next, g), between)
      → receive_all lua next packets between ≡ (ok (final, gs), heap)
      → receive_all lua large (packet ∷ packets) h ≡ (ok (final, g ∷ gs), heap)
  unfolding receive_all
  receive_all-cons packet packets large next final g gs h between heap e d = rw (e) (rw (d))

  waiting-Received :
      (large next : LargeRequests) (packet : Bytes) (packets : List Bytes) (requests : List Request)
      (h between : Heap)
      → receive lua large packet h ≡ (ok (next, waiting), between)
      → After h between
      → Received lua close next packets requests between
      → Received lua close large (packet ∷ packets) requests h
  waiting-Received large next packet packets requests h between e after r = record {
    last = r.last;
    gathered = waiting ∷ r.gathered;
    heap = r.heap;
    runs =
        receive_all-cons packet packets large next r.last waiting r.gathered h between r.heap e
          r.runs;
    delivered = waits r.delivered;
    left = r.left;
    blocks = λ q lt. r.blocks q (let g = after.grown in omega arith) ∙ after.kept q lt;
    grows = (let g = after.grown in let g' = r.grows in omega arith);
  }

  gets-Received :
      (large next : LargeRequests) (packet : Bytes) (packets : List Bytes) (requests : List Request)
      (h between : Heap) (request : Request) (p : ℕ) (push : Value)
      → receive lua large packet h ≡ (
        ok (
          next,
          deliver request.addr request.session
              (light_userdata p)
              (word (length request.content))
              push,
        ),
        between,
      )
      → After h between
      → p < between.next
      → between.block p ≡ some request.content
      → to_boolean push ≡ request.is_push
      → Received lua close next packets requests between
      → Received lua close large (packet ∷ packets) (request ∷ requests) h
  gets-Received large next packet packets requests h between request p push e after new holds pushed
        r =
      record {
        last = r.last;
        gathered =
            deliver request.addr request.session (light_userdata p) (word (length request.content))
              push
            ∷ r.gathered;
        heap = r.heap;
        runs =
            receive_all-cons packet packets large next r.last _ r.gathered h between r.heap e
              r.runs;
        delivered = gets request p push (r.blocks p new ∙ holds) pushed r.delivered;
        left = r.left;
        blocks = λ q lt. r.blocks q (let g = after.grown in omega arith) ∙ after.kept q lt;
        grows = (let g = after.grown in let g' = r.grows in omega arith);
      }

-- An entry of large_request that is set with the request that is opened, kept or closed.
put-Keeps :
    (opened : Opens) (large : LargeRequests) (session : ℕ) (o : Option Open)
    (entry : Option LargeRequest)
    → Keeps opened large
    → entry ≡ entry_of o
    → Keeps (put opened session o) (assign large session entry)
put-Keeps opened large session o entry keeps e s = elim (Bool-cases (session == s)) [
  | inl here ↦ rw (here) e
  | inr there ↦ rw (there) (keeps s)
]

unpacked-Begin :
    (session : ℕ) (session_lt : session < 2 ^ 32) (is_push : Bool) (sz : ℕ) (addr : Value)
    (body : Bytes) (h : Heap)
    → sz < 2 ^ 32
    → Begin session is_push sz addr body
    → unpack_request body h
      ≡ (ok (addr ∷ word session ∷ nil ∷ word sz ∷ boolean true ∷ boolean is_push ∷ []), h)
unpacked-Begin session session_lt is_push sz addr body h small (to_number n lt e f) =
    rw (e, f) (unpack_multi_number_body h session session_lt is_push n sz lt small)
unpacked-Begin session session_lt is_push sz addr body h small (to_name name e f) =
    rw (e, f) (unpack_multi_string_body h session session_lt name is_push sz small)

unpacked-Single :
    (session : ℕ) (session_lt : session < 2 ^ 32) (content : Bytes) (addr : Value) (body : Bytes)
    (h : Heap)
    → Single session content addr body
    → unpack_request body h ≡ (
      ok (addr ∷ word session ∷ append_values (new_buffer h content) (push_marks session)),
      with_block h content,
    )
unpacked-Single session session_lt content addr body h (single_to_number n lt e f) =
    rw (e, f) (unpack_number_body h session session_lt n content lt)
unpacked-Single session session_lt content addr body h (single_to_name name e f) =
    rw (e, f) (unpack_string_body h session session_lt name content)

-- The sixth value of lunpackrequest for a short request.
abbrev push_of : ℕ → Value
push_of session = if session == 0 then boolean true else nil

pushed-push_of : (session : ℕ) → to_boolean (push_of session) ≡ (session == 0)
unfolding to_boolean
pushed-push_of session = elim (Bool-cases (session == 0)) [
  | inl zero_session ↦ rw (zero_session) refl
  | inr real ↦ rw (real) refl
]

module _ (lua : LuaApi) (close : Opens) where
  -- A short request is delivered at once; session 0 marks a push.
  short_received :
      (large : LargeRequests) (session : ℕ) (addr : Value) (content body : Bytes) (h : Heap)
      → large session ≡ none
      → length body < 2 ^ 16
      → unpack_request body h ≡ (
        ok (addr ∷ word session ∷ append_values (new_buffer h content) (push_marks session)),
        with_block h content,
      )
      → receive lua large (framed body) h ≡ (
        ok (
          large,
          deliver addr session (light_userdata h.next) (word (length content)) (push_of session),
        ),
        with_block h content,
      )
  unfolding receive dispatch_request gather gather_end deliver_or_fail to_boolean
  short_received large session addr content body h fresh framed_lt unpacked =
      elim (Bool-cases (session == 0)) [
        | inl zero_session ↦
            rw (lunpackrequest-framed lua body h (omega arith))
              (rw (unpacked) (rw (zero_session) (rw (fresh, gather_end) refl)))
        | inr real ↦
            rw (lunpackrequest-framed lua body h (omega arith))
              (rw (unpacked) (rw (real) (rw (fresh, gather_end) refl)))
      ]

  -- Packets of long and of short requests, pushes or not, to numbers or to names, come in any order that keeps the parts of each
  -- long request in theirs. Each fits its header of two bytes. Long requests that are open at once have different sessions, and
  -- no short request comes with the session of an open one; short pushes have the session 0. An agent that has just the
  -- requests that are open at first takes them all without an error: it delivers each request once, when its last packet
  -- comes, with its address, session, kind and whole content (of a long one, fewer than 2^31 bytes) in a block that still
  -- holds it at the end. It then has just the requests that are open at the end, and the blocks that were there at first
  -- are as they were.
  pub traffic_received :
      {opened : Opens} {packets : List Bytes} {requests : List Request}
      → Traffic close opened packets requests
      → (large : LargeRequests) (h : Heap) → Keeps opened large
      → 1 ≤ h.next
      → Received lua close large packets requests h
  unfolding receive_all to_boolean
  traffic_received {opened} (quiet e) large h keeps live = record {
    last = large;
    gathered = [];
    heap = h;
    runs = refl;
    delivered = nothing;
    left = λ s. keeps s ∙ ap (λ o. entry_of (o s)) e;
    blocks = λ q lt. refl;
    grows = omega arith;
  }
  traffic_received {opened} (begin session addr is_push content body fresh lt small fits b more)
        large h keeps live =
      let entry : LargeRequest = record {
        addr = addr;
        is_push = boolean is_push;
        parts = word (length content) ∷ [];
      } in
      let o : Open = record { addr = addr; is_push = is_push; content = content; parts = [] } in
      waiting-Received lua close large (assign large session (some entry)) _ _ _ h h
        (begin_received lua large session (rw (keeps session, fresh) refl) h addr is_push content
          body (omega arith)
          (unpacked-Begin session lt is_push (length content) addr body h (omega arith) b))
        (same-After h)
        (traffic_received more (assign large session (some entry)) h
          (put-Keeps opened large session (some o) (some entry) keeps refl) live)
  traffic_received {opened} (part session o chunk known lt small more) large h keeps live =
      let old : LargeRequest = req_of o in
      let entry : LargeRequest = record old { parts = old.parts ++ string chunk ∷ [] } in
      let same : entry ≡ req_of (record o { parts = o.parts ++ chunk ∷ [] }) =
        rw (strings-append o.parts (chunk ∷ [])) refl in
      waiting-Received lua close large (assign large session (some entry)) _ _ _ h (passed h chunk)
        (receive_part lua large session lt old (rw (keeps session, known) refl) h live chunk
          (omega arith))
        (passed-After h chunk)
        (traffic_received more (assign large session (some entry)) (passed h chunk)
          (put-Keeps opened large session _ (some entry) keeps (ap (λ r. some r) same))
          (omega arith))
  traffic_received {opened} (last session o chunk known lt small size joins more) large h keeps
        live =
      let r : Request = record {
        addr = o.addr;
        session = session;
        is_push = o.is_push;
        content = o.content;
      } in
      gets-Received lua close large (assign large session none) _ _ _ h
        (with_block (passed h chunk) o.content) r (h.next + 1) (boolean o.is_push)
        (receive_last lua large session lt (req_of o) (rw (keeps session, known) refl) h live chunk
          (omega arith) o.parts o.content refl joins size)
        (joined-After h chunk o.content) (omega arith) (rw (==_refl (h.next + 1))) refl
        (traffic_received more (assign large session none) (with_block (passed h chunk) o.content)
          (put-Keeps opened large session none none keeps refl) (omega arith))
  traffic_received {opened} (short session addr content body fresh lt fits single more) large h
        keeps live =
      gets-Received lua close large large _ _ _ h (with_block h content)
        (record { addr = addr; session = session; is_push = session == 0; content = content })
        h.next (push_of session)
        (short_received large session addr content body h (rw (keeps session, fresh) refl) fits
          (unpacked-Single session lt content addr body h single))
        (block-After h content) (omega arith) (rw (==_refl h.next)) (pushed-push_of session)
        (traffic_received more large (with_block h content) keeps (omega arith))
