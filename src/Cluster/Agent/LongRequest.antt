-- ===== src/Cluster/Agent/LongRequest.antt =====
-- A long request, cut by packrequest, unpacked, and gathered again by the receiving agent.
use testcluster.Prelude.{
  ℕ, zero, suc, ◌+◌, ◌-◌, ◌^◌, ◌≤◌, ◌<◌, ◌≡◌, ◌≢◌, refl, ◌∙◌, sym, ap, Bool, true, false, some,
  none, List, [], ◌∷◌, ◌++◌, length, length-drop, take, drop, take_all, take-append-drop, arith,
  lt→ltb, ltb_of_le, ==_refl,
}
use mathlib.Core.List.{append_assoc, append-nil}
use testcluster.Cluster.Wire.{Bytes, multi_part, fill_uint32}
use testcluster.Cluster.Lua.{Value, light_userdata, string, other, LuaApi, ok, Heap}
use testcluster.Cluster.Unpack.{word}
use testcluster.Cluster.Unpack.Bodies.{with_block, lunpackrequest-framed, unpack_part_body}
use testcluster.Cluster.Request.{part_count}
use testcluster.Cluster.Request.Packets.{framed, part_body}
use testcluster.Cluster.Request.Parts.{part_frames, join, length-take-le}
use testcluster.Cluster.Request.Whole.{freed}
use testcluster.Cluster.Assemble.Calls.{lappend_buffer, lconcat_whole, strings, strings-append}
use testcluster.Cluster.Response.{to_boolean}
use testcluster.Cluster.Agent.{
  LargeRequest, LargeRequests, assign, Gathered, waiting, deliver, receive, receive_all,
  dispatch_request, gather, gather_part, gather_last, gather_end, append_part, deliver_or_fail,
  or_new,
}

-- The heap after a part was unpacked to a block, copied, and freed.
abbrev pub passed : Heap → Bytes → Heap
passed h part = freed (with_block h part) h.next

module _ (lua : LuaApi) (large : LargeRequests) (session : ℕ) (session_lt : session < 2 ^ 32)
    (req : LargeRequest) (known : large session ≡ some req) (h : Heap) (live : 1 ≤ h.next)
    (part : Bytes) (short : length part + 5 < 2 ^ 31) where
  new_block_at : (with_block h part).block h.next ≡ some part
  new_block_at = rw (==_refl h.next)

  length-part_body :
      (more : Bool) → length part + 5 < 2 ^ 31 → length (part_body more session part) < 2 ^ 31
  unfolding part_body fill_uint32
  length-part_body true lt = omega arith
  length-part_body false lt = omega arith

  next-ne-zero : h.next ≢ 0
  next-ne-zero e = omega arith

  pub receive_part : receive lua large (framed (part_body true session part)) h ≡ (
    ok (
      assign large session (some (record req { parts = req.parts ++ string part ∷ [] })),
      waiting,
    ),
    passed h part,
  )
  unfolding receive dispatch_request gather gather_part append_part or_new to_boolean
  receive_part =
      rw (lunpackrequest-framed lua (part_body true session part) h (length-part_body true short)) (
        rw (unpack_part_body h session session_lt true part) (
          rw (known, or_new)
            (rw (
              lappend_buffer lua req.parts (other 0) h.next part (with_block h part) next-ne-zero
                new_block_at (omega arith)))))

  pub receive_last :
      (acc : List Bytes) (content : Bytes)
      → req.parts ≡ word (length content) ∷ strings acc
      → join (acc ++ part ∷ []) ≡ content
      → length content < 2 ^ 31
      → receive lua large (framed (part_body false session part)) h ≡ (
        ok (
          assign large session none,
          deliver req.addr session
              (light_userdata (h.next + 1))
              (word (length content))
              req.is_push,
        ),
        with_block (passed h part) content,
      )
  unfolding receive dispatch_request gather gather_end gather_last append_part deliver_or_fail
      to_boolean
  receive_last acc content gathered joins content_lt =
      rw (lunpackrequest-framed lua (part_body false session part) h (length-part_body false short))
        (rw (unpack_part_body h session session_lt false part) (
          rw (known, gather_end)
            (rw
              (lappend_buffer lua req.parts (other 0) h.next part (with_block h part) next-ne-zero
                new_block_at (omega arith))
              (rw gathered (
                rw (← strings-append acc (part ∷ [])) (
                  rw (
                    lconcat_whole lua (acc ++ part ∷ []) content (passed h part) joins
                      content_lt)))))))

-- The packets answer `waiting`, but the last, which delivers.
abbrev pub answers : ℕ → Gathered → List Gathered
answers zero last = last ∷ []
answers (suc n) last = waiting ∷ answers n last

-- What the packets of one long request come to: the answers, the message in the block at `ptr`, no
-- entry left for the session, the others kept, and no block left behind beside `ptr`.
pub record Delivers (lua : LuaApi) (large : LargeRequests) (session : ℕ) (packets : List Bytes)
    (h : Heap) (expected : List Gathered) (ptr : ℕ) (content : Bytes) : Type 0 where
  pub last : LargeRequests
  pub heap : Heap
  pub runs : receive_all lua large packets h ≡ (ok (last, expected), heap)
  pub holds : heap.block ptr ≡ some content
  pub forgotten : last session ≡ none
  pub others : (s : ℕ) → s ≢ session → last s ≡ large s
  pub no_leak : (q : ℕ) → q ≢ ptr → h.block q ≡ none → heap.block q ≡ none

pub passed-none :
    (h : Heap) (part : Bytes) (q : ℕ) → h.block q ≡ none → (passed h part).block q ≡ none
passed-none h part q e = ground arith

-- How much is left, by the number of parts.
pub last_count : (sz : ℕ) → part_count sz ≡ 1 → sz ≤ multi_part
unfolding part_count
last_count sz e = omega arith

pub more_count :
    (sz n : ℕ)
    → part_count sz ≡ suc (suc n)
    → (multi_part < sz) × (part_count (sz - multi_part) ≡ suc n) × (1 ≤ sz - multi_part)
unfolding part_count
more_count sz n e = omega arith

join-append_one : (acc : List Bytes) (part : Bytes) → join (acc ++ part ∷ []) ≡ join acc ++ part
unfolding join
join-append_one [] part = append-nil part
join-append_one (a ∷ acc) part =
    ap (λ r. a ++ r) (join-append_one acc part) ∙ sym (append_assoc a (join acc) part)

module _ (lua : LuaApi) (session : ℕ) (session_lt : session < 2 ^ 32) (addr is_push : Value)
    (content : Bytes) (content_lt : length content < 2 ^ 31) (ptr : ℕ) where
  abbrev pub entry : List Bytes → LargeRequest
  entry acc = record { addr = addr; is_push = is_push; parts = word (length content) ∷ strings acc }

  abbrev pub delivery : Gathered
  delivery = deliver addr session (light_userdata ptr) (word (length content)) is_push

  last_delivered :
      (acc : List Bytes) (rest : Bytes) (large : LargeRequests) (h : Heap)
      → length rest ≤ multi_part
      → join acc ++ rest ≡ content
      → large session ≡ some (entry acc)
      → 1 ≤ h.next
      → h.next + 1 ≡ ptr
      → Delivers lua large session
          (framed (part_body false session rest) ∷ [])
          h
          (delivery ∷ [])
          ptr
          content
  unfolding receive_all
  last_delivered acc rest large h short whole known live at = record {
    last = assign large session none;
    heap = with_block (passed h rest) content;
    runs =
        rw
          (receive_last lua large session session_lt (entry acc) known h live rest (omega arith) acc
            content refl (join-append_one acc rest ∙ whole) content_lt)
          (rw at);
    holds = ground arith;
    forgotten = ground arith;
    others = λ s ne. ground arith;
    no_leak = λ q ne e. ground (arith, passed-none h rest q e);
  }

  -- A part with more behind it.
  more_delivered :
      (acc : List Bytes) (part : Bytes) (large : LargeRequests) (h : Heap) (packets : List Bytes)
      (gs : List Gathered)
      → large session ≡ some (entry acc)
      → 1 ≤ h.next
      → length part + 5 < 2 ^ 31
      → Delivers lua
          (assign large session (some (entry (acc ++ part ∷ []))))
          session
          packets
          (passed h part)
          gs
          ptr
          content
      → Delivers lua large session
          (framed (part_body true session part) ∷ packets)
          h
          (waiting ∷ gs)
          ptr
          content
  unfolding receive_all
  more_delivered acc part large h packets gs known live short d = record {
    last = d.last;
    heap = d.heap;
    runs =
        rw (receive_part lua large session session_lt (entry acc) known h live part short)
          (rw (← strings-append acc (part ∷ [])) (rw d.runs));
    holds = d.holds;
    forgotten = d.forgotten;
    others = λ s ne. ground (arith, d.others s ne);
    no_leak = λ q ne e. d.no_leak q ne (passed-none h part q e);
  }

  pub parts_delivered :
      (n : ℕ) (acc : List Bytes) (rest : Bytes) (large : LargeRequests) (h : Heap)
      → part_count (length rest) ≡ suc n
      → join acc ++ rest ≡ content
      → large session ≡ some (entry acc)
      → 1 ≤ h.next
      → h.next + n + 1 ≡ ptr
      → Delivers lua large session
          (part_frames (suc n) session rest)
          h
          (answers n delivery)
          ptr
          content
  unfolding part_frames
  parts_delivered zero acc rest large h count whole known live at =
      let short = last_count (length rest) count in
      rw (ltb_of_le multi_part (length rest) short, take_all multi_part rest short)
        (last_delivered acc rest large h short whole known live (omega arith))
  parts_delivered (suc n) acc rest large h count whole known live at =
      let part : Bytes = take multi_part rest in
      let left : Bytes = drop multi_part rest in
      let (long, count', some_left) = more_count (length rest) n count in
      let cut : length left ≡ length rest - multi_part = length-drop multi_part rest in
      rw (lt→ltb multi_part (length rest) long) (
        more_delivered acc part large h (part_frames (suc n) session left) (answers n delivery)
          known live (omega (arith, length-take-le rest))
          (parts_delivered n (acc ++ part ∷ []) left
            (assign large session (some (entry (acc ++ part ∷ [])))) (passed h part)
            (ap part_count cut ∙ count')
            (rw (join-append_one acc part) (
              append_assoc (join acc) part left
              ∙ ap (λ r. join acc ++ r) (take-append-drop multi_part rest)
              ∙ whole))
            (rw (==_refl session)) (omega arith) (omega arith)))
