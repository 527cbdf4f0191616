-- ===== src/Cluster/Response/Packets.antt =====
-- The packets of lpackresponse, in the layout of the comment above it in
-- cpp/beecluster/lua-beecluster.c, and what lunpackresponse reads from them.
use testcluster.Prelude.{
  ℕ, zero, suc, ◌+◌, ◌%◌, ◌^◌, ◌≤◌, ◌<◌, ◌≡◌, refl, Bool, true, false, List, [], ◌∷◌, ◌++◌, length,
  take, drop, ltb, if◌then◌else◌, arith, ltb_of_le,
}
use testcluster.Cluster.Wire.{Bytes, multi_part, fill_uint32}
use testcluster.Cluster.Lua.{boolean, string, LuaApi, ok, Heap, check_lstring_eq}
use testcluster.Cluster.Unpack.{word, word_at}
use testcluster.Cluster.Unpack.Bodies.{word_at_eq}
use testcluster.Cluster.Request.Packets.{framed, drop-framed, header_eq, push_framed}
use testcluster.Cluster.Request.Parts.{take_part, drop_part, rest_size, length-take-le}
use testcluster.Cluster.Response.{
  response_packet, begin_packet, response_loop, unpack_response, lunpackresponse,
}

-- DWORD session, BYTE type, the message.
unfoldable pub response_body : ℕ → ℕ → Bytes → Bytes
unfolding fill_uint32
response_body session kind content = fill_uint32 session ++ (kind ∷ content)

pub response_packet_eq :
    (session kind : ℕ) (content : Bytes) (h : Heap)
    → length content ≤ multi_part
    → response_packet session kind content h ≡ (ok (framed (response_body session kind content)), h)
unfolding response_packet response_body
response_packet_eq session kind content h le =
    let body : Bytes = response_body session kind content in
    rw (header_eq (length content + 5) h (omega arith))
      (rw (push_framed (length content + 5) body h (omega arith) (omega arith)))

pub begin_packet_eq :
    (session sz : ℕ) (h : Heap)
    → sz < 2 ^ 32
    → begin_packet session sz h ≡ (ok (framed (response_body session 2 (fill_uint32 sz))), h)
unfolding begin_packet response_body
begin_packet_eq session sz h lt =
    let body : Bytes = response_body session 2 (fill_uint32 sz) in
    let same : sz % 2 ^ 32 ≡ sz = omega arith in
    rw same
      (rw (header_eq 9 h (omega arith)) (rw (push_framed 9 body h (omega arith) (omega arith))))

-- The parts: type 3, and 4 for the last.
unfoldable pub response_frames : ℕ → ℕ → Bytes → List Bytes
response_frames zero session content = []
response_frames (suc n) session content =
    framed (
      response_body session (if ltb multi_part (length content) then 3 else 4)
        (take multi_part content))
    ∷ response_frames n session (drop multi_part content)

pub response_loop_eq :
    (n session : ℕ) (content : Bytes) (h : Heap)
    → response_loop n session (length content) content h
      ≡ (ok (response_frames n session content), h)
unfolding response_loop response_frames
response_loop_eq zero session content h = refl
response_loop_eq (suc n) session content h =
    let kind : ℕ = if ltb multi_part (length content) then 3 else 4 in
    rw (take_part content) (
      rw (response_packet_eq session kind (take multi_part content) h (length-take-le content)) (
        rw (rest_size content, drop_part content)
          (rw (response_loop_eq n session (drop multi_part content) h))))

-- What the reader of a frame is given, by the type of the packet.
module _ (lua : LuaApi) (session : ℕ) (session_lt : session < 2 ^ 32) (h : Heap) where
  lunpack_framed :
      (body : Bytes)
      → lunpackresponse lua (string (drop 2 (framed body)) ∷ []) h ≡ unpack_response body h
  unfolding lunpackresponse
  lunpack_framed body =
      rw (drop-framed body) (rw (check_lstring_eq lua (string body ∷ []) 1 h body refl))

  session_read :
      (kind : ℕ) (content : Bytes)
      → word_at (response_body session kind content) 0 h ≡ (ok session, h)
  unfolding response_body drop
  session_read kind content =
      word_at_eq (response_body session kind content) (kind ∷ content) 0 session h session_lt refl

  pub unpack_error :
      (content : Bytes)
      → lunpackresponse lua (string (drop 2 (framed (response_body session 0 content))) ∷ []) h
        ≡ (ok (word session ∷ boolean false ∷ string content ∷ []), h)
  unfolding unpack_response response_body drop
  unpack_error content = rw (lunpack_framed (response_body session 0 content)) (
      rw (ltb_of_le (length (response_body session 0 content)) 5 (omega arith))
        (rw (session_read 0 content)))

  pub unpack_ok :
      (content : Bytes)
      → lunpackresponse lua (string (drop 2 (framed (response_body session 1 content))) ∷ []) h
        ≡ (ok (word session ∷ boolean true ∷ string content ∷ []), h)
  unfolding unpack_response response_body drop
  unpack_ok content = rw (lunpack_framed (response_body session 1 content)) (
      rw (ltb_of_le (length (response_body session 1 content)) 5 (omega arith))
        (rw (session_read 1 content)))

  pub unpack_begin :
      (sz : ℕ)
      → sz < 2 ^ 32
      → lunpackresponse lua
          (string (drop 2 (framed (response_body session 2 (fill_uint32 sz)))) ∷ [])
          h
        ≡ (ok (word session ∷ boolean true ∷ word sz ∷ boolean true ∷ []), h)
  unfolding unpack_response response_body drop
  unpack_begin sz sz_lt =
      let body : Bytes = response_body session 2 (fill_uint32 sz) in
      rw (lunpack_framed body)
        (rw (session_read 2 (fill_uint32 sz)) (rw (word_at_eq body [] 5 sz h sz_lt refl)))

  pub unpack_part :
      (more : Bool) (content : Bytes)
      → lunpackresponse lua
          (string (drop 2 (framed (response_body session (if more then 3 else 4) content))) ∷ [])
          h
        ≡ (
          ok (
              word session
              ∷ boolean true
              ∷ string content
              ∷ (if more then boolean true ∷ [] else [])),
          h,
        )
  unfolding unpack_response response_body drop
  unpack_part true content = rw (lunpack_framed (response_body session 3 content)) (
      rw (ltb_of_le (length (response_body session 3 content)) 5 (omega arith))
        (rw (session_read 3 content)))
  unpack_part false content = rw (lunpack_framed (response_body session 4 content)) (
      rw (ltb_of_le (length (response_body session 4 content)) 5 (omega arith))
        (rw (session_read 4 content)))
