-- ===== src/Cluster/Request/ShortTrip.antt =====
-- A short request, from the call of packrequest to what lunpackrequest gives the receiver.
use testcluster.Prelude.{
  ℕ, ◌^◌, ◌≤◌, ◌<◌, ◌≡◌, Bool, true, false, some, [], ◌∷◌, length, length-append, drop, ◌++◌,
  if◌then◌else◌, arith,
}
use testcluster.Prelude.Int.{to_u32, to_u32-lt}
use testcluster.Cluster.Wire.{Bytes, multi_part, header_size, fill_uint32}
use testcluster.Cluster.Lua.{Value, string, LuaApi, ok, Heap, to_integer_or_zero}
use testcluster.Cluster.Unpack.{word, lunpackrequest, append_values, push_marks}
use testcluster.Cluster.Unpack.Bodies.{
  with_block, new_buffer, lunpackrequest-framed, unpack_number_body, unpack_string_body,
}
use testcluster.Cluster.Request.{packrequest, is_number, next_session}
use testcluster.Cluster.Request.Packets.{
  framed, number_body, string_body, header_size-framed, drop-framed,
}
use testcluster.Cluster.Request.Whole.{
  freed, request_args, IsRequest, packrequest_number_single, packrequest_string_single,
}

-- One packet carries the request: packrequest returns it with the next session and frees the
-- message, its header tells how much follows, and lunpackrequest gives its reader the address, the
-- session that was sent, a new block that holds the message, and the marks of a push.
pub record Carried (lua : LuaApi) (value : Value) (is_push : Bool) (h : Heap) (session msg : ℕ)
    (content : Bytes) (addr : Value) (there : Heap) : Type 0 where
  pub packet : Bytes
  pub packed :
      packrequest lua (request_args value session msg content) is_push h
      ≡ (ok (string packet ∷ word (next_session session) ∷ []), freed h msg)
  pub sized : header_size packet ≡ some (length (drop 2 packet))
  pub unpacked : lunpackrequest lua (string (drop 2 packet) ∷ []) there ≡ (
    ok (
        addr
        ∷ word (if is_push then 0 else session)
        ∷ append_values (new_buffer there content) (push_marks (if is_push then 0 else session))),
    with_block there content,
  )

sent_lt :
    (is_push : Bool) (session : ℕ) → session < 2 ^ 31 → (if is_push then 0 else session) < 2 ^ 32
sent_lt true session lt = omega arith
sent_lt false session lt = omega arith

module _ (lua : LuaApi) (value : Value) (is_push : Bool) {h : Heap} {session msg : ℕ}
    {content : Bytes} (r : IsRequest h session msg content) (there : Heap)
    (short : length content < multi_part) where
  -- A request or push of fewer than MULTI_PART bytes to a numeric address arrives as it was sent.
  pub short_number_request :
      is_number value ≡ true
      → Carried lua value is_push h session msg content
          (word (to_u32 (to_integer_or_zero lua value)))
          there
  unfolding number_body fill_uint32
  short_number_request num =
      let sent = if is_push then 0 else session in
      let body : Bytes = number_body (to_u32 (to_integer_or_zero lua value)) sent content in
      record {
        packet = framed body;
        packed = packrequest_number_single lua value is_push r num short;
        sized = rw (drop-framed body) (header_size-framed body);
        unpacked = rw (lunpackrequest-framed lua body there (omega arith)) (
            unpack_number_body there sent (sent_lt is_push session r.session_lt)
              (to_u32 (to_integer_or_zero lua value)) content (to_u32-lt _));
      }

  -- So does one to a name of 1 to 255 bytes.
  pub short_name_request :
      (name : Bytes)
      → is_number value ≡ false
      → lua.to_lstring value ≡ some name
      → 1 ≤ length name
      → length name ≤ 255
      → Carried lua value is_push h session msg content (string name) there
  unfolding string_body fill_uint32
  short_name_request name num is_name lo hi =
      let sent = if is_push then 0 else session in
      let body : Bytes = string_body name sent content in
      record {
        packet = framed body;
        packed = packrequest_string_single lua value is_push r name is_name lo hi num short;
        sized = rw (drop-framed body) (header_size-framed body);
        unpacked =
            rw
              (lunpackrequest-framed lua body there
                (let l = length-append name (fill_uint32 sent ++ content) in omega arith))
              (unpack_string_body there sent (sent_lt is_push session r.session_lt) name content);
      }
