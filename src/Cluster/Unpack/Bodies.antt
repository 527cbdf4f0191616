-- ===== src/Cluster/Unpack/Bodies.antt =====
-- lunpackrequest on the bodies that packrequest writes.
use testcluster.Prelude.{
  ℕ, suc, ◌+◌, ◌^◌, ◌<◌, ◌≡◌, refl, Bool, true, false, some, List, [], ◌∷◌, ◌++◌, length,
  length-append, take, drop, take-append_length, drop-append_past, arith, ltb_of_le,
}
use testcluster.Cluster.Wire.{Bytes, fill_uint32, unpack_uint32-fill_uint32}
use testcluster.Cluster.Lua.{Value, nil, boolean, light_userdata, string, LuaApi, ok, Heap, update}
use testcluster.Cluster.Unpack.{
  word, word_at, unpack_request, lunpackrequest, lunpackrequest_string, append_values, push_marks,
  return_buffer, unpackreq_number, unpackmreq_number, unpackmreq_part, unpackreq_string,
  unpackmreq_string,
}
use testcluster.Cluster.Request.Packets.{
  framed, drop-framed, number_body, string_body, multi_number_body, multi_string_body, part_body,
}

-- The heap after an allocation that holds `content`.
abbrev pub with_block : Heap → Bytes → Heap
with_block h content = record { block = update h.block h.next (some content); next = h.next + 1 }

-- A new block and its size, as return_buffer pushes them.
abbrev pub new_buffer : Heap → Bytes → List Value
new_buffer h content = light_userdata h.next ∷ word (length content) ∷ []

pub word_at_eq :
    (buf rest : Bytes) (i n : ℕ) (h : Heap)
    → n < 2 ^ 32
    → drop i buf ≡ fill_uint32 n ++ rest
    → word_at buf i h ≡ (ok n, h)
unfolding word_at
word_at_eq buf rest i n h lt e = rw (e, word_at) (rw (unpack_uint32-fill_uint32 n rest lt, word_at))

return_buffer_eq :
    (h : Heap) (content : Bytes)
    → return_buffer content h ≡ (ok (new_buffer h content), with_block h content)
unfolding return_buffer
return_buffer_eq h content = refl

module _ (h : Heap) (session : ℕ) (session_lt : session < 2 ^ 32) where
  pub unpack_number_body :
      (addr : ℕ) (content : Bytes)
      → addr < 2 ^ 32
      → unpack_request (number_body addr session content) h ≡ (
        ok (word addr ∷ word session ∷ append_values (new_buffer h content) (push_marks session)),
        with_block h content,
      )
  unfolding unpack_request unpackreq_number number_body drop
  unpack_number_body addr content addr_lt =
      let buf : Bytes = number_body addr session content in
      rw (ltb_of_le (length buf) 9 (omega arith)) (
        rw (word_at_eq buf (fill_uint32 session ++ content) 1 addr h addr_lt refl) (
          rw (word_at_eq buf content 5 session h session_lt refl)
            (rw (return_buffer_eq h content))))

  pub unpack_multi_number_body :
      (is_push : Bool) (addr sz : ℕ)
      → addr < 2 ^ 32
      → sz < 2 ^ 32
      → unpack_request (multi_number_body is_push addr session sz) h
        ≡ (ok (word addr ∷ word session ∷ nil ∷ word sz ∷ boolean true ∷ boolean is_push ∷ []), h)
  unfolding unpack_request unpackmreq_number multi_number_body drop
  unpack_multi_number_body true addr sz addr_lt sz_lt =
      let buf : Bytes = multi_number_body true addr session sz in
      (rw (word_at_eq buf (fill_uint32 session ++ fill_uint32 sz) 1 addr h addr_lt refl) (
        rw (word_at_eq buf (fill_uint32 sz) 5 session h session_lt refl)
          (rw (word_at_eq buf [] 9 sz h sz_lt refl))))
  unpack_multi_number_body false addr sz addr_lt sz_lt =
      let buf : Bytes = multi_number_body false addr session sz in
      (rw (word_at_eq buf (fill_uint32 session ++ fill_uint32 sz) 1 addr h addr_lt refl) (
        rw (word_at_eq buf (fill_uint32 sz) 5 session h session_lt refl)
          (rw (word_at_eq buf [] 9 sz h sz_lt refl))))

  pub unpack_part_body :
      (more : Bool) (content : Bytes)
      → unpack_request (part_body more session content) h ≡ (
        ok (
            boolean false
            ∷ word session
            ∷ light_userdata h.next
            ∷ word (length content)
            ∷ boolean more
            ∷ []),
        with_block h content,
      )
  unfolding unpack_request unpackmreq_part part_body drop
  unpack_part_body true content =
      let buf : Bytes = part_body true session content in
      rw (ltb_of_le (length buf) 5 (omega arith))
        (rw (word_at_eq buf content 1 session h session_lt refl) (rw (return_buffer_eq h content)))
  unpack_part_body false content =
      let buf : Bytes = part_body false session content in
      rw (ltb_of_le (length buf) 5 (omega arith))
        (rw (word_at_eq buf content 1 session h session_lt refl) (rw (return_buffer_eq h content)))

-- What stands behind a name: the cuts that the code makes by the length of the name.
module _ (first : ℕ) (name tail : Bytes) where
  abbrev named : Bytes
  named = first ∷ length name ∷ (name ++ tail)

  take-name : take (length name) (drop 2 named) ≡ name
  unfolding drop
  take-name = take-append_length (length name) name tail refl

  drop-name : (i k : ℕ) → i ≡ suc (suc (length name + k)) → drop i named ≡ drop k tail
  unfolding drop
  drop-name i k e = rw e (drop-append_past name tail (length name + k) k refl)

  length-named : length named ≡ length name + length tail + 2
  length-named = omega (arith, length-append name tail)

module _ (h : Heap) (session : ℕ) (session_lt : session < 2 ^ 32) (name : Bytes) where
  pub unpack_string_body :
      (content : Bytes)
      → unpack_request (string_body name session content) h ≡ (
        ok (string name ∷ word session ∷ append_values (new_buffer h content) (push_marks session)),
        with_block h content,
      )
  unfolding unpack_request unpackreq_string string_body drop
  unpack_string_body content =
      let tail : Bytes = fill_uint32 session ++ content in
      let buf : Bytes = string_body name session content in
      let n = length name in
      rw
        (
          ltb_of_le (length buf) 2 (omega arith),
          ltb_of_le (length buf) (n + 6) (omega (arith, length-named 0x80 name tail)),
        )
        (rw
          (word_at_eq buf content (n + 2) session h session_lt
            (drop-name 0x80 name tail (n + 2) 0 (omega arith)))
          (rw (drop-name 0x80 name tail (n + 6) 4 (omega arith))
            (rw (return_buffer_eq h content) (rw (take-name 0x80 name tail)))))

  unpack_named_multi :
      (first : ℕ) (is_push : Bool) (sz : ℕ)
      → sz < 2 ^ 32
      → unpackmreq_string (named first name (fill_uint32 session ++ fill_uint32 sz)) is_push h
        ≡ (ok (string name ∷ word session ∷ nil ∷ word sz ∷ boolean true ∷ boolean is_push ∷ []), h)
  unfolding unpackmreq_string drop fill_uint32
  unpack_named_multi first is_push sz sz_lt =
      let tail : Bytes = fill_uint32 session ++ fill_uint32 sz in
      let buf : Bytes = named first name tail in
      let n = length name in
      rw
        (
          ltb_of_le (length buf) 2 (omega arith),
          ltb_of_le (length buf) (n + 10) (omega (arith, length-named first name tail)),
        )
        (rw
          (word_at_eq buf (fill_uint32 sz) (n + 2) session h session_lt
            (drop-name first name tail (n + 2) 0 (omega arith)))
          (rw
            (word_at_eq buf [] (n + 6) sz h sz_lt
              (drop-name first name tail (n + 6) 4 (omega arith)))
            (rw (take-name first name tail))))

  pub unpack_multi_string_body :
      (is_push : Bool) (sz : ℕ)
      → sz < 2 ^ 32
      → unpack_request (multi_string_body is_push name session sz) h
        ≡ (ok (string name ∷ word session ∷ nil ∷ word sz ∷ boolean true ∷ boolean is_push ∷ []), h)
  unfolding unpack_request multi_string_body
  unpack_multi_string_body true sz sz_lt = unpack_named_multi 0xc1 true sz sz_lt
  unpack_multi_string_body false sz sz_lt = unpack_named_multi 0x81 false sz sz_lt

-- A frame is unpacked behind its header.
pub lunpackrequest-framed :
    (lua : LuaApi) (body : Bytes) (h : Heap)
    → length body < 2 ^ 31
    → lunpackrequest lua (string (drop 2 (framed body)) ∷ []) h ≡ unpack_request body h
lunpackrequest-framed lua body h lt = rw (drop-framed body) (lunpackrequest_string lua body h lt)
