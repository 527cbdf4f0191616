-- ===== src/Cluster/Unpack.antt =====
-- unpackreq_number, unpackmreq_number, unpackmreq_part, unpacktrace, unpackreq_string,
-- unpackmreq_string and lunpackrequest of cpp/beecluster/lua-beecluster.c.
-- `buf` is what follows the size header, and the code's `sz` is its length.
pub mod Bodies
pub mod Safety
use testcluster.Prelude.{
  ℕ, ◌<◌, ◌≡◌, refl, take_all, arith, zero, suc, ◌+◌, ◌-◌, ◌^◌, Bool, true, false, ◌||◌, Option,
  none, some, List, [], ◌∷◌, length, take, drop, ltb, leb, ◌==◌, if◌then◌else◌,
}
use testcluster.Prelude.Int.{ℤ, pos, negsuc, to_u32, of_i32, small_int}
use testcluster.Cluster.Wire.{Bytes, unpack_uint32}
use testcluster.Cluster.Lua.{
  Value, nil, boolean, light_userdata, integer, string, LuaApi, invalid_message_size,
  multi_request_must_be_13, invalid_multi_part, empty_package, invalid_package_type, Heap, M, pure,
  raise, crash, ◌>>=◌, arg, to_userdata, check_integer, check_lstring, check_lstring_eq, new_block,
}
use testcluster.Cluster.Memory.{read_block}

-- The word `i` bytes into the buffer.
unfoldable pub word_at : Bytes → ℕ → M ℕ
word_at buf i = elim (unpack_uint32 (drop i buf)) [ none ↦ crash | some w ↦ pure w ]

-- A 32-bit word pushed by lua_pushinteger.
abbrev pub word : ℕ → Value
word w = integer (pos w)

-- The two values of return_buffer: a new block that holds the bytes, and its size.
unfoldable pub return_buffer : Bytes → M (List Value)
unfolding new_block
return_buffer content = do
  ptr ← new_block content
  pure (light_userdata ptr ∷ word (length content) ∷ [])

-- What follows the buffer of a request: session 0 marks a push, which wants no response.
abbrev pub push_marks : ℕ → List Value
push_marks session = if session == 0 then nil ∷ boolean true ∷ [] else []

abbrev pub append_values : List Value → List Value → List Value
append_values [] ys = ys
append_values (x ∷ xs) ys = x ∷ append_values xs ys

unfoldable pub unpackreq_number : Bytes → M (List Value)
unpackreq_number buf =
    if ltb (length buf) 9 then raise (invalid_message_size (pos (length buf))) else do
      address ← word_at buf 1
      session ← word_at buf 5
      buffer ← return_buffer (drop 9 buf)
      pure (word address ∷ word session ∷ append_values buffer (push_marks session))

unfoldable pub unpackmreq_number : Bytes → Bool → M (List Value)
unpackmreq_number buf is_push =
    if length buf == 13
    then (do
      address ← word_at buf 1
      session ← word_at buf 5
      size ← word_at buf 9
      pure (word address ∷ word session ∷ nil ∷ word size ∷ boolean true ∷ boolean is_push ∷ []))
    else raise (multi_request_must_be_13 (pos (length buf)))

unfoldable pub unpackmreq_part : ℕ → Bytes → M (List Value)
unpackmreq_part first buf = if ltb (length buf) 5 then raise invalid_multi_part else do
  session ← word_at buf 1
  buffer ← return_buffer (drop 5 buf)
  pure (boolean false ∷ word session ∷ append_values buffer (boolean (first == 2) ∷ []))

unfoldable pub unpacktrace : Bytes → M (List Value)
unpacktrace buf = pure (string (drop 1 buf) ∷ [])

-- namesz, the byte behind the type.
unfoldable pub name_size : Bytes → ℕ
name_size (first ∷ namesz ∷ rest) = namesz
name_size _ = 0

unfoldable pub unpackreq_string : Bytes → M (List Value)
unfolding name_size
unpackreq_string buf =
    let namesz = name_size buf in
    if ltb (length buf) 2
    then raise (invalid_message_size (pos (length buf)))
    else if ltb (length buf) (namesz + 6)
    then raise (invalid_message_size (pos (length buf)))
    else do
      session ← word_at buf (namesz + 2)
      buffer ← return_buffer (drop (namesz + 6) buf)
      pure (
          string (take namesz (drop 2 buf))
          ∷ word session
          ∷ append_values buffer (push_marks session))

unfoldable pub unpackmreq_string : Bytes → Bool → M (List Value)
unfolding name_size
unpackmreq_string buf is_push =
    let namesz = name_size buf in
    if ltb (length buf) 2
    then raise (invalid_message_size (pos (length buf)))
    else if ltb (length buf) (namesz + 10)
    then raise (invalid_message_size (pos (length buf)))
    else do
      session ← word_at buf (namesz + 2)
      size ← word_at buf (namesz + 6)
      pure (
          string (take namesz (drop 2 buf))
          ∷ word session
          ∷ nil
          ∷ word size
          ∷ boolean true
          ∷ boolean is_push
          ∷ [])

-- The switch on the first byte.
unfoldable pub unpack_by_type : ℕ → Bytes → M (List Value)
unpack_by_type first buf =
    if first == 0
    then unpackreq_number buf
    else if first == 1
    then unpackmreq_number buf false
    else if first == 0x41
    then unpackmreq_number buf true
    else if first == 2
    then unpackmreq_part first buf
    else if first == 3
    then unpackmreq_part first buf
    else if first == 4
    then unpacktrace buf
    else if first == 0x80
    then unpackreq_string buf
    else if first == 0x81
    then unpackmreq_string buf false
    else if first == 0xc1
    then unpackmreq_string buf true
    else raise (invalid_package_type first)

unfoldable pub unpack_request : Bytes → M (List Value)
unfolding unpack_by_type
unpack_request [] = raise empty_package
unpack_request (first ∷ rest) = unpack_by_type first (first ∷ rest)

-- A light userdata with a negative size: only the first byte is read, and every type but a trace
-- finds the size too small. A string type finds it so too, where the code compares it before the
-- name's size; a trace would copy a string of a size near 2^64.
unfoldable pub unpack_negative : ℤ → ℕ → M (List Value)
unpack_negative sz first =
    if first == 1 || first == 0x41
    then raise (multi_request_must_be_13 sz)
    else if first == 2 || first == 3
    then raise invalid_multi_part
    else if first == 4
    then crash
    else if first == 0 || first == 0x80 || first == 0x81 || first == 0xc1
    then raise (invalid_message_size sz)
    else raise (invalid_package_type first)

unfoldable pub unpack_pointer : ℕ → ℤ → M (List Value)
unfolding unpack_request unpack_negative
unpack_pointer msg (pos sz) = do buf ← read_block msg sz; unpack_request buf
unpack_pointer msg (negsuc n) = do
  buf ← read_block msg 1
  elim buf [ [] ↦ crash | first ∷ rest ↦ unpack_negative (negsuc n) first ]

-- A string is unpacked up to `sz`, which is its length as an int.
unfoldable pub unpack_string : Bytes → ℤ → M (List Value)
unfolding unpack_request unpack_negative
unpack_string text (pos sz) = unpack_request (take sz text)
unpack_string [] (negsuc n) = crash
unpack_string (first ∷ rest) (negsuc n) = unpack_negative (negsuc n) first

-- `sz` is an `int` in both branches.
unfoldable pub lunpackrequest : LuaApi → List Value → M (List Value)
unfolding unpack_pointer unpack_string
lunpackrequest lua args = elim (arg args 1) [
  | light_userdata msg ↦ do
    size ← check_integer lua args 2
    unpack_pointer msg (of_i32 (to_u32 size))
  | _ ↦ do text ← check_lstring lua args 1; unpack_string text (of_i32 (to_u32 (pos (length text))))
]

-- A string of fewer than 2^31 bytes is unpacked whole.
pub lunpackrequest_string :
    (lua : LuaApi) (text : Bytes) (h : Heap)
    → length text < 2 ^ 31
    → lunpackrequest lua (string text ∷ []) h ≡ unpack_request text h
unfolding lunpackrequest unpack_string
lunpackrequest_string lua text h lt =
    rw (check_lstring_eq lua (string text ∷ []) 1 h text refl)
      (rw (small_int (length text) lt) (rw (take_all (length text) text (omega arith))))
