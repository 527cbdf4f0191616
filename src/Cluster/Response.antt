-- ===== src/Cluster/Response.antt =====
-- lpackresponse and lunpackresponse of cpp/beecluster/lua-beecluster.c.
pub mod Packets
pub mod Trip
pub mod Answers
use testcluster.Prelude.{
  ℕ, zero, suc, ◌+◌, ◌-◌, ◌*◌, ◌%◌, ◌^◌, min, Bool, true, false, Option, none, some, List, [], ◌∷◌,
  ◌++◌, length, take, drop, get_elem?, ltb, ◌==◌, if◌then◌else◌,
}
use testcluster.Prelude.Int.{to_u32, to_u64}
use testcluster.Cluster.Wire.{Bytes, multi_part, fill_uint32, unpack_uint32}
use testcluster.Cluster.Lua.{
  Value, nil, boolean, string, table, LuaApi, M, pure, ◌>>=◌, arg, to_userdata, check_integer,
  check_lstring, header, push_buf,
}
use testcluster.Cluster.Memory.{read_block}
use testcluster.Cluster.Request.{part_count}
use testcluster.Cluster.Unpack.{word, word_at}

-- lua_toboolean
unfoldable pub to_boolean : Value → Bool
to_boolean nil = false
to_boolean (boolean b) = b
to_boolean _ = true

-- The size_t `sz` of the message: a string's length, or the fourth argument.
unfoldable pub message_size : LuaApi → List Value → Value → M ℕ
message_size lua args (string text) = pure (length text)
message_size lua args _ = do size ← check_integer lua args 4; pure (to_u64 size)

-- The first `n` bytes of the message.
unfoldable pub read_message : Value → ℕ → M Bytes
unfolding to_userdata
read_message (string text) n = pure (take n text)
read_message msg n = read_block (to_userdata msg) n

-- A packet that is no part of a long message: `kind` is `ok`.
unfoldable pub response_packet : ℕ → ℕ → Bytes → M Bytes
response_packet session kind content = do
  head ← header (length content + 5)
  push_buf (head ++ fill_uint32 session ++ kind ∷ content)

-- Multi part begin: the size of the whole message.
unfoldable pub begin_packet : ℕ → ℕ → M Bytes
begin_packet session sz = do
  head ← header 9
  push_buf (head ++ fill_uint32 session ++ 2 ∷ fill_uint32 (sz % 2 ^ 32))

-- The loop over the parts that are left; `content` is what `ptr` points to.
unfoldable pub response_loop : ℕ → ℕ → ℕ → Bytes → M (List Bytes)
response_loop zero session sz content = pure []
response_loop (suc part) session sz content =
    let s = if ltb multi_part sz then multi_part else sz in
    let kind = if ltb multi_part sz then 3 else 4 in
    let rest = response_loop part session (sz - s) (drop s content) in
    response_packet session kind (take s content) >>= λ packet.
    rest >>= λ packets. pure (packet ∷ packets)

-- `int part` as the number of rounds of `for (i=0;i<part;i++)`; a negative one makes none.
unfoldable pub response_parts : ℕ → ℕ
response_parts sz = let part = part_count sz % 2 ^ 32 in if ltb part (2 ^ 31) then part else 0

unfoldable pub multi_response : ℕ → Value → ℕ → M (List Value)
multi_response session msg sz = do
  let part = response_parts sz
  begin ← begin_packet session sz
  content ← read_message msg (min sz (part * multi_part))
  packets ← response_loop part session sz content
  pure (table (begin ∷ packets) ∷ [])

unfoldable pub single_response : ℕ → ℕ → Value → ℕ → M (List Value)
single_response session kind msg sz = do
  content ← read_message msg sz
  packet ← response_packet session kind content
  pure (string packet ∷ [])

-- An error message is cut at MULTI_PART; a longer answer goes in parts.
unfoldable pub lpackresponse : LuaApi → List Value → M (List Value)
unfolding to_boolean
lpackresponse lua args = do
  given ← check_integer lua args 1
  let session = to_u32 given
  let msg = arg args 3
  sz ← message_size lua args msg
  if to_boolean (arg args 2)
      then if ltb multi_part sz
        then multi_response session msg sz
        else single_response session 1 msg sz
      else single_response session 0 msg (if ltb multi_part sz then multi_part else sz)

-- The switch on the type; no result stands for a packet that is dropped.
unfoldable pub unpack_response_by : Option ℕ → ℕ → Bytes → M (List Value)
unpack_response_by none session buf = pure []
unpack_response_by (some kind) session buf =
    if kind == 0
    then pure (word session ∷ boolean false ∷ string (drop 5 buf) ∷ [])
    else if kind == 1
    then pure (word session ∷ boolean true ∷ string (drop 5 buf) ∷ [])
    else if kind == 4
    then pure (word session ∷ boolean true ∷ string (drop 5 buf) ∷ [])
    else if kind == 2
    then (if length buf == 9
        then (do
          size ← word_at buf 5
          pure (word session ∷ boolean true ∷ word size ∷ boolean true ∷ []))
        else pure [])
    else if kind == 3
    then pure (word session ∷ boolean true ∷ string (drop 5 buf) ∷ boolean true ∷ [])
    else pure []

unfoldable pub unpack_response : Bytes → M (List Value)
unfolding unpack_response_by
unpack_response buf =
    if ltb (length buf) 5
    then pure []
    else do session ← word_at buf 0; unpack_response_by (get_elem? buf 4) session buf

unfoldable pub lunpackresponse : LuaApi → List Value → M (List Value)
unfolding unpack_response
lunpackresponse lua args = do buf ← check_lstring lua args 1; unpack_response buf
