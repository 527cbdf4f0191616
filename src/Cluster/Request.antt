-- ===== src/Cluster/Request.antt =====
-- packreq_number, packreq_string, packreq_multi, packrequest, lpackrequest, lpackpush and lpacktrace
-- of cpp/beecluster/lua-beecluster.c. An `int session` is kept as its 32-bit pattern.
pub mod Packets
pub mod Parts
pub mod Whole
pub mod ShortTrip
pub mod Errors
pub mod Trace
pub mod Sessions
use testcluster.Prelude.{
  ℕ, zero, suc, ◌+◌, ◌-◌, ◌/◌, ◌%◌, ◌^◌, Bool, true, false, not, ◌||◌, none, some, List, [], ◌∷◌,
  ◌++◌, length, take, drop, ltb, ◌==◌, if◌then◌else◌,
}
use testcluster.Prelude.Int.{pos, to_u32, of_i32, is_positive_i32}
use testcluster.Cluster.Wire.{Bytes, multi_part, fill_uint32}
use testcluster.Cluster.Lua.{
  Value, integer, float, string, table, LuaApi, invalid_request_message, invalid_request_session,
  name_not_a_string, name_too_long, trace_tag_too_long, M, pure, raise, ◌>>=◌, ◌>>◌, arg,
  to_userdata, check_integer, to_integer_or_zero, check_lstring, header, push_buf, skynet_free,
}
use testcluster.Cluster.Memory.{read_block}

-- The number of parts of a long message: (sz - 1) / MULTI_PART + 1.
unfoldable pub part_count : ℕ → ℕ
part_count sz = (sz - 1) / multi_part + 1

-- The packet, and the number of parts that follow it: 0 if the message is in it.
unfoldable pub packreq_number : LuaApi → Value → ℕ → ℕ → ℕ → Bool → M (Bytes × ℕ)
packreq_number lua name session msg sz is_push =
    let addr = to_u32 (to_integer_or_zero lua name) in
    if ltb sz multi_part
    then (do
      head ← header (sz + 9)
      content ← read_block msg sz
      packet ←
          push_buf (
            head ++ 0 ∷ fill_uint32 addr ++ fill_uint32 (if is_push then 0 else session) ++ content)
      pure (packet, 0))
    else do
      head ← header 13
      packet ← push_buf (
          head
          ++ (if is_push then 0x41 else 1) ∷ fill_uint32 addr
          ++ fill_uint32 session
          ++ fill_uint32 sz)
      pure (packet, part_count sz)

-- A name that is no string, or whose length is not in 1 to 255, frees the message and raises.
unfoldable pub packreq_string : LuaApi → Value → ℕ → ℕ → ℕ → Bool → M (Bytes × ℕ)
packreq_string lua name_value session msg sz is_push = elim (lua.to_lstring name_value) [
  | none ↦ do skynet_free msg; raise name_not_a_string
  | some name ↦
      let namelen = length name in
      if ltb namelen 1 || ltb 255 namelen
      then (do skynet_free msg; raise (name_too_long name))
      else if ltb sz multi_part
      then (do
        head ← header (sz + 6 + namelen)
        content ← read_block msg sz
        packet ← push_buf (
            head
            ++ 0x80
              ∷ namelen % 256
              ∷ (name ++ (fill_uint32 (if is_push then 0 else session) ++ content)))
        pure (packet, 0))
      else do
        head ← header (10 + namelen)
        packet ← push_buf (
            head
            ++ (if is_push then 0xc1 else 0x81)
              ∷ namelen % 256
              ∷ (name ++ (fill_uint32 session ++ fill_uint32 sz)))
        pure (packet, part_count sz)
]

-- One round of the loop of packreq_multi: a part with more behind it, or the last.
unfoldable pub multi_packet : ℕ → ℕ → Bytes → M Bytes
multi_packet session sz content = do
  let s = if ltb multi_part sz then multi_part else sz
  head ← header (s + 5)
  push_buf (head ++ (if ltb multi_part sz then 2 else 3) ∷ fill_uint32 session ++ take s content)

-- The loop, over the parts left; `content` is what `ptr` points to, and `sz` what is left of it.
unfoldable pub packreq_multi_loop : ℕ → ℕ → ℕ → Bytes → M (List Bytes)
packreq_multi_loop zero session sz content = pure []
packreq_multi_loop (suc part) session sz content =
    let s = if ltb multi_part sz then multi_part else sz in
    let rest = packreq_multi_loop part session (sz - s) (drop s content) in
    multi_packet session sz content >>= λ packet. rest >>= λ packets. pure (packet ∷ packets)

unfoldable pub packreq_multi : ℕ → ℕ → ℕ → M (List Bytes)
packreq_multi session msg sz = do
  content ← read_block msg sz
  packreq_multi_loop (part_count sz) session sz content

-- The session of the next request: sessions go from 1 to INT32_MAX, and round again.
unfoldable pub next_session : ℕ → ℕ
next_session session = if ltb (2 ^ 31 - 1) (session + 1) then 1 else session + 1

-- lua_type(L,1) == LUA_TNUMBER
unfoldable pub is_number : Value → Bool
is_number (integer z) = true
is_number (float bits) = true
is_number _ = false

-- What follows the first packet: the parts, if there are any, and the message is freed.
unfoldable pub finish_request : ℕ → ℕ → ℕ → Bytes × ℕ → M (List Value)
unfolding next_session
finish_request session msg sz (packet, parts) =
    let next = integer (pos (next_session session)) in
    if parts == 0 then (do skynet_free msg; pure (string packet ∷ next ∷ [])) else do
      packets ← packreq_multi session msg sz
      skynet_free msg
      pure (string packet ∷ next ∷ table packets ∷ [])

unfoldable pub packrequest : LuaApi → List Value → Bool → M (List Value)
unfolding to_userdata is_number
packrequest lua args is_push =
    let msg = to_userdata (arg args 3) in
    if msg == 0 then raise invalid_request_message else do
      size ← check_integer lua args 4
      given ← check_integer lua args 2
      let sz = to_u32 size
      let session = to_u32 given
      if not (is_positive_i32 session)
          then (do skynet_free msg; raise (invalid_request_session (of_i32 session)))
          else do
            first ←
                if is_number (arg args 1)
                then packreq_number lua (arg args 1) session msg sz is_push
                else packreq_string lua (arg args 1) session msg sz is_push
            finish_request session msg sz first

unfoldable pub lpackrequest : LuaApi → List Value → M (List Value)
unfolding packrequest
lpackrequest lua args = packrequest lua args false

unfoldable pub lpackpush : LuaApi → List Value → M (List Value)
unfolding packrequest
lpackpush lua args = packrequest lua args true

unfoldable pub lpacktrace : LuaApi → List Value → M (List Value)
lpacktrace lua args = do
  tag ← check_lstring lua args 1
  if ltb 0x8000 (length tag) then raise (trace_tag_too_long (length tag)) else do
    head ← header (length tag + 1)
    packet ← push_buf (head ++ 4 ∷ tag)
    pure (string packet ∷ [])
