-- ===== src/Cluster/Assemble.antt =====
-- lappend and lconcat of cpp/beecluster/lua-beecluster.c: the parts of a long message are gathered
-- in a Lua array, its size first, and joined. The array is passed and returned as a list.
pub mod Calls
pub mod Exact
use testcluster.Prelude.{
  ℕ, zero, suc, ◌+◌, ◌≡◌, Bool, true, false, Option, none, some, List, [], ◌∷◌, ◌++◌, length,
  get_elem?, ltb, ◌==◌, if◌then◌else◌,
}
use testcluster.Prelude.Int.{ℤ, pos, negsuc, to_u32, of_i32}
use testcluster.Cluster.Wire.{Bytes}
use testcluster.Cluster.Lua.{
  Value, nil, light_userdata, string, LuaApi, Outcome, ok, bad_argument, need_lightuserdata, Heap,
  M, pure, raise, crash, ◌>>=◌, ◌>>◌, arg, to_userdata, check_integer, to_integer_or_zero,
  skynet_free, new_block,
}
use testcluster.Cluster.Memory.{read_block}
use testcluster.Cluster.Request.{is_number}
use testcluster.Cluster.Unpack.{word}

-- t[n + 1] = v; an assignment of nil behind the end changes nothing.
unfoldable pub assign_next : List Value → Value → List Value
assign_next t nil = t
assign_next t v = t ++ v ∷ []

-- A negative size is a copy of nearly 2^64 bytes.
unfoldable pub append_block : List Value → ℕ → ℤ → M (List Value)
append_block t buffer (negsuc n) = crash
append_block t buffer (pos sz) = do
  content ← read_block buffer sz
  skynet_free buffer
  pure (t ++ string content ∷ [])

unfoldable pub append_buffer : LuaApi → List Value → List Value → Value → M (List Value)
unfolding to_userdata append_block
append_buffer lua t args v =
    if to_userdata v == 0
    then raise need_lightuserdata
    else do size ← check_integer lua args 3; append_block t (to_userdata v) (of_i32 (to_u32 size))

-- The second argument decides: nil, so the third is stored as it is, or a buffer.
unfoldable pub append_argument : LuaApi → List Value → List Value → Option Value → M (List Value)
unfolding assign_next append_buffer
append_argument lua t args none = raise need_lightuserdata
append_argument lua t args (some nil) = pure (assign_next t (arg args 3))
append_argument lua t args (some v) = append_buffer lua t args v

-- `t` is the array that the first argument refers to, if that is a table; the result is the array
-- after the call, which returns nothing.
unfoldable pub lappend : LuaApi → Option (List Value) → List Value → M (List Value)
unfolding append_argument
lappend lua none args = raise (bad_argument 1)
lappend lua (some t) args = append_argument lua t args (get_elem? args 1)

-- The loop of lconcat over t[2], t[3], …, as long as they are strings; `out` is what `buff` holds
-- before `offset`. `none`: a string does not fit into `sz` bytes.
unfoldable pub concat_loop : List Value → ℕ → Bytes → Option Bytes
concat_loop (string str ∷ rest) sz out =
    let more = concat_loop rest sz (out ++ str) in
    if ltb sz (length str + length out) then none else more
concat_loop _ sz out = some out

-- `buff` is allocated, and freed again; the call returns nothing.
unfoldable pub drop_buffer : M (List Value)
drop_buffer h = (ok [], record h { next = h.next + 1 })

unfoldable pub finish_concat : ℕ → Option Bytes → M (List Value)
unfolding drop_buffer new_block
finish_concat sz none = drop_buffer
finish_concat sz (some out) =
    if length out == sz
    then (do buff ← new_block out; pure (light_userdata buff ∷ word sz ∷ []))
    else drop_buffer

-- skynet_malloc of a negative size ends the process.
unfoldable pub concat_sized : List Value → ℤ → M (List Value)
unfolding finish_concat
concat_sized parts (negsuc n) = crash
concat_sized parts (pos sz) = finish_concat sz (concat_loop parts sz [])

unfoldable pub lconcat : LuaApi → Option (List Value) → M (List Value)
unfolding concat_sized is_number
lconcat lua none = pure []
lconcat lua (some []) = pure []
lconcat lua (some (first ∷ parts)) =
    if is_number first
    then concat_sized parts (of_i32 (to_u32 (to_integer_or_zero lua first)))
    else pure []
