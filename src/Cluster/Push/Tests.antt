-- ===== src/Cluster/Push/Tests.antt =====
-- A push of one node to a service of another.
use testcluster.Prelude.{refl, Option, none, some, [], ◌∷◌, ◌==◌, if◌then◌else◌, arith}
use testcluster.Prelude.Int.{ℤ, to_u32}
use testcluster.Cluster.Wire.{Bytes}
use testcluster.Cluster.Lua.{Value, integer, string, LuaApi, Heap, to_integer_or_zero}
use testcluster.Cluster.Unpack.{word}
use testcluster.Cluster.Request.{is_number}
use testcluster.Cluster.Request.Whole.{IsRequest}
use testcluster.Cluster.Agent.{LargeRequests}
use testcluster.Cluster.Response.{to_boolean}
use testcluster.Cluster.Agent.Respond.{Node, returned, is_zero, resolve, truthy}
use testcluster.Cluster.Call.Arriving.{number}
use testcluster.Cluster.Push.{RemotePush, remote_push}

abbrev integer_of : Value → Option ℤ
integer_of (integer z) = some z
integer_of _ = none

abbrev string_of : Value → Option Bytes
string_of (string s) = some s
string_of _ = none

-- A Lua that converts nothing between strings and numbers.
abbrev strict_lua : LuaApi
strict_lua = record {
  to_integer = integer_of;
  to_lstring = string_of;
  to_integer_integer = λ z. refl;
  to_lstring_string = λ s. refl;
  to_lstring_nil = refl;
}

abbrev silent : Node
silent = record {
  rawcall = λ addr content. returned [];
  unpack_name = λ content. content;
  pack_address = λ addr. [];
  register_name = λ name. none;
}

abbrev holding : Bytes → Heap
holding content = record { block = λ p. if p == 1 then some content else none; next = 2 }

abbrev hello : Bytes
hello = b'h' ∷ b'i' ∷ []

hello-IsRequest : IsRequest (holding hello) 5 1 hello
hello-IsRequest = record {
  session_pos = omega arith;
  session_lt = omega arith;
  not_null = omega arith;
  allocated = refl;
  size_lt = omega arith;
}

abbrev no_entries : LargeRequests
no_entries s = none

remote_push_example :
    RemotePush strict_lua silent (word 9) (holding hello) 5 1 hello (word 9) no_entries (holding [])
unfolding is_number is_zero resolve truthy to_boolean to_u32 to_integer_or_zero
remote_push_example =
    remote_push strict_lua silent (word 9) hello-IsRequest (omega arith) (word 9) (word 9) refl refl
      no_entries refl (holding []) (number refl refl) refl (omega arith)
