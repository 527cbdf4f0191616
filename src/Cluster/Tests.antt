-- ===== src/Cluster/Tests.antt =====
-- Runs of cpp/beecluster/lua-beecluster.c on small inputs, and its theorems at concrete inputs.
use testcluster.Prelude.{
  ◌≡◌, refl, some, none, Option, [], ◌∷◌, ◌==◌, if◌then◌else◌, length, replicate, length-replicate,
  take, arith,
}
use testcluster.Prelude.Int.{ℤ, to_u32, is_positive_i32}
use testcluster.Cluster.Wire.{Bytes, fill_uint32, fill_header}
use testcluster.Cluster.Lua.{
  Value, integer, string, LuaApi, ok, Heap, header, push_buf, check_integer, skynet_free,
  to_integer_or_zero,
}
use testcluster.Cluster.Memory.{read_block}
use testcluster.Cluster.Unpack.{word, lunpackrequest}
use testcluster.Cluster.Unpack.Safety.{IsSafe, lunpackrequest-IsSafe}
use testcluster.Cluster.Request.{lpackrequest, packreq_number, finish_request}
use testcluster.Cluster.Request.Whole.{request_args, IsRequest}
use testcluster.Cluster.Agent.{LargeRequests}

-- A Lua that converts nothing between strings and numbers.
abbrev integer_of : Value → Option ℤ
integer_of (integer z) = some z
integer_of _ = none

abbrev string_of : Value → Option Bytes
string_of (string s) = some s
string_of _ = none

abbrev plain_lua : LuaApi
plain_lua = record {
  to_integer = integer_of;
  to_lstring = string_of;
  to_integer_integer = λ z. refl;
  to_lstring_string = λ s. refl;
  to_lstring_nil = refl;
}

-- One block, at address 1.
abbrev holding : Bytes → Heap
holding content = record { block = λ p. if p == 1 then some content else none; next = 2 }

abbrev hello : Bytes
hello = b'h' ∷ b'i' ∷ []

-- One byte more than a part.
abbrev long_text : Bytes
long_text = replicate 0x8001 7

long_size : length long_text ≡ 0x8001
long_size = length-replicate 0x8001 7

hello-IsRequest : IsRequest (holding hello) 5 1 hello
hello-IsRequest = record {
  session_pos = omega arith;
  session_lt = omega arith;
  not_null = omega arith;
  allocated = refl;
  size_lt = omega arith;
}

long-IsRequest : IsRequest (holding long_text) 5 1 long_text
long-IsRequest = record {
  session_pos = omega arith;
  session_lt = omega arith;
  not_null = omega arith;
  allocated = refl;
  size_lt = omega (arith, long_size);
}

-- The bytes of a small request, as the comment in the source lays them out.
request_bytes :
    (lpackrequest plain_lua (request_args (word 0x0102) 5 1 hello) (holding hello)).0
    ≡ ok (string (0 ∷ 11 ∷ 0 ∷ 2 ∷ 1 ∷ 0 ∷ 0 ∷ 5 ∷ 0 ∷ 0 ∷ 0 ∷ b'h' ∷ b'i' ∷ []) ∷ word 6 ∷ [])
unfolding lpackrequest check_integer to_u32 is_positive_i32 packreq_number to_integer_or_zero header
    fill_header fill_uint32 read_block push_buf skynet_free finish_request take
request_bytes = refl

abbrev no_entries : LargeRequests
no_entries s = none

abbrev there : Heap
there = record { block = λ p. none; next = 1 }

lunpackrequest-IsSafe_example : IsSafe (lunpackrequest plain_lua (string (0x80 ∷ 200 ∷ []) ∷ []))
lunpackrequest-IsSafe_example = lunpackrequest-IsSafe plain_lua (0x80 ∷ 200 ∷ []) (omega arith)
