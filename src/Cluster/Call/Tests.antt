-- ===== src/Cluster/Call/Tests.antt =====
-- Remote calls (lua/BeeCluster) with a channel that works as skynet's socket channel does, at concrete requests.
use testcluster.Prelude.{
  ℕ, ◌≡◌, refl, ◌∙◌, ap, Bool, true, false, ◌&&◌, Option, none, some, List, [], ◌∷◌, ◌++◌, ◌==◌,
  if◌then◌else◌, arith, append_assoc,
}
use testcluster.Prelude.Int.{ℤ, to_u32}
use testcluster.Cluster.Wire.{Bytes}
use testcluster.Cluster.Lua.{Value, boolean, integer, string, LuaApi, Heap, arg, to_integer_or_zero}
use testcluster.Cluster.Unpack.{word}
use testcluster.Cluster.Request.{is_number}
use testcluster.Cluster.Request.Whole.{IsRequest}
use testcluster.Cluster.Response.{to_boolean}
use testcluster.Cluster.Response.Trip.{gathered_data}
use testcluster.Cluster.Agent.{LargeRequests}
use testcluster.Cluster.Agent.Respond.{Node, returned, is_zero, resolve, truthy}
use testcluster.Cluster.Sender.{Channel, Gathers, Received, single, many, raised_by, IsPadded}
use testcluster.Cluster.Call.Arriving.{number}
use testcluster.Cluster.Call.{RemoteCall, remote_call}

abbrev integer_of : Value → Option ℤ
integer_of (integer z) = some z
integer_of _ = none

abbrev string_of : Value → Option Bytes
string_of (string s) = some s
string_of _ = none

-- A Lua that converts nothing between strings and numbers.
abbrev plain_lua : LuaApi
plain_lua = record {
  to_integer = integer_of;
  to_lstring = string_of;
  to_integer_integer = λ z. refl;
  to_lstring_string = λ s. refl;
  to_lstring_nil = refl;
}

-- dispatch_by_session, for one session: what was gathered so far, and the answers to come.
abbrev finish : Option (List Value) → Bool → Value → Received
finish gathered false content = raised_by content
finish none true content = single content
finish (some gathered) true content = many (gathered ++ content ∷ [])

abbrev more : Option (List Value) → Value → List Value
more none content = content ∷ []
more (some gathered) content = gathered ++ content ∷ []

abbrev wait : Option (List Value) → List (List Value) → Option Received
wait gathered [] = none
wait gathered (vs ∷ rest) =
    let later = wait (some (more gathered (arg vs 3))) rest in
    if to_boolean (arg vs 4) && to_boolean (arg vs 2)
    then later
    else some (finish gathered (to_boolean (arg vs 2)) (arg vs 3))

abbrev socket_channel : Channel
socket_channel = record { answer = wait none }

wait-IsPadded :
    (session : ℕ) (gathered : List Value) (values : List (List Value))
    → IsPadded session values
    → wait (some gathered) values ≡ some (many (gathered ++ gathered_data values))
unfolding to_boolean gathered_data
wait-IsPadded session gathered [] p = absurd p
wait-IsPadded session gathered (vs ∷ []) p = rw (p) refl
wait-IsPadded session gathered (vs ∷ ws ∷ rest) (e, p) =
    let padded : to_boolean (arg vs 4) ≡ true = ap (λ v. to_boolean (arg v 4)) e in
    let is_ok : to_boolean (arg vs 2) ≡ true = ap (λ v. to_boolean (arg v 2)) e in
    rw (padded, is_ok)
      (wait-IsPadded session (gathered ++ arg vs 3 ∷ []) (ws ∷ rest) p
        ∙ ap (λ parts. some (many parts))
            (append_assoc gathered (arg vs 3 ∷ []) (gathered_data (ws ∷ rest))))

wait-padded :
    (session : ℕ) (vs ws : List Value) (rest : List (List Value))
    → IsPadded session (vs ∷ ws ∷ rest)
    → wait none (vs ∷ ws ∷ rest) ≡ some (many (gathered_data (vs ∷ ws ∷ rest)))
unfolding to_boolean gathered_data
wait-padded session vs ws rest (e, p) =
    let padded : to_boolean (arg vs 4) ≡ true = ap (λ v. to_boolean (arg v 4)) e in
    let is_ok : to_boolean (arg vs 2) ≡ true = ap (λ v. to_boolean (arg v 2)) e in
    rw (padded, is_ok) (wait-IsPadded session (arg vs 3 ∷ []) (ws ∷ rest) p)

socket_channel-Gathers : Gathers socket_channel
unfolding to_boolean
socket_channel-Gathers = record {
  one = λ session content. refl;
  error = λ session message. refl;
  padded = wait-padded;
}

-- A node whose services answer what they are sent.
abbrev echoing : Node
echoing = record {
  rawcall = λ addr content. returned content;
  unpack_name = λ content. content;
  pack_address = λ addr. [];
  register_name = λ name. none;
}

-- One block, at address 1.
abbrev holding : Bytes → Heap
holding content = record { block = λ p. if p == 1 then some content else none; next = 2 }

abbrev hello : Bytes
hello = b'h' ∷ b'i' ∷ []

hello-IsRequest : IsRequest (holding hello) 5 1 hello
hello-IsRequest = record {
  session_pos = omega arith;
  session_lt = omega arith;
  not_null = omega arith;
  allocated = refl;
  size_lt = omega arith;
}

abbrev no_entries : LargeRequests
no_entries s = none

remote_call_example :
    RemoteCall plain_lua echoing socket_channel
      (word 9)
      (holding hello)
      5
      1
      hello
      (word 9)
      no_entries
      (holding [])
      (holding [])
unfolding is_number is_zero resolve truthy to_boolean to_u32 to_integer_or_zero
remote_call_example =
    remote_call plain_lua echoing socket_channel socket_channel-Gathers (word 9) hello-IsRequest
      (omega arith) (word 9) (word 9) (number refl refl) refl refl (omega arith) no_entries refl
      (holding []) (holding []) (omega arith)

-- A last part whose request is not known has the address false, and is answered with an error.
stray_part : resolve plain_lua echoing (boolean false) ≡ none
unfolding resolve truthy to_boolean
stray_part = refl
