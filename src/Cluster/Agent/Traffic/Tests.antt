-- ===== src/Cluster/Agent/Traffic/Tests.antt =====
-- Two long requests whose parts alternate, with short ones between them.
use testcluster.Prelude.{
  ◌≡◌, refl, fun_ext, true, false, Option, none, some, List, [], ◌∷◌, ◌==◌, inl, inr, Bool-cases,
  arith,
}
use testcluster.Cluster.Wire.{Bytes, fill_uint32}
use testcluster.Cluster.Lua.{Value, integer, string, LuaApi, Heap}
use testcluster.Cluster.Unpack.{word}
use testcluster.Cluster.Request.Packets.{
  framed, number_body, string_body, multi_number_body, multi_string_body, part_body,
}
use testcluster.Cluster.Request.Parts.{join}
use testcluster.Cluster.Agent.{LargeRequests}
use testcluster.Cluster.Agent.Traffic.{
  Request, Open, Opens, put, Traffic, quiet, begin, part, last, short, to_number, to_name,
  single_to_number, single_to_name, Received,
}
use testcluster.Cluster.Agent.Traffic.Gathering.{traffic_received}
use testcluster.Prelude.Int.{ℤ}

abbrev integer_of : Value → Option ℤ
integer_of (integer z) = some z
integer_of _ = none

abbrev string_of : Value → Option Bytes
string_of (string s) = some s
string_of _ = none

-- A Lua that converts nothing between strings and numbers.
abbrev strict_lua : LuaApi
strict_lua = record {
  to_integer = integer_of;
  to_lstring = string_of;
  to_integer_integer = λ z. refl;
  to_lstring_string = λ s. refl;
  to_lstring_nil = refl;
}

abbrev none_open : Opens
none_open s = none

abbrev no_requests : LargeRequests
no_requests s = none

abbrev no_blocks : Heap
no_blocks = record { block = λ p. none; next = 1 }

abbrev hi : Bytes
hi = b'h' ∷ b'i' ∷ []

abbrev db : Bytes
db = b'd' ∷ b'b' ∷ []

abbrev first : Open
first = record { addr = word 9; is_push = false; content = hi; parts = [] }

abbrev second : Open
second = record { addr = string db; is_push = true; content = db; parts = [] }

abbrev third : Open
third = record first { parts = (b'h' ∷ []) ∷ [] }

abbrev packets : List Bytes
packets =
    framed (multi_number_body false 9 5 2)
    ∷ framed (multi_string_body true db 6 2)
    ∷ framed (part_body true 5 (b'h' ∷ []))
    ∷ framed (number_body 4 7 hi)
    ∷ framed (string_body db 0 hi)
    ∷ framed (part_body false 6 db)
    ∷ framed (part_body false 5 (b'i' ∷ []))
    ∷ []

abbrev requests : List Request
requests =
    record { addr = word 4; session = 7; is_push = false; content = hi }
    ∷ record { addr = string db; session = 0; is_push = true; content = hi }
    ∷ record { addr = string db; session = 6; is_push = true; content = db }
    ∷ record { addr = word 9; session = 5; is_push = false; content = hi }
    ∷ []

-- 5 is opened, then 6; 5 gets a part; 7 and a push come whole; 6 is closed, then 5.
closed :
    put
      (put (put (put (put none_open 5 (some first)) 6 (some second)) 5 (some third)) 6 none)
      5
      none
    ≡ none_open
closed = fun_ext (λ s. elim (Bool-cases (5 == s)) [
  | inl five ↦ rw (five) refl
  | inr no_five ↦
      rw (no_five)
        (elim (Bool-cases (6 == s)) [ inl six ↦ rw (six) refl | inr no_six ↦ rw (no_six) refl ])
])

alternating : Traffic none_open none_open packets requests
unfolding join multi_number_body multi_string_body number_body string_body fill_uint32
alternating =
    begin 5 (word 9) false hi (multi_number_body false 9 5 2) refl (omega arith) (omega arith)
      (omega arith) (to_number 9 (omega arith) refl refl)
      (begin 6 (string db) true db (multi_string_body true db 6 2) refl (omega arith) (omega arith)
        (omega arith) (to_name db refl refl)
        (part 5 first (b'h' ∷ []) refl (omega arith) (omega arith) (
          short 7 (word 4) hi (number_body 4 7 hi) refl (omega arith) (omega arith)
            (single_to_number 4 (omega arith) refl refl)
            (short 0 (string db) hi (string_body db 0 hi) refl (omega arith) (omega arith)
              (single_to_name db refl refl)
              (last 6 second db refl (omega arith) (omega arith) (omega arith) refl (
                last 5 third (b'i' ∷ []) refl (omega arith) (omega arith) (omega arith) refl
                  (quiet closed)))))))

traffic_received_example : Received strict_lua none_open no_requests packets requests no_blocks
traffic_received_example =
    traffic_received strict_lua none_open alternating no_requests no_blocks (λ s. refl)
      (omega arith)
