-- ===== src/Service/Tests.antt =====
-- Remote calls, dispatch and timers (cpp/common) on small messages, and their theorems at concrete inputs.
use testcluster.Prelude.{ℕ, ◌≡◌, refl, ap, sym, Bool, true, false, some, List, [], ◌∷◌, inl, arith}
use testcluster.Pack.Order.{Bytes}
use testcluster.Pack.Decode.{Protobuf}
use testcluster.Service.Dispatcher.{DispatcherT}
use testcluster.Service.Timer.{Timer, start_timer}
use testcluster.Service.Rpc.{
  rpc_null_func, func, RpcClient, Runs, rpc_init_client, rpc_cancel, rpc_event_client, answer,
  RpcServer, Serves,
}
use testcluster.Service.Rpc.Trip.{Sendable, Parses}
use testcluster.Service.Rpc.Exchange.{waiting, serving, answer_packet, answered_once}
use testcluster.Service.Rpc.NullCalls.{
  NullCall, Answer, AreKept, call_all, answer_all, null_calls_pile_up,
}

abbrev ping : Bytes
ping = b'p' ∷ b'i' ∷ b'n' ∷ b'g' ∷ []

-- Messages that are their own bytes.
abbrev plain : Protobuf
plain = record {
  Message = Bytes;
  parse = λ name text. some text;
  serialize = λ message. (true, message);
  get_type_name = λ message. ping;
}

plain_parses : Parses plain
plain_parses m text e = ap (λ r. some (r.1)) (sym e)

request-Sendable : Sendable plain (1 ∷ 2 ∷ [])
request-Sendable = record {
  text = 1 ∷ 2 ∷ [];
  done = refl;
  short = omega arith;
  small = omega arith;
}

rsp-Sendable : Sendable plain (3 ∷ [])
rsp-Sendable = record { text = 3 ∷ []; done = refl; short = omega arith; small = omega arith }

-- A client that notes the answers, and a server that notes the requests and answers 3.
abbrev notes : Runs plain Bool (List Bytes)
notes f msg c = record c { world = msg ∷ c.world }

abbrev answers : Serves plain Bool (List Bytes)
answers g msg s = (some (3 ∷ []), record s { world = msg ∷ s.world })

abbrev client : RpcClient Bool (List Bytes)
client = record { rpc = (6, rpc_null_func) ∷ []; ready = false; world = [] }

abbrev server : RpcServer Bool (List Bytes)
server = record {
  callbacks = (ping, true) ∷ [];
  ready = false;
  source = 0;
  session = 0;
  uid = 0;
  world = [];
}

abbrev after : RpcServer Bool (List Bytes)
after = record (serving server 10 7 258) { world = (1 ∷ 2 ∷ []) ∷ [] }

-- The note that the client's callback takes.
answer_world :
    (answer plain notes true 7 (waiting client 7 (func true)) (some (3 ∷ []))).world ≡ (3 ∷ []) ∷ []
unfolding answer rpc_init_client
answer_world = refl

answered_once_example :
    (rpc_event_client plain notes
        (answer plain notes true 7 (waiting client 7 (func true)) (some (3 ∷ [])))
        (0 ∷ [])
        1
        7
      ≡ some (answer plain notes true 7 (waiting client 7 (func true)) (some (3 ∷ []))))
    × (rpc_event_client plain notes
          ((rpc_cancel plain (waiting client 7 (func true)) 7).0)
          (0 ∷ [])
          1
          7
        ≡ some ((rpc_cancel plain (waiting client 7 (func true)) 7).0))
answered_once_example =
    answered_once plain notes (waiting client 7 (func true)) true 7 (3 ∷ []) (0 ∷ []) 1

-- Two calls that wait for nothing, and an answer to the first.
abbrev null_calls : List (NullCall plain)
null_calls =
    record { session = 7; dest = 11; msg = 3 ∷ []; uid = 258 }
    ∷ record { session = 8; dest = 11; msg = 4 ∷ []; uid = 258 }
    ∷ []

abbrev null_answers : List Answer
null_answers = record { session = 7; memory = answer_packet plain (3 ∷ []) 258; size = 23 } ∷ []

null_calls_pile_up_example :
    (answer_all plain notes (call_all plain (rpc_init_client client) null_calls) null_answers
      ≡ some (call_all plain (rpc_init_client client) null_calls))
    × AreKept (call_all plain (rpc_init_client client) null_calls) null_calls
null_calls_pile_up_example =
    null_calls_pile_up plain notes client null_calls null_answers (inl refl, tt)

-- A dispatcher of one callback that notes the messages.
abbrev notes_from : Bool → Bytes → ℕ → List Bytes → List Bytes
notes_from f msg user world = msg ∷ world

abbrev dispatcher : DispatcherT Bool
dispatcher = record { callbacks = (ping, false) ∷ [] }

-- A packet whose type has no callback.
abbrev stranger : Bytes
stranger = 0 ∷ 1 ∷ b'x' ∷ 0 ∷ 0 ∷ 0 ∷ 0 ∷ []

abbrev noted : List Bytes
noted = (3 ∷ []) ∷ []

-- A timer of a request for 258, whose callback notes its number.
abbrev notes_timer : ℕ → Timer ℕ (List ℕ) → Timer ℕ (List ℕ)
notes_timer f t = record t { world = f ∷ t.world }

abbrev timer : Timer ℕ (List ℕ)
timer = record { timers = []; process_uid = 258; world = [] }

abbrev started : Timer ℕ (List ℕ)
started = (start_timer timer 7 100 1).1
