-- ===== src/Service/Rpc/Exchange.antt =====
-- What becomes of a remote call (RPC.cpp): its request, its answer, and its session in the client.
use testcluster.Prelude.{
  ℕ, ◌-◌, ◌^◌, ◌<◌, ◌≡◌, ◌≢◌, ◌∙◌, true, none, some, List, [], ◌∷◌, length, ◌==◌, ==_refl, ==_of_ne,
  arith,
}
use testcluster.Pack.Order.{Bytes, read32, read32-be32}
use testcluster.Pack.Decode.{Protobuf}
use testcluster.Pack.Encode.{pack_of, new_innerpack, serialize_imsg_type, serialize_imsg_type_done}
use testcluster.Service.Dispatcher.{dispatcher_success}
use testcluster.Service.Table.{same_name, find, assign, find-erase, find-assign}
use testcluster.Service.Send.{Envelope, ptype_text, ptype_response, skynet_send_noleak, envelopes}
use testcluster.Service.Rpc.{
  RpcCallback, func, RpcClient, Runs, rpc_init_client, rpc_call, rpc_cancel, rpc_event_client,
  answer, subtype_rpc_client, subtype_rpc_server, RpcServer, Serves, rpc_init_server,
  rpc_event_server, serve, respond, response,
}
use testcluster.Service.Rpc.Trip.{behind, Sendable, Parses, client_answers, server_serves}

-- A client that waits for the answer of a session.
abbrev pub waiting : {F W : Type 0} → RpcClient F W → ℕ → RpcCallback F → RpcClient F W
waiting c session callback = record (rpc_init_client c) { rpc = assign ◌==◌ session callback c.rpc }

-- A server that serves a request.
abbrev pub serving : {G W : Type 0} → RpcServer G W → ℕ → ℕ → ℕ → RpcServer G W
serving server source session uid = record (rpc_init_server server) {
  source = source;
  session = session;
  uid = uid;
}

-- A message with a sub_type in front is the only thing that is sent.
abbrev pub sends : ℕ → ℕ → ℕ → Bytes → List Envelope
sends dest type session content =
    (record { source = 0; dest = dest; type = type; session = session; content = content }) ∷ []

pub send_one :
    (dest type session : ℕ) (content : Bytes)
    → dest ≢ 0
    → envelopes (skynet_send_noleak 0 dest type true session (some content))
      ≡ sends dest type session content
unfolding skynet_send_noleak envelopes
send_one dest type session content somewhere = rw (==_of_ne dest 0 somewhere)

sub_type_of :
    (pb : Protobuf) (m : pb.Message) (s : Sendable pb m) (uid sub_type : ℕ)
    → sub_type < 2 ^ 32
    → read32 (serialize_imsg_type pb m uid sub_type 0) ≡ some sub_type
sub_type_of pb m s uid sub_type small =
    rw (serialize_imsg_type_done pb m s.text uid sub_type 0 s.done)
      (read32-be32 sub_type (new_innerpack (pack_of pb m s.text) uid 0) small)

module _ (pb : Protobuf) {F W : Type 0} (run : Runs pb F W) where
  forgotten :
      (c : RpcClient F W) (session : ℕ)
      → find ◌==◌ session c.rpc ≡ none
      → (memory : Bytes) (size : ℕ) → rpc_event_client pb run c memory size session ≡ some c
  unfolding rpc_event_client
  forgotten c session gone memory size = rw (gone, rpc_event_client)

  -- A session is answered at most once: after its callback was run with a message, or after it was cancelled, an answer
  -- to it changes nothing, whatever it holds.
  pub answered_once :
      (c : RpcClient F W) (f : F) (session : ℕ) (msg : pb.Message) (memory : Bytes) (size : ℕ)
      → (rpc_event_client pb run (answer pb run f session c (some msg)) memory size session
          ≡ some (answer pb run f session c (some msg)))
        × (rpc_event_client pb run ((rpc_cancel pb c session).0) memory size session
            ≡ some ((rpc_cancel pb c session).0))
  unfolding answer rpc_cancel
  answered_once c f session msg memory size = (
    forgotten (answer pb run f session c (some msg)) session (find-erase ◌==◌ session _) memory
        size,
    forgotten ((rpc_cancel pb c session).0) session (find-erase ◌==◌ session c.rpc) memory size,
  )

-- The two packets of a call, as service_poll gets them.
abbrev pub request_packet : (pb : Protobuf) → pb.Message → ℕ → Bytes
request_packet pb m uid = serialize_imsg_type pb m uid subtype_rpc_server 0

abbrev pub answer_packet : (pb : Protobuf) → pb.Message → ℕ → Bytes
answer_packet pb m uid = serialize_imsg_type pb m uid subtype_rpc_client 0

-- A remote call: a client sends `request` for `uid` to the service `dest`, whose server has the callback `g` for its type,
-- which answers `rsp`; what the callbacks do besides is any function.
module _ (pb : Protobuf) (parses : Parses pb) {F G W V : Type 0} (run_client : Runs pb F W)
    (run_server : Serves pb G V) (request rsp : pb.Message) (can_request : Sendable pb request)
    (can_answer : Sendable pb rsp) (client : RpcClient F W) (server after : RpcServer G V) (f : F)
    (g : G) (source dest session uid : ℕ) where
  -- For a request and an answer that can be sent (serialized to fewer than 2^31 bytes, with type names of at most 50
  -- bytes, parsed back by protobuf), a server that has a callback for the request's type which answers, addresses that
  -- are not 0 and a uid below 2^64: one message goes each way, under the session and with the sub_type that service_poll
  -- selects the handler by; the server's callback is run with the request, the client's with the answer, and the session
  -- is forgotten.
  pub rpc_exchange :
      dest ≢ 0
      → source ≢ 0
      → uid < 2 ^ 64
      → find same_name (pb.get_type_name request) server.callbacks ≡ some g
      → run_server g request (serving server source session uid) ≡ (some rsp, after)
      → (rpc_call pb (rpc_init_client client) session dest request (func f) uid ≡ (
        session,
        waiting client session (func f),
        sends dest ptype_text session (request_packet pb request uid),
      ))
        × (read32 (request_packet pb request uid) ≡ some subtype_rpc_server)
        × (rpc_event_server pb run_server
              (rpc_init_server server)
              (behind (request_packet pb request uid))
              (length (request_packet pb request uid) - 4)
              source
              session
            ≡ some (
              dispatcher_success,
              after,
              sends source ptype_response session (answer_packet pb rsp uid),
            ))
        × (read32 (answer_packet pb rsp uid) ≡ some subtype_rpc_client)
        × (rpc_event_client pb run_client
              (waiting client session (func f))
              (behind (answer_packet pb rsp uid))
              (length (answer_packet pb rsp uid) - 4)
              session
            ≡ some (answer pb run_client f session (waiting client session (func f)) (some rsp)))
        × (find ◌==◌ session
              (answer pb run_client f session (waiting client session (func f)) (some rsp)).rpc
            ≡ none)
  unfolding rpc_call rpc_init_client rpc_init_server serve respond response answer
  rpc_exchange there here wide registered runs =
      let sent = send_one dest ptype_text session (request_packet pb request uid) there in
      let answered = send_one source ptype_response session (answer_packet pb rsp uid) here in
      let listed = find-assign ◌==◌ session (func f) client.rpc (==_refl session) in
      (
        rw (sent),
        sub_type_of pb request can_request uid subtype_rpc_server (omega arith),
        server_serves pb parses request can_request run_server server g uid subtype_rpc_server
              source session wide registered
            ∙ rw (runs, answered),
        sub_type_of pb rsp can_answer uid subtype_rpc_client (omega arith),
        client_answers pb parses rsp can_answer run_client (waiting client session (func f)) f uid
            subtype_rpc_client session wide listed,
        find-erase ◌==◌ session _,
      )
