-- ===== src/Service/Poll/Calls.antt =====
-- Remote calls from service to service: rpc_call, and service_poll at both ends (cpp/common/Service.cpp, RPC.cpp).
use testcluster.Prelude.{ℕ, ◌^◌, ◌<◌, ◌≡◌, ◌≢◌, true, Option, some, length, ◌==◌, ==_of_ne, arith}
use testcluster.Pack.Order.{Bytes}
use testcluster.Pack.Decode.{Protobuf}
use testcluster.Pack.Delivery.{copy_exact}
use testcluster.Service.Table.{find, same_name, assign, erase}
use testcluster.Service.Send.{ptype_text, ptype_response}
use testcluster.Service.Rpc.{
  func, subtype_rpc_client, subtype_rpc_server, rpc_call, rpc_event_client, rpc_event_server,
  answer, serve, respond, response,
}
use testcluster.Service.Rpc.Trip.{Sendable, Parses}
use testcluster.Service.Rpc.Exchange.{sends, send_one}
use testcluster.Service.State.{Service, Program}
use testcluster.Service.Outgoing.{post, rpc_call_uid}
use testcluster.Service.Poll.{
  service_poll, poll_type, poll_text, poll_rpc_server, poll_response, poll_rpc_client,
}
use testcluster.Service.Poll.Packets.{
  packet, read32-packet, drop-packet, less-length, uid-inner, inner_reset-inner, created-decoded,
}
use testcluster.Service.Poll.Messages.{handling, idle}

-- A service whose service_init was called.
abbrev pub started : {K W : Type 0} → Service K W → Service K W
started s = record s { ready = true }

-- What RpcServer notes of a caller.
abbrev pub noting : {K W : Type 0} → Service K W → ℕ → ℕ → ℕ → Service K W
noting s source session uid = record s {
  server_source = source;
  server_session = session;
  server_uid = uid;
}

abbrev pub forgetting : {K W : Type 0} → Service K W → ℕ → Service K W
forgetting s session = record s { rpc = erase ◌==◌ session s.rpc }

-- The packets of a call and of its answer.
abbrev pub call_packet : (pb : Protobuf) (m : pb.Message) → Sendable pb m → ℕ → Bytes
call_packet pb m can uid = packet pb m can uid subtype_rpc_server 0

abbrev pub answer_packet : (pb : Protobuf) (m : pb.Message) → Sendable pb m → ℕ → Bytes
answer_packet pb m can uid = packet pb m can uid subtype_rpc_client 0

module _ {pb : Protobuf} (parses : Parses pb) {K W : Type 0} (program : Program pb K W)
    (message : pb.Message) (can : Sendable pb message) (s : Service K W)
    (source session uid : ℕ) where
  -- A request runs the callback of its type, and the answer is posted.
  pub request_handled :
      (g : K) (rsp : Option (pb.Message)) (after : Service K W)
      → uid < 2 ^ 64
      → find same_name (pb.get_type_name message) s.server_callbacks ≡ some g
      → program.on_request g message (
          noting
            (handling (started s) source session ptype_text (call_packet pb message can uid) uid)
            source
            session
            uid)
        ≡ (rsp, after)
      → service_poll program
          (started s)
          (call_packet pb message can uid)
          (length (call_packet pb message can uid))
          source
          session
          ptype_text
        ≡ some (idle (post after (respond pb rsp source session uid)))
  unfolding service_poll poll_type poll_text poll_rpc_server rpc_event_server serve post
  request_handled g rsp after wide listed runs = rw (
    copy_exact (call_packet pb message can uid),
    read32-packet pb message can uid subtype_rpc_server 0 (omega arith),
    drop-packet pb message can uid subtype_rpc_server 0,
    less-length pb message can uid subtype_rpc_server 0,
    uid-inner pb message can uid subtype_rpc_server 0 wide,
    inner_reset-inner pb message can uid subtype_rpc_server 0 wide (omega arith),
    listed,
    created-decoded pb message can uid subtype_rpc_server 0 parses,
    runs,
  )

  -- An answer runs the callback that waits for its session, which is forgotten.
  pub reply_handled :
      (f : K)
      → source ≢ 0
      → uid < 2 ^ 64
      → find ◌==◌ session s.rpc ≡ some (func f)
      → service_poll program s
          (answer_packet pb message can uid)
          (length (answer_packet pb message can uid))
          source
          session
          ptype_response
        ≡ some (
            idle (
              forgetting
                (program.on_answer f message
                  (handling s source session ptype_response (answer_packet pb message can uid) uid))
                session))
  unfolding service_poll poll_type poll_response poll_rpc_client rpc_event_client answer
  reply_handled f here wide waits =
      rw
        (
          copy_exact (answer_packet pb message can uid),
          ==_of_ne source 0 here,
          read32-packet pb message can uid subtype_rpc_client 0 (omega arith),
          drop-packet pb message can uid subtype_rpc_client 0,
          uid-inner pb message can uid subtype_rpc_client 0 wide,
        )
        (rw (
          waits,
          rpc_event_client,
          less-length pb message can uid subtype_rpc_client 0,
          inner_reset-inner pb message can uid subtype_rpc_client 0 wide (omega arith),
          created-decoded pb message can uid subtype_rpc_client 0 parses,
        ))

-- A remote call between two services: `client` calls `dest` for `uid`, and `server` answers `rsp`.
module _ {pb : Protobuf} (parses : Parses pb) {K W L V : Type 0} (calling : Program pb K W)
    (serving : Program pb L V) (message rsp : pb.Message) (can_call : Sendable pb message)
    (can_answer : Sendable pb rsp) (client later : Service K W) (server after : Service L V) (f : K)
    (g : L) (source dest session uid : ℕ) where
  -- A call by a service that was initialized, for messages that can be sent, addresses that are not 0 and a uid below
  -- 2^64, to a service that was initialized and whose callback for the type answers: the caller waits for the session and
  -- posts one packet; service_poll of that packet runs the callback with m_process_uid set to the uid, posts one answer to
  -- the caller under the session and leaves the service idle; service_poll of the answer, in any later state of the caller
  -- that still waits for the session, runs the caller's callback with it, forgets the session and leaves the caller idle.
  pub call_answered :
      dest ≢ 0
      → source ≢ 0
      → uid < 2 ^ 64
      → find same_name (pb.get_type_name message) server.server_callbacks ≡ some g
      → serving.on_request g message (
          noting
            (handling
              (started server)
              source
              session
              ptype_text
              (call_packet pb message can_call uid)
              uid)
            source
            session
            uid)
        ≡ (some rsp, after)
      → find ◌==◌ session later.rpc ≡ some (func f)
      → (rpc_call_uid pb (started client) session dest message (func f) uid ≡ (
        session,
        post
            (record (started client) { rpc = assign ◌==◌ session (func f) client.rpc })
            (sends dest ptype_text session (call_packet pb message can_call uid)),
      ))
        × (service_poll serving
              (started server)
              (call_packet pb message can_call uid)
              (length (call_packet pb message can_call uid))
              source
              session
              ptype_text
            ≡ some (
                idle (
                  post after
                    (sends source ptype_response session (answer_packet pb rsp can_answer uid)))))
        × (service_poll calling later
              (answer_packet pb rsp can_answer uid)
              (length (answer_packet pb rsp can_answer uid))
              dest
              session
              ptype_response
            ≡ some (
                idle (
                  forgetting
                    (calling.on_answer f rsp (
                      handling later dest session ptype_response
                        (answer_packet pb rsp can_answer uid)
                        uid))
                    session)))
  unfolding rpc_call_uid rpc_call respond response
  call_answered there here wide listed runs waits =
      let called = send_one dest ptype_text session (call_packet pb message can_call uid) there in
      let answered =
        send_one source ptype_response session (answer_packet pb rsp can_answer uid) here in
      (
        rw (called),
        rw⁻¹ (answered) (
            request_handled parses serving message can_call server source session uid g (some rsp)
              after wide listed runs),
        reply_handled parses calling rsp can_answer later dest session uid f there wide waits,
      )
