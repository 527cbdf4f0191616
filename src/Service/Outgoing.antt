-- ===== src/Service/Outgoing.antt =====
-- What a service sends, and how it starts (cpp/common/Service.h and Service.cpp).
use testcluster.Prelude.{
  ℕ, Bool, true, false, Option, none, some, List, [], ◌∷◌, ◌++◌, ◌==◌, if◌then◌else◌,
}
use testcluster.Pack.Order.{Bytes}
use testcluster.Pack.Decode.{Protobuf}
use testcluster.Pack.Encode.{serialize_imsg_type}
use testcluster.Text.Divide.{divide_string}
use testcluster.Service.Table.{assign, same_name}
use testcluster.Service.Send.{Envelope, skynet_send_noleak, envelopes, ptype_text, ptype_response}
use testcluster.Service.Rpc.{RpcCallback, rpc_call}
use testcluster.Service.State.{Service, Program, as_client, of_client}
use testcluster.Service.Poll.{subtype_protobuf, subtype_system, gap}

-- The loop over the names that are depended on.
unfoldable pub all_named : List (Bytes × ℕ) → Bool
all_named [] = true
all_named ((name, handle) ∷ rest) =
    let others = all_named rest in if handle == 0 then false else others

-- std::set::insert and erase.
unfoldable pub insert_handle : ℕ → List ℕ → List ℕ
insert_handle handle [] = handle ∷ []
insert_handle handle (h ∷ rest) =
    let others = insert_handle handle rest in if h == handle then (h ∷ rest) else (h ∷ others)

unfoldable pub erase_handle : ℕ → List ℕ → Bool × List ℕ
erase_handle handle [] = (false, [])
erase_handle handle (h ∷ rest) =
    let (found, others) = erase_handle handle rest in
    if h == handle then (true, rest) else (found, h ∷ others)

module _ {K W : Type 0} where
  -- What skynet_send_noleak lets through is handed to skynet.
  unfoldable pub post : Service K W → List Envelope → Service K W
  post s sent = record s { outbox = s.outbox ++ sent }

module _ (pb : Protobuf) {K W : Type 0} where
  unfoldable pub service_fsend : Service K W → pb.Message → ℕ → ℕ → ℕ → ℕ → Service K W
  unfolding post
  service_fsend s msg handle source uid type = post s (
      envelopes (
        skynet_send_noleak source handle ptype_text true 0
          (some (serialize_imsg_type pb msg uid type s.service_roomid))))

  -- service_send without a uid takes that of the message being handled.
  unfoldable pub service_send : Service K W → pb.Message → ℕ → Service K W
  unfolding service_fsend
  service_send s msg handle = service_fsend s msg handle 0 s.process_uid subtype_protobuf

  unfoldable pub service_send_uid : Service K W → pb.Message → ℕ → ℕ → Service K W
  unfolding service_fsend
  service_send_uid s msg handle uid = service_fsend s msg handle 0 uid subtype_protobuf

  unfoldable pub service_system_send : Service K W → pb.Message → ℕ → Service K W
  unfolding service_fsend
  service_system_send s msg handle = service_fsend s msg handle 0 s.process_uid subtype_system

  unfoldable pub service_system_send_uid : Service K W → pb.Message → ℕ → ℕ → Service K W
  unfolding service_fsend
  service_system_send_uid s msg handle uid = service_fsend s msg handle 0 uid subtype_system

  -- `self` is the handle of the service.
  unfoldable pub service_lua_frsp : Service K W → ℕ → pb.Message → ℕ → ℕ → ℕ → Service K W
  unfolding post
  service_lua_frsp s self msg uid destination session = post s (
      envelopes (
        skynet_send_noleak self destination ptype_response true session
          (some (serialize_imsg_type pb msg uid subtype_protobuf s.service_roomid))))

  unfoldable pub service_lua_rsp_uid : Service K W → ℕ → pb.Message → ℕ → Service K W
  unfolding service_lua_frsp
  service_lua_rsp_uid s self msg uid = service_lua_frsp s self msg uid s.source s.session

  unfoldable pub service_lua_rsp : Service K W → ℕ → pb.Message → Service K W
  unfolding service_lua_rsp_uid
  service_lua_rsp s self msg = service_lua_rsp_uid s self msg s.process_uid

  -- RpcClient::rpc_call from a service; the session is the result.
  unfoldable pub rpc_call_uid :
      Service K W → ℕ → ℕ → pb.Message → RpcCallback K → ℕ → ℕ × Service K W
  unfolding post
  rpc_call_uid s session dest msg callback uid =
      let (result, c, sent) = rpc_call pb (as_client s) session dest msg callback uid in
      (result, post (of_client c) sent)

  unfoldable pub rpc_call_process :
      Service K W → ℕ → ℕ → pb.Message → RpcCallback K → ℕ × Service K W
  unfolding rpc_call_uid
  rpc_call_process s session dest msg callback =
      rpc_call_uid s session dest msg callback s.process_uid

module _ {K W : Type 0} where
  -- The text is copied by skynet.
  unfoldable pub text_response : Service K W → Bytes → Service K W
  unfolding post
  text_response s rsp =
      post s (envelopes (skynet_send_noleak 0 s.source ptype_response false s.session (some rsp)))

  unfoldable pub service_callback : Service K W → Bytes → K → Service K W
  service_callback s name f = record s { callbacks = assign same_name name f s.callbacks }

  unfoldable pub service_depend_on : Service K W → Bytes → Service K W
  service_depend_on s name = record s { named_service = assign same_name name 0 s.named_service }

  unfoldable pub is_depend_ok : Service K W → Bool
  unfolding all_named
  is_depend_ok s = all_named s.named_service

  unfoldable pub add_child : Service K W → ℕ → Service K W
  unfolding insert_handle
  add_child s handle = record s { children = insert_handle handle s.children }

  unfoldable pub del_child : Service K W → ℕ → Bool × Service K W
  unfolding erase_handle
  del_child s handle =
      let (found, left) = erase_handle handle s.children in (found, record s { children = left })

  -- `created` is the handle of what skynet_context_new makes, if it makes one.
  unfoldable pub new_skynet_service : Service K W → Option ℕ → ℕ × Service K W
  unfolding add_child
  new_skynet_service s none = (0, s)
  new_skynet_service s (some handle) = (handle, add_child s handle)

  unfoldable pub service_register_init_func : Service K W → K → Service K W
  service_register_init_func s f = record s { init_func = some f }

-- RegisterInitFunc::call
unfoldable pub call_init :
    {pb : Protobuf} {K W : Type 0} → Program pb K W → Service K W → Bytes → Bool × Service K W
call_init program s parm = elim s.init_func [
  | none ↦ (false, s)
  | some f ↦ program.on_init f parm s
]

abbrev pub nostart : Bytes
nostart = b'n' ∷ b'o' ∷ b's' ∷ b't' ∷ b'a' ∷ b'r' ∷ b't' ∷ []

-- service_init: NULL for `parm` is an empty string. A service whose parameter starts with "nostart" and a gap is
-- initialized with the rest, and ends.
unfoldable pub service_init :
    {pb : Protobuf} {K W : Type 0} → Program pb K W → Service K W → Bytes → Bool × Service K W
unfolding call_init
service_init program s sparm =
    let (temp, tparm) = divide_string sparm gap in
    let ends = same_name temp nostart in
    let (ret, after) =
      call_init program (record s { ready = true }) (if ends then tparm else sparm) in
    (if ends then false else ret, after)
