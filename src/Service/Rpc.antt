-- ===== src/Service/Rpc.antt =====
-- RpcClient and RpcServer of cpp/common/RPC.h and RPC.cpp.
pub mod Trip
pub mod Exchange
pub mod NullCalls
use testcluster.Prelude.{
  ℕ, Bool, true, false, Option, none, some, List, [], ◌∷◌, ◌&&◌, ◌==◌, if◌then◌else◌,
}
use testcluster.Pack.Order.{Bytes}
use testcluster.Pack.Decode.{
  InPack, Access, ◌>>=◌, Protobuf, new_in_pack, inner_reset, create_message,
}
use testcluster.Pack.Encode.{serialize_imsg_type}
use testcluster.Service.Table.{find, erase, assign, same_name}
use testcluster.Service.Dispatcher.{
  DispatcherStatus, dispatcher_success, dispatcher_pack_error, dispatcher_pb_error,
  dispatcher_callback_error, dispatcher_forbidden,
}
use testcluster.Service.Send.{Envelope, ptype_text, ptype_response, skynet_send_noleak, envelopes}

abbrev pub subtype_rpc_client : ℕ
subtype_rpc_client = 17

abbrev pub subtype_rpc_server : ℕ
subtype_rpc_server = 18

-- RPCCallBack: RPC_NULL_FUNC, or another function.
pub data RpcCallback {ℓ} (F : Type ℓ) : Type ℓ where
  rpc_null_func : RpcCallback F
  func : F → RpcCallback F

-- RpcClient. `ready` tells if m_service_context is set; `world` is what callbacks change besides m_rpc.
pub record RpcClient (F W : Type 0) : Type 0 where
  pub rpc : List (ℕ × RpcCallback F)
  pub ready : Bool
  pub world : W

unfoldable pub rpc_init_client : {F W : Type 0} → RpcClient F W → RpcClient F W
rpc_init_client c = record c { ready = true }

-- The program's callbacks: the one that `f` names, run with a message; it can call and cancel.
abbrev pub Runs : Protobuf → Type 0 → Type 0 → Type 0
Runs pb F W = F → pb.Message → RpcClient F W → RpcClient F W

module _ (pb : Protobuf) {F W : Type 0} where
  -- `session` is what skynet_context_newsession gives. The result, the client, and what is sent.
  unfoldable pub rpc_call :
      RpcClient F W → ℕ → ℕ → pb.Message → RpcCallback F → ℕ → ℕ × RpcClient F W × List Envelope
  rpc_call c session dest msg callback uid =
      if c.ready
      then (let content = serialize_imsg_type pb msg uid subtype_rpc_server 0 in
          (
            session,
            record c { rpc = assign ◌==◌ session callback c.rpc },
            envelopes (skynet_send_noleak 0 dest ptype_text true session (some content)),
          ))
      else (0, c, [])

  -- The client, and what `id` is set to.
  unfoldable pub rpc_cancel : RpcClient F W → ℕ → RpcClient F W × ℕ
  rpc_cancel c id = (record c { rpc = erase ◌==◌ id c.rpc }, 0)

  -- From the parsed message on.
  unfoldable pub answer : Runs pb F W → F → ℕ → RpcClient F W → Option (pb.Message) → RpcClient F W
  answer run f session c none = c
  answer run f session c (some msg) =
      let after = run f msg c in record after { rpc = erase ◌==◌ session after.rpc }

  unfoldable pub rpc_event_client :
      Runs pb F W → RpcClient F W → Bytes → ℕ → ℕ → Access (RpcClient F W)
  unfolding answer
  rpc_event_client run c memory size session = elim (find ◌==◌ session c.rpc) [
    | none ↦ some c
    | some rpc_null_func ↦ some c
    | some (func f) ↦ do
      (decoded, pack) ← inner_reset new_in_pack memory size
      if decoded
          then (do msg ← create_message pb pack; some (answer run f session c msg))
          else some c
  ]

-- RpcServer, with what its callbacks change.
pub record RpcServer (G W : Type 0) : Type 0 where
  pub callbacks : List (Bytes × G)
  pub ready : Bool
  pub source : ℕ
  pub session : ℕ
  pub uid : ℕ
  pub world : W

unfoldable pub rpc_init_server : {G W : Type 0} → RpcServer G W → RpcServer G W
rpc_init_server s = record s { ready = true }

unfoldable pub rpc_register : {G W : Type 0} → RpcServer G W → Bytes → G → RpcServer G W
rpc_register s name g = record s { callbacks = assign same_name name g s.callbacks }

-- A callback gives a message to answer with, or NULL; it finds the caller in the server.
abbrev pub Serves : Protobuf → Type 0 → Type 0 → Type 0
Serves pb G W = G → pb.Message → RpcServer G W → Option (pb.Message) × RpcServer G W

-- The status, the server, and what is sent.
abbrev pub Served : Type 0 → Type 0 → Type 0
Served G W = DispatcherStatus × RpcServer G W × List Envelope

module _ (pb : Protobuf) where
  unfoldable pub response : pb.Message → ℕ → ℕ → ℕ → List Envelope
  response msg dest session uid = envelopes (
      skynet_send_noleak 0 dest ptype_response true session
        (some (serialize_imsg_type pb msg uid subtype_rpc_client 0)))

  unfoldable pub respond : Option (pb.Message) → ℕ → ℕ → ℕ → List Envelope
  respond none dest session uid = []
  respond (some rsp) dest session uid = response rsp dest session uid

module _ (pb : Protobuf) {G W : Type 0} where
  -- The function that answers the caller of the moment later.
  unfoldable pub get_response : RpcServer G W → pb.Message → List Envelope
  get_response s msg = response pb msg s.source s.session s.uid

  -- From the parsed message on.
  unfoldable pub serve :
      Serves pb G W → G → RpcServer G W → ℕ → ℕ → ℕ → Option (pb.Message) → Served G W
  unfolding respond
  serve run g s source session uid none = (dispatcher_pb_error, s, [])
  serve run g s source session uid (some msg) =
      let (rsp, after) = run g msg (record s { source = source; session = session; uid = uid }) in
      (dispatcher_success, after, respond pb rsp source session uid)

  unfoldable pub rpc_event_server :
      Serves pb G W → RpcServer G W → Bytes → ℕ → ℕ → ℕ → Access (Served G W)
  unfolding serve
  rpc_event_server run s memory size source session =
      if s.ready
      then (do
        (decoded, pack) ← inner_reset new_in_pack memory size
        if decoded
            then elim (find same_name pack.type_name s.callbacks) [
              | none ↦ some (dispatcher_callback_error, s, [])
              | some g ↦ (do
                msg ← create_message pb pack
                some (serve run g s source session pack.uid msg))
            ]
            else some (dispatcher_pack_error, s, []))
      else some (dispatcher_forbidden, s, [])
