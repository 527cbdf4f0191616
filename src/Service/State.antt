-- ===== src/Service/State.antt =====
-- The state of a Service (cpp/common/Service.h), and the parts of it that its base classes Timer, RpcClient and
-- RpcServer see.
use testcluster.Prelude.{ℕ, Bool, false, Option, List, []}
use testcluster.Pack.Order.{Bytes}
use testcluster.Pack.Decode.{Access, Protobuf}
use testcluster.Service.Timer.{TimerInfo, Timer}
use testcluster.Service.Send.{Envelope}
use testcluster.Service.Rpc.{RpcCallback, RpcClient, RpcServer}

-- `K` names the program's callbacks, and `world` is what they change besides. `outbox` holds what was handed to
-- skynet_send, the newest last. Numbers are bit patterns. The fields of RpcServer carry its name, since Service has
-- fields of the same names. m_parent, m_service_name and m_service_started, which nothing here reads, are left out.
pub record Service (K W : Type 0) : Type 0 where
  pub timers : List (ℕ × TimerInfo K)
  pub rpc : List (ℕ × RpcCallback K)
  pub ready : Bool
  pub server_callbacks : List (Bytes × K)
  pub server_source : ℕ
  pub server_session : ℕ
  pub server_uid : ℕ
  pub callbacks : List (Bytes × K)
  pub named_service : List (Bytes × ℕ)
  pub children : List ℕ
  pub init_func : Option K
  pub source : ℕ
  pub session : ℕ
  pub msg_type : ℕ
  pub msg_data : Bytes
  pub service_roomid : ℕ
  pub process_uid : ℕ
  pub outbox : List Envelope
  pub world : W

-- What the callbacks and the virtual functions of a program do to its service. The user that a message callback is given
-- is the source.
pub record Program (pb : Protobuf) (K W : Type 0) : Type 0 where
  pub on_timer : K → Service K W → Service K W
  pub on_answer : K → pb.Message → Service K W → Service K W
  pub on_request : K → pb.Message → Service K W → Option (pb.Message) × Service K W
  pub on_message : K → pb.Message → ℕ → Service K W → Service K W
  pub on_init : K → Bytes → Service K W → Bool × Service K W
  pub text_message : Bytes → ℕ → ℕ → ℕ → Service K W → Access (Service K W)
  pub message : Bytes → ℕ → ℕ → Service K W → Access (Service K W)

module _ {K W : Type 0} where
  abbrev pub as_timer : Service K W → Timer K (Service K W)
  as_timer s = record { timers = s.timers; process_uid = s.process_uid; world = s }

  abbrev pub of_timer : Timer K (Service K W) → Service K W
  of_timer t = record t.world { timers = t.timers; process_uid = t.process_uid }

  abbrev pub as_client : Service K W → RpcClient K (Service K W)
  as_client s = record { rpc = s.rpc; ready = s.ready; world = s }

  abbrev pub of_client : RpcClient K (Service K W) → Service K W
  of_client c = record c.world { rpc = c.rpc; ready = c.ready }

  abbrev pub as_server : Service K W → RpcServer K (Service K W)
  as_server s = record {
    callbacks = s.server_callbacks;
    ready = s.ready;
    source = s.server_source;
    session = s.server_session;
    uid = s.server_uid;
    world = s;
  }

  abbrev pub of_server : RpcServer K (Service K W) → Service K W
  of_server r = record r.world {
    server_callbacks = r.callbacks;
    ready = r.ready;
    server_source = r.source;
    server_session = r.session;
    server_uid = r.uid;
  }

  -- Service::Service: nothing is registered, and no message is being handled.
  unfoldable pub new_service : W → Service K W
  new_service world = record {
    timers = [];
    rpc = [];
    ready = false;
    server_callbacks = [];
    server_source = 0;
    server_session = 0;
    server_uid = 0;
    callbacks = [];
    named_service = [];
    children = [];
    init_func = Option.none;
    source = 0;
    session = 0;
    msg_type = 0;
    msg_data = [];
    service_roomid = 0;
    process_uid = 0;
    outbox = [];
    world = world;
  }
