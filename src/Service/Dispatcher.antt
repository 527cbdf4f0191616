-- ===== src/Service/Dispatcher.antt =====
-- DispatcherT of cpp/common/Dispatcher.h: messages to the callback that is registered for their type.
pub mod Statuses
use testcluster.Prelude.{
  ℕ, ◌+◌, ◌^◌, ◌<◌, ◌≤◌, ◌≡◌, ◌≢◌, ◌∙◌, refl, Bool, true, false, Option, none, some, List, [], ◌∷◌,
  length, if◌then◌else◌, inl, inr, Bool-cases, Option-cases, arith,
}
use testcluster.Pack.Order.{Bytes}
use testcluster.Pack.Decode.{
  InPack, Access, ◌>>=◌, Protobuf, new_in_pack, reset, inner_reset, create_message,
}
use testcluster.Pack.Encode.{pack_of, serialize_imsg, serialize_imsg_done}
use testcluster.Pack.Trip.{received}
use testcluster.Pack.Delivery.{size_of, inner_trip, created}
use testcluster.Service.Table.{find, erase, assign, find-assign, same_name, same_name_refl}

-- DispatcherStatus of cpp/common/Dispatcher.h.
pub data DispatcherStatus : Type 0 where
  dispatcher_success : DispatcherStatus
  dispatcher_pack_error : DispatcherStatus
  dispatcher_pb_error : DispatcherStatus
  dispatcher_callback_error : DispatcherStatus
  dispatcher_forbidden : DispatcherStatus

-- DispatcherT<T>: its table. `C` names the callbacks.
pub record DispatcherT (C : Type 0) : Type 0 where
  pub callbacks : List (Bytes × C)

unfoldable pub register_callback : {C : Type 0} → DispatcherT C → Bytes → C → DispatcherT C
register_callback d name f = record { callbacks = assign same_name name f d.callbacks }

-- `run` is what a callback does to the rest of the service, `world`, for a message and the user that is passed on.
module _ (pb : Protobuf) {C T W : Type 0} (run : C → pb.Message → T → W → W) where
  -- From the parsed message on.
  unfoldable pub run_callback : C → T → W → Option (pb.Message) → DispatcherStatus × W
  run_callback f user world none = (dispatcher_pb_error, world)
  run_callback f user world (some msg) = (dispatcher_success, run f msg user world)

  unfoldable pub dispatch_pack : DispatcherT C → W → T → InPack → Access (DispatcherStatus × W)
  unfolding run_callback
  dispatch_pack d world user pack = elim (find same_name pack.type_name d.callbacks) [
    | none ↦ some (dispatcher_callback_error, world)
    | some f ↦ do msg ← create_message pb pack; some (run_callback f user world msg)
  ]

  unfoldable pub dispatch : DispatcherT C → W → Bytes → ℕ → T → Bool → Access (DispatcherStatus × W)
  unfolding dispatch_pack
  dispatch d world memory size user inner = do
    (decoded, pack) ←
        if inner then inner_reset new_in_pack memory size else reset new_in_pack memory size
    if decoded then dispatch_pack d world user pack else some (dispatcher_pack_error, world)

  unfoldable pub dispatch_message :
      DispatcherT C → W → Bytes → ℕ → T → Access (DispatcherStatus × W)
  unfolding dispatch
  dispatch_message d world memory size user = dispatch d world memory size user true

  unfoldable pub dispatch_client_message :
      DispatcherT C → W → Bytes → ℕ → T → Access (DispatcherStatus × W)
  unfolding dispatch
  dispatch_client_message d world memory size user = dispatch d world memory size user false
