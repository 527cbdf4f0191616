-- ===== src/Service/Poll.antt =====
-- Service::service_poll and Service::proto of cpp/common/Service.cpp: what a service does with a message.
pub mod Packets
pub mod Messages
pub mod Calls
pub mod Idle
mod Tests
use testcluster.Prelude.{
  ℕ, Bool, true, false, ◌||◌, ◌&&◌, not, Option, none, some, List, [], ◌∷◌, ◌++◌, drop, ◌==◌,
  if◌then◌else◌,
}
use testcluster.Pack.Order.{Bytes, read32}
use testcluster.Pack.Decode.{
  InPack, Access, ◌>>=◌, Protobuf, new_in_pack, inner_reset, get_uid_from_stream, copy, less,
}
use testcluster.Text.Divide.{divide_string}
use testcluster.Text.Number.{atoll}
use testcluster.Service.Table.{same_name}
use testcluster.Service.Timer.{Timer, timer_timeout}
use testcluster.Service.Send.{ptype_text, ptype_response, ptype_client}
use testcluster.Service.Dispatcher.{
  DispatcherStatus, dispatcher_callback_error, DispatcherT, dispatch_message,
}
use testcluster.Service.Rpc.{
  RpcClient, RpcServer, Runs, Serves, subtype_rpc_client, subtype_rpc_server, rpc_event_client,
  rpc_event_server,
}
use testcluster.Service.State.{
  Service, Program, as_timer, of_timer, as_client, of_client, as_server, of_server,
}

abbrev pub subtype_protobuf : ℕ
subtype_protobuf = 16

abbrev pub subtype_plain_text : ℕ
subtype_plain_text = 19

abbrev pub subtype_system : ℕ
subtype_system = 21

-- "php", and the gap of a text message.
abbrev pub php : Bytes
php = b'p' ∷ b'h' ∷ b'p' ∷ []

abbrev pub gap : ℕ
gap = 32

unfoldable pub is_empty : Bytes → Bool
is_empty [] = true
is_empty (c ∷ rest) = false

-- The uid that a text message is for: "php", a gap, the uid, a gap, and more; else what it was.
unfoldable pub text_uid : Bytes → ℕ → ℕ
unfolding is_empty
text_uid stream before =
    let (from, behind) = divide_string stream gap in
    let (uid, left) = divide_string behind gap in
    if not (is_empty behind) && same_name from php
    then (if not (is_empty left) then atoll uid else before)
    else before

module _ {pb : Protobuf} {K W : Type 0} (program : Program pb K W) where
  -- The program's callbacks as the base classes run them.
  abbrev pub timer_callback : K → Timer K (Service K W) → Timer K (Service K W)
  timer_callback f t = as_timer (program.on_timer f (of_timer t))

  abbrev pub answer_callback : Runs pb K (Service K W)
  answer_callback f msg c = as_client (program.on_answer f msg (of_client c))

  abbrev pub request_callback : Serves pb K (Service K W)
  request_callback g msg r =
      let (rsp, after) = program.on_request g msg (of_server r) in (rsp, as_server after)

  -- What Service::proto does by the status: a type without a callback is decoded again for the log.
  unfoldable pub log_status : Bytes → ℕ → DispatcherStatus × Service K W → Access (Service K W)
  log_status memory size (dispatcher_callback_error, s) = do
    again ← inner_reset new_in_pack memory size
    some (record s { process_uid = 0 })
  log_status memory size (status, s) = some (record s { process_uid = 0 })

  unfoldable pub proto : Service K W → Bytes → ℕ → ℕ → Access (Service K W)
  unfolding log_status
  proto s memory size source = do
    uid ← get_uid_from_stream memory
    dispatched ←
        dispatch_message pb program.on_message (record { callbacks = s.callbacks })
          (record s { process_uid = uid }) memory size source
    log_status memory size dispatched

  unfoldable pub poll_rpc_server : Service K W → Bytes → ℕ → ℕ → ℕ → Access (Service K W)
  poll_rpc_server s memory size source session = do
    uid ← get_uid_from_stream memory
    (status, r, sent) ←
        rpc_event_server pb request_callback (as_server (record s { process_uid = uid })) memory
          size source session
    let after = of_server r
    some (record after { outbox = after.outbox ++ sent; process_uid = 0 })

  unfoldable pub poll_rpc_client : Service K W → Bytes → ℕ → ℕ → Access (Service K W)
  poll_rpc_client s memory size session = do
    uid ← get_uid_from_stream memory
    c ←
        rpc_event_client pb answer_callback (as_client (record s { process_uid = uid })) memory size
          session
    let after = of_client c
    some (record after { process_uid = 0 })

  unfoldable pub poll_plain_text : Service K W → Bytes → ℕ → ℕ → ℕ → Access (Service K W)
  unfolding text_uid
  poll_plain_text s memory size source session = do
    stream ← copy size memory
    after ←
        program.text_message memory size source session
          (record s { process_uid = text_uid stream s.process_uid })
    some (record after { process_uid = 0 })

  unfoldable pub poll_text : Service K W → Bytes → ℕ → ℕ → ℕ → Access (Service K W)
  unfolding proto poll_rpc_server poll_plain_text
  poll_text s memory size source session = do
    sub_type ← read32 memory
    let behind = drop 4 memory
    let left = less size 4
    if sub_type == subtype_protobuf || sub_type == subtype_system
        then proto s behind left source
        else if sub_type == subtype_rpc_server
        then poll_rpc_server s behind left source session
        else if sub_type == subtype_plain_text
        then poll_plain_text s behind left source session
        else some s

  unfoldable pub poll_response : Service K W → Bytes → ℕ → ℕ → Access (Service K W)
  unfolding poll_rpc_client
  poll_response s memory size session = do
    sub_type ← read32 memory
    if sub_type == subtype_rpc_client
        then poll_rpc_client s (drop 4 memory) (less size 4) session
        else some s

  -- The switch on the type; a response from source 0 is a timer's.
  unfoldable pub poll_type : Service K W → Bytes → ℕ → ℕ → ℕ → ℕ → Access (Service K W)
  unfolding poll_text poll_response
  poll_type s memory size source session type =
      if type == ptype_text
      then poll_text s memory size source session
      else if type == ptype_client
      then program.message memory size source s
      else if type == ptype_response
      then (if source == 0
          then some (of_timer (timer_timeout timer_callback (as_timer s) session))
          else poll_response s memory size session)
      else some s

  unfoldable pub service_poll : Service K W → Bytes → ℕ → ℕ → ℕ → ℕ → Access (Service K W)
  unfolding poll_type
  service_poll s memory size source session type = do
    content ← copy size memory
    after ←
        poll_type
          (record s { source = source; session = session; msg_type = type; msg_data = content })
          memory size source session type
    some (record after { source = 0; session = 0 })
