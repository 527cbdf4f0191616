-- ===== src/Service/Poll/Idle.antt =====
-- A service handles one message at a time: between two calls of service_poll (cpp/common/Service.cpp) it is idle.
use testcluster.Prelude.{
  ℕ, ◌≡◌, refl, ap, Bool, true, false, ◌||◌, none, some, drop, ◌==◌, if◌then◌else◌, Option-cases,
  inl, inr, arith,
}
use testcluster.Pack.Order.{Bytes, read32}
use testcluster.Pack.Decode.{
  Access, ◌>>=◌, Protobuf, new_in_pack, inner_reset, less, copy, get_uid_from_stream,
}
use testcluster.Service.Table.{find}
use testcluster.Service.Timer.{timer_timeout}
use testcluster.Service.Send.{ptype_text, ptype_response, ptype_client}
use testcluster.Service.Dispatcher.{
  DispatcherStatus, dispatcher_success, dispatcher_pack_error, dispatcher_pb_error,
  dispatcher_callback_error, dispatcher_forbidden, dispatch_message,
}
use testcluster.Service.Rpc.{
  rpc_event_client, rpc_event_server, subtype_rpc_client, subtype_rpc_server,
}
use testcluster.Service.State.{Service, Program, as_timer, of_timer, as_client, as_server}
use testcluster.Service.Poll.{
  service_poll, poll_type, poll_text, poll_response, poll_plain_text, poll_rpc_server,
  poll_rpc_client, proto, log_status, timer_callback, answer_callback, request_callback, text_uid,
  subtype_protobuf, subtype_system, subtype_plain_text,
}

-- No message is being handled, and no uid is served.
pub record IsIdle {K W : Type 0} (s : Service K W) : Type 0 where
  pub no_source : s.source ≡ 0
  pub no_session : s.session ≡ 0
  pub no_uid : s.process_uid ≡ 0

module _ {K W : Type 0} where
  -- What every service that an action gives fulfils.
  abbrev Gives : (Service K W → Type 0) → Access (Service K W) → Type 0
  Gives P a = (t : Service K W) → a ≡ some t → P t

  abbrev Clears : Access (Service K W) → Type 0
  Clears a = Gives (λ t. t.process_uid ≡ 0) a

  some-Gives : (P : Service K W → Type 0) (s : Service K W) → P s → Gives P (some s)
  some-Gives P s holds t e =
      let same : s ≡ t = ap (λ o. elim o [ none ↦ s | some x ↦ x ]) e in rw⁻¹ (same) holds

  some-Clears : (s : Service K W) → s.process_uid ≡ 0 → Clears (some s)
  some-Clears s clear = some-Gives (λ t. t.process_uid ≡ 0) s clear

  none-Gives : (P : Service K W → Type 0) → Gives P none
  none-Gives P t e = ground arith

  bind-Gives :
      (P : Service K W → Type 0) {A : Type 0} (a : Access A) (k : A → Access (Service K W))
      → ((x : A) → Gives P (k x))
      → Gives P (a >>= k)
  bind-Gives P none k h = none-Gives P
  bind-Gives P (some x) k h = h x

  bind-Clears :
      {A : Type 0} (a : Access A) (k : A → Access (Service K W))
      → ((x : A) → Clears (k x))
      → Clears (a >>= k)
  bind-Clears a k h = bind-Gives (λ t. t.process_uid ≡ 0) a k h

  -- The end of service_poll.
  finish-IsIdle :
      (a : Access (Service K W))
      → Clears a
      → Gives (λ t. IsIdle t) (a >>= λ after. some (record after { source = 0; session = 0 }))
  finish-IsIdle none clears = none-Gives (λ t. IsIdle t)
  finish-IsIdle (some x) clears =
      some-Gives (λ t. IsIdle t) (record x { source = 0; session = 0 })
        (record { no_source = refl; no_session = refl; no_uid = clears x refl })

  if-Clears :
      (b : Bool) (x y : Access (Service K W)) → Clears x → Clears y → Clears (if b then x else y)
  if-Clears true x y hx hy = hx
  if-Clears false x y hx hy = hy

module _ {pb : Protobuf} {K W : Type 0} (program : Program pb K W) where
  log_status-Clears :
      (memory : Bytes) (size : ℕ) (r : DispatcherStatus × Service K W)
      → Clears (log_status program memory size r)
  unfolding log_status
  log_status-Clears memory size (dispatcher_callback_error, s) =
      bind-Clears (inner_reset new_in_pack memory size)
        (λ again. some (record s { process_uid = 0 }))
        (λ again. some-Clears (record s { process_uid = 0 }) refl)
  log_status-Clears memory size (dispatcher_success, s) =
      some-Clears (record s { process_uid = 0 }) refl
  log_status-Clears memory size (dispatcher_pack_error, s) =
      some-Clears (record s { process_uid = 0 }) refl
  log_status-Clears memory size (dispatcher_pb_error, s) =
      some-Clears (record s { process_uid = 0 }) refl
  log_status-Clears memory size (dispatcher_forbidden, s) =
      some-Clears (record s { process_uid = 0 }) refl

  proto-Clears :
      (s : Service K W) (memory : Bytes) (size source : ℕ)
      → Clears (proto program s memory size source)
  unfolding proto
  proto-Clears s memory size source = bind-Clears (get_uid_from_stream memory) _ (λ uid.
      bind-Clears
        (dispatch_message pb program.on_message (record { callbacks = s.callbacks })
          (record s { process_uid = uid }) memory size source)
        _ (log_status-Clears memory size))

  rpc_server-Clears :
      (s : Service K W) (memory : Bytes) (size source session : ℕ)
      → Clears (poll_rpc_server program s memory size source session)
  unfolding poll_rpc_server
  rpc_server-Clears s memory size source session =
      bind-Clears (get_uid_from_stream memory) _ (λ uid.
        bind-Clears
          (rpc_event_server pb (request_callback program)
            (as_server (record s { process_uid = uid })) memory size source session)
          _ (λ r. some-Clears _ refl))

  rpc_client-Clears :
      (s : Service K W) (memory : Bytes) (size session : ℕ)
      → Clears (poll_rpc_client program s memory size session)
  unfolding poll_rpc_client
  rpc_client-Clears s memory size session = bind-Clears (get_uid_from_stream memory) _ (λ uid.
      bind-Clears
        (rpc_event_client pb (answer_callback program) (as_client (record s { process_uid = uid }))
          memory size session)
        _ (λ c. some-Clears _ refl))

  plain_text-Clears :
      (s : Service K W) (memory : Bytes) (size source session : ℕ)
      → Clears (poll_plain_text program s memory size source session)
  unfolding poll_plain_text
  plain_text-Clears s memory size source session = bind-Clears (copy size memory) _ (λ stream.
      bind-Clears
        (program.text_message memory size source session
          (record s { process_uid = text_uid stream s.process_uid }))
        _ (λ after. some-Clears _ refl))

  poll_text-Clears :
      (s : Service K W) (memory : Bytes) (size source session : ℕ)
      → s.process_uid ≡ 0
      → Clears (poll_text program s memory size source session)
  unfolding poll_text
  poll_text-Clears s memory size source session clear = bind-Clears (read32 memory) _ (λ sub_type.
      if-Clears (sub_type == subtype_protobuf || sub_type == subtype_system) _ _
        (proto-Clears s (drop 4 memory) (less size 4) source)
        (if-Clears (sub_type == subtype_rpc_server) _ _
          (rpc_server-Clears s (drop 4 memory) (less size 4) source session)
          (if-Clears (sub_type == subtype_plain_text) _ _
            (plain_text-Clears s (drop 4 memory) (less size 4) source session)
            (some-Clears s clear))))

  poll_response-Clears :
      (s : Service K W) (memory : Bytes) (size session : ℕ)
      → s.process_uid ≡ 0
      → Clears (poll_response program s memory size session)
  unfolding poll_response
  poll_response-Clears s memory size session clear = bind-Clears (read32 memory) _ (λ sub_type.
      if-Clears (sub_type == subtype_rpc_client) _ _
        (rpc_client-Clears s (drop 4 memory) (less size 4) session) (some-Clears s clear))

  timeout-Clears :
      (s : Service K W) (session : ℕ)
      → s.process_uid ≡ 0
      → (of_timer (timer_timeout (timer_callback program) (as_timer s) session)).process_uid ≡ 0
  unfolding timer_timeout
  timeout-Clears s session clear = elim (Option-cases (find ◌==◌ session s.timers)) [
    | inl e ↦ rw (e, timer_timeout) clear
    | inr (info, e) ↦ rw (e, timer_timeout)
  ]

  poll_type-Clears :
      (s : Service K W) (memory : Bytes) (size source session type : ℕ)
      → s.process_uid ≡ 0
      → Clears (program.message memory size source s)
      → Clears (poll_type program s memory size source session type)
  unfolding poll_type
  poll_type-Clears s memory size source session type clear message =
      if-Clears (type == ptype_text) _ _ (poll_text-Clears s memory size source session clear) (
        if-Clears (type == ptype_client) _ _ message (
          if-Clears (type == ptype_response) _ _
            (if-Clears (source == 0) _ _ (some-Clears _ (timeout-Clears s session clear))
              (poll_response-Clears s memory size session clear))
            (some-Clears s clear)))

  -- Whatever message comes, of any type, size and content, and whatever the callbacks do: an idle service is idle again
  -- when service_poll returns, if the virtual function for client messages leaves m_process_uid 0.
  pub service_poll-IsIdle :
      (s t : Service K W) (memory : Bytes) (size source session type : ℕ)
      → ((u : Service K W) → u.process_uid ≡ 0 → Clears (program.message memory size source u))
      → IsIdle s
      → service_poll program s memory size source session type ≡ some t
      → IsIdle t
  unfolding service_poll
  service_poll-IsIdle s t memory size source session type message idle e =
      bind-Gives (λ u. IsIdle u) (copy size memory) _
        (λ content.
          let given : Service K W = record s {
            source = source;
            session = session;
            msg_type = type;
            msg_data = content;
          } in
          finish-IsIdle (poll_type program given memory size source session type) (
            poll_type-Clears given memory size source session type idle.no_uid
              (message given idle.no_uid)))
        t e
