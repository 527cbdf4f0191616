-- ===== src/Service/Dispatcher/Statuses.antt =====
-- What DispatcherT (cpp/common/Dispatcher.h) does with a message, by the status that it returns.
use testcluster.Prelude.{
  ℕ, ◌^◌, ◌<◌, ◌≤◌, ◌≡◌, ◌≢◌, refl, ap, Bool, true, false, Option, none, some, length,
  if◌then◌else◌, inl, inr, Option-cases, arith,
}
use testcluster.Pack.Order.{Bytes}
use testcluster.Pack.Decode.{
  InPack, Access, ◌>>=◌, Protobuf, new_in_pack, reset, inner_reset, create_message,
}
use testcluster.Pack.Encode.{pack_of, serialize_imsg, serialize_imsg_done}
use testcluster.Pack.Delivery.{size_of, inner_trip, created}
use testcluster.Service.Table.{find, find-assign, same_name, same_name_refl}
use testcluster.Service.Dispatcher.{
  DispatcherStatus, dispatcher_success, dispatcher_pack_error, dispatcher_callback_error,
  DispatcherT, register_callback, run_callback, dispatch_pack, dispatch, dispatch_message,
}

module _ (pb : Protobuf) {C T W : Type 0} (run : C → pb.Message → T → W → W) where
  -- The world after a result, if the status is not success, is the one before.
  abbrev Keeps : W → DispatcherStatus × W → Type 0
  Keeps world r = (r.0 ≢ dispatcher_success) → r.1 ≡ world

  run_callback-Keeps :
      (f : C) (user : T) (world : W) (msg : Option (pb.Message))
      → Keeps world (run_callback pb run f user world msg)
  unfolding run_callback
  run_callback-Keeps f user world none bad = refl
  run_callback-Keeps f user world (some msg) bad = absurd (bad refl)

  -- The same of an access that gives a result.
  abbrev KeepsAll : W → Access (DispatcherStatus × W) → Type 0
  KeepsAll world a = (r : DispatcherStatus × W) → a ≡ some r → Keeps world r

  some-KeepsAll : (world : W) (s : DispatcherStatus × W) → Keeps world s → KeepsAll world (some s)
  some-KeepsAll world s keeps r h =
      let same : s ≡ r = ap (λ o. elim o [ none ↦ s | some x ↦ x ]) h in rw⁻¹ (same) keeps

  none-KeepsAll : (world : W) → KeepsAll world none
  none-KeepsAll world r h = ground arith

  dispatch_pack-KeepsAll :
      (d : DispatcherT C) (world : W) (user : T) (p : InPack)
      → KeepsAll world (dispatch_pack pb run d world user p)
  unfolding dispatch_pack
  dispatch_pack-KeepsAll d world user p =
      elim (Option-cases (find same_name p.type_name d.callbacks)) [
        | inl e ↦
            rw (e, dispatch_pack)
              (some-KeepsAll world (dispatcher_callback_error, world) (λ bad. refl))
        | inr (f, e) ↦ elim (Option-cases (create_message pb p)) [
          | inl c ↦ rw (e, dispatch_pack, c) (none-KeepsAll world)
          | inr (msg, c) ↦
              rw (e, dispatch_pack, c)
                (some-KeepsAll world (run_callback pb run f user world msg)
                  (run_callback-Keeps f user world msg))
        ]
      ]

  -- What is done with the pack, or without one.
  decided-KeepsAll :
      (d : DispatcherT C) (world : W) (user : T) (a : Access (Bool × InPack))
      → KeepsAll world (
          a >>= λ r.
          if r.0
          then dispatch_pack pb run d world user (r.1)
          else some (dispatcher_pack_error, world))
  decided-KeepsAll d world user none = none-KeepsAll world
  decided-KeepsAll d world user (some (true, p)) = dispatch_pack-KeepsAll d world user p
  decided-KeepsAll d world user (some (false, p)) =
      some-KeepsAll world (dispatcher_pack_error, world) (λ bad. refl)

  -- Whatever arrives, from a service or from a client: if a status is returned that is not success, what callbacks change is as it was.
  pub dispatch_untouched :
      (d : DispatcherT C) (world after : W) (memory : Bytes) (size : ℕ) (user : T) (inner : Bool)
      → (status : DispatcherStatus)
      → dispatch pb run d world memory size user inner ≡ some (status, after)
      → status ≢ dispatcher_success
      → after ≡ world
  unfolding dispatch
  dispatch_untouched d world after memory size user inner status e bad =
      decided-KeepsAll d world user
        (if inner then inner_reset new_in_pack memory size else reset new_in_pack memory size)
        (status, after) e bad

  -- A message that serialize_imsg packs (serialized to fewer than 2^31 bytes, with a type name of at most 50 bytes, a uid
  -- and a room that fit, and parsed back by protobuf) is given to the callback that was registered for its type last.
  pub dispatch_delivers :
      (parses : (m : pb.Message) (text : Bytes)
        → pb.serialize m ≡ (true, text)
        → pb.parse (pb.get_type_name m) text ≡ some m)
      → (d : DispatcherT C) (world : W) (user : T) (f : C) (m : pb.Message) (text : Bytes)
        (uid roomid : ℕ)
      → pb.serialize m ≡ (true, text)
      → length (pb.get_type_name m) ≤ 50
      → length text < 2 ^ 31
      → uid < 2 ^ 64
      → roomid < 2 ^ 32
      → dispatch_message pb run
          (register_callback d (pb.get_type_name m) f)
          world
          (serialize_imsg pb m uid roomid)
          (length (serialize_imsg pb m uid roomid))
          user
        ≡ some (dispatcher_success, run f m user world)
  unfolding dispatch_message dispatch dispatch_pack register_callback run_callback
  dispatch_delivers parses d world user f m text uid roomid done short small wide room =
      let pack = pack_of pb m text in
      let head : InPack = record new_in_pack { data_len = size_of pack 8; uid = uid } in
      let parsed = created pb parses m text done short small head roomid in
      let listed =
        find-assign same_name (pb.get_type_name m) f d.callbacks
          (same_name_refl (pb.get_type_name m)) in
      rw (
        serialize_imsg_done pb m text uid roomid done,
        inner_trip new_in_pack pack uid roomid short small wide room,
        dispatch_pack,
        listed,
        parsed,
      )
