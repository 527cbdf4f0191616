-- ===== src/Activity.antt =====
-- lua/activity_master/activity_master.lua: the service that passes the packets of other services on to one of its services, or to
-- all.
pub mod Routing
mod Tests
use testcluster.Prelude.{
  ℕ, suc, ◌+◌, ◌-◌, ◌%◌, ◌^◌, ◌≡◌, Option, none, some, List, [], ◌∷◌, map, length, drop, ltb, ◌==◌,
  get_elem?, if◌then◌else◌,
}
use testcluster.Prelude.Int.{ℤ, pos, negsuc}
use testcluster.Pack.Order.{Bytes}
use testcluster.Pack.Decode.{Access, ◌>>=◌}
use testcluster.Protopack.{LuaProtobuf, read64, unpack_raw}

-- An integer of Lua, by its bit pattern.
unfoldable pub signed : ℕ → ℤ
signed n = if ltb n (2 ^ 63) then pos n else negsuc (2 ^ 64 - 1 - n)

-- table.insert(addrs, sub_services[1 + i]) of an empty table: nil is not put in.
unfoldable pub insert_service : List ℕ → ℕ → List ℕ
insert_service sub_services i = elim (get_elem? sub_services i) [
  | none ↦ []
  | some addr ↦ addr ∷ []
]

module _ (random : ℕ → ℕ) where
  -- math.random(1, size) is 1 + random size. Both it and % raise an error if there is no service.
  unfoldable pub get_addrs : List ℕ → Option ℤ → Option (List ℕ)
  unfolding insert_service
  get_addrs sub_services none =
      let size = length sub_services in
      if size == 0 then none else some (insert_service sub_services (random size))
  get_addrs sub_services (some (negsuc n)) =
      let size = length sub_services in
      if size == 0 then none else some (insert_service sub_services (random size))
  get_addrs sub_services (some (pos n)) =
      let size = length sub_services in
      if n == 0
      then some sub_services
      else if size == 0
      then none
      else some (insert_service sub_services (n % size))

  -- The messages of type "text" that a packet is passed on in, by address. naming_status_pb_name is an empty table, to which
  -- nothing is added.
  unfoldable pub text : LuaProtobuf → List ℕ → Bytes → Access (List (ℕ × Bytes))
  unfolding get_addrs signed
  text protobuf sub_services netmsg = do
    uid ← read64 (drop 4 netmsg)
    (temp_uid, temp_name, temp_msg) ← unpack_raw protobuf netmsg
    addrs ← get_addrs sub_services (some (signed uid))
    some (map (λ addr. (addr, netmsg)) addrs)
