-- ===== src/Activity/Routing.antt =====
-- Packets of C++ services (cpp/common/Pack.cpp) are passed on by user (lua/activity_master/activity_master.lua).
use testcluster.Prelude.{
  ℕ, zero, suc, ◌%◌, ◌^◌, ◌<◌, ◌≤◌, ◌≡◌, ◌≢◌, refl, some, List, [], ◌∷◌, map, length, ltb, lt→ltb,
  ltb_of_le, ==_of_ne, Bool-cases, ltb→lt, le_of_ltb, get_elem?, inl, inr, arith,
}
use testcluster.Pack.Decode.{Protobuf}
use testcluster.Pack.Encode.{serialize_imsg_type}
use testcluster.Protopack.{LuaProtobuf}
use testcluster.Protopack.Interop.{SameMessage, raw_uid, reads_the_same}
use testcluster.Activity.{signed, insert_service, get_addrs, text}

-- Where a packet of a user goes: of none, to all services; of one, always to the same; of a uid that is negative as an int64, to
-- some service.
pub data IsRoute (services : List ℕ) : ℕ → List ℕ → Type 0 where
  to_all : IsRoute services 0 services
  to_one :
      (uid addr : ℕ)
      → 1 ≤ uid
      → uid < 2 ^ 63
      → get_elem? services (uid % length services) ≡ some addr
      → IsRoute services uid (addr ∷ [])
  to_some :
      (uid i addr : ℕ)
      → 2 ^ 63 ≤ uid
      → get_elem? services i ≡ some addr
      → IsRoute services uid (addr ∷ [])

in_range : (xs : List ℕ) (i : ℕ) → i < length xs → (x : ℕ) × (get_elem? xs i ≡ some x)
in_range [] i lt = absurd (let no : i < 0 = lt in omega arith)
in_range (x ∷ xs) zero lt = (x, refl)
in_range (x ∷ xs) (suc i) lt = in_range xs i (omega arith)

insert_in_range :
    (services : List ℕ) (i addr : ℕ)
    → get_elem? services i ≡ some addr
    → insert_service services i ≡ addr ∷ []
unfolding insert_service
insert_in_range services i addr e = rw (e, insert_service) refl

module _ (random : ℕ → ℕ) (services : List ℕ) (some_services : 1 ≤ length services)
    (fair : random (length services) < length services) where
  routes_positive :
      (uid : ℕ)
      → 1 ≤ uid
      → uid < 2 ^ 63
      → (addrs : List ℕ) × IsRoute services uid addrs
        × (get_addrs random services (some (signed uid)) ≡ some addrs)
  unfolding get_addrs signed
  routes_positive uid least low =
      let (addr, there) = in_range services (uid % length services) (omega arith) in
      let real : uid ≢ 0 = λ e. omega arith in
      let any : length services ≢ 0 = λ e. omega arith in
      (
        addr ∷ [],
        to_one uid addr least low there,
        rw (lt→ltb uid (2 ^ 63) low, get_addrs)
            (rw
              (
                ==_of_ne uid 0 real,
                ==_of_ne (length services) 0 any,
                insert_in_range services _ addr there,
              )
              refl),
      )

  routes_negative :
      (uid : ℕ)
      → 2 ^ 63 ≤ uid
      → (addrs : List ℕ) × IsRoute services uid addrs
        × (get_addrs random services (some (signed uid)) ≡ some addrs)
  unfolding get_addrs signed
  routes_negative uid high =
      let (addr, there) = in_range services (random (length services)) fair in
      let any : length services ≢ 0 = λ e. omega arith in
      (
        addr ∷ [],
        to_some uid (random (length services)) addr high there,
        rw (ltb_of_le uid (2 ^ 63) high, get_addrs)
            (rw (==_of_ne (length services) 0 any, insert_in_range services _ addr there) refl),
      )

  routes :
      (uid : ℕ)
      → (addrs : List ℕ) × IsRoute services uid addrs
        × (get_addrs random services (some (signed uid)) ≡ some addrs)
  unfolding get_addrs signed
  routes zero = (services, to_all, refl)
  routes (suc n) = elim (Bool-cases (ltb (suc n) (2 ^ 63))) [
    | inl low ↦ routes_positive (suc n) (omega arith) (ltb→lt (suc n) (2 ^ 63) low)
    | inr high ↦ routes_negative (suc n) (le_of_ltb (suc n) (2 ^ 63) high)
  ]

  -- A packet that a C++ service makes for a user (serialize_imsg_type) is passed on as it is: to all services for the user 0; to the
  -- service that the uid modulo their number tells, for one below 2^63; and else to one of them. There must be a service, and
  -- math.random must give one of its range.
  pub text_routed :
      (pb : Protobuf) (lua : LuaProtobuf) (msg : pb.Message) (table : lua.Message)
      → SameMessage pb lua msg table
      → (uid roomid type : ℕ) → uid < 2 ^ 64
      → roomid < 2 ^ 32
      → let packet = serialize_imsg_type pb msg uid type roomid in
        (addrs : List ℕ) × IsRoute services uid addrs
        × (text random lua services packet ≡ some (map (λ addr. (addr, packet)) addrs))
  unfolding text
  text_routed pb lua msg table same uid roomid type wide room =
      let (addrs, route, got) = routes uid in
      (
        addrs,
        route,
        rw (raw_uid pb lua msg table same uid roomid wide room type) (
            rw ((reads_the_same pb lua msg table same uid roomid wide room type).0)
              (rw (got) refl)),
      )
