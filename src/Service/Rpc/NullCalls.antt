-- ===== src/Service/Rpc/NullCalls.antt =====
-- Calls with RPC_NULL_FUNC (cpp/common/RPC.cpp), whose answers nobody waits for, and what they leave in m_rpc.
use testcluster.Prelude.{
  ℕ, ◌≡◌, ◌⊎◌, inl, inr, refl, true, false, Bool-cases, some, List, [], ◌∷◌, ◌==◌, arith,
}
use testcluster.Pack.Order.{Bytes}
use testcluster.Pack.Decode.{Access, Protobuf, ◌>>=◌}
use testcluster.Service.Table.{find, erase, assign}
use testcluster.Service.Rpc.{
  rpc_null_func, RpcClient, Runs, rpc_init_client, rpc_call, rpc_event_client,
}

-- A call that waits for no answer.
pub record NullCall (pb : Protobuf) : Type 0 where
  pub session : ℕ
  pub dest : ℕ
  pub msg : pb.Message
  pub uid : ℕ

-- An answer to a session: `size` bytes from `memory` on.
pub record Answer : Type 0 where
  pub session : ℕ
  pub memory : Bytes
  pub size : ℕ

abbrev IsOf : {pb : Protobuf} → ℕ → List (NullCall pb) → Type 0
IsOf session [] = ⊥
IsOf session (k ∷ calls) = (session ≡ k.session) ⊎ IsOf session calls

-- Every answer is to one of the calls.
abbrev pub AreOf : {pb : Protobuf} → List Answer → List (NullCall pb) → Type 0
AreOf [] calls = Unit
AreOf (a ∷ answers) calls = IsOf a.session calls × AreOf answers calls

module _ (pb : Protobuf) {F W : Type 0} where
  unfoldable pub call_all : RpcClient F W → List (NullCall pb) → RpcClient F W
  call_all c [] = c
  call_all c (k ∷ calls) =
      call_all ((rpc_call pb c k.session k.dest k.msg rpc_null_func k.uid).1) calls

  unfoldable pub answer_all : Runs pb F W → RpcClient F W → List Answer → Access (RpcClient F W)
  answer_all run c [] = some c
  answer_all run c (a ∷ answers) = do
    next ← rpc_event_client pb run c a.memory a.size a.session
    answer_all run next answers

abbrev IsKept : {F W : Type 0} → RpcClient F W → ℕ → Type 0
IsKept c session = find ◌==◌ session c.rpc ≡ some rpc_null_func

-- The sessions of all calls are in the table.
abbrev pub AreKept : {pb : Protobuf} {F W : Type 0} → RpcClient F W → List (NullCall pb) → Type 0
AreKept c [] = Unit
AreKept c (k ∷ calls) = (find ◌==◌ k.session c.rpc ≡ some rpc_null_func) × AreKept c calls

find-erase_other :
    {V : Type 0} (session other : ℕ) (table : List (ℕ × V))
    → (session == other) ≡ false
    → find ◌==◌ session (erase ◌==◌ other table) ≡ find ◌==◌ session table
unfolding find erase
find-erase_other session other [] e = refl
find-erase_other session other ((k, v) ∷ rest) e = elim (Bool-cases (other == k)) [
  | inl same ↦
      let differs : (session == k) ≡ false = ground arith in
      rw (same, differs) (find-erase_other session other rest e)
  | inr differs ↦ rw (differs) (rw (find-erase_other session other rest e) refl)
]

module _ (pb : Protobuf) {F W : Type 0} where
  called-IsKept :
      (c : RpcClient F W) (k : NullCall pb) (session : ℕ)
      → c.ready ≡ true
      → (session ≡ k.session) ⊎ IsKept c session
      → IsKept ((rpc_call pb c k.session k.dest k.msg rpc_null_func k.uid).1) session
  unfolding rpc_call find assign
  called-IsKept c k session ready kept = rw (ready) (elim (Bool-cases (session == k.session)) [
    | inl same ↦ rw (same) refl
    | inr other ↦ rw (other) (
        rw (find-erase_other session k.session c.rpc other)
          (elim kept [ inl same ↦ absurd (ground arith) | inr h ↦ h ]))
  ])

  called-ready :
      (c : RpcClient F W) (k : NullCall pb)
      → c.ready ≡ true
      → ((rpc_call pb c k.session k.dest k.msg rpc_null_func k.uid).1).ready ≡ true
  unfolding rpc_call
  called-ready c k ready = rw (ready) refl

  call_all-IsKept :
      (calls : List (NullCall pb)) (c : RpcClient F W) (session : ℕ)
      → c.ready ≡ true
      → IsOf session calls ⊎ IsKept c session
      → IsKept (call_all pb c calls) session
  unfolding call_all
  call_all-IsKept [] c session ready (inr kept) = kept
  call_all-IsKept [] c session ready (inl never) = absurd never
  call_all-IsKept (k ∷ calls) c session ready (inl (inl same)) =
      call_all-IsKept calls _ session (called-ready c k ready)
        (inr (called-IsKept c k session ready (inl same)))
  call_all-IsKept (k ∷ calls) c session ready (inl (inr later)) =
      call_all-IsKept calls _ session (called-ready c k ready) (inl later)
  call_all-IsKept (k ∷ calls) c session ready (inr kept) =
      call_all-IsKept calls _ session (called-ready c k ready)
        (inr (called-IsKept c k session ready (inr kept)))

  all-AreKept :
      (c : RpcClient F W) (calls : List (NullCall pb))
      → ((session : ℕ) → IsOf session calls → IsKept c session)
      → AreKept c calls
  all-AreKept c [] each = tt
  all-AreKept c (k ∷ calls) each =
      (each k.session (inl refl), all-AreKept c calls (λ session of. each session (inr of)))

  answered_kept :
      (run : Runs pb F W) (c : RpcClient F W) (calls : List (NullCall pb)) (answers : List Answer)
      → ((session : ℕ) → IsOf session calls → IsKept c session)
      → AreOf answers calls
      → answer_all pb run c answers ≡ some c
  unfolding answer_all rpc_event_client
  answered_kept run c calls [] each of = refl
  answered_kept run c calls (a ∷ answers) each (first, of) =
      let kept = each a.session first in
      rw (kept, rpc_event_client) (answered_kept run c calls answers each of)

  -- A client makes any calls with RPC_NULL_FUNC, and any answers to them come, in any order: each call leaves its session in the
  -- table, and the answers change nothing, so that the entries pile up.
  pub null_calls_pile_up :
      (run : Runs pb F W) (c : RpcClient F W) (calls : List (NullCall pb)) (answers : List Answer)
      → AreOf answers calls
      → (answer_all pb run (call_all pb (rpc_init_client c) calls) answers
          ≡ some (call_all pb (rpc_init_client c) calls))
        × AreKept (call_all pb (rpc_init_client c) calls) calls
  unfolding rpc_init_client
  null_calls_pile_up run c calls answers of =
      let each : (session : ℕ)
          → IsOf session calls
          → IsKept (call_all pb (rpc_init_client c) calls) session =
        λ session is. call_all-IsKept calls (rpc_init_client c) session refl (inl is) in
      let after : RpcClient F W = call_all pb (rpc_init_client c) calls in
      (answered_kept run after calls answers each of, all-AreKept after calls each)
