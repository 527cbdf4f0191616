-- ===== src/Cluster/Names.antt =====
-- The names of a node's services: command.register, command.unregister and command.queryname of
-- lua/BeeCluster/bee_clusterd.lua.
pub mod Paired
pub mod Cache
pub mod Coherence
pub mod Stale
mod Tests
use testcluster.Prelude.{
  ℕ, ◌≡◌, Bool, true, false, Option, none, some, [], ◌∷◌, ◌==◌, if◌then◌else◌,
}
use testcluster.Pack.Order.{Bytes}
use testcluster.Service.Table.{same_name}

-- register_name, whose keys are names and addresses, as two maps.
pub record Names : Type 0 where
  pub by_name : Bytes → Option ℕ
  pub by_addr : ℕ → Option Bytes

abbrev pub no_names : Names
no_names = record { by_name = λ name. none; by_addr = λ addr. none }

abbrev pub set_name : (Bytes → Option ℕ) → Bytes → Option ℕ → Bytes → Option ℕ
set_name f name addr n = if same_name name n then addr else f n

abbrev pub set_addr : (ℕ → Option Bytes) → ℕ → Option Bytes → ℕ → Option Bytes
set_addr f addr name a = if addr == a then name else f a

-- The name that an address had is dropped, and the agents are told so (the Bool: is clearnamecache called).
unfoldable pub drop_old_name : Names → Option Bytes → Names × Bool
drop_old_name names none = (names, false)
drop_old_name names (some old_name) =
    (record names { by_name = set_name names.by_name old_name none }, true)

unfoldable pub add_name : Names × Bool → Bytes → ℕ → Names × Bool
add_name (names, cleared) name addr = (
  record {
    by_name = set_name names.by_name name (some addr);
    by_addr = set_addr names.by_addr addr (some name);
  },
  cleared,
)

-- A name that is taken fails the assertion: none.
unfoldable pub register : Names → Bytes → ℕ → Option (Names × Bool)
unfolding drop_old_name add_name
register names name addr = elim (names.by_name name) [
  | none ↦ some (add_name (drop_old_name names (names.by_addr addr)) name addr)
  | some taken ↦ none
]

unfoldable pub unregister : Names → Bytes → Names × Bool
unregister names name = elim (names.by_name name) [
  | none ↦ (names, false)
  | some addr ↦ (
    record {
      by_name = set_name names.by_name name none;
      by_addr = set_addr names.by_addr addr none;
    },
    true,
  )
]

unfoldable pub queryname : Names → Bytes → Option ℕ
queryname names name = names.by_name name
