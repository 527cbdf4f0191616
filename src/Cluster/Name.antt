-- ===== src/Cluster/Name.antt =====
-- lisname and lnodename of cpp/beecluster/lua-beecluster.c.
pub mod Clean
use testcluster.Prelude.{
  ℕ, Bool, true, false, ◌||◌, Option, none, some, List, [], ◌∷◌, ◌++◌, leb, ◌==◌, if◌then◌else◌,
}
use testcluster.Cluster.Wire.{Bytes}
use testcluster.Cluster.Lua.{Value, boolean, string, LuaApi, M, pure, arg}

-- name[0] == '@'; an empty C string begins with its terminator.
unfoldable pub starts_with_at : Bytes → Bool
starts_with_at [] = false
starts_with_at (c ∷ rest) = c == b'@'

unfoldable pub lisname : LuaApi → List Value → M (List Value)
unfolding starts_with_at
lisname lua args = elim (lua.to_lstring (arg args 1)) [
  | none ↦ pure []
  | some name ↦ if starts_with_at name then pure (boolean true ∷ []) else pure []
]

-- The loop over `hostname`, up to the terminator: spaces and control characters become `_`, and so
-- does a byte from 128 on, which a signed `char` holds as a negative number.
unfoldable pub clean_hostname : Bytes → Bytes
clean_hostname [] = []
clean_hostname (c ∷ rest) = (if leb c b' ' || leb 128 c then b'_' else c) ∷ clean_hostname rest

-- `hostname` is what gethostname wrote, if it succeeded, and `pid` the digits of getpid().
unfoldable pub lnodename : Option Bytes → Bytes → M (List Value)
unfolding clean_hostname
lnodename none pid = pure (string (b'n' ∷ b'o' ∷ b'n' ∷ b'a' ∷ b'm' ∷ b'e' ∷ pid) ∷ [])
lnodename (some hostname) pid = pure (string (clean_hostname hostname ++ pid) ∷ [])
