-- ===== src/Cluster/Connection.antt =====
-- command.socket of lua/BeeCluster/bee_clusterd.lua: the agent of one connection, which is started and told to exit while the
-- connection opens and closes.
pub mod Follows
mod Tests
use testcluster.Prelude.{
  ℕ, ◌≡◌, Bool, true, false, Option, none, some, List, [], ◌∷◌, ◌++◌, ◌==◌, if◌then◌else◌,
}

-- cluster_agent[fd]: false or true while the agent is started, then the agent; nil is the entry that is not there.
pub data Entry : Type 0 where
  boolean : Bool → Entry
  service : (agent : ℕ) → Entry

-- `connected`: is the socket open? `launching`: does skynet.newservice run for it? `agents` are the agents that have been started
-- and not been told to exit.
pub record State : Type 0 where
  pub connected : Bool
  pub launching : Bool
  pub cluster_agent : Option Entry
  pub agents : List ℕ

abbrev pub no_connection : State
no_connection = record { connected = false; launching = false; cluster_agent = none; agents = [] }

unfoldable pub without : ℕ → List ℕ → List ℕ
without agent [] = []
without agent (a ∷ agents) =
    let rest = without agent agents in if agent == a then rest else a ∷ rest

-- The entry is removed, and the agent told to exit.
unfoldable pub exit_agent : State → ℕ → State
unfolding without
exit_agent s agent = record s { cluster_agent = none; agents = without agent s.agents }

-- "open", up to skynet.newservice.
unfoldable pub open_socket : State → State
open_socket s = record s {
  connected = true;
  launching = true;
  cluster_agent = some (boolean false);
}

-- Is the entry true in Lua?
unfoldable pub is_closed : Option Entry → Bool
is_closed none = false
is_closed (some (boolean closed)) = closed
is_closed (some (service agent)) = true

-- skynet.newservice returns.
unfoldable pub launched : State → ℕ → State
unfolding exit_agent is_closed
launched s agent =
    let t : State = record s {
      launching = false;
      cluster_agent = some (service agent);
      agents = s.agents ++ agent ∷ [];
    } in
    if is_closed s.cluster_agent then exit_agent t agent else t

-- "close" or "error", by the entry.
unfoldable pub close_by : State → Option Entry → State
unfolding exit_agent
close_by s none = s
close_by s (some (boolean closed)) = record s { cluster_agent = some (boolean true) }
close_by s (some (service agent)) = exit_agent s agent

unfoldable pub close_socket : State → State
unfolding close_by
close_socket s = close_by (record s { connected = false }) s.cluster_agent

-- The messages of the gate about the socket, and the return of skynet.newservice. A socket is opened when the last one
-- of that number is closed, and the agent of that one has been started.
pub data Step (s : State) : State → Type 0 where
  opens : s.connected ≡ false → s.launching ≡ false → Step s (open_socket s)
  launches : (agent : ℕ) → s.launching ≡ true → Step s (launched s agent)
  closes : Step s (close_socket s)

pub data Reach (s : State) : State → Type 0 where
  here : Reach s s
  next : {t u : State} → Reach s t → Step t u → Reach s u
