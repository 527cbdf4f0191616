-- ===== src/Cluster/Names/Cache.antt =====
-- The names that an agent remembers (register_name of lua/BeeCluster/bee_clusteragent.lua), and the messages between it and
-- clusterd (bee_clusterd.lua), as steps in any order.
use testcluster.Prelude.{
  ℕ, ◌+◌, ◌≡◌, Bool, true, false, Option, none, some, List, [], ◌∷◌, ◌++◌, ◌==◌, if◌then◌else◌,
}
use testcluster.Pack.Order.{Bytes}
use testcluster.Cluster.Names.{Names, set_name, queryname}
use testcluster.Cluster.Names.Paired.{Command, run}

-- What clusterd sends to the agent: "namechange", and the answer to a query, which knows for which table it was made.
pub data Message : Type 0 where
  namechange : Message
  answer : (table : ℕ) (name : Bytes) (addr : Option ℕ) → Message

-- cluster_agent[fd] is the agent once the agent has started (`listed`), till then false. The agent's tables are numbered, of which
-- the last, `table`, is register_name; `queries` are on their way to clusterd, the inbox is what clusterd has sent.
pub record System : Type 0 where
  pub names : Names
  pub listed : Bool
  pub table : ℕ
  pub cache : Bytes → Option ℕ
  pub queries : List (ℕ × Bytes)
  pub inbox : List Message

abbrev pub nothing_cached : Bytes → Option ℕ
nothing_cached name = none

-- clearnamecache
unfoldable pub clear_name_cache : System → System
clear_name_cache s = if s.listed then record s { inbox = s.inbox ++ namechange ∷ [] } else s

-- A command of clusterd, and the messages of clearnamecache if it is called.
unfoldable pub commanded : System → Names × Bool → System
unfolding clear_name_cache
commanded s (names, true) = clear_name_cache (record s { names = names })
commanded s (names, false) = record s { names = names }

-- What the agent does with a message. A query's answer is written to the table that asked: `self`.
unfoldable pub receive : System → Message → System
receive s namechange = record s { table = s.table + 1; cache = nothing_cached }
receive s (answer table name none) = s
receive s (answer table name (some addr)) =
    if table == s.table then record s { cache = set_name s.cache name (some addr) } else s

pub data Step (s : System) : System → Type 0 where
  command : (c : Command) → Step s (commanded s (run s.names c))
  -- The agent has no address for a name.
  ask :
      (name : Bytes)
      → s.cache name ≡ none
      → Step s (record s { queries = s.queries ++ (s.table, name) ∷ [] })
  -- command.queryname
  reply :
      (table : ℕ) (name : Bytes) (rest : List (ℕ × Bytes))
      → s.queries ≡ (table, name) ∷ rest
      → Step s (record s {
        queries = rest;
        inbox = s.inbox ++ answer table name (queryname s.names name) ∷ [];
      })
  take_message :
      (message : Message) (rest : List Message)
      → s.inbox ≡ message ∷ rest
      → Step s (receive (record s { inbox = rest }) message)
  -- skynet.newservice returns, and cluster_agent[fd] = agent.
  list_agent : Step s (record s { listed = true })

pub data Reach (s : System) : System → Type 0 where
  here : Reach s s
  next : {t u : System} → Reach s t → Step t u → Reach s u

-- An agent that has asked for nothing.
abbrev pub new_agent : Names → Bool → System
new_agent names listed = record {
  names = names;
  listed = listed;
  table = 0;
  cache = nothing_cached;
  queries = [];
  inbox = [];
}
