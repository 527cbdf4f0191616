-- ===== src/Cluster/Lookup/Renewed.antt =====
-- A lookup in a new table waits for a query that was made for an old one (lua/BeeCluster/bee_clusteragent.lua).
use testcluster.Prelude.{ℕ, ◌≡◌, none, some, List, [], ◌∷◌, ◌++◌}
use testcluster.Cluster.Lookup.{Lookup, Query, Agent, look_up, resume, name_change}

-- What can happen before clusterd answers again: lookups start, the table is replaced, coroutines that were woken run.
pub data Unanswered (s : Agent) : Agent → Type 0 where
  rests : Unanswered s s
  looks : {t : Agent} → Unanswered s t → (co : ℕ) → Unanswered s (look_up t co)
  changes : {t : Agent} → Unanswered s t → Unanswered s (name_change t)
  runs :
      {t : Agent}
      → Unanswered s t
      → (before after : List Lookup) (lookup : Lookup) → t.woken ≡ before ++ lookup ∷ after
      → Unanswered s (resume t (before ++ after) lookup)

module _ (s : Agent) (q : Query) (co : ℕ) (addr : ℕ) (asks : s.inquery_name ≡ some q)
    (unknown : s.tables s.register_name ≡ none) where
  abbrev pub lookup : Lookup
  lookup = record { co = co; self = s.register_name }

  abbrev pub longer : Query
  longer = record q { waitco = q.waitco ++ lookup ∷ [] }

  abbrev waits : Agent
  waits = record s { inquery_name = some longer }
