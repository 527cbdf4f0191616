-- ===== src/Cluster/Lookup/Tests.antt =====
-- Two lookups of a name, with a "namechange" between them, while clusterd is asked.
use testcluster.Prelude.{◌+◌, ◌≡◌, none, some, [], ◌∷◌}
use testcluster.Cluster.Lookup.{
  Lookup, Query, Agent, no_lookups, look_up, answered, name_change, look, change, Reach, here, next,
}
use testcluster.Cluster.Lookup.Answered.{
  count, count_found, count_lookups, count_query, lookups_return_once,
}

abbrev asking : Query
asking = record { asker = record { co = 1; self = 0 }; waitco = [] }

-- Coroutine 1 has asked, and the table is a new one.
abbrev renewed : Agent
renewed = record {
  register_name = 1;
  tables = λ self. none;
  inquery_name = some asking;
  woken = [];
  found = [];
}

renewed-Reach : Reach no_lookups (1 ∷ []) renewed
unfolding look_up name_change
renewed-Reach = next (next here (look 1)) change

lookups_return_once_example :
    count_found 1 renewed.found + count_lookups 1 renewed.woken + count_query 1 renewed.inquery_name
    ≡ count 1 (1 ∷ [])
lookups_return_once_example = lookups_return_once renewed-Reach 1

-- Coroutine 2 looks in the new table, and waits for the query of coroutine 1.
abbrev second : Lookup
second = record { co = 2; self = 1 }

abbrev asking_both : Query
asking_both = record asking { waitco = second ∷ [] }

abbrev told : Agent
told = answered (look_up renewed 2) asking_both (some 9)
