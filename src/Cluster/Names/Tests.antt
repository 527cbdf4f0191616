-- ===== src/Cluster/Names/Tests.antt =====
-- Names of a node (lua/BeeCluster/bee_clusterd.lua, bee_clusteragent.lua) at concrete ones.
use testcluster.Prelude.{
  ◌≡◌, ◌↔◌, ◌⊎◌, refl, true, false, none, some, List, [], ◌∷◌, ◌==◌, if◌then◌else◌,
}
use testcluster.Pack.Order.{Bytes}
use testcluster.Service.Table.{same_name}
use testcluster.Cluster.Names.{
  Names, no_names, queryname, register, unregister, drop_old_name, add_name,
}
use testcluster.Cluster.Names.Paired.{
  Command, registers, unregisters, run, run_all, names_stay_paired,
}
use testcluster.Cluster.Names.Cache.{
  System, answer, Step, ask, reply, take_message, receive, Reach, here, next, new_agent,
}
use testcluster.Cluster.Names.Coherence.{has_change, cache_coherent}
use testcluster.Cluster.Names.Stale.{stale_name}

abbrev shop : Bytes
shop = b's' ∷ []

abbrev mall : Bytes
mall = b'm' ∷ []

abbrev commands : List Command
commands = registers shop 7 ∷ registers mall 7 ∷ registers mall 8 ∷ unregisters shop ∷ []

renamed_run : queryname (run_all no_names commands) mall ≡ some 7
unfolding queryname run_all run register unregister drop_old_name add_name same_name
renamed_run = refl

names_stay_paired_example :
    (queryname (run_all no_names commands) mall ≡ some 7)
    ↔ ((run_all no_names commands).by_addr 7 ≡ some mall)
names_stay_paired_example = names_stay_paired commands mall 7

abbrev names : Names
names = record {
  by_name = λ n. if same_name shop n then some 7 else none;
  by_addr = λ a. if a == 7 then some shop else none;
}

-- An agent asks for the name and takes the answer.
abbrev asking : System
asking = record (new_agent names true) { queries = (0, shop) ∷ [] }

abbrev told : System
told = record (new_agent names true) { inbox = answer 0 shop (queryname names shop) ∷ [] }

abbrev informed : System
informed = receive (new_agent names true) (answer 0 shop (queryname names shop))

asks : Step (new_agent names true) asking
asks = ask shop refl

replies : Step asking told
replies = reply 0 shop [] refl

takes : Step told informed
takes = take_message (answer 0 shop (queryname names shop)) [] refl

cache_coherent_example :
    (queryname informed.names shop ≡ some 7) ⊎ (has_change informed.inbox ≡ true)
unfolding receive queryname same_name
cache_coherent_example =
    cache_coherent names informed (next (next (next here asks) replies) takes) shop 7 refl

stale_name_example :
    (s : System) × Reach (new_agent names false) s
    × (s.listed ≡ true)
    × (s.queries ≡ [])
    × (s.inbox ≡ [])
    × (s.cache shop ≡ some 7)
    × (queryname s.names shop ≡ none)
unfolding queryname same_name
stale_name_example = stale_name names shop 7 refl
